-- ===== src/Extcap/Records.antt =====
-- The pcap records that a capture is to write, by the time and the data of each packet, and that those
-- of tools/ovextcap/main.c are these.
use libopenvizsla.Prelude.{
  ℕ, ◌+◌, ◌-◌, ◌*◌, ◌/◌, ◌%◌, ◌^◌, ◌<◌, ◌≡◌, refl, ap, ◌∙◌, ltb, if◌then◌else◌, Bool-cases, inl,
  inr, List, [], ◌∷◌, ◌++◌, map, Bytes, take, arith,
}
use libopenvizsla.Decoder.State.{Packet, captured_size, has_flag}
use libopenvizsla.Extcap.Pcap.{Host, pcap_record}
use libopenvizsla.Extcap.Filter.{HandlerData}
use libopenvizsla.Extcap.Handler.{advance_clock, nanoseconds, pcap_packet}
use libopenvizsla.Extcap.Callback.{clock_of, captures}

-- A time: seconds, and clocks of 60 MHz behind them, at a value of the device's 64-bit counter.
pub record Time : Type 0 where
  pub sec : ℕ
  pub clocks : ℕ
  pub counter : ℕ

-- The time at the next value of the counter.
abbrev pub at : ℕ → Time → Time
at counter t =
    let clocks = (t.clocks + (counter + 2 ^ 64 - t.counter) % 2 ^ 64) % 2 ^ 64 in
    record { sec = t.sec + clocks / 60_000_000; clocks = clocks % 60_000_000; counter = counter }

-- 1027 bytes of a truncated packet are captured.
abbrev pub kept_of : Packet → ℕ
kept_of p = if has_flag p.flags 0x08 then 1027 else p.size

module _ (host : Host) where
  open host use {File, uint32_bytes}

  -- A record: seconds, nanoseconds rounded up, the length of the data, and the packet's size.
  abbrev pub record_at : Time → ℕ → ℕ → Bytes → Bytes
  record_at t len size data_bytes =
      uint32_bytes (t.sec % 2 ^ 32)
      ++ (uint32_bytes ((50 * t.clocks + 2) / 3)
          ++ (uint32_bytes len ++ (uint32_bytes size ++ take len data_bytes)))

  -- One record for each packet whose size is not 0, from the time `t` on.
  abbrev pub records_from : Time → List Packet → List Bytes
  records_from t [] = []
  records_from t (p ∷ ps) =
      let now = at p.timestamp t in
      let rest = records_from now ps in
      if ltb 0 p.size then record_at now (kept_of p) p.size p.bytes ∷ rest else rest

  -- The handler's clock is at the time.
  abbrev pub IsAt : Time → HandlerData File → Type 0
  IsAt t k = (k.utc_ts ≡ t.sec % 2 ^ 32) × (k.ts_offset ≡ t.clocks) × (k.last_ov_ts ≡ t.counter)

  advance_clock-IsAt :
      (ts : ℕ) (t : Time) (k : HandlerData File) → IsAt t k → IsAt (at ts t) (advance_clock ts k)
  unfolding advance_clock
  advance_clock-IsAt ts t k (u, o, l) = rw (u, o, l) (omega arith, refl, refl)

  nanoseconds_lem : (n : ℕ) → n < 60_000_000 → nanoseconds n ≡ (50 * n + 2) / 3
  unfolding nanoseconds
  nanoseconds_lem n h = omega arith

  packet-record :
      (p : Packet) (t : Time) (k : HandlerData File)
      → IsAt t k
      → t.clocks < 60_000_000
      → pcap_record host (pcap_packet host p k) ≡ record_at t (kept_of p) p.size p.bytes
  unfolding captured_size
  packet-record p t k (u, o, l) small = rw (u, o, nanoseconds_lem t.clocks small) refl

  -- The records of the packets are those from the handler's time on.
  pub captures-records :
      (ps : List Packet) (t : Time) (k : HandlerData File)
      → IsAt t k
      → map (pcap_record host) (captures host ps k) ≡ records_from t ps
  unfolding captures
  captures-records [] t k h = refl
  captures-records (p ∷ ps) t k h =
      let now = at p.timestamp t in
      let k1 = advance_clock p.timestamp k in
      let h1 = advance_clock-IsAt p.timestamp t k h in
      let rest = captures-records ps now (clock_of host k1) h1 in
      let one = packet-record p now (clock_of host k1) h1 (omega arith) in
      elim (Bool-cases (ltb 0 p.size)) [
        | inl full ↦ rw full (
            ap (λ r. r ∷ map (pcap_record host) (captures host ps (clock_of host k1))) one
            ∙ ap (λ rs. record_at now (kept_of p) p.size p.bytes ∷ rs) rest)
        | inr empty ↦ rw empty rest
      ]
