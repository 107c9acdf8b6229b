-- ===== src/Extcap/Sending.antt =====
-- The pcap records of packets that are sent on the wire, by what was sent.
use mathlib.Core.Path.{subst}
use libopenvizsla.Prelude.{
  ℕ, ◌+◌, ◌-◌, ◌*◌, ◌/◌, ◌%◌, ◌^◌, ◌<◌, ◌≤◌, ◌≡◌, refl, sym, ap, ◌∙◌, ltb, if◌then◌else◌, Bool,
  true, false, List, [], ◌∷◌, ◌++◌, Bytes, length, take, overlay, arith,
}
use libopenvizsla.Decoder.State.{PacketDecoder}
use libopenvizsla.Decoder.Bytewise.Memory.{length-overlay_at}
use libopenvizsla.Decoder.Wire.{Sent, IsSent}
use libopenvizsla.Decoder.Wire.Receive.{received}
use libopenvizsla.Decoder.Wire.Stream.{AreSent}
use libopenvizsla.Loop.State.{Control}
use libopenvizsla.Loop.Delivery.{packets_of}
use libopenvizsla.Extcap.Pcap.{Host}
use libopenvizsla.Extcap.Records.{Time, at, record_at, kept_of, records_from}

-- The time that the packets take.
abbrev pub total_ticks : List Sent → ℕ
total_ticks [] = 0
total_ticks (s ∷ ss) = s.ticks + total_ticks ss

-- A capture's clock: at the counter's value `since` it was `base` clocks behind the second `sec`.
pub record Origin : Type 0 where
  pub sec : ℕ
  pub base : ℕ
  pub since : ℕ

module _ (host : Host) (o : Origin) where
  open host use {uint32_bytes}

  -- The record of a packet that is sent, with the counter at `now`.
  abbrev pub sent_record : ℕ → Sent → Bytes
  sent_record now s =
      let clocks = o.base + (now - o.since) in
      uint32_bytes ((o.sec + clocks / 60_000_000) % 2 ^ 32)
      ++ (uint32_bytes ((50 * (clocks % 60_000_000) + 2) / 3)
          ++ (uint32_bytes (length s.payload) ++ (uint32_bytes s.size ++ s.payload)))

  -- One record for each packet whose size is not 0; the counter begins at `counter`.
  abbrev pub sent_records : ℕ → List Sent → List Bytes
  sent_records counter [] = []
  sent_records counter (s ∷ ss) =
      let now = counter + s.ticks in
      let rest = sent_records now ss in if ltb 0 s.size then sent_record now s ∷ rest else rest

take-overlay :
    (dst src : Bytes) → length src ≤ length dst → take (length src) (overlay dst src) ≡ src
take-overlay dst [] h = refl
take-overlay [] (x ∷ src) h = absurd (omega arith)
take-overlay (y ∷ dst) (x ∷ src) h = ap (λ t. x ∷ t) (take-overlay dst src (omega arith))

kept_if :
    (b : Bool) {r r' : Bytes} {rs rs' : List Bytes}
    → r ≡ r'
    → rs ≡ rs'
    → (if b then r ∷ rs else rs) ≡ (if b then r' ∷ rs' else rs')
kept_if true h k = rw (h, k) refl
kept_if false h k = k

module _ (o : Origin) where
  -- The time `t` is the origin's at the counter's value that it has.
  abbrev pub IsOf : Time → Type 0
  IsOf t =
      (o.since ≤ t.counter)
      × (t.sec ≡ o.sec + (o.base + (t.counter - o.since)) / 60_000_000)
      × (t.clocks ≡ (o.base + (t.counter - o.since)) % 60_000_000)

  at-IsOf : (now : ℕ) (t : Time) → IsOf t → t.counter ≤ now → now < 2 ^ 63 → IsOf (at now t)
  at-IsOf now t h le small =
      (omega (arith, h.0), omega (arith, h.0, h.1, h.2), omega (arith, h.0, h.2))

module _ (host : Host) (o : Origin) {V : Type 0} where
  open host use {uint32_bytes}

  kept-payload :
      (pd : PacketDecoder (Control V)) (s : Sent)
      → IsSent s
      → kept_of (received pd s).packet ≡ length s.payload
  kept-payload pd s h = sym h.payload_is

  one-record :
      (pd : PacketDecoder (Control V)) (s : Sent) (t : Time)
      → IsSent s
      → length s.payload ≤ length pd.packet.bytes
      → IsOf o t
      → record_at host t (kept_of (received pd s).packet) s.size (received pd s).packet.bytes
        ≡ sent_record host o t.counter s
  one-record pd s t v room h =
      rw (kept-payload pd s v, take-overlay pd.packet.bytes s.payload room, h.1, h.2) refl

  -- The records of the packets that the decoder makes of what is sent.
  pub packets_of-records :
      (pd : PacketDecoder (Control V)) (ss : List Sent) (t : Time)
      → IsOf o t
      → t.counter ≤ pd.cumulative_ts
      → pd.cumulative_ts + total_ticks ss < 2 ^ 63
      → AreSent (length pd.packet.bytes) ss
      → records_from host t (packets_of pd ss) ≡ sent_records host o pd.cumulative_ts ss
  packets_of-records pd [] t h le small v = refl
  packets_of-records pd (s ∷ ss) t h le small v =
      let now = pd.cumulative_ts + s.ticks in
      let whole : now % 2 ^ 64 ≡ now = omega arith in
      let wrapped = now % 2 ^ 64 in
      let h1 : IsOf o (at wrapped t) = at-IsOf o wrapped t h (omega arith) (omega arith) in
      let v1 =
        subst (λ n. AreSent n ss) (sym (length-overlay_at pd.packet.bytes 0 s.payload)) v.2 in
      let rest =
        packets_of-records (received pd s) ss (at wrapped t) h1 (omega arith) (omega arith) v1 in
      kept_if (ltb 0 s.size)
        (one-record pd s (at wrapped t) v.0 v.1 h1 ∙ ap (λ n. sent_record host o n s) whole)
        (rest ∙ ap (λ n. sent_records host o n ss) whole)
