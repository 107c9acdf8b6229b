-- ===== src/Decoder/Wire/Stamp.antt =====
-- The bytes of a timestamp, as `packet_decoder_proc` reads them.
use libopenvizsla.Prelude.{
  ℕ, zero, suc, ◌+◌, ◌*◌, ◌/◌, ◌%◌, ◌^◌, ◌≤◌, ◌<◌, ◌≡◌, ap, ◌∙◌, ◌++◌, Bytes, arith, bit_or,
  bit_or-shift,
}
use native.Mathlib.Numerals.{towards_suc}
use libopenvizsla.Decoder.State.{
  PacketDecoder, need_packet_timestamp, need_packet_data, Step, advance, resume,
}
use libopenvizsla.Decoder.Packet.{packet_step_in, packet_step, packet_loop}
use libopenvizsla.Decoder.Wire.{little_endian}

-- 2 ^ (8 * (i + 1))
next_place : (i : ℕ) → 2 ^ (8 * (i + 1)) ≡ 256 * 2 ^ (8 * i)
next_place i = ap (λ k. 2 ^ k) (omega arith) ∙ eight (8 * i)
  where
    eight : (k : ℕ) → 2 ^ (k + 8) ≡ 256 * 2 ^ k
    eight k = simp towards_suc (omega arith)

next_place_suc : (i : ℕ) → 2 ^ (8 * suc i) ≡ 256 * 2 ^ (8 * i)
next_place_suc i = ap (λ k. 2 ^ k) (omega arith) ∙ next_place i

place-le : (i : ℕ) → i < 8 → 2 ^ (8 * i) ≤ 2 ^ 56
place-le zero h = omega arith
place-le (suc zero) h = omega arith
place-le (suc (suc zero)) h = omega arith
place-le (suc (suc (suc zero))) h = omega arith
place-le (suc (suc (suc (suc zero)))) h = omega arith
place-le (suc (suc (suc (suc (suc zero))))) h = omega arith
place-le (suc (suc (suc (suc (suc (suc zero)))))) h = omega arith
place-le (suc (suc (suc (suc (suc (suc (suc zero))))))) h = omega arith
place-le (suc (suc (suc (suc (suc (suc (suc (suc i)))))))) h = absurd (omega arith)

scaled : (p b : ℕ) → b < 256 → b * p ≤ 255 * p
scaled p b h = grind arith

-- One more byte goes above those that are there.
place_byte :
    (i ts b : ℕ)
    → i < 8
    → ts < 2 ^ (8 * i)
    → b < 256
    → (bit_or ts ((b * 2 ^ (8 * i)) % 2 ^ 64) ≡ ts + b * 2 ^ (8 * i))
      × (ts + b * 2 ^ (8 * i) < 2 ^ (8 * (i + 1)))
place_byte i ts b hi ht hb =
    let room : b * 2 ^ (8 * i) ≤ 255 * 2 ^ (8 * i) = scaled (2 ^ (8 * i)) b hb in
    let whole : (b * 2 ^ (8 * i)) % 2 ^ 64 ≡ b * 2 ^ (8 * i) = omega (arith, place-le i hi) in
    (ap (bit_or ts) whole ∙ bit_or-shift (8 * i) ts b ht, omega (arith, next_place i))

split_byte : (x p : ℕ) → (x % 256) * p + (x / 256) * (256 * p) ≡ x * p
split_byte x p =
    let e : x % 256 + 256 * (x / 256) ≡ x = omega arith in omega (arith, ap (λ (t : ℕ). t * p) e)

-- Fuel for `n` rounds more.
abbrev pub more : ℕ → ℕ → ℕ
more zero f = f
more (suc n) f = suc (more n f)

module _ {U : Type 0} where
  abbrev pub stamped : PacketDecoder U → ℕ → PacketDecoder U
  stamped pd x =
      let total = (pd.cumulative_ts + (pd.packet.timestamp + x * 2 ^ (8 * pd.ts_byte))) % 2 ^ 64 in
      record pd {
        packet = record (pd.packet) { timestamp = total };
        cumulative_ts = total;
        ts_byte = pd.ts_length;
        state = need_packet_data;
      }

  abbrev stamping : PacketDecoder U → ℕ → PacketDecoder U
  stamping pd ts = record pd {
    packet = record (pd.packet) { timestamp = ts };
    ts_byte = pd.ts_byte + 1;
  }

  stamped-stamping :
      (pd : PacketDecoder U) (x : ℕ)
      → stamped (stamping pd (pd.packet.timestamp + x % 256 * 2 ^ (8 * pd.ts_byte))) (x / 256)
        ≡ stamped pd x
  stamped-stamping pd x = ground (
    arith,
    split_byte x (2 ^ (8 * pd.ts_byte)),
    next_place pd.ts_byte,
    ap (λ (t : ℕ). x / 256 * t) (next_place pd.ts_byte),
  )

  abbrev packet_loop_at : ℕ → Bytes → PacketDecoder U → Step (PacketDecoder U)
  packet_loop_at fuel rest pd = packet_loop fuel pd rest

  -- A byte that is not the last one, and one that is.
  stamp_step :
      (pd : PacketDecoder U) (b : ℕ) (bs : Bytes)
      → pd.state ≡ need_packet_timestamp
      → pd.ts_byte + 1 < pd.ts_length
      → packet_step pd b bs
        ≡ advance
            (record pd {
              packet = record (pd.packet) {
                timestamp = bit_or pd.packet.timestamp ((b * 2 ^ (8 * pd.ts_byte)) % 2 ^ 64);
              };
              ts_byte = pd.ts_byte + 1;
            })
            bs
  unfolding packet_step_in
  stamp_step pd b bs e h = ground arith

  last_step :
      (pd : PacketDecoder U) (b : ℕ) (bs : Bytes)
      → pd.state ≡ need_packet_timestamp
      → pd.ts_byte + 1 ≡ pd.ts_length
      → pd.ts_length ≤ 8
      → b < 256
      → pd.packet.timestamp < 2 ^ (8 * pd.ts_byte)
      → packet_step pd b bs ≡ advance (stamped pd b) bs
  unfolding packet_step_in
  last_step pd b bs e h l k t = ground (arith, place_byte pd.ts_byte pd.packet.timestamp b)

  pub stamp_loop :
      (n fuel : ℕ) (pd : PacketDecoder U) (x : ℕ) (rest : Bytes)
      → pd.state ≡ need_packet_timestamp
      → pd.ts_byte + suc n ≡ pd.ts_length
      → pd.ts_length ≤ 8
      → pd.packet.timestamp < 2 ^ (8 * pd.ts_byte)
      → x < 2 ^ (8 * suc n)
      → packet_loop (more (suc n) fuel) pd (little_endian (suc n) x ++ rest)
        ≡ packet_loop fuel (stamped pd x) rest
  unfolding packet_loop
  stamp_loop zero fuel pd x rest e h l t k =
      let small : x % 256 ≡ x = omega arith in
      ap (resume (packet_loop fuel)) (
        last_step pd (x % 256) rest e h l (omega arith) t
        ∙ ap (λ b. advance (stamped pd b) rest) small)
  stamp_loop (suc n) fuel pd x rest e h l t k =
      let placed =
        place_byte pd.ts_byte pd.packet.timestamp (x % 256) (omega arith) t (omega arith) in
      ap (resume (packet_loop (more (suc n) fuel))) (
        stamp_step pd (x % 256) (little_endian (suc n) (x / 256) ++ rest) e (omega arith)
        ∙ ap (λ ts. advance (stamping pd ts) (little_endian (suc n) (x / 256) ++ rest)) placed.0)
      ∙ stamp_loop n fuel (stamping pd (pd.packet.timestamp + x % 256 * 2 ^ (8 * pd.ts_byte)))
          (x / 256) rest e (omega arith) l placed.1 (omega (arith, next_place_suc (suc n)))
      ∙ ap (packet_loop_at fuel rest) (stamped-stamping pd x)
