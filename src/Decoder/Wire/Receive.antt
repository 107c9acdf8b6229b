-- ===== src/Decoder/Wire/Receive.antt =====
-- `packet_decoder_proc` on a packet as it is sent.
use libopenvizsla.Prelude.{
  ℕ, zero, suc, ◌+◌, ◌-◌, ◌*◌, ◌/◌, ◌%◌, ◌^◌, ◌≤◌, ◌<◌, ◌≡◌, refl, ap, ◌∙◌, [], ◌∷◌, ◌++◌, Bytes,
  length, arith, bit_or, bit_and, shift-bit_or, bit_and_length, overlay_at, memcpy,
  take-length_append, drop-length_append, length-append, append_assoc,
}
use mathlib.Core.Path.{subst}
use libopenvizsla.Decoder.State.{
  PacketDecoder, Packet, captured_size, need_packet_magic, need_packet_timestamp, need_packet_data,
  finished, resume, done, returned,
}
use libopenvizsla.Decoder.Packet.{
  packet_step_in, packet_step, packet_loop, call_packet, packet_decoder_proc, finalize,
}
use libopenvizsla.Decoder.Valid.{IsValid}
use libopenvizsla.Decoder.Wire.{Sent, IsSent, encode, little_endian}
use libopenvizsla.Decoder.Wire.Stamp.{more, stamped, stamp_loop}

pub more-add : (n f : ℕ) → more n f ≡ n + f
more-add zero f = omega arith
more-add (suc n) f = omega (arith, more-add n f)

length-little_endian : (n x : ℕ) → length (little_endian n x) ≡ n
length-little_endian zero x = refl
length-little_endian (suc n) x = ap suc (length-little_endian n (x / 256))

-- The two length bytes hold the size and the timestamp's length.
length_fields :
    (s : Sent)
    → IsSent s
    → (bit_or (bit_and (s.size / 256 + 32 * (s.ts_length - 1)) 0x1f * 2 ^ 8) (s.size % 256 % 2 ^ 16)
          % 2 ^ 16
        ≡ s.size)
      × (bit_and (s.size / 256 + 32 * (s.ts_length - 1)) 0xe0 / 2 ^ 5 + 1 ≡ s.ts_length)
length_fields s v = ground (
  arith,
  bit_and_length (s.size / 256 + 32 * (s.ts_length - 1)),
  shift-bit_or 8 (s.size % 256) (s.size / 256),
)

pub length-encode :
    (s : Sent) (rest : Bytes)
    → length (encode s ++ rest) ≡ 4 + s.ts_length + length s.payload + length rest
length-encode s rest = omega (
  arith,
  length-append (encode s) rest,
  length-append (little_endian s.ts_length s.ticks) s.payload,
  length-little_endian s.ts_length s.ticks,
)

module _ {U : Type 0} where
  -- The header's fields are in the packet, and no byte of the timestamp has been read.
  abbrev headed : PacketDecoder U → Sent → PacketDecoder U
  headed pd s = record pd {
    packet = record (pd.packet) { magic = s.magic; flags = s.flags; size = s.size; timestamp = 0 };
    ts_length = s.ts_length;
    ts_byte = 0;
    state = need_packet_timestamp;
  }

  header_loop :
      (fuel : ℕ) (pd : PacketDecoder U) (s : Sent) (rest : Bytes)
      → pd.state ≡ need_packet_magic
      → IsValid pd
      → IsSent s
      → packet_loop
          (more 4 fuel)
          pd
          (s.magic ∷ s.flags ∷ s.size % 256 ∷ (s.size / 256 + 32 * (s.ts_length - 1)) ∷ rest)
        ≡ packet_loop fuel (headed pd s) rest
  unfolding packet_loop packet_step_in
  header_loop fuel pd s rest e v h = ground (arith, length_fields s h)

  -- The decoder once the packet `s` has been delivered.
  abbrev pub received : PacketDecoder U → Sent → PacketDecoder U
  received pd s =
      let total = (pd.cumulative_ts + s.ticks) % 2 ^ 64 in
      let packet : Packet = record {
        magic = s.magic;
        flags = s.flags;
        size = s.size;
        timestamp = total;
        bytes = overlay_at pd.packet.bytes 0 s.payload;
      } in
      record pd {
        packet = packet;
        user = call_packet pd.ops.packet packet pd.user;
        cumulative_ts = total;
        ts_byte = s.ts_length;
        ts_length = s.ts_length;
        state = need_packet_magic;
        buf_actual_length = 0;
      }

  -- The data of the packet, with the rest of the buffer behind it.
  data_step :
      (pd : PacketDecoder U) (b : ℕ) (bs rest : Bytes)
      → pd.state ≡ need_packet_data
      → pd.buf_actual_length ≡ 0
      → captured_size pd.packet ≡ length (b ∷ bs)
      → length (b ∷ bs) < 2 ^ 16
      → length (b ∷ bs) ≤ length pd.packet.bytes
      → packet_step pd b (bs ++ rest)
        ≡ finished
            (finalize (record pd {
              packet = record (pd.packet) { bytes = overlay_at pd.packet.bytes 0 (b ∷ bs) };
            }))
            rest
  unfolding packet_step_in memcpy
  data_step pd b bs rest e a c l m = ground (
    arith,
    length-append bs rest,
    take-length_append (b ∷ bs) rest,
    drop-length_append (b ∷ bs) rest,
  )

  data_loop :
      (fuel : ℕ) (pd : PacketDecoder U) (payload rest : Bytes)
      → pd.state ≡ need_packet_data
      → pd.buf_actual_length ≡ 0
      → captured_size pd.packet ≡ length payload
      → 0 < length payload
      → length payload < 2 ^ 16
      → length payload ≤ length pd.packet.bytes
      → packet_loop (suc fuel) pd (payload ++ rest)
        ≡ finished
            (finalize (record pd {
              packet = record (pd.packet) { bytes = overlay_at pd.packet.bytes 0 payload };
            }))
            rest
  unfolding packet_loop
  data_loop fuel pd [] rest e a c p l m = absurd (omega arith)
  data_loop fuel pd (b ∷ bs) rest e a c p l m =
      ap (resume (packet_loop fuel)) (data_step pd b bs rest e a c l m)

  payload_bounds :
      (pd : PacketDecoder U) (s : Sent)
      → IsSent s
      → (captured_size (stamped (headed pd s) s.ticks).packet ≡ length s.payload)
        × (length s.payload < 2 ^ 16)
  unfolding captured_size
  payload_bounds pd s h = ground (arith, h)

  stamped-headed :
      (pd : PacketDecoder U) (s : Sent)
      → pd.buf_actual_length ≡ 0
      → finalize (record (stamped (headed pd s) s.ticks) {
        packet = record ((stamped (headed pd s) s.ticks).packet) {
          bytes = overlay_at pd.packet.bytes 0 s.payload;
        };
      })
        ≡ received pd s
  stamped-headed pd s a = ground arith

  pub encode_loop :
      (n fuel : ℕ) (pd : PacketDecoder U) (s : Sent) (rest : Bytes)
      → s.ts_length ≡ suc n
      → pd.state ≡ need_packet_magic
      → IsValid pd
      → IsSent s
      → length s.payload ≤ length pd.packet.bytes
      → packet_loop (more 4 (more (suc n) (suc fuel))) pd (encode s ++ rest)
        ≡ finished (received pd s) rest
  encode_loop n fuel pd s rest e m v h l =
      header_loop (more (suc n) (suc fuel)) pd s
        ((little_endian s.ts_length s.ticks ++ s.payload) ++ rest) m v h
      ∙ ap (packet_loop (more (suc n) (suc fuel)) (headed pd s)) (
          append_assoc (little_endian s.ts_length s.ticks) s.payload rest
          ∙ ap (λ k. little_endian k s.ticks ++ (s.payload ++ rest)) e)
      ∙ stamp_loop n (suc fuel) (headed pd s) s.ticks (s.payload ++ rest) refl (omega arith)
          h.ts_fits (omega arith) (subst (λ k. s.ticks < 2 ^ (8 * k)) e h.ticks_fit)
      ∙ data_loop fuel (stamped (headed pd s) s.ticks) s.payload rest refl (ground (arith, v))
          (payload_bounds pd s h).0 h.payload_some (payload_bounds pd s h).1 l
      ∙ ap (λ t. finished t rest) (stamped-headed pd s (ground (arith, v)))

  -- A decoder that waits for a packet reads one from any buffer that begins with it: it consumes
  -- exactly the bytes of the packet, delivers it with the sum of the timestamps, and waits for the
  -- next one. The packet has data, and fits the caller's object.
  pub packet_decoder_proc-encode :
      (pd : PacketDecoder U) (s : Sent) (rest : Bytes)
      → pd.state ≡ need_packet_magic
      → IsValid pd
      → IsSent s
      → length s.payload ≤ length pd.packet.bytes
      → packet_decoder_proc pd (encode s ++ rest) ≡ done (length (encode s)) (received pd s)
  unfolding packet_decoder_proc
  packet_decoder_proc-encode pd s rest m v h l =
      let n = s.ts_length - 1 in
      let fuel = length s.payload + length rest - 1 in
      let size = length (encode s ++ rest) in
      let enough : size ≡ more 4 (more (suc n) (suc fuel)) =
        omega
          (arith, h.ts_some, h.payload_some, more-add (suc n) (suc fuel), length-encode s rest) in
      ap (λ k. returned size (packet_loop k pd (encode s ++ rest))) enough
      ∙ ap (returned size) (encode_loop n fuel pd s rest (omega (arith, h.ts_some)) m v h l)
      ∙ ap (λ k. done k (received pd s))
          (omega (
            arith,
            length-append (encode s) rest,
            length-encode s rest,
            h.ts_fits,
            (payload_bounds pd s h).1,
          ))
