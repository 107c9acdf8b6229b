-- ===== src/Decoder/Packet.antt =====
-- `packet_decoder_proc` of src/decoder.c.
use libopenvizsla.Prelude.{
  ℕ, zero, suc, ◌+◌, ◌-◌, ◌*◌, ◌/◌, ◌%◌, ◌^◌, min, bit_and, bit_or, not, ◌&&◌, ◌==◌, ltb, leb,
  if◌then◌else◌, Option, none, some, [], ◌∷◌, Bytes, length, take, drop, memcpy,
}
use libopenvizsla.Decoder.State.{
  Packet, captured_size, PacketDecoder, PacketState, need_packet_magic, need_packet_flags,
  need_packet_length_lo, need_packet_length_hi, need_packet_timestamp, need_packet_data,
  out_of_bounds, assertion_failed, out_of_fuel, Step, advance, finished, refused, broken, Outcome,
  returned, resume,
}

module _ {U : Type 0} where
  abbrev pub call_packet : Option (Packet → U → U) → Packet → U → U
  call_packet none p u = u
  call_packet (some f) p u = f p u

  -- "Finalize packet here"
  abbrev pub finalize : PacketDecoder U → PacketDecoder U
  finalize pd = record pd {
    user = call_packet pd.ops.packet pd.packet pd.user;
    buf_actual_length = 0;
    state = need_packet_magic;
  }

  -- `case NEED_PACKET_MAGIC`, where `*buf` is `b` and `bs` stands behind it
  packet_magic : PacketDecoder U → ℕ → Bytes → Step (PacketDecoder U)
  packet_magic pd b bs =
      if not (pd.buf_actual_length == 0)
      then broken assertion_failed
      else if not (ltb 0 pd.buf_length)
      then broken assertion_failed
      else if b == 0xa1
      then advance pd bs
      else if not (b == 0xa0) && not (b == 0xa2)
      then refused (record pd { error_str = some "Wrong packet magic" })
      else advance
          (record pd { packet = record (pd.packet) { magic = b }; state = need_packet_flags }) bs

  -- `case NEED_PACKET_TIMESTAMP`
  packet_timestamp : PacketDecoder U → ℕ → Bytes → Step (PacketDecoder U)
  packet_timestamp pd b bs =
      let ts = bit_or pd.packet.timestamp ((b * 2 ^ (8 * pd.ts_byte)) % 2 ^ 64) in
      let ts_byte = pd.ts_byte + 1 in
      let total = (pd.cumulative_ts + ts) % 2 ^ 64 in
      if leb pd.ts_length ts_byte
      then advance
          (record pd {
            packet = record (pd.packet) { timestamp = total };
            cumulative_ts = total;
            ts_byte = ts_byte;
            state = need_packet_data;
          })
          bs
      else advance (record pd { packet = record (pd.packet) { timestamp = ts }; ts_byte = ts_byte })
          bs

  -- `ov_packet_captured_size(pd->packet) - pd->buf_actual_length`, a `size_t`
  abbrev pub required_length : PacketDecoder U → ℕ
  required_length pd = (captured_size pd.packet + 2 ^ 64 - pd.buf_actual_length) % 2 ^ 64

  -- `case NEED_PACKET_DATA` behind the `memcpy` of `copy` bytes from `buf`, with the packet's bytes
  -- as it leaves them.
  unfoldable pub stored : PacketDecoder U → ℕ → Bytes → Option Bytes → Step (PacketDecoder U)
  stored pd copy buf none = broken out_of_bounds
  stored pd copy buf (some bytes) =
      let filled = record pd {
        packet = record (pd.packet) { bytes = bytes };
        buf_actual_length = (pd.buf_actual_length + copy) % 2 ^ 64;
      } in
      if required_length pd == copy
      then finished (finalize filled) (drop copy buf)
      else advance filled (drop copy buf)

  -- `case NEED_PACKET_DATA`
  packet_data : PacketDecoder U → Bytes → Step (PacketDecoder U)
  unfolding stored
  packet_data pd buf =
      let copy = min (required_length pd) (length buf) in
      stored pd copy buf (memcpy pd.packet.bytes pd.buf_actual_length (take copy buf))

  -- The body of the loop, by the state.
  unfoldable pub packet_step_in : PacketState → PacketDecoder U → ℕ → Bytes → Step (PacketDecoder U)
  unfolding packet_magic packet_timestamp packet_data
  packet_step_in need_packet_magic pd b bs = packet_magic pd b bs
  packet_step_in need_packet_flags pd b bs =
      advance
        (record pd { packet = record (pd.packet) { flags = b }; state = need_packet_length_lo }) bs
  packet_step_in need_packet_length_lo pd b bs =
      advance
        (record pd {
          packet = record (pd.packet) { size = b % 2 ^ 16 };
          state = need_packet_length_hi;
        })
        bs
  packet_step_in need_packet_length_hi pd b bs =
      advance
        (record pd {
          packet = record (pd.packet) {
            size = bit_or (bit_and b 0x1f * 2 ^ 8) pd.packet.size % 2 ^ 16;
            timestamp = 0;
          };
          ts_length = bit_and b 0xe0 / 2 ^ 5 + 1;
          ts_byte = 0;
          state = need_packet_timestamp;
        })
        bs
  packet_step_in need_packet_timestamp pd b bs = packet_timestamp pd b bs
  packet_step_in need_packet_data pd b bs = packet_data pd (b ∷ bs)

  abbrev pub packet_step : PacketDecoder U → ℕ → Bytes → Step (PacketDecoder U)
  packet_step pd = packet_step_in pd.state pd

  -- `while (buf != end)`: `finished` says where `buf` stands at the label `end`. Each pass that
  -- goes on moves `buf`, so that the length of the buffer is fuel enough.
  unfoldable pub packet_loop : ℕ → PacketDecoder U → Bytes → Step (PacketDecoder U)
  packet_loop zero pd [] = finished pd []
  packet_loop zero pd (b ∷ bs) = broken out_of_fuel
  packet_loop (suc fuel) pd [] = finished pd []
  packet_loop (suc fuel) pd (b ∷ bs) = resume (packet_loop fuel) (packet_step pd b bs)

  unfoldable pub packet_decoder_proc : PacketDecoder U → Bytes → Outcome (PacketDecoder U)
  packet_decoder_proc pd buf = returned (length buf) (packet_loop (length buf) pd buf)
