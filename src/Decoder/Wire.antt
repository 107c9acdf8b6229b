-- ===== src/Decoder/Wire.antt =====
-- The packets as the device sends them, and that src/decoder.c reads back what is sent.
pub mod Stamp
pub mod Receive
pub mod Stream
use libopenvizsla.Prelude.{
  ℕ, zero, suc, ◌+◌, ◌-◌, ◌*◌, ◌/◌, ◌%◌, ◌^◌, ◌≤◌, ◌<◌, ◌≡◌, ◌⊎◌, refl, sym, ap, ◌∙◌, [], ◌∷◌, ◌++◌,
  Bytes, length, length-append, arith, AreBytes, if◌then◌else◌,
}
use libopenvizsla.Decoder.State.{
  Packet, captured_size, has_flag, ov_max_packet_size, ov_flags_hf0_trunc, PacketDecoder,
}

-- A packet on the wire: `ticks` is the time since the packet before, in `ts_length` bytes.
pub record Sent : Type 0 where
  pub magic : ℕ
  pub flags : ℕ
  pub size : ℕ
  pub ts_length : ℕ
  pub ticks : ℕ
  pub payload : Bytes

-- A number in `n` bytes, the lowest first.
abbrev pub little_endian : ℕ → ℕ → Bytes
little_endian zero x = []
little_endian (suc n) x = x % 256 ∷ little_endian n (x / 256)

abbrev pub encode : Sent → Bytes
encode s =
    s.magic
    ∷ s.flags
    ∷ s.size % 256
    ∷ (s.size / 256 + 32 * (s.ts_length - 1))
    ∷ (little_endian s.ts_length s.ticks ++ s.payload)

-- What the device may send. A packet with no data is left out, since it is finalized by the byte
-- behind it.
pub record IsSent (s : Sent) : Type 0 where
  pub magic_known : (s.magic ≡ 0xa0) ⊎ (s.magic ≡ 0xa2)
  pub size_fits : s.size < 2 ^ 13
  pub ts_some : 0 < s.ts_length
  pub ts_fits : s.ts_length ≤ 8
  pub ticks_fit : s.ticks < 2 ^ (8 * s.ts_length)
  pub payload_is :
      length s.payload
      ≡ (if has_flag s.flags ov_flags_hf0_trunc then ov_max_packet_size else s.size)
  pub payload_some : 0 < length s.payload
