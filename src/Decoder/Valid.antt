-- ===== src/Decoder/Valid.antt =====
-- The invariant of `struct packet_decoder` between two bytes.
use libopenvizsla.Prelude.{ℕ, ◌^◌, ◌<◌, ◌≡◌, ◌⊎◌, refl, Bytes, arith, memcpy}
use libopenvizsla.Decoder.State.{
  Packet, Ops, packet_decoder_init, captured_size, PacketDecoder, FrameDecoder, FrameState,
  need_sdram_frame_data, PacketState, need_packet_magic, need_packet_data, Step, advance, finished,
  refused, broken,
}
use libopenvizsla.Decoder.Packet.{packet_step_in, packet_step}

abbrev pub IsCounted : FrameState → ℕ → Type 0
IsCounted need_sdram_frame_data word = 0 < word
IsCounted _ word = Unit

module _ {U : Type 0} where
  -- How far the packet is filled, by the state.
  abbrev pub IsFilled : PacketState → PacketDecoder U → Type 0
  IsFilled need_packet_data pd =
      (pd.buf_actual_length ≡ 0) ⊎ (pd.buf_actual_length < captured_size pd.packet)
  IsFilled _ pd = pd.buf_actual_length ≡ 0

  pub record IsValid (pd : PacketDecoder U) : Type 0 where
    pub size_fits : pd.packet.size < 2 ^ 16
    pub filled : IsFilled pd.state pd
    pub has_buffer : 0 < pd.buf_length

  -- The same of `struct frame_decoder`: inside an SDRAM frame, some of it is left.
  pub record FrameIsValid (fd : FrameDecoder U) : Type 0 where
    pub packet_valid : IsValid fd.pd
    pub word_fits : fd.word < 2 ^ 16
    pub counted : IsCounted fd.state fd.word

  -- What a step leaves is valid.
  abbrev pub Keeps : Step (PacketDecoder U) → Type 0
  Keeps (advance pd rest) = IsValid pd
  Keeps (finished pd rest) = IsValid pd
  Keeps (refused pd) = Unit
  Keeps (broken w) = Unit

  step_in-Keeps :
      (s : PacketState) (pd : PacketDecoder U) (b : ℕ) (bs : Bytes)
      → pd.state ≡ s
      → IsValid pd
      → Keeps (packet_step_in s pd b bs)
  unfolding packet_step_in captured_size memcpy
  step_in-Keeps need_packet_magic pd b bs e v = ground arith
  step_in-Keeps _ pd b bs e v = ground arith

  pub packet_step-Keeps :
      (pd : PacketDecoder U) (b : ℕ) (bs : Bytes) → IsValid pd → Keeps (packet_step pd b bs)
  packet_step-Keeps pd b bs v = step_in-Keeps pd.state pd b bs refl v

  -- A new decoder is valid, if the packet's `size` is a `uint16_t`.
  pub packet_decoder_init-IsValid :
      (p : Packet) (size : ℕ) (ops : Ops U) (user : U)
      → p.size < 2 ^ 16
      → 0 < size
      → IsValid (packet_decoder_init p size ops user)
  unfolding packet_decoder_init
  packet_decoder_init-IsValid p size ops user h k = ground arith
