-- ===== src/Decoder/Bytewise.antt =====
-- A reference for src/decoder.c that takes one byte at a time. It calls the step on buffers of one
-- byte, and has neither a length to copy nor a place in a buffer.
pub mod Memory
pub mod Packets
pub mod Steps
pub mod Loops
pub mod Frames
pub mod Sdram
pub mod Whole
use libopenvizsla.Prelude.{ℕ, ◌-◌, ◌==◌, Bool, false, if◌then◌else◌, [], ◌∷◌, Bytes}
use libopenvizsla.Decoder.State.{
  captured_size, PacketDecoder, PacketState, need_packet_data, FrameDecoder, FrameState,
  need_frame_magic, need_sdram_frame_data, Fault, Step, advance, finished, refused, broken, Outcome,
  done, failed, fault,
}
use libopenvizsla.Decoder.Packet.{finalize, packet_step}
use libopenvizsla.Decoder.Frame.{frame_step_in}

-- What reading some bytes leads to. `R` is what is left of the state after a refusal.
pub data Fed (S R : Type 0) : Type 0 where
  ok : S → Fed S R
  rejected : R → Fed S R
  stuck : Fault → Fed S R

infixl 5 ◌>>=◌
abbrev pub ◌>>=◌ : {S T R : Type 0} → Fed S R → (S → Fed T R) → Fed T R
ok s >>= f = f s
rejected r >>= f = rejected r
stuck w >>= f = stuck w

abbrev pub feeds : {S R : Type 0} → (S → ℕ → Fed S R) → S → Bytes → Fed S R
feeds feed s [] = ok s
feeds feed s (b ∷ bs) = feed s b >>= λ t. feeds feed t bs

abbrev pub settle : {S R : Type 0} → (S → R) → Step S → Fed S R
settle f (advance s rest) = ok s
settle f (finished s rest) = ok s
settle f (refused s) = rejected (f s)
settle f (broken w) = stuck w

-- The same of a whole call.
abbrev pub view : {S R : Type 0} → (S → R) → Outcome S → Fed S R
view f (done n s) = ok s
view f (failed s) = rejected (f s)
view f (fault w) = stuck w

module _ {U : Type 0} where
  abbrev pub is_pending_in : PacketState → PacketDecoder U → Bool
  is_pending_in need_packet_data pd = captured_size pd.packet == pd.buf_actual_length
  is_pending_in _ pd = false

  -- A packet with no data waits for the byte behind it.
  abbrev pub is_pending : PacketDecoder U → Bool
  is_pending pd = is_pending_in pd.state pd

  abbrev pub flush : PacketDecoder U → PacketDecoder U
  flush pd = if is_pending pd then finalize pd else pd

  unfoldable pub packet_feed : PacketDecoder U → ℕ → Fed (PacketDecoder U) (PacketDecoder U)
  packet_feed pd b = settle (λ s. s) (packet_step (flush pd) b [])

  -- A byte of an SDRAM frame counts down what is left of the frame. After a refusal that count is
  -- of no use, and only the packet decoder is kept.
  sdram_feed : FrameDecoder U → ℕ → Fed (FrameDecoder U) (PacketDecoder U)
  sdram_feed fd b = packet_feed fd.pd b >>= λ pd.
      let left = fd.word - 1 in
      ok (record fd {
        pd = pd;
        word = left;
        state = if left == 0 then need_frame_magic else need_sdram_frame_data;
      })

  frame_feed_in : FrameState → FrameDecoder U → ℕ → Fed (FrameDecoder U) (PacketDecoder U)
  unfolding sdram_feed
  frame_feed_in need_sdram_frame_data fd b = sdram_feed fd b
  frame_feed_in s fd b = settle (λ r. r.pd) (frame_step_in s fd b [])

  unfoldable pub frame_feed : FrameDecoder U → ℕ → Fed (FrameDecoder U) (PacketDecoder U)
  unfolding frame_feed_in
  frame_feed fd b = frame_feed_in fd.state fd b
