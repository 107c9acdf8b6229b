-- ===== src/Decoder/Safety.antt =====
-- Where `frame_decoder_proc` of src/decoder.c writes: inside the packet's object, if that has room
-- for the longest packet that the length field can announce.
use libopenvizsla.Prelude.{
  ℕ, ◌-◌, ◌*◌, ◌%◌, ◌^◌, ◌≤◌, ◌<◌, ◌≡◌, refl, sym, [], ◌∷◌, Bytes, length, take, length-take, arith,
  min, AreBytes, bit_or, bit_and, bit_and_length, shift-bit_or, memcpy,
}
use mathlib.Core.Path.{subst}
use libopenvizsla.Decoder.State.{
  captured_size, PacketDecoder, PacketState, need_packet_length_hi, need_packet_timestamp,
  need_packet_data, FrameDecoder, FrameState, need_sdram_frame_data, Outcome, done, failed, fault,
  Step, advance, finished, refused, broken,
}
use libopenvizsla.Decoder.Packet.{packet_step_in, packet_step, required_length}
use libopenvizsla.Decoder.Frame.{frame_step_in, frame_decoder_proc}
use libopenvizsla.Decoder.Valid.{IsValid, FrameIsValid}
use libopenvizsla.Decoder.Bytewise.{
  Fed, ok, rejected, stuck, ◌>>=◌, feeds, settle, flush, packet_feed, frame_feed,
}
use libopenvizsla.Decoder.Bytewise.Memory.{length-overlay_at}
use libopenvizsla.Decoder.Bytewise.Packets.{required_length_lem}
use libopenvizsla.Decoder.Bytewise.Frames.{within, frame_feed_sdram}
use libopenvizsla.Decoder.Chunks.{seen, frame_decoder_proc-feeds}

-- 13 bits of length; a truncated packet has 1027 bytes.
abbrev pub room_needed : ℕ
room_needed = 2 ^ 13 - 1

abbrev IsSized : PacketState → ℕ → Type 0
IsSized need_packet_length_hi size = size < 256
IsSized need_packet_timestamp size = size ≤ room_needed
IsSized need_packet_data size = size ≤ room_needed
IsSized _ size = Unit

-- A size has 13 bits.
length_hi-le :
    (b size : ℕ)
    → b < 256
    → size < 256
    → bit_or (bit_and b 0x1f * 2 ^ 8) size % 2 ^ 16 ≤ room_needed
length_hi-le b size h k = ground (arith, bit_and_length b, shift-bit_or 8 size (b % 32))

module _ {U : Type 0} where
  -- The size read so far is one that the length field can hold, and there is room for it.
  pub record HasRoom (pd : PacketDecoder U) : Type 0 where
    pub valid : IsValid pd
    pub sized : IsSized pd.state pd.packet.size
    pub room : room_needed ≤ length pd.packet.bytes

  abbrev StepStays : Step (PacketDecoder U) → Type 0
  StepStays (advance pd rest) = HasRoom pd
  StepStays (finished pd rest) = HasRoom pd
  StepStays (refused pd) = Unit
  StepStays (broken w) = ⊥

  step_in-StepStays :
      (s : PacketState) (pd : PacketDecoder U) (b : ℕ)
      → pd.state ≡ s
      → b < 256
      → HasRoom pd
      → StepStays (packet_step_in s pd b [])
  unfolding packet_step_in memcpy captured_size
  step_in-StepStays need_packet_data pd b e h r =
      let copy = min (required_length pd) (length (b ∷ [])) in
      let chunk = take copy (b ∷ []) in
      ground (
        arith,
        r.valid,
        required_length_lem pd e r.valid,
        length-take copy (b ∷ []),
        length-overlay_at pd.packet.bytes pd.buf_actual_length chunk,
      )
  step_in-StepStays need_packet_length_hi pd b e h r =
      ground (arith, r.valid, length_hi-le b pd.packet.size)
  step_in-StepStays _ pd b e h r = ground (arith, r.valid)

  abbrev Stays : {S : Type 0} → (S → Type 0) → Fed S (PacketDecoder U) → Type 0
  Stays P (ok s) = P s
  Stays P (rejected r) = Unit
  Stays P (stuck w) = ⊥

  settle-Stays : (st : Step (PacketDecoder U)) → StepStays st → Stays HasRoom (settle (λ s. s) st)
  settle-Stays (advance pd rest) h = h
  settle-Stays (finished pd rest) h = h
  settle-Stays (refused pd) h = h
  settle-Stays (broken w) h = h

  flush-HasRoom : (pd : PacketDecoder U) → HasRoom pd → HasRoom (flush pd)
  flush-HasRoom pd r = ground (arith, r.valid)

  packet_feed-Stays :
      (pd : PacketDecoder U) (b : ℕ) → b < 256 → HasRoom pd → Stays HasRoom (packet_feed pd b)
  unfolding packet_feed
  packet_feed-Stays pd b h r =
      settle-Stays (packet_step (flush pd) b [])
        (step_in-StepStays (flush pd).state (flush pd) b refl h (flush-HasRoom pd r))

  -- The same of a frame decoder.
  abbrev pub FrameHasRoom : FrameDecoder U → Type 0
  FrameHasRoom fd = HasRoom fd.pd

  sdram-Stays :
      (fd : FrameDecoder U) (m : Fed (PacketDecoder U) (PacketDecoder U))
      → Stays HasRoom m
      → Stays FrameHasRoom (m >>= λ pd. ok (within fd 1 pd))
  sdram-Stays fd (ok pd) h = h
  sdram-Stays fd (rejected pd) h = h
  sdram-Stays fd (stuck w) h = h

  frame_feed_in-Stays :
      (s : FrameState) (fd : FrameDecoder U) (b : ℕ)
      → fd.state ≡ s
      → b < 256
      → HasRoom fd.pd
      → Stays FrameHasRoom (frame_feed fd b)
  unfolding frame_feed frame_step_in
  frame_feed_in-Stays need_sdram_frame_data fd b e h r =
      subst (Stays FrameHasRoom) (sym (frame_feed_sdram fd b e))
        (sdram-Stays fd (packet_feed fd.pd b) (packet_feed-Stays fd.pd b h r))
  frame_feed_in-Stays _ fd b e h r = ground (arith, r.valid)

  feeds-then :
      (m : Fed (FrameDecoder U) (PacketDecoder U)) (bs : Bytes)
      → Stays FrameHasRoom m
      → ((fd : FrameDecoder U) → HasRoom fd.pd → Stays FrameHasRoom (feeds frame_feed fd bs))
      → Stays FrameHasRoom (m >>= λ fd. feeds frame_feed fd bs)
  feeds-then (ok fd) bs h ih = ih fd h
  feeds-then (rejected pd) bs h ih = h
  feeds-then (stuck w) bs h ih = h

  feeds-Stays :
      (fd : FrameDecoder U) (bs : Bytes)
      → AreBytes bs
      → HasRoom fd.pd
      → Stays FrameHasRoom (feeds frame_feed fd bs)
  feeds-Stays fd [] h r = r
  feeds-Stays fd (b ∷ bs) h r =
      feeds-then (frame_feed fd b) bs (frame_feed_in-Stays fd.state fd b refl h.0 r)
        (λ fd'. feeds-Stays fd' bs h.1)

  -- A call never leaves the packet's object, stops at an assertion or runs out of fuel; what it
  -- leaves has room again.
  abbrev pub IsSafe : Outcome (FrameDecoder U) → Type 0
  IsSafe (done n fd) = HasRoom fd.pd
  IsSafe (failed fd) = Unit
  IsSafe (fault w) = ⊥

  seen-IsSafe : (o : Outcome (FrameDecoder U)) → Stays FrameHasRoom (seen o) → IsSafe o
  seen-IsSafe (done n fd) h = h
  seen-IsSafe (failed fd) h = h
  seen-IsSafe (fault w) h = h

  -- From a valid decoder whose packet has room for 8191 bytes of data, a call of
  -- `frame_decoder_proc` on any bytes ends without a write outside the packet, a failed assertion
  -- or a lack of fuel, and if it returns no error, the same holds of the decoder that it leaves.
  pub frame_decoder_proc-IsSafe :
      (fd : FrameDecoder U) (buf : Bytes)
      → FrameIsValid fd
      → HasRoom fd.pd
      → AreBytes buf
      → IsSafe (frame_decoder_proc fd buf)
  frame_decoder_proc-IsSafe fd buf v r h = seen-IsSafe (frame_decoder_proc fd buf) (
      subst (Stays FrameHasRoom) (sym (frame_decoder_proc-feeds fd buf v h))
        (feeds-Stays fd buf h r))
