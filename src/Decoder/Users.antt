-- ===== src/Decoder/Users.antt =====
-- What the decoders of src/decoder.c do to the object behind `user_data`: nothing but call the two
-- callbacks on it.
use libopenvizsla.Prelude.{
  ℕ, zero, suc, ◌≡◌, Option, none, some, [], ◌∷◌, Bytes, length, take, arith, min, ◌*◌, ◌+◌, sym,
  ◌%◌, ◌^◌, Bool-cases, ◌==◌, inl, inr,
}
use mathlib.Core.Path.{subst}
use libopenvizsla.Decoder.State.{
  Packet, Ops, PacketDecoder, PacketState, need_packet_magic, need_packet_data, FrameDecoder,
  FrameState, need_frame_magic, need_sdram_frame_data, need_bus_frame_checksum, Outcome, done,
  failed, fault, Step, advance, finished, refused, broken, resume, returned, is_negative,
}
use libopenvizsla.Decoder.Packet.{
  call_packet, finalize, required_length, stored, packet_step_in, packet_step, packet_loop,
  packet_decoder_proc,
}
use libopenvizsla.Decoder.Frame.{
  call_bus_frame, sdram_data, frame_step_in, frame_step, frame_loop, frame_decoder_proc,
}

module _ {U : Type 0} (ops : Ops U) (P : U → Type 0) where
  -- Both callbacks keep the property.
  pub record KeepUser : Type 0 where
    pub packet_keeps : (p : Packet) (u : U) → P u → P (call_packet ops.packet p u)
    pub bus_keeps : (a v : ℕ) (u : U) → P u → P (call_bus_frame ops.bus_frame a v u)

  abbrev pub HasUser : PacketDecoder U → Type 0
  HasUser pd = (pd.ops ≡ ops) × P pd.user

  abbrev pub StepHas : {S : Type 0} → (S → PacketDecoder U) → Step S → Type 0
  StepHas f (advance s rest) = HasUser (f s)
  StepHas f (finished s rest) = HasUser (f s)
  StepHas f (refused s) = HasUser (f s)
  StepHas f (broken w) = Unit

  abbrev pub OutcomeHas : {S : Type 0} → (S → PacketDecoder U) → Outcome S → Type 0
  OutcomeHas f (done n s) = HasUser (f s)
  OutcomeHas f (failed s) = HasUser (f s)
  OutcomeHas f (fault w) = Unit

  returned-OutcomeHas :
      {S : Type 0} (f : S → PacketDecoder U) (n : ℕ) (r : Step S)
      → StepHas f r
      → OutcomeHas f (returned n r)
  returned-OutcomeHas f n (advance s rest) h = h
  returned-OutcomeHas f n (finished s rest) h = h
  returned-OutcomeHas f n (refused s) h = h
  returned-OutcomeHas f n (broken w) h = h

  resume-StepHas :
      {S : Type 0} (f : S → PacketDecoder U) (k : S → Bytes → Step S) (r : Step S)
      → StepHas f r
      → ((s : S) (rest : Bytes) → HasUser (f s) → StepHas f (k s rest))
      → StepHas f (resume k r)
  resume-StepHas f k (advance s rest) h ih = ih s rest h
  resume-StepHas f k (finished s rest) h ih = h
  resume-StepHas f k (refused s) h ih = h
  resume-StepHas f k (broken w) h ih = h

  abbrev self : PacketDecoder U → PacketDecoder U
  self pd = pd

  finalize-HasUser : (k : KeepUser) (pd : PacketDecoder U) → HasUser pd → HasUser (finalize pd)
  finalize-HasUser k pd h = (
    h.0,
    subst (λ (o : Ops U). P (call_packet o.packet pd.packet pd.user)) (sym h.0)
        (k.packet_keeps pd.packet pd.user h.1),
  )

  stored-StepHas :
      (k : KeepUser) (pd : PacketDecoder U) (copy : ℕ) (buf : Bytes) (m : Option Bytes)
      → HasUser pd
      → StepHas self (stored pd copy buf m)
  unfolding stored
  stored-StepHas k pd copy buf none h = tt
  stored-StepHas k pd copy buf (some bytes) h =
      let filled = record pd {
        packet = record (pd.packet) { bytes = bytes };
        buf_actual_length = (pd.buf_actual_length + copy) % 2 ^ 64;
      } in
      elim (Bool-cases (required_length pd == copy)) [
        | inl last ↦ rw last (finalize-HasUser k filled h)
        | inr more ↦ rw more h
      ]

  step_in-StepHas :
      (k : KeepUser) (s : PacketState) (pd : PacketDecoder U) (b : ℕ) (bs : Bytes)
      → HasUser pd
      → StepHas self (packet_step_in s pd b bs)
  unfolding packet_step_in
  step_in-StepHas k need_packet_magic pd b bs h = ground arith
  step_in-StepHas k need_packet_data pd b bs h = stored-StepHas k pd _ (b ∷ bs) _ h
  step_in-StepHas k _ pd b bs h = ground arith

  packet_loop-StepHas :
      (k : KeepUser) (fuel : ℕ) (pd : PacketDecoder U) (buf : Bytes)
      → HasUser pd
      → StepHas self (packet_loop fuel pd buf)
  unfolding packet_loop
  packet_loop-StepHas k zero pd [] h = h
  packet_loop-StepHas k zero pd (b ∷ bs) h = tt
  packet_loop-StepHas k (suc fuel) pd [] h = h
  packet_loop-StepHas k (suc fuel) pd (b ∷ bs) h =
      resume-StepHas self (packet_loop fuel) (packet_step pd b bs)
        (step_in-StepHas k pd.state pd b bs h) (packet_loop-StepHas k fuel)

  packet_decoder_proc-OutcomeHas :
      (k : KeepUser) (pd : PacketDecoder U) (buf : Bytes)
      → HasUser pd
      → OutcomeHas self (packet_decoder_proc pd buf)
  unfolding packet_decoder_proc
  packet_decoder_proc-OutcomeHas k pd buf h =
      returned-OutcomeHas self (length buf) (packet_loop (length buf) pd buf)
        (packet_loop-StepHas k (length buf) pd buf h)

  abbrev inner : FrameDecoder U → PacketDecoder U
  inner fd = fd.pd

  sdram-StepHas :
      (fd : FrameDecoder U) (buf : Bytes) (r : Outcome (PacketDecoder U))
      → OutcomeHas self r
      → StepHas inner (sdram_data fd buf r)
  unfolding sdram_data
  sdram-StepHas fd buf (done n pd) h = elim (Bool-cases (is_negative n)) [
    | inl below ↦ rw below h
    | inr good ↦ rw good h
  ]
  sdram-StepHas fd buf (failed pd) h = h
  sdram-StepHas fd buf (fault w) h = h

  frame_in-StepHas :
      (k : KeepUser) (s : FrameState) (fd : FrameDecoder U) (b : ℕ) (bs : Bytes)
      → HasUser fd.pd
      → StepHas inner (frame_step_in s fd b bs)
  unfolding frame_step_in
  frame_in-StepHas k need_frame_magic fd b bs h = ground arith
  frame_in-StepHas k need_sdram_frame_data fd b bs h =
      sdram-StepHas fd (b ∷ bs) _
        (packet_decoder_proc-OutcomeHas k fd.pd (take (min fd.word (length (b ∷ bs))) (b ∷ bs)) h)
  frame_in-StepHas k need_bus_frame_checksum fd b bs h = (
    h.0,
    subst (λ (o : Ops U). P (call_bus_frame o.bus_frame fd.word fd.value fd.pd.user)) (sym h.0)
        (k.bus_keeps fd.word fd.value fd.pd.user h.1),
  )
  frame_in-StepHas k _ fd b bs h = ground arith

  frame_loop-StepHas :
      (k : KeepUser) (fuel : ℕ) (fd : FrameDecoder U) (buf : Bytes)
      → HasUser fd.pd
      → StepHas inner (frame_loop fuel fd buf)
  unfolding frame_loop
  frame_loop-StepHas k zero fd [] h = h
  frame_loop-StepHas k zero fd (b ∷ bs) h = tt
  frame_loop-StepHas k (suc fuel) fd [] h = h
  frame_loop-StepHas k (suc fuel) fd (b ∷ bs) h =
      resume-StepHas inner (frame_loop fuel) (frame_step fd b bs)
        (frame_in-StepHas k fd.state fd b bs h) (frame_loop-StepHas k fuel)

  -- Whatever bytes it reads and however it ends, `frame_decoder_proc` keeps every property of the
  -- object behind `user_data` that both callbacks keep, and keeps the callbacks.
  pub frame_decoder_proc-OutcomeHas :
      (k : KeepUser) (fd : FrameDecoder U) (buf : Bytes)
      → HasUser fd.pd
      → OutcomeHas (λ (f : FrameDecoder U). f.pd) (frame_decoder_proc fd buf)
  unfolding frame_decoder_proc
  frame_decoder_proc-OutcomeHas k fd buf h =
      returned-OutcomeHas inner (length buf) (frame_loop (2 * length buf + 1) fd buf)
        (frame_loop-StepHas k (2 * length buf + 1) fd buf h)
