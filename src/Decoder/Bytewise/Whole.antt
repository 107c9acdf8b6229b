-- ===== src/Decoder/Bytewise/Whole.antt =====
-- `frame_decoder_proc` as a whole against the reference.
use libopenvizsla.Prelude.{
  ℕ, zero, suc, ◌+◌, ◌*◌, ◌≤◌, ◌<◌, ◌≡◌, refl, ◌∙◌, [], ◌∷◌, Bytes, length, take, arith, min,
  AreBytes,
}
use libopenvizsla.Decoder.State.{
  FrameDecoder, FrameState, need_sdram_frame_data, Step, advance, finished, refused, broken, resume,
}
use libopenvizsla.Decoder.Packet.{packet_loop, packet_decoder_proc}
use libopenvizsla.Decoder.Frame.{frame_step_in, frame_step, frame_loop}
use libopenvizsla.Decoder.Valid.{FrameIsValid}
use libopenvizsla.Decoder.Bytewise.{ok, rejected, stuck, feeds, frame_feed}
use libopenvizsla.Decoder.Bytewise.Loops.{packet_loop-LoopReads}
use libopenvizsla.Decoder.Bytewise.Frames.{pending, StepGoes, header-StepGoes}
use libopenvizsla.Decoder.Bytewise.Sdram.{sdram-StepGoes}

module _ {U : Type 0} where
  sdram_word-pos :
      (fd : FrameDecoder U) → fd.state ≡ need_sdram_frame_data → FrameIsValid fd → 0 < fd.word
  sdram_word-pos fd e v = ground (arith, v.counted)

  step_in-StepGoes :
      (s : FrameState) (fd : FrameDecoder U) (b : ℕ) (bs : Bytes)
      → fd.state ≡ s
      → FrameIsValid fd
      → AreBytes (b ∷ bs)
      → StepGoes fd (b ∷ bs) (frame_step_in s fd b bs)
  unfolding frame_step_in packet_decoder_proc
  step_in-StepGoes need_sdram_frame_data fd b bs e v h =
      let n = min fd.word (length (b ∷ bs)) in
      let chunk = take n (b ∷ bs) in
      sdram-StepGoes fd n (b ∷ bs) (packet_loop (length chunk) fd.pd chunk) e v h
        (omega (arith, sdram_word-pos fd e v)) (omega arith) (omega arith)
        (packet_loop-LoopReads (length chunk) fd.pd chunk v.packet_valid (omega arith))
  step_in-StepGoes s fd b bs e v h = header-StepGoes s fd b bs e (λ q. cc) v h

  -- What the loop leaves is what the reference does, with the whole buffer taken.
  abbrev pub LoopGoes : FrameDecoder U → Bytes → Step (FrameDecoder U) → Type 0
  LoopGoes fd buf (advance fd' rest) = ⊥
  LoopGoes fd buf (finished fd' rest) =
      (rest ≡ []) × (feeds frame_feed fd buf ≡ ok fd') × FrameIsValid fd'
  LoopGoes fd buf (refused fd') = feeds frame_feed fd buf ≡ rejected fd'.pd
  LoopGoes fd buf (broken w) = feeds frame_feed fd buf ≡ stuck w

  LoopGoes-same :
      (fd fd' : FrameDecoder U) (buf rest : Bytes) (st : Step (FrameDecoder U))
      → feeds frame_feed fd buf ≡ feeds frame_feed fd' rest
      → LoopGoes fd' rest st
      → LoopGoes fd buf st
  LoopGoes-same fd fd' buf rest (advance t r) s g = g
  LoopGoes-same fd fd' buf rest (finished t r) s g = (g.0, s ∙ g.1, g.2)
  LoopGoes-same fd fd' buf rest (refused t) s g = s ∙ g
  LoopGoes-same fd fd' buf rest (broken w) s g = s ∙ g

  resume-LoopGoes :
      (fuel : ℕ) (fd : FrameDecoder U) (buf : Bytes) (st : Step (FrameDecoder U))
      → StepGoes fd buf st
      → 2 * length buf + pending fd ≤ suc fuel
      → ((fd' : FrameDecoder U) (rest : Bytes)
          → FrameIsValid fd'
          → AreBytes rest
          → 2 * length rest + pending fd' ≤ fuel
          → LoopGoes fd' rest (frame_loop fuel fd' rest))
      → LoopGoes fd buf (resume (frame_loop fuel) st)
  resume-LoopGoes fuel fd buf (advance fd' rest) g h ih =
      LoopGoes-same fd fd' buf rest (frame_loop fuel fd' rest) g.same
        (ih fd' rest g.valid g.bytes (omega (arith, g.less)))
  resume-LoopGoes fuel fd buf (finished fd' rest) g h ih = absurd g
  resume-LoopGoes fuel fd buf (refused fd') g h ih = g
  resume-LoopGoes fuel fd buf (broken w) g h ih = g

  pub frame_loop-LoopGoes :
      (fuel : ℕ) (fd : FrameDecoder U) (buf : Bytes)
      → FrameIsValid fd
      → AreBytes buf
      → 2 * length buf + pending fd ≤ fuel
      → LoopGoes fd buf (frame_loop fuel fd buf)
  unfolding frame_loop
  frame_loop-LoopGoes zero fd [] v h k = (refl, refl, v)
  frame_loop-LoopGoes zero fd (b ∷ bs) v h k = absurd (omega arith)
  frame_loop-LoopGoes (suc fuel) fd [] v h k = (refl, refl, v)
  frame_loop-LoopGoes (suc fuel) fd (b ∷ bs) v h k =
      resume-LoopGoes fuel fd (b ∷ bs) (frame_step fd b bs)
        (step_in-StepGoes fd.state fd b bs refl v h) k
        (λ fd' rest. frame_loop-LoopGoes fuel fd' rest)
