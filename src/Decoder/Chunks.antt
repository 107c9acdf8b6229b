-- ===== src/Decoder/Chunks.antt =====
-- What `frame_decoder_proc` of src/decoder.c makes of a stream does not depend on how the stream is
-- cut into buffers.
use libopenvizsla.Prelude.{
  ℕ, ◌+◌, ◌*◌, false, ◌≡◌, refl, sym, ap, ◌∙◌, ◌++◌, Bytes, length, arith, AreBytes,
  append-AreBytes,
}
use libopenvizsla.Decoder.State.{
  PacketDecoder, FrameDecoder, Step, advance, finished, refused, broken, Outcome, done, failed,
  fault, returned, to_int, is_negative,
}
use libopenvizsla.Decoder.Frame.{frame_decoder_proc}
use libopenvizsla.Decoder.Valid.{FrameIsValid}
use libopenvizsla.Decoder.Bytewise.{Fed, ◌>>=◌, feeds, view, frame_feed}
use libopenvizsla.Decoder.Bytewise.Packets.{feeds-append}
use libopenvizsla.Decoder.Bytewise.Whole.{LoopGoes, frame_loop-LoopGoes}

module _ {U : Type 0} where
  -- What a caller keeps of a call: after a refusal, the packet decoder, which has the message.
  abbrev pub seen : Outcome (FrameDecoder U) → Fed (FrameDecoder U) (PacketDecoder U)
  seen = view (λ fd. fd.pd)

  seen-LoopGoes :
      (n : ℕ) (fd : FrameDecoder U) (buf : Bytes) (st : Step (FrameDecoder U))
      → LoopGoes fd buf st
      → seen (returned n st) ≡ feeds frame_feed fd buf
  seen-LoopGoes n fd buf (advance t r) g = absurd g
  seen-LoopGoes n fd buf (finished t r) g = sym g.1
  seen-LoopGoes n fd buf (refused t) g = sym g
  seen-LoopGoes n fd buf (broken w) g = sym g

  -- From a valid decoder, a buffer of bytes leads `frame_decoder_proc` to the state, the refusal
  -- or the fault to which the reference comes that takes the bytes one by one. In particular its
  -- fuel suffices.
  pub frame_decoder_proc-feeds :
      (fd : FrameDecoder U) (buf : Bytes)
      → FrameIsValid fd
      → AreBytes buf
      → seen (frame_decoder_proc fd buf) ≡ feeds frame_feed fd buf
  unfolding frame_decoder_proc
  frame_decoder_proc-feeds fd buf v h =
      seen-LoopGoes (length buf) fd buf _
        (frame_loop-LoopGoes (2 * length buf + 1) fd buf v h (ground arith))

  -- A call that is neither refused nor faulty consumed the buffer, and left a valid decoder.
  abbrev pub IsRead : ℕ → Outcome (FrameDecoder U) → Type 0
  IsRead n (done k fd) = (k ≡ to_int n) × FrameIsValid fd
  IsRead n (failed fd) = Unit
  IsRead n (fault w) = Unit

  LoopGoes-IsRead :
      (n : ℕ) (fd : FrameDecoder U) (buf : Bytes) (st : Step (FrameDecoder U))
      → LoopGoes fd buf st
      → IsRead n (returned n st)
  LoopGoes-IsRead n fd buf (advance t r) g = absurd g
  LoopGoes-IsRead n fd buf (finished t r) g = (omega (arith, ap length g.0), g.2)
  LoopGoes-IsRead n fd buf (refused t) g = tt
  LoopGoes-IsRead n fd buf (broken w) g = tt

  pub frame_decoder_proc-IsRead :
      (fd : FrameDecoder U) (buf : Bytes)
      → FrameIsValid fd
      → AreBytes buf
      → IsRead (length buf) (frame_decoder_proc fd buf)
  unfolding frame_decoder_proc
  frame_decoder_proc-IsRead fd buf v h =
      LoopGoes-IsRead (length buf) fd buf _
        (frame_loop-LoopGoes (2 * length buf + 1) fd buf v h (ground arith))

  -- It returned the size, which is not negative as an `int`.
  abbrev pub IsWhole : ℕ → Outcome (FrameDecoder U) → Type 0
  IsWhole n (done k fd) = (k ≡ n) × (is_negative k ≡ false) × FrameIsValid fd
  IsWhole n (failed fd) = Unit
  IsWhole n (fault w) = Unit

  seen-then :
      (n : ℕ) (ys : Bytes) (o : Outcome (FrameDecoder U))
      → IsRead n o
      → AreBytes ys
      → (seen o >>= λ fd'. feeds frame_feed fd' ys)
        ≡ (seen o >>= λ fd'. seen (frame_decoder_proc fd' ys))
  seen-then n ys (done k fd') w h = sym (frame_decoder_proc-feeds fd' ys w.1 h)
  seen-then n ys (failed fd') w h = refl
  seen-then n ys (fault f) w h = refl

  -- From a valid decoder, one call on `xs ++ ys` ends as a call on `xs` and then, if that returns
  -- no error, a call on `ys`: with the same decoder, the same refusal or the same fault.
  pub frame_decoder_proc-append :
      (fd : FrameDecoder U) (xs ys : Bytes)
      → FrameIsValid fd
      → AreBytes xs
      → AreBytes ys
      → seen (frame_decoder_proc fd (xs ++ ys))
        ≡ (seen (frame_decoder_proc fd xs) >>= λ fd'. seen (frame_decoder_proc fd' ys))
  frame_decoder_proc-append fd xs ys v h k =
      frame_decoder_proc-feeds fd (xs ++ ys) v (append-AreBytes xs ys h k)
      ∙ feeds-append frame_feed fd xs ys
      ∙ ap (λ m. m >>= λ fd'. feeds frame_feed fd' ys) (sym (frame_decoder_proc-feeds fd xs v h))
      ∙ seen-then (length xs) ys (frame_decoder_proc fd xs) (frame_decoder_proc-IsRead fd xs v h) k
