-- ===== src/Decoder/Bytewise/Sdram.antt =====
-- `case NEED_SDRAM_FRAME_DATA`, which hands a part of the buffer to `packet_decoder_proc`, against
-- the reference.
use libopenvizsla.Prelude.{
  ℕ, ◌-◌, ◌≤◌, ◌<◌, ◌≡◌, sym, ap, ◌∙◌, ◌⊎◌, inl, inr, [], ◌∷◌, Bytes, length, take, drop,
  length-take, length-drop, take-append-drop, take-take, arith, AreBytes, drop-AreBytes,
}
use mathlib.Core.Path.{subst}
use libopenvizsla.Decoder.State.{
  PacketDecoder, FrameDecoder, need_sdram_frame_data, Step, advance, finished, refused, broken,
  done, returned, to_int,
}
use libopenvizsla.Decoder.Frame.{sdram_data}
use libopenvizsla.Decoder.Valid.{FrameIsValid}
use libopenvizsla.Decoder.Bytewise.{Fed, ok, ◌>>=◌, feeds, flush, packet_feed, frame_feed}
use libopenvizsla.Decoder.Bytewise.Packets.{feeds-append}
use libopenvizsla.Decoder.Bytewise.Loops.{Reads, LoopReads}
use libopenvizsla.Decoder.Bytewise.Frames.{
  within, sdram_feeds, frame_feed_sdram, packet_feed-flush, Goes, StepGoes,
}

module _ {U : Type 0} where
  feeds-flush :
      (fd : FrameDecoder U) (n : ℕ) (pd : PacketDecoder U) (xs : Bytes)
      → 0 < length xs
      → n < fd.word
      → feeds frame_feed (within fd n pd) xs ≡ feeds frame_feed (within fd n (flush pd)) xs
  feeds-flush fd n pd [] h k = absurd (omega arith)
  feeds-flush fd n pd (x ∷ xs) h k =
      ap (λ m. m >>= λ t. feeds frame_feed t xs)
        (frame_feed_sdram (within fd n pd) x (ground arith)
          ∙ ap (λ m. m >>= λ q. ok (within (within fd n pd) 1 q)) (sym (packet_feed-flush pd x))
          ∙ sym (frame_feed_sdram (within fd n (flush pd)) x (ground arith)))

  -- What the packet decoder makes of the first bytes decides what the frame decoder does.
  feeds-prefix :
      (fd : FrameDecoder U) (n : ℕ) (buf : Bytes)
      → fd.state ≡ need_sdram_frame_data
      → 0 < fd.word
      → n ≤ fd.word
      → n ≤ length buf
      → feeds frame_feed fd buf ≡ (
          feeds packet_feed fd.pd (take n buf) >>= (λ pd. ok (within fd n pd)) >>= λ t.
          feeds frame_feed t (drop n buf))
  feeds-prefix fd n buf e p h l =
      let len : length (take n buf) ≡ n = omega (arith, length-take n buf) in
      ap (feeds frame_feed fd) (sym (take-append-drop n buf))
      ∙ feeds-append frame_feed fd (take n buf) (drop n buf)
      ∙ ap (λ m. m >>= λ t. feeds frame_feed t (drop n buf))
          (sdram_feeds fd (take n buf) e p (omega arith)
            ∙ ap (λ k. feeds packet_feed fd.pd (take n buf) >>= λ pd. ok (within fd k pd)) len)

  catch_up :
      (fd : FrameDecoder U) (n : ℕ) (xs : Bytes) (pd pd' : PacketDecoder U)
      → (pd' ≡ pd) ⊎ ((pd' ≡ flush pd) × (0 < length xs) × (n < fd.word))
      → feeds frame_feed (within fd n pd) xs ≡ feeds frame_feed (within fd n pd') xs
  catch_up fd n xs pd pd' (inl e) = ap (λ q. feeds frame_feed (within fd n q) xs) (sym e)
  catch_up fd n xs pd pd' (inr (e, h, k)) =
      feeds-flush fd n pd xs h k ∙ ap (λ q. feeds frame_feed (within fd n q) xs) (sym e)

  Reads-catch_up :
      (fd : FrameDecoder U) (n : ℕ) (buf : Bytes) (pd' : PacketDecoder U) (rest : Bytes)
      (r : Reads fd.pd (take n buf) pd' rest)
      → n ≤ fd.word
      → n ≤ length buf
      → feeds frame_feed (within fd r.used r.middle) (drop r.used buf)
        ≡ feeds frame_feed (within fd r.used pd') (drop r.used buf)
  Reads-catch_up fd n buf pd' rest r h l =
      let chunk : length (take n buf) ≡ n = omega (arith, length-take n buf) in
      let left : length rest ≡ n - r.used =
        ap length r.rest_is ∙ length-drop r.used (take n buf) ∙ ap (λ k. k - r.used) chunk in
      catch_up fd r.used (drop r.used buf) r.middle pd' (elim r.ends [
        | inl e ↦ inl e
        | inr (e, k) ↦ inr (e, omega (arith, length-drop r.used buf), omega arith)
      ])

  sdram-Goes :
      (fd : FrameDecoder U) (n : ℕ) (buf : Bytes) (pd' : PacketDecoder U) (rest : Bytes)
      (r : Reads fd.pd (take n buf) pd' rest)
      → fd.state ≡ need_sdram_frame_data
      → FrameIsValid fd
      → AreBytes buf
      → 0 < n
      → n ≤ fd.word
      → n ≤ length buf
      → Goes fd buf (within fd r.used pd') (drop r.used buf)
  sdram-Goes fd n buf pd' rest r e v h p w l =
      let chunk : length (take n buf) ≡ n = omega (arith, length-take n buf) in
      let used_le : r.used ≤ n = omega (arith, r.used_le) in
      let fed = ap (feeds packet_feed fd.pd) (sym (take-take r.used n buf used_le)) ∙ r.fed in
      record {
        same =
            feeds-prefix fd r.used buf e (omega arith) (omega arith) (omega arith)
            ∙ ap
                (λ m. m >>= (λ pd. ok (within fd r.used pd)) >>= λ t.
                  feeds frame_feed t (drop r.used buf))
                fed
            ∙ Reads-catch_up fd n buf pd' rest r w l;
        valid = ground (arith, v, r.valid);
        bytes = drop-AreBytes r.used buf h;
        less = ground (arith, length-drop r.used buf, r.moves);
      }

  refused-StepGoes :
      (fd : FrameDecoder U) (n : ℕ) (buf : Bytes) (m : Fed (PacketDecoder U) (PacketDecoder U))
      → fd.state ≡ need_sdram_frame_data
      → 0 < n
      → n ≤ fd.word
      → n ≤ length buf
      → feeds packet_feed fd.pd (take n buf) ≡ m
      → feeds frame_feed fd buf
        ≡ (m >>= (λ pd. ok (within fd n pd)) >>= λ t. feeds frame_feed t (drop n buf))
  refused-StepGoes fd n buf m e p w l f =
      feeds-prefix fd n buf e (omega arith) w l
      ∙ ap (λ m. m >>= (λ pd. ok (within fd n pd)) >>= λ t. feeds frame_feed t (drop n buf)) f

  advanced : FrameDecoder U → Bytes → ℕ → PacketDecoder U → Step (FrameDecoder U)
  unfolding sdram_data
  advanced fd buf k pd = sdram_data fd buf (done k pd)

  -- The `uint16_t` subtraction does not wrap.
  advanced-within :
      (fd : FrameDecoder U) (buf : Bytes) (k : ℕ) (pd : PacketDecoder U)
      → fd.state ≡ need_sdram_frame_data
      → FrameIsValid fd
      → k ≤ fd.word
      → advanced fd buf k pd ≡ advance (within fd k pd) (drop k buf)
  unfolding advanced
  advanced-within fd buf k pd e v h = ground arith

  pub sdram-StepGoes :
      (fd : FrameDecoder U) (n : ℕ) (buf : Bytes) (st : Step (PacketDecoder U))
      → fd.state ≡ need_sdram_frame_data
      → FrameIsValid fd
      → AreBytes buf
      → 0 < n
      → n ≤ fd.word
      → n ≤ length buf
      → LoopReads fd.pd (take n buf) st
      → StepGoes fd buf (sdram_data fd buf (returned (length (take n buf)) st))
  unfolding sdram_data advanced
  sdram-StepGoes fd n buf (advance pd' rest) e v h p w l r = absurd r
  sdram-StepGoes fd n buf (finished pd' rest) e v h p w l r =
      let chunk : length (take n buf) ≡ n = omega (arith, length-take n buf) in
      let ret : to_int (length (take n buf) - length rest) ≡ r.used =
        omega
          (arith, r.used_le, ap length r.rest_is, length-drop r.used (take n buf), v.word_fits) in
      subst (λ k. StepGoes fd buf (advanced fd buf k pd')) (sym ret)
        (subst (StepGoes fd buf)
          (sym (advanced-within fd buf r.used pd' e v (omega (arith, r.used_le))))
          (sdram-Goes fd n buf pd' rest r e v h p w l))
  sdram-StepGoes fd n buf (refused pd') e v h p w l r = refused-StepGoes fd n buf _ e p w l r
  sdram-StepGoes fd n buf (broken f) e v h p w l r = refused-StepGoes fd n buf _ e p w l r
