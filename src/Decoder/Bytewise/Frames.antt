-- ===== src/Decoder/Bytewise/Frames.antt =====
-- One step of `frame_decoder_proc` against the reference.
use libopenvizsla.Prelude.{
  ℕ, suc, ◌+◌, ◌-◌, ◌*◌, ◌≤◌, ◌<◌, ◌≡◌, ◌≢◌, refl, ap, ◌∙◌, ◌==◌, if◌then◌else◌, [], ◌∷◌, Bytes,
  length, arith, AreBytes,
}
use mathlib.Core.Path.{fun_ext}
use libopenvizsla.Decoder.State.{
  PacketDecoder, FrameDecoder, FrameState, need_frame_magic, need_sdram_frame_data, Step, advance,
  finished, refused, broken,
}
use libopenvizsla.Decoder.Frame.{frame_step_in}
use libopenvizsla.Decoder.Valid.{FrameIsValid}
use libopenvizsla.Decoder.Bytewise.{
  Fed, ok, rejected, stuck, ◌>>=◌, feeds, is_pending, flush, packet_feed, frame_feed,
}

module _ {U : Type 0} where
  flush-flush : (pd : PacketDecoder U) → flush (flush pd) ≡ flush pd
  flush-flush pd = ground arith

  -- A packet with no data may be finalized ahead of the next byte.
  pub packet_feed-flush :
      (pd : PacketDecoder U) (b : ℕ) → packet_feed (flush pd) b ≡ packet_feed pd b
  unfolding packet_feed
  packet_feed-flush pd b = rw flush-flush

  -- Inside an SDRAM frame, behind `n` of its bytes.
  abbrev pub within : FrameDecoder U → ℕ → PacketDecoder U → FrameDecoder U
  within fd n pd = record fd {
    pd = pd;
    word = fd.word - n;
    state = if fd.word - n == 0 then need_frame_magic else need_sdram_frame_data;
  }

  pub frame_feed_sdram :
      (fd : FrameDecoder U) (b : ℕ)
      → fd.state ≡ need_sdram_frame_data
      → frame_feed fd b ≡ (packet_feed fd.pd b >>= λ pd. ok (within fd 1 pd))
  unfolding frame_feed
  frame_feed_sdram fd b e = ground arith

  within-within :
      (fd : FrameDecoder U) (pd q : PacketDecoder U) (n : ℕ)
      → within (within fd 1 pd) n q ≡ within fd (suc n) q
  within-within fd pd q n = ground arith

  -- The first byte inside a frame, and then the others.
  within-feeds :
      (fd : FrameDecoder U) (xs : Bytes) (m : Fed (PacketDecoder U) (PacketDecoder U))
      → ((pd : PacketDecoder U)
          → feeds frame_feed (within fd 1 pd) xs
            ≡ (feeds packet_feed pd xs >>= λ q. ok (within fd (suc (length xs)) q)))
      → (m >>= (λ pd. ok (within fd 1 pd)) >>= λ t. feeds frame_feed t xs)
        ≡ (m >>= (λ t. feeds packet_feed t xs) >>= λ q. ok (within fd (suc (length xs)) q))
  within-feeds fd xs (ok pd) ih = ih pd
  within-feeds fd xs (rejected pd) ih = refl
  within-feeds fd xs (stuck w) ih = refl

  -- Bytes of one SDRAM frame reach the packet decoder as if there were no frame.
  pub sdram_feeds :
      (fd : FrameDecoder U) (xs : Bytes)
      → fd.state ≡ need_sdram_frame_data
      → 0 < fd.word
      → length xs ≤ fd.word
      → feeds frame_feed fd xs
        ≡ (feeds packet_feed fd.pd xs >>= λ pd. ok (within fd (length xs) pd))
  sdram_feeds fd [] e p h = ground arith
  sdram_feeds fd (x ∷ []) e p h =
      ap (λ m. m >>= λ t. ok t) (frame_feed_sdram fd x e)
      ∙ within-feeds fd [] (packet_feed fd.pd x) (λ pd. refl)
  sdram_feeds fd (x ∷ y ∷ ys) e p h =
      ap (λ m. m >>= λ t. feeds frame_feed t (y ∷ ys)) (frame_feed_sdram fd x e)
      ∙ within-feeds fd (y ∷ ys) (packet_feed fd.pd x) (λ pd.
        sdram_feeds (within fd 1 pd) (y ∷ ys) (ground arith) (omega arith) (omega arith)
        ∙ ap (λ f. feeds packet_feed pd (y ∷ ys) >>= f)
            (fun_ext λ q. ap ok (within-within fd pd q (length (y ∷ ys)))))

  -- A step that goes on has taken the same bytes as the reference, or none when it has finalized a
  -- packet with no data; `pending` counts that one.
  abbrev pub pending : FrameDecoder U → ℕ
  pending fd = if is_pending fd.pd then 1 else 0

  pub record Goes (fd : FrameDecoder U) (buf : Bytes) (fd' : FrameDecoder U) (rest : Bytes)
      : Type 0 where
    pub same : feeds frame_feed fd buf ≡ feeds frame_feed fd' rest
    pub valid : FrameIsValid fd'
    pub bytes : AreBytes rest
    pub less : 2 * length rest + pending fd' < 2 * length buf + pending fd

  abbrev pub StepGoes : FrameDecoder U → Bytes → Step (FrameDecoder U) → Type 0
  StepGoes fd buf (advance fd' rest) = Goes fd buf fd' rest
  StepGoes fd buf (finished fd' rest) = ⊥
  StepGoes fd buf (refused fd') = feeds frame_feed fd buf ≡ rejected fd'.pd
  StepGoes fd buf (broken w) = feeds frame_feed fd buf ≡ stuck w

  pub header-StepGoes :
      (s : FrameState) (fd : FrameDecoder U) (b : ℕ) (bs : Bytes)
      → fd.state ≡ s
      → s ≢ need_sdram_frame_data
      → FrameIsValid fd
      → AreBytes (b ∷ bs)
      → StepGoes fd (b ∷ bs) (frame_step_in s fd b bs)
  unfolding frame_step_in frame_feed
  header-StepGoes need_sdram_frame_data fd b bs e n v h = absurd (n refl)
  header-StepGoes _ fd b bs e n v h = ground arith
