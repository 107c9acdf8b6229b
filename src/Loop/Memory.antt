-- ===== src/Loop/Memory.antt =====
-- What the transfers of src/cha.c hand to the decoder, and that the decoder survives it.
use libopenvizsla.Prelude.{
  ℕ, zero, suc, ◌≤◌, ◌<◌, ◌≡◌, min, ltb, true, Bool-cases, inl, inr, [], ◌∷◌, Bytes, AreBytes,
  length, take, drop, length-drop, arith,
}
use libopenvizsla.Decoder.State.{FrameDecoder, Outcome, done, failed, fault, is_negative}
use libopenvizsla.Decoder.Frame.{frame_decoder_proc}
use libopenvizsla.Decoder.Valid.{FrameIsValid}
use libopenvizsla.Decoder.Chunks.{IsRead, frame_decoder_proc-IsRead}
use libopenvizsla.Decoder.Safety.{HasRoom, IsSafe, frame_decoder_proc-IsSafe}
use libopenvizsla.Loop.State.{is_running, Control, Loop}
use libopenvizsla.Loop.Run.{IsAllowed}
use libopenvizsla.Loop.Transfer.{
  Status, completed, cancelled, errored, Submitted, accepted, rejected, Turn, turned, crashed,
  fatal, release, decoded_by, decode_packet, packets_loop, submit_answer, submit_again,
  cha_loop_transfer_callback,
}

take-AreBytes : (n : ℕ) (bs : Bytes) → AreBytes bs → AreBytes (take n bs)
take-AreBytes zero bs h = tt
take-AreBytes (suc n) [] h = tt
take-AreBytes (suc n) (b ∷ bs) h = (h.0, take-AreBytes n bs h.1)

drop-AreBytes : (n : ℕ) (bs : Bytes) → AreBytes bs → AreBytes (drop n bs)
drop-AreBytes zero bs h = h
drop-AreBytes (suc n) [] h = tt
drop-AreBytes (suc n) (b ∷ bs) h = drop-AreBytes n bs h.1

abbrev pub StatusIsBytes : Status → Type 0
StatusIsBytes (completed buf) = AreBytes buf
StatusIsBytes _ = Unit

module _ {V : Type 0} where
  -- The decoder is valid, and its packet has room for all that can be announced.
  abbrev pub IsReady : Loop V → Type 0
  IsReady loop = FrameIsValid loop × HasRoom loop.pd

  -- The loop reads on only with a decoder that is ready.
  abbrev pub ReadsReady : Loop V → Type 0
  ReadsReady loop = is_running loop.pd.user.state ≡ true → IsReady loop

  abbrev pub TurnIsSafe : Turn V → Type 0
  TurnIsSafe (turned again loop) = ReadsReady loop
  TurnIsSafe (crashed w) = ⊥

  submit_again-TurnIsSafe :
      (answer : Submitted) (loop : Loop V) → ReadsReady loop → TurnIsSafe (submit_again answer loop)
  unfolding submit_again submit_answer release
  submit_again-TurnIsSafe accepted loop h = elim (Bool-cases (is_running loop.pd.user.state)) [
    | inl on ↦ rw on h
    | inr off ↦ rw off (λ on. absurd (cc))
  ]
  submit_again-TurnIsSafe (rejected name) loop h =
      elim (Bool-cases (is_running loop.pd.user.state)) [
        | inl on ↦ rw on (λ e. absurd (cc))
        | inr off ↦ rw off (λ on. absurd (cc))
      ]

  decoded_by-TurnIsSafe :
      (n : ℕ) (r : Outcome (FrameDecoder (Control V))) (next : Loop V → Turn V)
      → IsRead n r
      → IsSafe r
      → ((l : Loop V) → ReadsReady l → TurnIsSafe (next l))
      → TurnIsSafe (decoded_by r next)
  decoded_by-TurnIsSafe n (done k loop) next w s h = elim (Bool-cases (is_negative k)) [
    | inl below ↦ rw below (h (fatal loop.pd.error_str loop) (λ on. absurd (cc)))
    | inr good ↦ rw good (h loop (λ on. (w.1, s)))
  ]
  decoded_by-TurnIsSafe n (failed loop) next w s h =
      h (fatal loop.pd.error_str loop) (λ on. absurd (cc))
  decoded_by-TurnIsSafe n (fault f) next w s h = absurd s

  decode_packet-TurnIsSafe :
      (packet : Bytes) (loop : Loop V) (next : Loop V → Turn V)
      → AreBytes packet
      → IsReady loop
      → ((l : Loop V) → ReadsReady l → TurnIsSafe (next l))
      → TurnIsSafe (decode_packet packet loop next)
  unfolding decode_packet
  decode_packet-TurnIsSafe packet loop next b v h = elim (Bool-cases (ltb 2 (length packet))) [
    | inl full ↦
        let rest = drop 2 packet in
        rw full (
          decoded_by-TurnIsSafe (length rest) (frame_decoder_proc loop rest) next
            (frame_decoder_proc-IsRead loop rest v.0 (drop-AreBytes 2 packet b))
            (frame_decoder_proc-IsSafe loop rest v.0 v.1 (drop-AreBytes 2 packet b)) h)
    | inr bare ↦ rw bare (h loop (λ on. v))
  ]

  packets_loop-TurnIsSafe :
      (fuel size : ℕ) (buf : Bytes) (loop : Loop V) (next : Loop V → Turn V)
      → 0 < size
      → length buf ≤ fuel
      → AreBytes buf
      → ReadsReady loop
      → ((l : Loop V) → ReadsReady l → TurnIsSafe (next l))
      → TurnIsSafe (packets_loop fuel size buf loop next)
  unfolding packets_loop
  packets_loop-TurnIsSafe zero size [] loop next pos enough b v h = h loop v
  packets_loop-TurnIsSafe (suc fuel) size [] loop next pos enough b v h = h loop v
  packets_loop-TurnIsSafe zero size (x ∷ bs) loop next pos enough b v h = absurd (omega arith)
  packets_loop-TurnIsSafe (suc fuel) size (x ∷ bs) loop next pos enough b v h =
      let n = min (length (x ∷ bs)) size in
      elim (Bool-cases (is_running loop.pd.user.state)) [
        | inl on ↦ rw on (
            decode_packet-TurnIsSafe (take n (x ∷ bs)) loop _ (take-AreBytes n (x ∷ bs) b) (v on)
              (λ l hl.
                packets_loop-TurnIsSafe fuel size (drop n (x ∷ bs)) l next pos
                  (ground (arith, length-drop n (x ∷ bs))) (drop-AreBytes n (x ∷ bs) b) hl h))
        | inr off ↦ rw off (h loop v)
      ]

  -- A running loop with a valid decoder whose packet has room for 8191 bytes of data takes every
  -- completed transfer of bytes, cut into USB packets of a positive size, and every failure, and a
  -- loop that no longer runs takes every cancellation: the callback returns, without a write outside the packet's object or a failed
  -- assertion, and if the loop is still running, the same holds of it again.
  pub cha_loop_transfer_callback-TurnIsSafe :
      (size : ℕ) (status : Status) (answer : Submitted) (loop : Loop V)
      → 0 < size
      → StatusIsBytes status
      → IsAllowed status loop.pd.user
      → ReadsReady loop
      → TurnIsSafe (cha_loop_transfer_callback size status answer loop)
  unfolding cha_loop_transfer_callback release
  cha_loop_transfer_callback-TurnIsSafe size (completed buf) answer loop pos b may v =
      packets_loop-TurnIsSafe (length buf) size buf loop (submit_again answer) pos (omega arith) b v
        (submit_again-TurnIsSafe answer)
  cha_loop_transfer_callback-TurnIsSafe size cancelled answer loop pos b may v = λ on. absurd (cc)
  cha_loop_transfer_callback-TurnIsSafe size (errored name) answer loop pos b may v =
      λ on. absurd (cc)
