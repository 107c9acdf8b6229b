-- ===== src/Loop/Turns.antt =====
-- What one call of cha_loop_transfer_callback of src/cha.c does to the number of active transfers.
use libopenvizsla.Prelude.{
  ℕ, zero, suc, ◌+◌, ◌-◌, ◌%◌, ◌^◌, ◌<◌, ◌≡◌, refl, ap, ◌==◌, ltb, min, Bool, true, false,
  Bool-cases, inl, inr, Option, none, some, [], ◌∷◌, Bytes, length, take, drop, arith,
}
use libopenvizsla.Decoder.State.{Packet, FrameDecoder, Outcome, done, failed, fault, is_negative}
use libopenvizsla.Decoder.Frame.{frame_decoder_proc}
use libopenvizsla.Decoder.Users.{KeepUser, OutcomeHas, frame_decoder_proc-OutcomeHas}
use libopenvizsla.Loop.State.{is_running, Control, Loop}
use libopenvizsla.Loop.Callbacks.{
  cha_loop_break, called, call_user, count_packet, note_last, cha_loop_packet_callback,
  cha_loop_bus_frame_callback, loop_ops,
}
use libopenvizsla.Loop.Transfer.{
  Status, completed, cancelled, errored, Submitted, accepted, rejected, Turn, turned, crashed,
  fatal, release, decoded_by, decode_packet, packets_loop, submit_answer, submit_again,
  cha_loop_transfer_callback,
}
use libopenvizsla.Loop.Run.{IsAllowed}

module _ {V : Type 0} where
  -- `a` transfers are active, and the loop is not complete.
  abbrev pub Counts : ℕ → Control V → Type 0
  Counts a c = (c.active_transfers ≡ a) × (c.complete ≡ false)

  called-Counts : (a : ℕ) (r : V × Bool) (c : Control V) → Counts a c → Counts a (called r c)
  unfolding called cha_loop_break
  called-Counts a (v, true) c h = h
  called-Counts a (v, false) c h = h

  call_user-Counts :
      (a : ℕ) (f : Option (Packet → V → V × Bool)) (p : Packet) (c : Control V)
      → Counts a c
      → Counts a (call_user f p c)
  unfolding call_user
  call_user-Counts a none p c h = h
  call_user-Counts a (some f) p c h = called-Counts a (f p c.user_data) c h

  marked-Counts :
      (a : ℕ) (p : Packet) (c : Control V) → Counts a c → Counts a (note_last p (count_packet c))
  marked-Counts a p c h = ground arith

  packet_keeps :
      (a : ℕ) (p : Packet) (c : Control V) → Counts a c → Counts a (cha_loop_packet_callback p c)
  unfolding cha_loop_packet_callback
  packet_keeps a p c h = elim (Bool-cases (is_running c.state)) [
    | inl on ↦
        rw on (marked-Counts a p (call_user c.callback p c) (call_user-Counts a c.callback p c h))
    | inr off ↦ rw off h
  ]

  bus_keeps :
      (a addr value : ℕ) (c : Control V)
      → Counts a c
      → Counts a (cha_loop_bus_frame_callback addr value c)
  unfolding cha_loop_bus_frame_callback
  bus_keeps a addr value c h = ground arith

  keep-Counts : (a : ℕ) → KeepUser {U = Control V} loop_ops (Counts a)
  keep-Counts a = record { packet_keeps = packet_keeps a; bus_keeps = bus_keeps a }

  abbrev pub LoopCounts : ℕ → Loop V → Type 0
  LoopCounts a loop = (loop.pd.ops ≡ loop_ops) × Counts a loop.pd.user

  -- What a turn leaves of `a` active transfers.
  abbrev pub TurnCounts : ℕ → Turn V → Type 0
  TurnCounts a (turned true l) =
      (l.pd.ops ≡ loop_ops) × (l.pd.user.active_transfers ≡ a) × (l.pd.user.complete ≡ false)
  TurnCounts a (turned false l) =
      (l.pd.ops ≡ loop_ops)
      × (l.pd.user.active_transfers ≡ a - 1)
      × (l.pd.user.complete ≡ (a - 1 == 0))
      × (is_running l.pd.user.state ≡ false)
  TurnCounts a (crashed w) = Unit

  release-TurnCounts :
      (a : ℕ) (loop : Loop V)
      → 0 < a
      → a < 2 ^ 64
      → is_running loop.pd.user.state ≡ false
      → LoopCounts a loop
      → TurnCounts a (release loop)
  unfolding release
  release-TurnCounts a loop some' fits still h =
      let left : (loop.pd.user.active_transfers + 2 ^ 64 - 1) % 2 ^ 64 ≡ a - 1 =
        omega (arith, h.1.0) in
      (h.0, left, ap (λ (n : ℕ). n == 0) left, still)

  answer-TurnCounts :
      (a : ℕ) (answer : Submitted) (loop : Loop V)
      → 0 < a
      → a < 2 ^ 64
      → LoopCounts a loop
      → TurnCounts a (submit_answer answer loop)
  unfolding submit_answer
  answer-TurnCounts a accepted loop some' fits h = (h.0, h.1.0, h.1.1)
  answer-TurnCounts a (rejected name) loop some' fits h =
      release-TurnCounts a (fatal (some name) loop) some' fits refl h

  submit_again-TurnCounts :
      (a : ℕ) (answer : Submitted) (loop : Loop V)
      → 0 < a
      → a < 2 ^ 64
      → LoopCounts a loop
      → TurnCounts a (submit_again answer loop)
  unfolding submit_again
  submit_again-TurnCounts a answer loop some' fits h =
      elim (Bool-cases (is_running loop.pd.user.state)) [
        | inl on ↦ rw on (answer-TurnCounts a answer loop some' fits h)
        | inr off ↦ rw off (release-TurnCounts a loop some' fits off h)
      ]

  decoded_by-TurnCounts :
      (a : ℕ) (r : Outcome (FrameDecoder (Control V))) (next : Loop V → Turn V)
      → OutcomeHas loop_ops (Counts a) (λ (f : FrameDecoder (Control V)). f.pd) r
      → ((l : Loop V) → LoopCounts a l → TurnCounts a (next l))
      → TurnCounts a (decoded_by r next)
  decoded_by-TurnCounts a (done n loop) next h k = elim (Bool-cases (is_negative n)) [
    | inl below ↦ rw below (k (fatal loop.pd.error_str loop) h)
    | inr good ↦ rw good (k loop h)
  ]
  decoded_by-TurnCounts a (failed loop) next h k = k (fatal loop.pd.error_str loop) h
  decoded_by-TurnCounts a (fault w) next h k = tt

  decode_packet-TurnCounts :
      (a : ℕ) (packet : Bytes) (loop : Loop V) (next : Loop V → Turn V)
      → LoopCounts a loop
      → ((l : Loop V) → LoopCounts a l → TurnCounts a (next l))
      → TurnCounts a (decode_packet packet loop next)
  unfolding decode_packet
  decode_packet-TurnCounts a packet loop next h k = elim (Bool-cases (ltb 2 (length packet))) [
    | inl full ↦ rw full (
        decoded_by-TurnCounts a (frame_decoder_proc loop (drop 2 packet)) next
          (frame_decoder_proc-OutcomeHas loop_ops (Counts a) (keep-Counts a) loop (drop 2 packet) h)
          k)
    | inr bare ↦ rw bare (k loop h)
  ]

  packets_loop-TurnCounts :
      (a fuel size : ℕ) (buf : Bytes) (loop : Loop V) (next : Loop V → Turn V)
      → LoopCounts a loop
      → ((l : Loop V) → LoopCounts a l → TurnCounts a (next l))
      → TurnCounts a (packets_loop fuel size buf loop next)
  unfolding packets_loop
  packets_loop-TurnCounts a zero size [] loop next h k = k loop h
  packets_loop-TurnCounts a (suc fuel) size [] loop next h k = k loop h
  packets_loop-TurnCounts a zero size (b ∷ bs) loop next h k =
      elim (Bool-cases (is_running loop.pd.user.state)) [
        | inl on ↦ rw on tt
        | inr off ↦ rw off (k loop h)
      ]
  packets_loop-TurnCounts a (suc fuel) size (b ∷ bs) loop next h k =
      let n = min (length (b ∷ bs)) size in
      elim (Bool-cases (is_running loop.pd.user.state)) [
        | inl on ↦ rw on (
            decode_packet-TurnCounts a (take n (b ∷ bs)) loop _ h
              (λ l hl. packets_loop-TurnCounts a fuel size (drop n (b ∷ bs)) l next hl k))
        | inr off ↦ rw off (k loop h)
      ]

  -- A loop that is not running reads nothing.
  pub packets_loop-still :
      (fuel size : ℕ) (buf : Bytes) (loop : Loop V) (next : Loop V → Turn V)
      → is_running loop.pd.user.state ≡ false
      → packets_loop fuel size buf loop next ≡ next loop
  unfolding packets_loop
  packets_loop-still zero size [] loop next h = refl
  packets_loop-still (suc fuel) size [] loop next h = refl
  packets_loop-still zero size (b ∷ bs) loop next h = rw h
  packets_loop-still (suc fuel) size (b ∷ bs) loop next h = rw h

  pub callback-TurnCounts :
      (a size : ℕ) (status : Status) (answer : Submitted) (loop : Loop V)
      → 0 < a
      → a < 2 ^ 64
      → IsAllowed status loop.pd.user
      → LoopCounts a loop
      → TurnCounts a (cha_loop_transfer_callback size status answer loop)
  unfolding cha_loop_transfer_callback
  callback-TurnCounts a size (completed buf) answer loop some' fits may h =
      packets_loop-TurnCounts a (length buf) size buf loop (submit_again answer) h
        (λ l hl. submit_again-TurnCounts a answer l some' fits hl)
  callback-TurnCounts a size cancelled answer loop some' fits may h =
      release-TurnCounts a loop some' fits may h
  callback-TurnCounts a size (errored name) answer loop some' fits may h =
      release-TurnCounts a (fatal (some name) loop) some' fits refl h

  -- A loop that is no longer running submits nothing again.
  abbrev pub TurnReleases : ℕ → Turn V → Type 0
  TurnReleases a (turned true l) = ⊥
  TurnReleases a (turned false l) = TurnCounts a (turned false l)
  TurnReleases a (crashed w) = ⊥

  pub callback-TurnReleases :
      (a size : ℕ) (status : Status) (answer : Submitted) (loop : Loop V)
      → 0 < a
      → a < 2 ^ 64
      → is_running loop.pd.user.state ≡ false
      → LoopCounts a loop
      → TurnReleases a (cha_loop_transfer_callback size status answer loop)
  unfolding cha_loop_transfer_callback submit_again release
  callback-TurnReleases a size (completed buf) answer loop some' fits still h =
      rw (packets_loop-still (length buf) size buf loop (submit_again answer) still, still)
        (release-TurnCounts a loop some' fits still h)
  callback-TurnReleases a size cancelled answer loop some' fits still h =
      release-TurnCounts a loop some' fits still h
  callback-TurnReleases a size (errored name) answer loop some' fits still h =
      release-TurnCounts a (fatal (some name) loop) some' fits refl h
