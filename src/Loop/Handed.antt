-- ===== src/Loop/Handed.antt =====
-- The packets that a run of cha_loop_run of src/cha.c hands to the program's callback.
use mathlib.Core.Path.{subst}
use libopenvizsla.Prelude.{
  ℕ, zero, suc, ◌≡◌, refl, sym, ap, ◌∙◌, ltb, min, Bool, true, false, Bool-cases, inl, inr, some,
  List, [], ◌∷◌, ◌++◌, Bytes, String, length, take, drop, ◌%◌, ◌^◌, ◌==◌, ◌&&◌,
}
use libopenvizsla.Decoder.State.{
  Packet, FrameDecoder, Outcome, done, failed, fault, is_negative, has_flag, ov_flags_hf0_last,
}
use libopenvizsla.Reg.State.{addr_of, sdram_host_read_go}
use libopenvizsla.Decoder.Frame.{frame_decoder_proc}
use libopenvizsla.Decoder.Users.{KeepUser, OutcomeHas, frame_decoder_proc-OutcomeHas}
use libopenvizsla.Loop.State.{is_running, is_fatal, Control, Loop}
use libopenvizsla.Loop.Callbacks.{
  cha_loop_break, called, call_user, count_packet, note_last, cha_loop_packet_callback,
  cha_loop_bus_frame_callback, loop_ops,
}
use libopenvizsla.Loop.Limit.{fed}
use libopenvizsla.Loop.Transfer.{
  Status, completed, cancelled, errored, Submitted, accepted, rejected, Turn, turned, crashed,
  fatal, release, decoded_by, decode_packet, packets_loop, submit_answer, submit_again,
  cha_loop_transfer_callback,
}
use libopenvizsla.Loop.Run.{
  Config, Step, Reach, complete_one, handle_error, break_off, here, step, start_run, submit_all,
  Returned,
}
use libopenvizsla.Loop.Ran.{Ran, ran_fatal, ran_through}

module _ {V : Type 0} (f : Packet → V → V × Bool) (v : V) where
  -- The object is what the callback makes of `v` by some packets, one after the other.
  pub record IsHanded (u : V) : Type 0 where
    pub packets : List Packet
    pub made : u ≡ fed f packets v

  fed-append :
      (ps : List Packet) (p : Packet) (w : V) → fed f (ps ++ (p ∷ [])) w ≡ (f p (fed f ps w)).0
  fed-append [] p w = refl
  fed-append (q ∷ ps) p w = fed-append ps p (f q w).0

  one_more-IsHanded : (p : Packet) (u : V) → IsHanded u → IsHanded (f p u).0
  one_more-IsHanded p u h = record {
    packets = h.packets ++ (p ∷ []);
    made = ap (λ w. (f p w).0) h.made ∙ sym (fed-append h.packets p v);
  }

  -- The loop's callback is `f`, and the object is as it made it.
  abbrev pub Hands : Control V → Type 0
  Hands c = (c.callback ≡ some f) × IsHanded c.user_data

  called-Hands :
      (r : V × Bool) (c : Control V) → c.callback ≡ some f → IsHanded r.0 → Hands (called r c)
  unfolding called cha_loop_break
  called-Hands (u, true) c h k = (h, k)
  called-Hands (u, false) c h k = (h, k)

  call_user-Hands : (p : Packet) (c : Control V) → Hands c → Hands (call_user (some f) p c)
  unfolding call_user
  call_user-Hands p c h = called-Hands (f p c.user_data) c h.0 (one_more-IsHanded p c.user_data h.1)

  count_packet-Hands : (c : Control V) → Hands c → Hands (count_packet c)
  count_packet-Hands c h = elim (Bool-cases (ltb 0 c.max_count)) [
    | inl on ↦ rw on h
    | inr off ↦ rw off h
  ]

  note_last-Hands : (p : Packet) (c : Control V) → Hands c → Hands (note_last p c)
  note_last-Hands p c h = elim (Bool-cases (has_flag p.flags ov_flags_hf0_last)) [
    | inl last ↦ rw last h
    | inr more ↦ rw more h
  ]

  packet-Hands : (p : Packet) (c : Control V) → Hands c → Hands (cha_loop_packet_callback p c)
  unfolding cha_loop_packet_callback
  packet-Hands p c h = elim (Bool-cases (is_running c.state)) [
    | inl on ↦ rw on (
        subst (λ g. Hands (note_last p (count_packet (call_user g p c)))) (sym h.0)
          (note_last-Hands p (count_packet (call_user (some f) p c))
            (count_packet-Hands (call_user (some f) p c) (call_user-Hands p c h))))
    | inr off ↦ rw off h
  ]

  bus-Hands :
      (addr value : ℕ) (c : Control V) → Hands c → Hands (cha_loop_bus_frame_callback addr value c)
  unfolding cha_loop_bus_frame_callback
  bus-Hands addr value c h =
      elim (Bool-cases ((addr % 2 ^ 15 == addr_of c.reg sdram_host_read_go) && (value == 0))) [
        | inl off ↦ rw off h
        | inr other ↦ rw other h
      ]

  keep-Hands : KeepUser {U = Control V} loop_ops Hands
  keep-Hands = record { packet_keeps = packet-Hands; bus_keeps = bus-Hands }

  abbrev pub LoopHands : Loop V → Type 0
  LoopHands loop = (loop.pd.ops ≡ loop_ops) × Hands loop.pd.user

  abbrev pub TurnHands : Turn V → Type 0
  TurnHands (turned again l) = LoopHands l
  TurnHands (crashed w) = Unit

  answer-TurnHands :
      (answer : Submitted) (loop : Loop V) → LoopHands loop → TurnHands (submit_again answer loop)
  unfolding submit_again submit_answer release
  answer-TurnHands accepted loop h = elim (Bool-cases (is_running loop.pd.user.state)) [
    | inl on ↦ rw on h
    | inr off ↦ rw off h
  ]
  answer-TurnHands (rejected name) loop h = elim (Bool-cases (is_running loop.pd.user.state)) [
    | inl on ↦ rw on h
    | inr off ↦ rw off h
  ]

  decoded_by-TurnHands :
      (r : Outcome (FrameDecoder (Control V))) (next : Loop V → Turn V)
      → OutcomeHas loop_ops Hands (λ (d : FrameDecoder (Control V)). d.pd) r
      → ((l : Loop V) → LoopHands l → TurnHands (next l))
      → TurnHands (decoded_by r next)
  decoded_by-TurnHands (done n loop) next h k = elim (Bool-cases (is_negative n)) [
    | inl below ↦ rw below (k (fatal loop.pd.error_str loop) h)
    | inr good ↦ rw good (k loop h)
  ]
  decoded_by-TurnHands (failed loop) next h k = k (fatal loop.pd.error_str loop) h
  decoded_by-TurnHands (fault w) next h k = tt

  decode_packet-TurnHands :
      (packet : Bytes) (loop : Loop V) (next : Loop V → Turn V)
      → LoopHands loop
      → ((l : Loop V) → LoopHands l → TurnHands (next l))
      → TurnHands (decode_packet packet loop next)
  unfolding decode_packet
  decode_packet-TurnHands packet loop next h k = elim (Bool-cases (ltb 2 (length packet))) [
    | inl full ↦ rw full (
        decoded_by-TurnHands (frame_decoder_proc loop (drop 2 packet)) next
          (frame_decoder_proc-OutcomeHas loop_ops Hands keep-Hands loop (drop 2 packet) h) k)
    | inr bare ↦ rw bare (k loop h)
  ]

  packets_loop-TurnHands :
      (fuel size : ℕ) (buf : Bytes) (loop : Loop V) (next : Loop V → Turn V)
      → LoopHands loop
      → ((l : Loop V) → LoopHands l → TurnHands (next l))
      → TurnHands (packets_loop fuel size buf loop next)
  unfolding packets_loop
  packets_loop-TurnHands zero size [] loop next h k = k loop h
  packets_loop-TurnHands (suc fuel) size [] loop next h k = k loop h
  packets_loop-TurnHands zero size (b ∷ bs) loop next h k =
      elim (Bool-cases (is_running loop.pd.user.state)) [
        | inl on ↦ rw on tt
        | inr off ↦ rw off (k loop h)
      ]
  packets_loop-TurnHands (suc fuel) size (b ∷ bs) loop next h k =
      let n = min (length (b ∷ bs)) size in
      elim (Bool-cases (is_running loop.pd.user.state)) [
        | inl on ↦ rw on (
            decode_packet-TurnHands (take n (b ∷ bs)) loop _ h
              (λ l hl. packets_loop-TurnHands fuel size (drop n (b ∷ bs)) l next hl k))
        | inr off ↦ rw off (k loop h)
      ]

  callback-TurnHands :
      (size : ℕ) (status : Status) (answer : Submitted) (loop : Loop V)
      → LoopHands loop
      → TurnHands (cha_loop_transfer_callback size status answer loop)
  unfolding cha_loop_transfer_callback release
  callback-TurnHands size (completed buf) answer loop h =
      packets_loop-TurnHands (length buf) size buf loop (submit_again answer) h
        (answer-TurnHands answer)
  callback-TurnHands size cancelled answer loop h = h
  callback-TurnHands size (errored name) answer loop h = h

  Step-LoopHands : {size : ℕ} {c d : Config V} → Step size c d → LoopHands c.loop → LoopHands d.loop
  unfolding cha_loop_break
  Step-LoopHands {size} (complete_one {c} {again} {loop'} others status answer e may t) h =
      subst TurnHands t (callback-TurnHands size status answer c.loop h)
  Step-LoopHands (handle_error name) h = h
  Step-LoopHands (break_off) h = h

  Reach-LoopHands :
      {size : ℕ} {c d : Config V} → LoopHands c.loop → Reach size c d → LoopHands d.loop
  Reach-LoopHands h here = h
  Reach-LoopHands h (step r more s) = Step-LoopHands s (Reach-LoopHands h r)

  submit_all-LoopHands :
      (no_error : String) (answers : List Submitted) (loop : Loop V)
      → LoopHands loop
      → LoopHands (submit_all no_error answers loop)
  unfolding submit_all
  submit_all-LoopHands no_error [] loop h = h
  submit_all-LoopHands no_error (accepted ∷ answers) loop h =
      submit_all-LoopHands no_error answers _ h
  submit_all-LoopHands no_error (rejected name ∷ answers) loop h = h

  start_run-LoopHands :
      (no_error : String) (count : ℕ) (answers : List Submitted) (loop : Loop V)
      → LoopHands loop
      → LoopHands (start_run no_error count answers loop)
  unfolding start_run
  start_run-LoopHands no_error count answers loop h =
      elim (Bool-cases (is_fatal loop.pd.user.state)) [
        | inl bad ↦ rw bad h
        | inr good ↦ rw good (submit_all-LoopHands no_error answers _ h)
      ]

  -- A call of cha_loop_run that returns has called the program's callback on some packets, one after
  -- the other, and has changed nothing else behind `user_data`.
  pub Ran-IsHanded :
      {size : ℕ} {no_error : String} {count : ℕ} {loop loop' : Loop V} {r : Returned}
      → LoopHands loop
      → Ran size no_error count loop loop' r
      → IsHanded loop'.pd.user.user_data
  Ran-IsHanded {no_error = no_error} {count} {loop} h (ran_fatal g) =
      (start_run-LoopHands no_error count [] loop h).1.1
  Ran-IsHanded {no_error = no_error} {count} {loop} h
        (ran_through {d} second third g reach over e) =
      (Reach-LoopHands (start_run-LoopHands no_error count (accepted ∷ second ∷ third ∷ []) loop h)
        reach).1.1

module _ {V : Type 0} where
  -- The call of cha_loop_run, without a limit, is a run that returns, and `ps` are the packets on
  -- which it calls the callback `f`. Every run has such packets: see Ran-IsHanded.
  pub record RunsOn (f : Packet → V → V × Bool) (ps : List Packet) (loop : Loop V)
      (run : Loop V × Returned) : Type 0 where
    pub size : ℕ
    pub no_error : String
    pub ran : Ran size no_error 0 loop run.0 run.1
    pub made : run.0.pd.user.user_data ≡ fed f ps loop.pd.user.user_data
