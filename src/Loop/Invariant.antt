-- ===== src/Loop/Invariant.antt =====
-- What holds of the capture loop of src/cha.c whatever libusb does: how many transfers are active,
-- and when the loop is complete.
use mathlib.Core.Path.{subst}
use libopenvizsla.Prelude.{
  ℕ, suc, ◌-◌, ◌≤◌, ◌<◌, ◌≡◌, refl, sym, ap, ◌∙◌, ◌==◌, ==_iff, Bool, true, false, Bool-cases, inl,
  inr, some, arith,
}
use libopenvizsla.Loop.State.{is_running, Loop}
use libopenvizsla.Loop.Callbacks.{cha_loop_break, loop_ops}
use libopenvizsla.Loop.Transfer.{Status, Submitted, turned, cha_loop_transfer_callback}
use libopenvizsla.Loop.Turns.{
  LoopCounts, TurnCounts, TurnReleases, callback-TurnCounts, callback-TurnReleases,
}
use libopenvizsla.Loop.Run.{
  IsAllowed, Config, Step, Reach, complete_one, handle_error, break_off, here, step, after_turn,
  finish_run, result_of,
}

minus_one : (n : ℕ) → suc n - 1 ≡ n
minus_one n = omega arith

module _ {V : Type 0} where
  -- The invariant of a run: libusb has the transfers that are counted, the run is complete when
  -- there are none, and while the loop is running there are all three.
  pub record IsLive (c : Config V) : Type 0 where
    pub ops_are : c.loop.pd.ops ≡ loop_ops
    pub flights : c.in_flight ≡ c.loop.pd.user.active_transfers
    pub few : c.in_flight ≤ 3
    pub ended : c.loop.pd.user.complete ≡ (c.in_flight == 0)
    pub busy : is_running c.loop.pd.user.state ≡ true → c.in_flight ≡ 3

  again-IsLive :
      (again : Bool) (l : Loop V) (others : ℕ)
      → others < 3
      → TurnCounts (suc others) (turned again l)
      → (again ≡ true → others ≡ 2)
      → IsLive (after_turn again l others)
  again-IsLive true l others few t full = record {
    ops_are = t.0;
    flights = sym t.1;
    few = omega arith;
    ended = ground (arith, t.2);
    busy = λ on. omega (arith, full refl);
  }
  again-IsLive false l others few t full =
      let left : l.pd.user.active_transfers ≡ others = omega (arith, t.1) in
      record {
        ops_are = t.0;
        flights = sym left;
        few = omega arith;
        ended = t.2 ∙ ap (λ (n : ℕ). n == 0) (minus_one others);
        busy = λ on. absurd (cc (t.3));
      }

  released :
      (again : Bool) (l : Loop V) (others : ℕ)
      → others < 3
      → TurnReleases (suc others) (turned again l)
      → IsLive (after_turn again l others)
  released true l others few t = absurd t
  released false l others few t = again-IsLive false l others few t (λ e. absurd (cc))

  pub IsLive-counts :
      (c : Config V) (others : ℕ)
      → IsLive c
      → c.in_flight ≡ suc others
      → LoopCounts (suc others) c.loop
  IsLive-counts c others v e = (v.ops_are, (sym v.flights ∙ e, v.ended ∙ rw e (ground arith)))

  turn-IsLive :
      (size others : ℕ) (status : Status) (answer : Submitted) (c : Config V) (again : Bool)
      (l : Loop V)
      → IsLive c
      → c.in_flight ≡ suc others
      → IsAllowed status c.loop.pd.user
      → cha_loop_transfer_callback size status answer c.loop ≡ turned again l
      → IsLive (after_turn again l others)
  turn-IsLive size others status answer c again l v e may t =
      let few : suc others ≤ 3 = omega (arith, v.few) in
      let counts = IsLive-counts c others v e in
      elim (Bool-cases (is_running c.loop.pd.user.state)) [
        | inl on ↦
            again-IsLive again l others few
              (subst (TurnCounts (suc others)) t (
                callback-TurnCounts (suc others) size status answer c.loop (omega arith)
                  (omega arith) may counts))
              (λ a. omega (arith, v.busy on))
        | inr off ↦ released again l others few (
            subst (TurnReleases (suc others)) t (
              callback-TurnReleases (suc others) size status answer c.loop (omega arith)
                (omega arith) off counts))
      ]

  Step-IsLive : {size : ℕ} {c d : Config V} → Step size c d → IsLive c → IsLive d
  unfolding cha_loop_break
  Step-IsLive {size} (complete_one {c} {again} {loop'} others status answer e may t) v =
      turn-IsLive size others status answer c again loop' v e may t
  Step-IsLive (handle_error name) v = record {
    ops_are = v.ops_are;
    flights = v.flights;
    few = v.few;
    ended = v.ended;
    busy = λ on. absurd (cc);
  }
  Step-IsLive (break_off) v = record {
    ops_are = v.ops_are;
    flights = v.flights;
    few = v.few;
    ended = v.ended;
    busy = λ on. absurd (cc);
  }

  pub Reach-IsLive : {size : ℕ} {c d : Config V} → IsLive c → Reach size c d → IsLive d
  Reach-IsLive v here = v
  Reach-IsLive v (step r more s) = Step-IsLive s (Reach-IsLive v r)

  -- From a run that has started, however libusb completes the transfers and whenever the program
  -- breaks off: when the run is complete, both assertions of cha_loop_run hold, so that it returns,
  -- and libusb has no transfer left.
  pub finish_run-Reach :
      (size : ℕ) (c d : Config V)
      → IsLive c
      → Reach size c d
      → d.loop.pd.user.complete ≡ true
      → (finish_run d.loop.pd.user ≡ some (result_of d.loop.pd.user.state d.loop.pd.user.count))
        × (d.in_flight ≡ 0)
  unfolding finish_run
  finish_run-Reach size c d v r h =
      let w = Reach-IsLive v r in
      let over : d.in_flight ≡ 0 = (==_iff d.in_flight 0).0 (sym w.ended ∙ h) in
      let still : is_running d.loop.pd.user.state ≡ false =
        elim (Bool-cases (is_running d.loop.pd.user.state)) [
          | inl on ↦ absurd (omega (arith, w.busy on))
          | inr off ↦ off
        ] in
      let idle : d.loop.pd.user.active_transfers ≡ 0 = sym w.flights ∙ over in
      (rw (still, idle) refl, over)
