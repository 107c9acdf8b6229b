-- ===== src/Loop/Drain.antt =====
-- How a run of the capture loop of src/cha.c starts and comes to its end.
use libopenvizsla.Prelude.{
  ℕ, zero, suc, ◌≤◌, ◌<◌, ◌≡◌, refl, sym, ◌∙◌, ap, Bool, if◌then◌else◌, true, false, Option, none,
  some, [], ◌∷◌, String, List, length, arith,
}
use libopenvizsla.Loop.State.{with_control, is_running, is_fatal, Loop}
use libopenvizsla.Loop.Callbacks.{loop_ops}
use libopenvizsla.Loop.Transfer.{
  Status, completed, cancelled, errored, Submitted, accepted, rejected, Turn, turned, crashed,
  submit_again, release, cha_loop_transfer_callback,
}
use libopenvizsla.Loop.Turns.{packets_loop-still, LoopCounts, TurnReleases, callback-TurnReleases}
use libopenvizsla.Loop.Run.{Config, start_run}
use libopenvizsla.Loop.Invariant.{IsLive}

module _ {V : Type 0} where
  abbrev pub started : Loop V → Config V
  started loop = record { loop = loop; in_flight = loop.pd.user.active_transfers }

  -- A loop with its own callbacks that is not fatal, and whose first transfer libusb accepts,
  -- starts a run in the invariant, whether the other two are accepted or not and whatever state
  -- the run before ended in.
  pub start_run-IsLive :
      (name : String) (count : ℕ) (second third : Submitted) (loop : Loop V)
      → loop.pd.ops ≡ loop_ops
      → is_fatal loop.pd.user.state ≡ false
      → IsLive (started (start_run name count (accepted ∷ second ∷ third ∷ []) loop))
  unfolding start_run
  start_run-IsLive name count accepted accepted loop h k =
      rw k
        (record { ops_are = h; flights = refl; few = omega arith; ended = refl; busy = λ on. refl })
  start_run-IsLive name count accepted (rejected e) loop h k = rw k (record {
    ops_are = h;
    flights = refl;
    few = omega arith;
    ended = refl;
    busy = λ on. absurd (cc);
  })
  start_run-IsLive name count (rejected e) third loop h k = rw k (record {
    ops_are = h;
    flights = refl;
    few = omega arith;
    ended = refl;
    busy = λ on. absurd (cc);
  })

  -- libusb completes transfers, one for each status in the list. With the loop comes how many of
  -- them were submitted again.
  abbrev pub and_again : Bool → Option (ℕ × Loop V) → Option (ℕ × Loop V)
  and_again again none = none
  and_again again (some (n, loop)) = some (if again then suc n else n, loop)

  abbrev pub then_loop : (Loop V → Option (ℕ × Loop V)) → Turn V → Option (ℕ × Loop V)
  then_loop rest (turned again loop) = and_again again (rest loop)
  then_loop rest (crashed w) = none

  unfoldable pub complete_all : ℕ → List (Status × Submitted) → Loop V → Option (ℕ × Loop V)
  complete_all size [] loop = some (0, loop)
  complete_all size ((status, answer) ∷ events) loop =
      then_loop (complete_all size events) (cha_loop_transfer_callback size status answer loop)

  -- The decoder is as it was, and the program's object and the count are: no decoder was called, and
  -- no callback of the program.
  abbrev pub IsUntouched : Loop V → Loop V → Type 0
  IsUntouched before loop =
      (loop ≡ with_control (λ _. loop.pd.user) before)
      × (loop.pd.user.user_data ≡ before.pd.user.user_data)
      × (loop.pd.user.count ≡ before.pd.user.count)

  trans-IsUntouched : (a b c : Loop V) → IsUntouched a b → IsUntouched b c → IsUntouched a c
  trans-IsUntouched a b c h k = (k.0 ∙ ap (with_control (λ _. c.pd.user)) h.0, k.1 ∙ h.1, k.2 ∙ h.2)

  -- The run is complete, the loop does not run, nothing was submitted again, and nothing was read.
  abbrev pub IsOver : Loop V → Option (ℕ × Loop V) → Type 0
  IsOver before none = ⊥
  IsOver before (some (again, loop)) =
      (loop.pd.user.complete ≡ true)
      × (is_running loop.pd.user.state ≡ false)
      × (again ≡ 0)
      × IsUntouched before loop

  abbrev TurnIsUntouched : Loop V → Turn V → Type 0
  TurnIsUntouched before (turned again loop) = IsUntouched before loop
  TurnIsUntouched before (crashed w) = Unit

  callback-TurnIsUntouched :
      (size : ℕ) (status : Status) (answer : Submitted) (loop : Loop V)
      → is_running loop.pd.user.state ≡ false
      → TurnIsUntouched loop (cha_loop_transfer_callback size status answer loop)
  unfolding cha_loop_transfer_callback submit_again release
  callback-TurnIsUntouched size (completed buf) answer loop still =
      rw (packets_loop-still (length buf) size buf loop (submit_again answer) still, still)
        (refl, refl, refl)
  callback-TurnIsUntouched size cancelled answer loop still = (refl, refl, refl)
  callback-TurnIsUntouched size (errored name) answer loop still = (refl, refl, refl)

  kept-IsOver :
      (a b : Loop V) (r : Option (ℕ × Loop V))
      → IsUntouched a b
      → IsOver b r
      → IsOver a (and_again false r)
  kept-IsOver a b none h k = absurd k
  kept-IsOver a b (some (n, loop)) h k = (k.0, k.1, k.2, trans-IsUntouched a b loop h k.3)

  -- Of `suc n` active transfers one is released.
  drain_turn :
      (size n : ℕ) (events : List (Status × Submitted)) (before : Loop V) (r : Turn V)
      → n < 3
      → length events ≡ n
      → TurnReleases (suc n) r
      → TurnIsUntouched before r
      → ((l : Loop V)
          → is_running l.pd.user.state ≡ false
          → LoopCounts n l
          → 0 < n
          → IsOver l (complete_all size events l))
      → IsOver before (then_loop (complete_all size events) r)
  unfolding complete_all
  drain_turn size n events before (turned true l) few e t u ih = absurd t
  drain_turn size zero [] before (turned false l) few e t u ih = (t.2, t.3, refl, u)
  drain_turn size zero (x ∷ events) before (turned false l) few e t u ih = absurd (omega arith)
  drain_turn size (suc n) events before (turned false l) few e t u ih =
      kept-IsOver before l (complete_all size events l) u
        (ih l t.3 (t.0, (omega (arith, t.1), t.2 ∙ ground arith)) (omega arith))
  drain_turn size n events before (crashed w) few e t u ih = absurd t

  drain :
      (size n : ℕ) (events : List (Status × Submitted)) (loop : Loop V)
      → n ≤ 3
      → 0 < n
      → length events ≡ n
      → is_running loop.pd.user.state ≡ false
      → LoopCounts n loop
      → IsOver loop (complete_all size events loop)
  unfolding complete_all
  drain size n [] loop few some' e still h = absurd (omega arith)
  drain size zero (x ∷ events) loop few some' e still h = absurd (omega arith)
  drain size (suc n) ((status, answer) ∷ events) loop few some' e still h =
      drain_turn size n events loop (cha_loop_transfer_callback size status answer loop) few
        (omega arith)
        (callback-TurnReleases (suc n) size status answer loop (omega arith) (omega arith) still h)
        (callback-TurnIsUntouched size status answer loop still)
        (λ l off counts more. drain size n events l (omega arith) more (omega arith) off counts)

  -- Once the loop is no longer running, the run comes to its end as soon as libusb has completed
  -- every transfer that it has, each in whatever way and with whatever answer to a submission:
  -- none of them is submitted again, no decoder and no callback of the program is called, so that
  -- the decoder, the program's object and the count stay, and the last one completes the run.
  pub complete_all-IsOver :
      (size : ℕ) (events : List (Status × Submitted)) (c : Config V)
      → IsLive c
      → 0 < c.in_flight
      → length events ≡ c.in_flight
      → is_running c.loop.pd.user.state ≡ false
      → IsOver c.loop (complete_all size events c.loop)
  complete_all-IsOver size events c v some' e still =
      drain size c.in_flight events c.loop v.few some' e still
        (v.ops_are, (sym v.flights, v.ended ∙ ground arith))
