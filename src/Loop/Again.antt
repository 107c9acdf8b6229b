-- ===== src/Loop/Again.antt =====
-- What a call of cha_loop_run of src/cha.c does on a loop that a call before has ended.
use mathlib.Core.Path.{subst}
use libopenvizsla.Prelude.{ℕ, ◌≡◌, refl, false, List, [], ◌∷◌, String, length}
use libopenvizsla.Loop.State.{is_running, is_fatal, Loop}
use libopenvizsla.Loop.Callbacks.{cha_loop_break}
use libopenvizsla.Loop.Transfer.{
  Status, completed, cancelled, errored, Submitted, accepted, rejected, Turn, turned, crashed,
  submit_again, release, cha_loop_transfer_callback,
}
use libopenvizsla.Loop.Turns.{packets_loop-still}
use libopenvizsla.Loop.Run.{
  Config, Step, complete_one, handle_error, break_off, Reach, here, step, Returned, start_run,
  submit_all,
}
use libopenvizsla.Loop.Ran.{Ran, ran_fatal, ran_through}

module _ {V : Type 0} (v : V) where
  -- The loop does not run, it has counted nothing, and the program's object is `v`.
  abbrev pub IsStill : Loop V → Type 0
  IsStill loop =
      (is_running loop.pd.user.state ≡ false)
      × (loop.pd.user.user_data ≡ v)
      × (loop.pd.user.count ≡ 0)

  abbrev TurnIsStill : Turn V → Type 0
  TurnIsStill (turned again loop) = IsStill loop
  TurnIsStill (crashed w) = Unit

  callback-TurnIsStill :
      (size : ℕ) (status : Status) (answer : Submitted) (loop : Loop V)
      → IsStill loop
      → TurnIsStill (cha_loop_transfer_callback size status answer loop)
  unfolding cha_loop_transfer_callback submit_again release
  callback-TurnIsStill size (completed buf) answer loop h =
      rw (packets_loop-still (length buf) size buf loop (submit_again answer) h.0, h.0) h
  callback-TurnIsStill size cancelled answer loop h = h
  callback-TurnIsStill size (errored name) answer loop h = (refl, h.1, h.2)

  Step-IsStill : {size : ℕ} {c d : Config V} → Step size c d → IsStill c.loop → IsStill d.loop
  unfolding cha_loop_break
  Step-IsStill {size} (complete_one {c} {again} {loop'} others status answer e may t) h =
      subst TurnIsStill t (callback-TurnIsStill size status answer c.loop h)
  Step-IsStill (handle_error name) h = (refl, h.1, h.2)
  Step-IsStill (break_off) h = (refl, h.1, h.2)

  Reach-IsStill : {size : ℕ} {c d : Config V} → IsStill c.loop → Reach size c d → IsStill d.loop
  Reach-IsStill h here = h
  Reach-IsStill h (step r more s) = Step-IsStill s (Reach-IsStill h r)

  submit_all-IsStill :
      (no_error : String) (answers : List Submitted) (loop : Loop V)
      → IsStill loop
      → IsStill (submit_all no_error answers loop)
  unfolding submit_all
  submit_all-IsStill no_error [] loop h = h
  submit_all-IsStill no_error (accepted ∷ answers) loop h = submit_all-IsStill no_error answers _ h
  submit_all-IsStill no_error (rejected name ∷ answers) loop h = (refl, h.1, h.2)

  start_run-IsStill :
      (no_error : String) (count : ℕ) (answers : List Submitted) (loop : Loop V)
      → is_fatal loop.pd.user.state ≡ false
      → is_running loop.pd.user.state ≡ false
      → loop.pd.user.user_data ≡ v
      → IsStill (start_run no_error count answers loop)
  unfolding start_run
  start_run-IsStill no_error count answers loop f s u =
      rw f (submit_all-IsStill no_error answers _ (s, u, refl))

-- A call on a loop that was ended, by its limit or otherwise but not by a fatal error: however
-- libusb completes the transfers, the program's callback is never called, whatever number of
-- packets is asked for, and nothing is counted; the loop still does not run.
pub Ran-IsStill :
    {V : Type 0} {size : ℕ} {no_error : String} {count : ℕ} {loop loop' : Loop V} {r : Returned}
    → is_fatal loop.pd.user.state ≡ false
    → is_running loop.pd.user.state ≡ false
    → Ran size no_error count loop loop' r
    → IsStill loop.pd.user.user_data loop'
Ran-IsStill f s (ran_fatal g) = absurd (cc)
Ran-IsStill {loop} f s (ran_through {d} second third g reach over e) =
    Reach-IsStill loop.pd.user.user_data
      (start_run-IsStill loop.pd.user.user_data _ _ _ loop f s refl) reach
