-- ===== src/Loop/Ran.antt =====
-- A whole call of cha_loop_run of src/cha.c, with what happens around it.
use libopenvizsla.Prelude.{ℕ, ◌≡◌, refl, sym, ◌∙◌, true, false, some, [], ◌∷◌, String}
use mathlib.Core.Path.{subst}
use libopenvizsla.Loop.State.{fatal_error, break_loop, is_fatal, Loop, with_control}
use libopenvizsla.Loop.Callbacks.{cha_loop_break, loop_ops}
use libopenvizsla.Loop.Transfer.{
  cancelled, Submitted, accepted, release_control, release, cha_loop_transfer_callback,
}
use libopenvizsla.Loop.Run.{
  Config, complete_one, break_off, Reach, here, step, after_turn, Returned, ended, start_run,
  submit_all, finish_run,
}
use libopenvizsla.Loop.Drain.{started, start_run-IsLive}
use libopenvizsla.Loop.Invariant.{Reach-IsLive, finish_run-Reach}

module _ {V : Type 0} where
  -- How a call that returns has gone: the loop before it and behind it, and the result. A fatal loop
  -- returns at once. Otherwise libusb accepts the first transfer, since with none the call does not
  -- return, and the run goes on until it is complete. `no_error` is the name of the code 0.
  pub data Ran (size : ℕ) (no_error : String) (count : ℕ) (loop : Loop V)
      : Loop V → Returned → Type 0 where
    ran_fatal :
        is_fatal loop.pd.user.state ≡ true
        → Ran size no_error count loop (start_run no_error count [] loop) (ended fatal_error)
    ran_through :
        {d : Config V} {r : Returned} (second third : Submitted)
        → is_fatal loop.pd.user.state ≡ false
        → Reach size (started (start_run no_error count (accepted ∷ second ∷ third ∷ []) loop)) d
        → d.loop.pd.user.complete ≡ true
        → finish_run d.loop.pd.user ≡ some r
        → Ran size no_error count loop d.loop r

  -- Behind a call on a loop that was not fatal no transfer is active.
  pub Ran-idle :
      {size : ℕ} {no_error : String} {count : ℕ} {loop loop' : Loop V} {r : Returned}
      → loop.pd.ops ≡ loop_ops
      → is_fatal loop.pd.user.state ≡ false
      → Ran size no_error count loop loop' r
      → loop'.pd.user.active_transfers ≡ 0
  Ran-idle o f (ran_fatal g) = absurd (cc)
  Ran-idle {size} {no_error} {count} {loop} o f (ran_through {d} second third g reach over e) =
      let start = start_run-IsLive no_error count second third loop o g in
      sym (Reach-IsLive start reach).flights ∙ (finish_run-Reach size _ d start reach over).1

  -- The program breaks off at once, and libusb cancels the three transfers.
  abbrev cancel : Config V → ℕ → Config V
  cancel c others = after_turn false (with_control release_control c.loop) others

  abbrev pub broken_off : Loop V → Config V
  broken_off loop =
      let c = started loop in
      cancel (cancel (cancel (record c { loop = with_control cha_loop_break c.loop }) 2) 1) 0

  -- All three transfers are submitted.
  abbrev pub submitted : ℕ → Loop V → Loop V
  submitted count =
      with_control
        (λ c. record c { count = 0; max_count = count; complete = false; active_transfers = 3 })

  start_run-submitted :
      (no_error : String) (count : ℕ) (loop : Loop V)
      → is_fatal loop.pd.user.state ≡ false
      → start_run no_error count (accepted ∷ accepted ∷ accepted ∷ []) loop ≡ submitted count loop
  unfolding start_run submit_all
  start_run-submitted no_error count loop h = rw h refl

  broken_off-Reach :
      (size count : ℕ) (loop : Loop V)
      → Reach size (started (submitted count loop)) (broken_off (submitted count loop))
  unfolding cha_loop_break cha_loop_transfer_callback release
  broken_off-Reach size count loop =
      step
        (step
          (step (step here refl break_off) refl (complete_one 2 cancelled accepted refl refl refl))
          refl (complete_one 1 cancelled accepted refl refl refl))
        refl (complete_one 0 cancelled accepted refl refl refl)

  broken_off-finished :
      (count : ℕ) (loop : Loop V)
      → ((broken_off (submitted count loop)).loop.pd.user.complete ≡ true)
        × (finish_run (broken_off (submitted count loop)).loop.pd.user ≡ some (ended break_loop))
  unfolding cha_loop_break finish_run
  broken_off-finished count loop = (refl, refl)

  -- A call on a loop that is not fatal can return: when the program breaks off and libusb cancels
  -- the three transfers, it returns the number of that state with its sign changed.
  pub broken_off-Ran :
      (size : ℕ) (no_error : String) (count : ℕ) (loop : Loop V)
      → is_fatal loop.pd.user.state ≡ false
      → Ran size no_error count loop (broken_off (submitted count loop)).loop (ended break_loop)
  broken_off-Ran size no_error count loop h =
      let over = broken_off-finished count loop in
      ran_through accepted accepted h
        (subst (λ l. Reach size (started l) (broken_off (submitted count loop)))
          (sym (start_run-submitted no_error count loop h)) (broken_off-Reach size count loop))
        over.0 over.1
