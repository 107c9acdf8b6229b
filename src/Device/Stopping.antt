-- ===== src/Device/Stopping.antt =====
-- How ov_capture_stop of src/ov.c ends.
use libopenvizsla.Prelude.{
  ℕ, ◌==◌, ==_iff, ◌≡◌, refl, Bool, true, not, String, Ret, ok, failed, waiting,
}
use libopenvizsla.Ftdi.{Ftdi}
use libopenvizsla.Cha.State.{Cha}
use libopenvizsla.Cha.Stream.{cha_halt_stream}
use libopenvizsla.Loop.State.{Loop}
use libopenvizsla.Loop.Callbacks.{loop_ops}
use libopenvizsla.Loop.Run.{Returned}
use libopenvizsla.Loop.Ran.{Ran, Ran-idle}
use libopenvizsla.Fwpkg.Zip.{Zip}
use libopenvizsla.Device.Open.{OvDevice}
use libopenvizsla.Device.Firmware.{port_a_failed}
use libopenvizsla.Device.Capture.{
  Capturing, Captured, ret, capture_waiting, capture_aborted, is_broken, stream_stopped,
  run_stopped, stopping, stream_halted, ov_capture_stop,
}

module _ {usb : Ftdi} {lib : Zip} {V : Type 0} (rounds size : ℕ) (no_error : String) where
  -- Not with a failed assertion; with a loop that has no active transfer.
  abbrev pub Ends : Captured usb lib V → Type 0
  Ends (ret good cap) = cap.loop.pd.user.active_transfers ≡ 0
  Ends capture_waiting = Unit
  Ends capture_aborted = ⊥

  stream_stopped-Ends :
      (good : Bool) (r : Ret (Cha usb) (Unit {0})) (ov : OvDevice usb lib) (loop : Loop V)
      → loop.pd.user.active_transfers ≡ 0
      → Ends (stream_stopped rounds good r ov loop)
  stream_stopped-Ends good (ok a cha) ov loop h = h
  stream_stopped-Ends good (failed cha) ov loop h = h
  stream_stopped-Ends good (waiting cha) ov loop h = tt

  run_stopped-Ends :
      (r : Loop V × Returned) (ov : OvDevice usb lib)
      → r.0.pd.user.active_transfers ≡ 0
      → Ends (run_stopped rounds r ov)
  run_stopped-Ends (loop, r) ov h =
      let idle : (loop.pd.user.active_transfers == 0) ≡ true =
        (==_iff loop.pd.user.active_transfers 0).1 h in
      simp idle (stream_stopped-Ends (not (is_broken r)) _ _ loop h)

  -- The run behind the call that halts the stream, whether that succeeded or not.
  abbrev pub Runs :
      (Loop V → Loop V × Returned)
      → V
      → Ret (Cha usb) (Unit {0})
      → OvDevice usb lib
      → Loop V
      → Type 0
  Runs run null (ok a cha) ov loop =
      let before = stopping rounds null (record ov { cha = cha }) loop in
      Ran size no_error 0 before (run before).0 (run before).1
  Runs run null (failed cha) ov loop =
      let before = stopping rounds null (port_a_failed cha ov) loop in
      Ran size no_error 0 before (run before).0 (run before).1
  Runs run null (waiting cha) ov loop = Unit

  halted-Ends :
      (run : Loop V → Loop V × Returned) (null : V) (r : Ret (Cha usb) (Unit {0}))
      (ov : OvDevice usb lib) (loop : Loop V)
      → loop.pd.ops ≡ loop_ops
      → Runs run null r ov loop
      → Ends (stream_halted rounds run null r ov loop)
  halted-Ends run null (ok a cha) ov loop o h =
      let ov1 = record ov { cha = cha } in
      run_stopped-Ends (run (stopping rounds null ov1 loop)) ov1 (Ran-idle o refl h)
  halted-Ends run null (failed cha) ov loop o h =
      let ov1 = port_a_failed cha ov in
      run_stopped-Ends (run (stopping rounds null ov1 loop)) ov1 (Ran-idle o refl h)
  halted-Ends run null (waiting cha) ov loop o h = tt

  -- In whatever state the capture was: if the call of cha_loop_run returns, for which libusb has to
  -- accept the first transfer and to complete those that it has, in whatever way, then the assertion
  -- of cha_loop_destroy holds, so that ov_capture_stop returns, with no transfer active, or still
  -- waits for the device's answer to a register access.
  pub ov_capture_stop-Ends :
      (run : Loop V → Loop V × Returned) (null : V) (cap : Capturing usb lib V)
      → cap.loop.pd.ops ≡ loop_ops
      → Runs run null (cha_halt_stream usb rounds cap.ov.cha) cap.ov cap.loop
      → Ends (ov_capture_stop rounds run null cap)
  unfolding ov_capture_stop
  ov_capture_stop-Ends run null cap o h =
      halted-Ends run null (cha_halt_stream usb rounds cap.ov.cha) cap.ov cap.loop o h
