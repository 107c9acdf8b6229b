-- ===== src/Device/Capture.antt =====
-- The capture functions of src/ov.c, over the capture loop.
use libopenvizsla.Prelude.{
  ℕ, ◌-◌, ◌^◌, ◌==◌, Bool, true, false, not, if◌then◌else◌, Option, none, Ret, ok, failed, waiting,
}
use libopenvizsla.Ftdi.{Ftdi}
use libopenvizsla.Decoder.State.{Packet, is_negative}
use libopenvizsla.Cha.State.{Cha}
use libopenvizsla.Cha.Stream.{cha_start_stream, cha_halt_stream, cha_stop_stream}
use libopenvizsla.Loop.State.{running, fatal_error, host_read_off, Loop, with_control}
use libopenvizsla.Loop.Callbacks.{cha_loop_break, cha_loop_set_callback}
use libopenvizsla.Loop.Run.{Returned, counted, ended, cha_loop_init}
use libopenvizsla.Fwpkg.Zip.{Zip}
use libopenvizsla.Device.Open.{OvDevice}
use libopenvizsla.Device.Firmware.{port_a_failed}

-- The device with its loop. Of the port that the loop points to, the loop has a copy of the register
-- map and of the message; `attached` and `detached` keep the two copies of these the same.
pub record Capturing (usb : Ftdi) (lib : Zip) (V : Type 0) : Type 0 where
  pub ov : OvDevice usb lib
  pub loop : Loop V

-- How a function ends: with 0 or -1; waiting for the device; with a failed `assert`.
pub data Captured (usb : Ftdi) (lib : Zip) (V : Type 0) : Type 0 where
  ret : Bool → Capturing usb lib V → Captured usb lib V
  capture_waiting : Captured usb lib V
  capture_aborted : Captured usb lib V

-- Whether it is -1, with the sign of the state's number.
abbrev pub is_minus_one : Returned → Bool
is_minus_one (ended fatal_error) = true
is_minus_one (counted n) = n == 2 ^ 32 - 1
is_minus_one _ = false

-- `ret < 0 && ret != -HOST_READ_OFF`
abbrev pub is_broken : Returned → Bool
is_broken (counted n) = is_negative n
is_broken (ended running) = false
is_broken (ended host_read_off) = false
is_broken (ended s) = true

module _ {usb : Ftdi} {lib : Zip} where
  -- `ov->error_str = cha_get_error_string(&ov->cha)`
  abbrev pub report_if : Bool → OvDevice usb lib → OvDevice usb lib
  report_if b ov = if b then record ov { error_str = ov.cha.error_str } else ov

module _ {usb : Ftdi} {lib : Zip} {V : Type 0} where
  abbrev pub attached : OvDevice usb lib → Loop V → Loop V
  attached ov = with_control (λ c. record c { reg = ov.cha.reg; error_str = ov.cha.error_str })

  abbrev pub detached : Loop V → OvDevice usb lib → OvDevice usb lib
  detached loop ov = record ov { cha = record (ov.cha) { error_str = loop.pd.user.error_str } }

  module _ (rounds : ℕ) where
    abbrev pub stream_started :
        Ret (Cha usb) (Unit {0}) → OvDevice usb lib → Loop V → Captured usb lib V
    stream_started (ok a cha) ov loop =
        ret true (record { ov = record ov { cha = cha }; loop = loop })
    stream_started (failed cha) ov loop =
        ret false (record { ov = port_a_failed cha ov; loop = loop })
    stream_started (waiting cha) ov loop = capture_waiting

    -- The allocations of cha_loop_init succeed. A failure to start leaves the loop's transfers.
    unfoldable pub ov_capture_start :
        Packet → ℕ → Option (Packet → V → V × Bool) → V → Capturing usb lib V → Captured usb lib V
    ov_capture_start packet packet_size callback user_data cap =
        let loop = attached cap.ov (cha_loop_init cap.loop packet packet_size callback user_data) in
        stream_started (cha_start_stream usb rounds cap.ov.cha) cap.ov loop

    -- What cha_loop_run leaves of the loop, and returns.
    abbrev pub dispatched : Loop V × Returned → OvDevice usb lib → Returned × Capturing usb lib V
    dispatched (loop, r) ov =
        (r, record { ov = report_if (is_minus_one r) (detached loop ov); loop = loop })

    -- `run` is the call of cha_loop_run, on the loop that is given.
    unfoldable pub ov_capture_dispatch :
        (Loop V → Loop V × Returned) → Capturing usb lib V → Returned × Capturing usb lib V
    ov_capture_dispatch run cap = dispatched (run (attached cap.ov cap.loop)) cap.ov

    abbrev pub ov_capture_set_callback :
        Option (Packet → V → V × Bool)
        → V
        → Capturing usb lib V
        → Option (Packet → V → V × Bool) × Capturing usb lib V
    ov_capture_set_callback callback user_data cap =
        let (old, c) = cha_loop_set_callback callback user_data cap.loop.pd.user in
        (old, record cap { loop = with_control (λ _. c) cap.loop })

    abbrev pub ov_capture_breakloop : Capturing usb lib V → Capturing usb lib V
    ov_capture_breakloop cap = record cap { loop = with_control cha_loop_break cap.loop }

    -- The last call of ov_capture_stop, with the value that `ret` has.
    abbrev pub stream_stopped :
        Bool → Ret (Cha usb) (Unit {0}) → OvDevice usb lib → Loop V → Captured usb lib V
    stream_stopped good (ok a cha) ov loop =
        ret good (record { ov = record ov { cha = cha }; loop = loop })
    stream_stopped good (failed cha) ov loop =
        ret false (record { ov = port_a_failed cha ov; loop = loop })
    stream_stopped good (waiting cha) ov loop = capture_waiting

    -- cha_loop_destroy: the `assert`; the transfers are freed.
    abbrev pub cha_loop_destroy : Loop V → Captured usb lib V → Captured usb lib V
    cha_loop_destroy loop next =
        if loop.pd.user.active_transfers == 0 then next else capture_aborted

    -- Behind cha_loop_run: its result replaces `ret`.
    abbrev pub run_stopped : Loop V × Returned → OvDevice usb lib → Captured usb lib V
    run_stopped (loop, r) ov0 =
        let ov = report_if (is_broken r) (detached loop ov0) in
        cha_loop_destroy loop
          (stream_stopped (not (is_broken r)) (cha_stop_stream usb rounds ov.cha) ov loop)

    -- The loop that cha_loop_run gets: with no callback, and running.
    abbrev pub stopping : V → OvDevice usb lib → Loop V → Loop V
    stopping null ov loop =
        attached ov
          (with_control (λ c. record c { callback = none; user_data = null; state = running }) loop)

    abbrev pub stream_halted :
        (Loop V → Loop V × Returned)
        → V
        → Ret (Cha usb) (Unit {0})
        → OvDevice usb lib
        → Loop V
        → Captured usb lib V
    stream_halted run null (ok a cha) ov loop =
        let ov1 = record ov { cha = cha } in run_stopped (run (stopping null ov1 loop)) ov1
    stream_halted run null (failed cha) ov loop =
        let ov1 = port_a_failed cha ov in run_stopped (run (stopping null ov1 loop)) ov1
    stream_halted run null (waiting cha) ov loop = capture_waiting

    -- `run` is the call of cha_loop_run with the count -1; `null` is the null pointer for user_data.
    unfoldable pub ov_capture_stop :
        (Loop V → Loop V × Returned) → V → Capturing usb lib V → Captured usb lib V
    ov_capture_stop run null cap =
        stream_halted run null (cha_halt_stream usb rounds cap.ov.cha) cap.ov cap.loop
