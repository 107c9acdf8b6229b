-- ===== src/Device/Owner.antt =====
-- The functions of src/ov.c leave the device its archive.
use libopenvizsla.Prelude.{
  ℕ, suc, ◌≡◌, ◌∙◌, sym, ◌==◌, not, Bool, true, false, Option, some, String, Bytes, Ret, ok, failed,
  waiting, if◌then◌else◌,
}
use mathlib.Core.Path.{subst}
use libopenvizsla.Ftdi.{Ftdi}
use libopenvizsla.Reg.State.{Reg}
use libopenvizsla.Decoder.State.{Packet}
use libopenvizsla.Cha.State.{Cha}
use libopenvizsla.Cha.Port.{cha_open, cha_switch_fifo_mode}
use libopenvizsla.Cha.Stream.{cha_start_stream, cha_halt_stream, cha_stop_stream}
use libopenvizsla.Cha.Ulpi.{UsbSpeed, cha_set_usb_speed}
use libopenvizsla.Chb.Port as Chb
use libopenvizsla.Chb.Port.{chb_open}
use libopenvizsla.Bit.Parser.{Bit}
use libopenvizsla.Loop.State.{Loop}
use libopenvizsla.Loop.Run.{Returned}
use libopenvizsla.Fwpkg.Zip.{Zip}
use libopenvizsla.Fwpkg.Archives.{Counts}
use libopenvizsla.Fwpkg.Kept.{Reads}
use libopenvizsla.Device.Open.{OvDevice}
use libopenvizsla.Device.Ledger.{IsOwner}
use libopenvizsla.Device.Firmware.{
  port_a_failed, Loading, load_done, load_failed, load_waiting, load_null_transfer, load_undefined,
}
use libopenvizsla.Device.Reload.{LoadHas, load-LoadHas, Reloads, ov_load_firmware-Reloads}
use libopenvizsla.Device.Api.{
  Answer, answered, not_answered, still_waiting, undefined, answer_a, answer_b, then_answer,
  own_loaded, load_own, ov_open, ov_set_usb_speed, ov_load_firmware,
}
use libopenvizsla.Device.Capture.{
  Capturing, Captured, ret, capture_waiting, capture_aborted, is_minus_one, is_broken, report_if,
  detached, attached, dispatched, stream_started, stream_stopped, run_stopped, stopping,
  stream_halted, ov_capture_start, ov_capture_dispatch, ov_capture_stop,
}

module _ {lib : Zip} (archives : lib.World → ℕ) (rd : Reads lib archives) (usb : Ftdi)
    (counts : Counts lib archives) (n rounds : ℕ) where
  abbrev pub OwnerAnswer : {A : Type 0} → Answer usb lib A → Type 0
  OwnerAnswer (answered a ov) = IsOwner archives rd usb counts n ov
  OwnerAnswer (not_answered ov) = IsOwner archives rd usb counts n ov
  OwnerAnswer still_waiting = Unit
  OwnerAnswer undefined = Unit

  answer_a-OwnerAnswer :
      {A : Type 0} (r : Ret (Cha usb) A) (ov : OvDevice usb lib)
      → IsOwner archives rd usb counts n ov
      → OwnerAnswer (answer_a r ov)
  answer_a-OwnerAnswer (ok a cha) ov h = h
  answer_a-OwnerAnswer (failed cha) ov h = h
  answer_a-OwnerAnswer (waiting cha) ov h = tt

  answer_b-OwnerAnswer :
      (r : Chb.Ret usb) (ov : OvDevice usb lib)
      → IsOwner archives rd usb counts n ov
      → OwnerAnswer (answer_b r ov)
  answer_b-OwnerAnswer (Chb.succeeded chb) ov h = h
  answer_b-OwnerAnswer (Chb.failed chb) ov h = h

  then-OwnerAnswer :
      {A B : Type 0} (r : Answer usb lib A) (next : OvDevice usb lib → Answer usb lib B)
      → OwnerAnswer r
      → ((ov : OvDevice usb lib) → IsOwner archives rd usb counts n ov → OwnerAnswer (next ov))
      → OwnerAnswer (then_answer r next)
  then-OwnerAnswer (answered a ov) next h step = step ov h
  then-OwnerAnswer (not_answered ov) next h step = h
  then-OwnerAnswer still_waiting next h step = tt
  then-OwnerAnswer undefined next h step = tt

  own_loaded-OwnerAnswer :
      (pkg : lib.Archive) (q : Option lib.Archive) (r : Loading usb lib)
      → LoadHas archives rd usb rounds (suc n) (some pkg) q r
      → OwnerAnswer (own_loaded r)
  own_loaded-OwnerAnswer pkg q (load_done ov fwpkg) h = (pkg, h.0)
  own_loaded-OwnerAnswer pkg q (load_failed ov fwpkg) h = (pkg, h.0)
  own_loaded-OwnerAnswer pkg q load_waiting h = tt
  own_loaded-OwnerAnswer pkg q load_null_transfer h = tt
  own_loaded-OwnerAnswer pkg q load_undefined h = tt

  module _ (malloc : ℕ → Bool) (bit : Bit) where
    load_own-OwnerAnswer :
        (ov : OvDevice usb lib)
        → IsOwner archives rd usb counts n ov
        → OwnerAnswer (load_own rounds malloc bit ov.fwpkg.pkg ov)
    load_own-OwnerAnswer ov (pkg, h) =
        subst (λ q. OwnerAnswer (load_own rounds malloc bit q ov)) (sym h.1)
          (own_loaded-OwnerAnswer pkg ov.fwpkg.pkg _
            (load-LoadHas archives rd usb rounds malloc bit (suc n) (some pkg) pkg ov.fwpkg ov h))

    pub ov_open-OwnerAnswer :
        (ov : OvDevice usb lib)
        → IsOwner archives rd usb counts n ov
        → OwnerAnswer (ov_open rounds malloc bit ov)
    unfolding ov_open
    ov_open-OwnerAnswer ov h =
        then-OwnerAnswer _ _ (answer_a-OwnerAnswer (cha_open usb rounds ov.cha) ov h) (λ ov1 h1.
          then-OwnerAnswer _ _ (answer_b-OwnerAnswer (chb_open usb ov1.chb) ov1 h1) (λ ov2 h2.
            then-OwnerAnswer _ _ (load_own-OwnerAnswer ov2 h2) (λ ov3 h3.
              then-OwnerAnswer _ _
                (answer_a-OwnerAnswer (cha_switch_fifo_mode usb rounds ov3.cha) ov3 h3)
                (λ ov4 h4. answer_a-OwnerAnswer (cha_stop_stream usb rounds ov4.cha) ov4 h4))))

    reloaded-OwnerAnswer :
        (reg : Reg) (pkg : lib.Archive) (m : ℕ) (q : Option lib.Archive)
        (r : Answer usb lib (Unit {0}))
        → m ≡ suc n
        → q ≡ some pkg
        → Reloads archives rd usb rounds malloc bit reg counts m q r
        → OwnerAnswer r
    reloaded-OwnerAnswer reg pkg m q (answered a ov) e p h = (pkg, (h.0.0 ∙ e, h.0.1 ∙ p))
    reloaded-OwnerAnswer reg pkg m q (not_answered ov) e p h = (pkg, (h.0 ∙ e, h.1 ∙ p))
    reloaded-OwnerAnswer reg pkg m q still_waiting e p h = tt
    reloaded-OwnerAnswer reg pkg m q undefined e p h = tt

    pub ov_load_firmware-OwnerAnswer :
        (reg : Reg) (preload : Bytes) (filename : Option String) (ov : OvDevice usb lib)
        → IsOwner archives rd usb counts n ov
        → OwnerAnswer (ov_load_firmware rounds malloc bit reg preload filename ov)
    ov_load_firmware-OwnerAnswer reg preload filename ov (pkg, h) =
        reloaded-OwnerAnswer reg pkg (archives ov.fwpkg.world) ov.fwpkg.pkg _ h.0 h.1 (
          ov_load_firmware-Reloads archives rd usb rounds malloc bit reg counts preload filename ov)

    pub ov_set_usb_speed-OwnerAnswer :
        (speed : UsbSpeed) (ov : OvDevice usb lib)
        → IsOwner archives rd usb counts n ov
        → OwnerAnswer (ov_set_usb_speed rounds malloc speed ov)
    unfolding ov_set_usb_speed
    ov_set_usb_speed-OwnerAnswer speed ov h =
        answer_a-OwnerAnswer (cha_set_usb_speed usb rounds speed ov.cha) ov h

  report_if-IsOwner :
      (b : Bool) (ov : OvDevice usb lib)
      → IsOwner archives rd usb counts n ov
      → IsOwner archives rd usb counts n (report_if b ov)
  report_if-IsOwner true ov h = h
  report_if-IsOwner false ov h = h

  module _ {V : Type 0} where
    abbrev pub OwnerCaptured : Captured usb lib V → Type 0
    OwnerCaptured (ret good cap) = IsOwner archives rd usb counts n cap.ov
    OwnerCaptured capture_waiting = Unit
    OwnerCaptured capture_aborted = Unit

    started-OwnerCaptured :
        (r : Ret (Cha usb) (Unit {0})) (ov : OvDevice usb lib) (loop : Loop V)
        → IsOwner archives rd usb counts n ov
        → OwnerCaptured (stream_started rounds r ov loop)
    started-OwnerCaptured (ok a cha) ov loop h = h
    started-OwnerCaptured (failed cha) ov loop h = h
    started-OwnerCaptured (waiting cha) ov loop h = tt

    pub ov_capture_start-OwnerCaptured :
        (packet : Packet) (packet_size : ℕ) (callback : Option (Packet → V → V × Bool))
        (user_data : V) (cap : Capturing usb lib V)
        → IsOwner archives rd usb counts n cap.ov
        → OwnerCaptured (ov_capture_start rounds packet packet_size callback user_data cap)
    unfolding ov_capture_start
    ov_capture_start-OwnerCaptured packet packet_size callback user_data cap h =
        started-OwnerCaptured (cha_start_stream usb rounds cap.ov.cha) cap.ov _ h

    dispatched-IsOwner :
        (r : Loop V × Returned) (ov : OvDevice usb lib)
        → IsOwner archives rd usb counts n ov
        → IsOwner archives rd usb counts n (dispatched rounds r ov).1.ov
    dispatched-IsOwner (loop, r) ov h = report_if-IsOwner (is_minus_one r) (detached loop ov) h

    pub ov_capture_dispatch-IsOwner :
        (run : Loop V → Loop V × Returned) (cap : Capturing usb lib V)
        → IsOwner archives rd usb counts n cap.ov
        → IsOwner archives rd usb counts n (ov_capture_dispatch rounds run cap).1.ov
    unfolding ov_capture_dispatch
    ov_capture_dispatch-IsOwner run cap h =
        dispatched-IsOwner (run (attached cap.ov cap.loop)) cap.ov h

    stopped-OwnerCaptured :
        (good : Bool) (r : Ret (Cha usb) (Unit {0})) (ov : OvDevice usb lib) (loop : Loop V)
        → IsOwner archives rd usb counts n ov
        → OwnerCaptured (stream_stopped rounds good r ov loop)
    stopped-OwnerCaptured good (ok a cha) ov loop h = h
    stopped-OwnerCaptured good (failed cha) ov loop h = h
    stopped-OwnerCaptured good (waiting cha) ov loop h = tt

    checked-OwnerCaptured :
        (idle : Bool) (c : Captured usb lib V)
        → OwnerCaptured c
        → OwnerCaptured (if idle then c else capture_aborted)
    checked-OwnerCaptured true c h = h
    checked-OwnerCaptured false c h = tt

    run_stopped-OwnerCaptured :
        (r : Loop V × Returned) (ov : OvDevice usb lib)
        → IsOwner archives rd usb counts n ov
        → OwnerCaptured (run_stopped rounds r ov)
    run_stopped-OwnerCaptured (loop, r) ov h =
        let ov1 = report_if (is_broken r) (detached loop ov) in
        let stream = cha_stop_stream usb rounds ov1.cha in
        checked-OwnerCaptured (loop.pd.user.active_transfers == 0)
          (stream_stopped rounds (not (is_broken r)) stream ov1 loop)
          (stopped-OwnerCaptured (not (is_broken r)) stream ov1 loop
            (report_if-IsOwner (is_broken r) (detached loop ov) h))

    halted-OwnerCaptured :
        (run : Loop V → Loop V × Returned) (null : V) (r : Ret (Cha usb) (Unit {0}))
        (ov : OvDevice usb lib) (loop : Loop V)
        → IsOwner archives rd usb counts n ov
        → OwnerCaptured (stream_halted rounds run null r ov loop)
    halted-OwnerCaptured run null (ok a cha) ov loop h =
        let ov1 = record ov { cha = cha } in
        run_stopped-OwnerCaptured (run (stopping rounds null ov1 loop)) ov1 h
    halted-OwnerCaptured run null (failed cha) ov loop h =
        let ov1 = port_a_failed cha ov in
        run_stopped-OwnerCaptured (run (stopping rounds null ov1 loop)) ov1 h
    halted-OwnerCaptured run null (waiting cha) ov loop h = tt

    pub ov_capture_stop-OwnerCaptured :
        (run : Loop V → Loop V × Returned) (null : V) (cap : Capturing usb lib V)
        → IsOwner archives rd usb counts n cap.ov
        → OwnerCaptured (ov_capture_stop rounds run null cap)
    unfolding ov_capture_stop
    ov_capture_stop-OwnerCaptured run null cap h =
        halted-OwnerCaptured run null (cha_halt_stream usb rounds cap.ov.cha) cap.ov cap.loop h
