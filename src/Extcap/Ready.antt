-- ===== src/Extcap/Ready.antt =====
-- How start_capture of tools/ovextcap/main.c gets to its end.
use mathlib.Core.Path.{subst}
use libopenvizsla.Prelude.{
  ℕ, ◌≡◌, refl, sym, Bool, true, false, Option, none, some, Bytes, Ret, ok, waiting,
}
use libopenvizsla.Prelude.{failed as ret_failed}
use libopenvizsla.Ftdi.{Ftdi}
use libopenvizsla.Cha.State.{Cha}
use libopenvizsla.Cha.Stream.{cha_start_stream}
use libopenvizsla.Loop.State.{Loop}
use libopenvizsla.Loop.Run.{Returned, cha_loop_init}
use libopenvizsla.Fwpkg.Zip.{Zip}
use libopenvizsla.Device.Open.{OvDevice, Made, made, null, stopped}
use libopenvizsla.Device.Api.{Answer, answered, not_answered, still_waiting, undefined}
use libopenvizsla.Device.Firmware.{port_a_failed}
use libopenvizsla.Device.Capture.{
  Capturing, Captured, attached, ret, capture_waiting, capture_aborted, stream_started,
  ov_capture_start, ov_capture_stop,
}
use libopenvizsla.Tools.Exit.{
  Exit, exited, waits, stops, with_device, or_exit, with_capture, stop_and_exit,
}
use libopenvizsla.Extcap.Pcap.{Host}
use libopenvizsla.Extcap.Filter.{HandlerData}
use libopenvizsla.Extcap.Output.{Reliable, Has}
use libopenvizsla.Extcap.Stream.{Leaves}
use libopenvizsla.Extcap.Callback.{handler_callback}
use libopenvizsla.Extcap.Capture.{
  Status, failure, dispatched, End, Settings, Surroundings, failed, finished, finish,
}

module _ (host : Host) {usb : Ftdi} {lib : Zip} (env : Surroundings host.File) where
  -- The loop on which ov_capture_dispatch calls cha_loop_run.
  abbrev pub capture_loop :
      Loop (Option (HandlerData host.File))
      → HandlerData host.File
      → OvDevice usb lib
      → Loop (Option (HandlerData host.File))
  capture_loop loop d ov =
      attached ov (cha_loop_init loop env.packet 1024 (some (handler_callback host)) (some d))

module _ (host : Host) {content : host.File → Bytes} (rel : Reliable host content) where
  -- A capture that was dispatched closed a file with these bytes.
  abbrev pub StatusHas : Bytes → Option host.File → Status → Type 0
  StatusHas bs closed failure = Unit
  StatusHas bs closed (dispatched r) = Has host rel closed bs

  abbrev pub Writes : {lib : Zip} → Bytes → Exit lib (End host.File) → Type 0
  Writes bs (exited e w) = StatusHas bs e.closed e.status
  Writes bs waits = Unit
  Writes bs stops = Unit

module _ (host : Host) {content : host.File → Bytes} (rel : Reliable host content) (usb : Ftdi)
    {lib : Zip} (bs : Bytes) where
  pub with_device-Writes :
      (m : Made usb lib) (next : OvDevice usb lib → Exit lib (End host.File))
      → ((ov : OvDevice usb lib) → Writes host rel {lib = lib} bs (next ov))
      → Writes host rel {lib = lib} bs (with_device (failed host) m next)
  with_device-Writes (made ov) next step = step ov
  with_device-Writes (null cha fwpkg) next step = tt
  with_device-Writes stopped next step = tt

  pub or_exit-Writes :
      {B : Type 0} (r : Answer usb lib B) (next : OvDevice usb lib → Exit lib (End host.File))
      → ((ov : OvDevice usb lib) → Writes host rel {lib = lib} bs (next ov))
      → Writes host rel {lib = lib} bs (or_exit (failed host) r next)
  or_exit-Writes (answered b ov) next step = step ov
  or_exit-Writes (not_answered ov) next step = tt
  or_exit-Writes still_waiting next step = tt
  or_exit-Writes undefined next step = tt

  stop_and_exit-Writes :
      {V : Type 0} (e : End host.File) (r : Captured usb lib V)
      → StatusHas host rel bs e.closed e.status
      → Writes host rel {lib = lib} bs (stop_and_exit e r)
  stop_and_exit-Writes e (ret good cap) h = h
  stop_and_exit-Writes e capture_waiting h = tt
  stop_and_exit-Writes e capture_aborted h = tt

  module _ (rounds : ℕ) (malloc : ℕ → Bool) (s : Settings host.File)
      (env : Surroundings host.File) where
    pub finish-Writes :
        (r : Returned) (d : Option (HandlerData host.File))
        (cap : Capturing usb lib (Option (HandlerData host.File)))
        → Leaves host rel bs d
        → Writes host rel {lib = lib} bs (finish host usb rounds malloc s env r d cap)
    finish-Writes r none cap h = absurd h
    finish-Writes r (some d) cap h =
        stop_and_exit-Writes (finished host r d) (ov_capture_stop rounds env.stop none cap) h

    module _ (loop0 : Loop (Option (HandlerData host.File))) where
      -- A capture whose loop is initialised, with the tool's callback and `d` behind it.
      abbrev pub IsReady :
          HandlerData host.File → Capturing usb lib (Option (HandlerData host.File)) → Type 0
      IsReady d cap = attached cap.ov cap.loop ≡ capture_loop host env loop0 d cap.ov

      abbrev pub StartsReady :
          HandlerData host.File → Captured usb lib (Option (HandlerData host.File)) → Type 0
      StartsReady d (ret good cap) = IsReady d cap
      StartsReady d capture_waiting = Unit
      StartsReady d capture_aborted = Unit

      pub with_capture-Writes :
          (d : HandlerData host.File)
          (code : Capturing usb lib (Option (HandlerData host.File)) → End host.File)
          (r : Captured usb lib (Option (HandlerData host.File)))
          (next : Capturing usb lib (Option (HandlerData host.File)) → Exit lib (End host.File))
          → StartsReady d r
          → ((cap : Capturing usb lib (Option (HandlerData host.File)))
              → (code cap).status ≡ failure)
          → ((cap : Capturing usb lib (Option (HandlerData host.File)))
              → IsReady d cap
              → Writes host rel {lib = lib} bs (next cap))
          → Writes host rel {lib = lib} bs (with_capture code r next)
      with_capture-Writes d code (ret true cap) next h bad step = step cap h
      with_capture-Writes d code (ret false cap) next h bad step =
          subst (StatusHas host rel bs (code cap).closed) (sym (bad cap)) tt
      with_capture-Writes d code capture_waiting next h bad step = tt
      with_capture-Writes d code capture_aborted next h bad step = tt

      started-StartsReady :
          (d : HandlerData host.File) (r : Ret (Cha usb) (Unit {0})) (ov : OvDevice usb lib)
          (loop : Loop (Option (HandlerData host.File)))
          → ((o : OvDevice usb lib) → attached o loop ≡ capture_loop host env loop0 d o)
          → StartsReady d (stream_started rounds r ov loop)
      started-StartsReady d (ok a cha) ov loop h = h (record ov { cha = cha })
      started-StartsReady d (ret_failed cha) ov loop h = h (port_a_failed cha ov)
      started-StartsReady d (waiting cha) ov loop h = tt

      pub start-StartsReady :
          (d : HandlerData host.File) (ov : OvDevice usb lib)
          → StartsReady d (
              ov_capture_start rounds env.packet 1024
                (some (handler_callback host))
                (some d)
                (record { ov = ov; loop = loop0 }))
      unfolding ov_capture_start
      start-StartsReady d ov =
          started-StartsReady d (cha_start_stream usb rounds ov.cha) ov _ (λ o. refl)
