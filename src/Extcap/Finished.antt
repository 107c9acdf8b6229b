-- ===== src/Extcap/Finished.antt =====
-- What start_capture of tools/ovextcap/main.c leaves: the archives, and the file.
use libopenvizsla.Prelude.{ℕ, Bool, Option, none, some, Bytes}
use libopenvizsla.Ftdi.{Ftdi}
use libopenvizsla.Bit.Parser.{Bit}
use libopenvizsla.Loop.State.{Loop}
use libopenvizsla.Loop.Run.{Returned}
use libopenvizsla.Fwpkg.Zip.{Zip}
use libopenvizsla.Fwpkg.Archives.{Counts}
use libopenvizsla.Fwpkg.Kept.{Reads}
use libopenvizsla.Device.Open.{OvDevice}
use libopenvizsla.Device.Capture.{Capturing, ov_capture_dispatch}
use libopenvizsla.Device.Ledger.{IsOwner, ov_free-IsOwner, ov_new-MakesOwner}
use libopenvizsla.Device.Owner.{
  ov_open-OwnerAnswer, ov_set_usb_speed-OwnerAnswer, ov_capture_start-OwnerCaptured,
  ov_capture_dispatch-IsOwner, ov_capture_stop-OwnerCaptured,
}
use libopenvizsla.Tools.Closes.{
  Closes, with_device-Closes, or_exit-Closes, with_capture-Closes, stop_and_exit-Closes,
}
use libopenvizsla.Extcap.Pcap.{Host}
use libopenvizsla.Extcap.Filter.{HandlerData}
use libopenvizsla.Extcap.Callback.{handler_callback}
use libopenvizsla.Extcap.Capture.{
  Settings, Surroundings, new_data, failed, finished, finish, after_dispatch, capture_to,
  start_capture,
}

module _ {lib : Zip} (archives : lib.World → ℕ) (rd : Reads lib archives) (usb : Ftdi)
    (counts : Counts lib archives) (rounds : ℕ) (malloc : ℕ → Bool) (host : Host)
    (s : Settings host.File) (env : Surroundings host.File) where
  finish-Closes :
      (n : ℕ) (r : Returned) (d : Option (HandlerData host.File))
      (cap : Capturing usb lib (Option (HandlerData host.File)))
      → IsOwner archives rd usb counts n cap.ov
      → Closes {lib = lib} archives n (finish host usb rounds malloc s env r d cap)
  finish-Closes n r none cap h = tt
  finish-Closes n r (some data0) cap h =
      stop_and_exit-Closes archives rd usb counts n rounds (finished host r data0) _
        (ov_capture_stop-OwnerCaptured archives rd usb counts n rounds env.stop none cap h)

  dispatched-Closes :
      (n : ℕ) (r : Returned × Capturing usb lib (Option (HandlerData host.File)))
      → IsOwner archives rd usb counts n r.1.ov
      → Closes {lib = lib} archives n (after_dispatch host usb rounds malloc s env r)
  dispatched-Closes n (r, cap) h = finish-Closes n r cap.loop.pd.user.user_data cap h

  capture_to-Closes :
      (n : ℕ) (fifo : Option host.File) (loop : Loop (Option (HandlerData host.File)))
      (ov : OvDevice usb lib)
      → IsOwner archives rd usb counts n ov
      → Closes {lib = lib} archives n (capture_to host usb rounds malloc s env fifo loop ov)
  capture_to-Closes n none loop ov h = ov_free-IsOwner archives rd usb counts n ov h
  capture_to-Closes n (some fifo) loop ov h =
      with_capture-Closes archives rd usb counts n rounds _ _ _
        (ov_capture_start-OwnerCaptured archives rd usb counts n rounds env.packet 1024
          (some (handler_callback host)) (some (new_data host s env fifo))
          (record { ov = ov; loop = loop }) h)
        (λ cap h1.
          dispatched-Closes n (ov_capture_dispatch rounds env.dispatch cap)
            (ov_capture_dispatch-IsOwner archives rd usb counts n rounds env.dispatch cap h1))

  -- Whichever call fails, and whatever the capture loop does: when start_capture returns, as many
  -- archives are open as before.
  pub start_capture-Closes :
      (bit : Bit) (loop : Loop (Option (HandlerData host.File))) (preload : Bytes) (w : lib.World)
      → Closes {lib = lib} archives
          (archives w)
          (start_capture host usb rounds malloc s env bit loop preload w)
  unfolding start_capture
  start_capture-Closes bit loop preload w =
      let n = archives w in
      with_device-Closes archives rd usb counts n rounds (failed host) _ _
        (ov_new-MakesOwner archives rd usb counts malloc preload none w)
        (λ ov0 h0.
          or_exit-Closes archives rd usb counts n rounds (failed host) _ _
            (ov_open-OwnerAnswer archives rd usb counts n rounds malloc bit ov0 h0)
            (λ ov1 h1.
              or_exit-Closes archives rd usb counts n rounds (failed host) _ _
                (ov_set_usb_speed-OwnerAnswer archives rd usb counts n rounds malloc bit s.speed ov1
                  h1)
                (λ ov2 h2. capture_to-Closes n env.fifo loop ov2 h2)))
