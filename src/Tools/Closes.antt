-- ===== src/Tools/Closes.antt =====
-- The programs under tools/ leave no archive open.
use libopenvizsla.Prelude.{ℕ, ◌≡◌, Bool, true, false, none, [], String, List, Bytes}
use libopenvizsla.Ftdi.{Ftdi}
use libopenvizsla.Reg.State.{Reg}
use libopenvizsla.Decoder.State.{Packet}
use libopenvizsla.Cha.Ulpi.{low_speed}
use libopenvizsla.Bit.Parser.{Bit}
use libopenvizsla.Loop.State.{Loop}
use libopenvizsla.Loop.Run.{Returned}
use libopenvizsla.Fwpkg.Zip.{Zip}
use libopenvizsla.Fwpkg.Archives.{Counts}
use libopenvizsla.Fwpkg.Kept.{Reads}
use libopenvizsla.Device.Open.{OvDevice, Made, made, null, stopped}
use libopenvizsla.Device.Api.{Answer, answered, not_answered, still_waiting, undefined}
use libopenvizsla.Device.Capture.{
  Capturing, Captured, ret, capture_waiting, capture_aborted, ov_capture_dispatch,
}
use libopenvizsla.Device.Ledger.{IsOwner, ov_free-IsOwner, MakesOwner, ov_new-MakesOwner}
use libopenvizsla.Device.Owner.{
  OwnerAnswer, ov_open-OwnerAnswer, ov_load_firmware-OwnerAnswer, ov_set_usb_speed-OwnerAnswer,
  OwnerCaptured, ov_capture_start-OwnerCaptured, ov_capture_dispatch-IsOwner,
  ov_capture_stop-OwnerCaptured,
}
use libopenvizsla.Tools.Exit.{
  Exit, exited, waits, stops, with_device, or_exit, with_capture, stop_and_exit,
}
use libopenvizsla.Tools.Load.{filename_of, load_main}
use libopenvizsla.Tools.Sample.{Output, Runs, sampled, sample_main}

module _ {lib : Zip} (archives : lib.World → ℕ) where
  -- On exit `n` archives are open.
  abbrev pub Closes : {A : Type 0} → ℕ → Exit lib A → Type 0
  Closes n (exited code w) = archives w ≡ n
  Closes n waits = Unit
  Closes n stops = Unit

module _ {lib : Zip} (archives : lib.World → ℕ) (rd : Reads lib archives) (usb : Ftdi)
    (counts : Counts lib archives) (n rounds : ℕ) {A : Type 0} where
  pub with_device-Closes :
      (code : A) (m : Made usb lib) (next : OvDevice usb lib → Exit lib A)
      → MakesOwner archives rd usb counts n m
      → ((ov : OvDevice usb lib)
          → IsOwner archives rd usb counts n ov
          → Closes archives n (next ov))
      → Closes archives n (with_device code m next)
  with_device-Closes code (made ov) next h step = step ov h
  with_device-Closes code (null cha fwpkg) next h step = h
  with_device-Closes code stopped next h step = tt

  pub or_exit-Closes :
      {B : Type 0} (code : A) (r : Answer usb lib B) (next : OvDevice usb lib → Exit lib A)
      → OwnerAnswer archives rd usb counts n rounds r
      → ((ov : OvDevice usb lib)
          → IsOwner archives rd usb counts n ov
          → Closes archives n (next ov))
      → Closes archives n (or_exit code r next)
  or_exit-Closes code (answered b ov) next h step = step ov h
  or_exit-Closes code (not_answered ov) next h step = ov_free-IsOwner archives rd usb counts n ov h
  or_exit-Closes code still_waiting next h step = tt
  or_exit-Closes code undefined next h step = tt

  pub with_capture-Closes :
      {V : Type 0} (code : Capturing usb lib V → A) (r : Captured usb lib V)
      (next : Capturing usb lib V → Exit lib A)
      → OwnerCaptured archives rd usb counts n rounds r
      → ((cap : Capturing usb lib V)
          → IsOwner archives rd usb counts n cap.ov
          → Closes archives n (next cap))
      → Closes archives n (with_capture code r next)
  with_capture-Closes code (ret true cap) next h step = step cap h
  with_capture-Closes code (ret false cap) next h step =
      ov_free-IsOwner archives rd usb counts n cap.ov h
  with_capture-Closes code capture_waiting next h step = tt
  with_capture-Closes code capture_aborted next h step = tt

  pub stop_and_exit-Closes :
      {V : Type 0} (code : A) (r : Captured usb lib V)
      → OwnerCaptured archives rd usb counts n rounds r
      → Closes archives n (stop_and_exit code r)
  stop_and_exit-Closes code (ret good cap) h = ov_free-IsOwner archives rd usb counts n cap.ov h
  stop_and_exit-Closes code capture_waiting h = tt
  stop_and_exit-Closes code capture_aborted h = tt

module _ {lib : Zip} (archives : lib.World → ℕ) (rd : Reads lib archives) (usb : Ftdi)
    (counts : Counts lib archives) (rounds : ℕ) (malloc : ℕ → Bool) (bit : Bit) where
  -- Whatever the package that the program loads holds, and whichever call fails: when the program
  -- exits, as many archives are open as when it started, though it opens the package once for the
  -- device and once to load it.
  pub load_main-Closes :
      (reg : Reg) (preload : Bytes) (argv : List String) (w : lib.World)
      → Closes {lib = lib} archives
          (archives w)
          (load_main usb rounds malloc bit reg preload argv w)
  unfolding load_main
  load_main-Closes reg preload argv w =
      let n = archives w in
      with_device-Closes archives rd usb counts n rounds 1 _ _
        (ov_new-MakesOwner archives rd usb counts malloc preload (filename_of argv) w)
        (λ ov0 h0.
          or_exit-Closes archives rd usb counts n rounds 1 _ _
            (ov_open-OwnerAnswer archives rd usb counts n rounds malloc bit ov0 h0)
            (λ ov1 h1.
              or_exit-Closes archives rd usb counts n rounds 1 _ _
                (ov_load_firmware-OwnerAnswer archives rd usb counts n rounds malloc bit reg preload
                  (filename_of argv) ov1 h1)
                (λ ov2 h2. ov_free-IsOwner archives rd usb counts n ov2 h2)))

  sampled-Closes :
      (n : ℕ) (runs : Runs) (r : Returned × Capturing usb lib Output)
      → IsOwner archives rd usb counts n r.1.ov
      → Closes archives n (sampled usb rounds malloc runs r)
  sampled-Closes n runs (r, cap) h = stop_and_exit-Closes archives rd usb counts n rounds _ _ (
      ov_capture_stop-OwnerCaptured archives rd usb counts n rounds runs.stop
        cap.loop.pd.user.user_data cap h)

  -- Whichever call fails, and whatever the capture loop does: when the program exits, as many
  -- archives are open as when it started.
  pub sample_main-Closes :
      (runs : Runs) (loop : Loop Output) (packet : Packet) (preload : Bytes) (w : lib.World)
      → Closes {lib = lib} archives
          (archives w)
          (sample_main usb rounds malloc runs bit loop packet preload w)
  unfolding sample_main
  sample_main-Closes runs loop packet preload w =
      let n = archives w in
      with_device-Closes archives rd usb counts n rounds 1 _ _
        (ov_new-MakesOwner archives rd usb counts malloc preload none w)
        (λ ov0 h0.
          or_exit-Closes archives rd usb counts n rounds 1 _ _
            (ov_open-OwnerAnswer archives rd usb counts n rounds malloc bit ov0 h0)
            (λ ov1 h1.
              or_exit-Closes archives rd usb counts n rounds 1 _ _
                (ov_set_usb_speed-OwnerAnswer archives rd usb counts n rounds malloc bit low_speed
                  ov1 h1)
                (λ ov2 h2.
                  with_capture-Closes archives rd usb counts n rounds _ _ _
                    (ov_capture_start-OwnerCaptured archives rd usb counts n rounds packet 1024 _ []
                      (record { ov = ov2; loop = loop }) h2)
                    (λ cap h. sampled-Closes n runs (ov_capture_dispatch rounds runs.dispatch cap) (
                      ov_capture_dispatch-IsOwner archives rd usb counts n rounds runs.dispatch cap
                        h)))))
