-- ===== src/Tools/Exit.antt =====
-- How the programs under tools/ use the functions of src/ov.c: a failed call frees the device.
use libopenvizsla.Prelude.{if◌then◌else◌}
use libopenvizsla.Ftdi.{Ftdi}
use libopenvizsla.Fwpkg.Zip.{Zip}
use libopenvizsla.Device.Open.{OvDevice, Made, made, null, stopped, ov_free}
use libopenvizsla.Device.Api.{Answer, answered, not_answered, still_waiting, undefined}
use libopenvizsla.Device.Capture.{Capturing, Captured, ret, capture_waiting, capture_aborted}

-- How a program ends: it exits with `A`, and leaves libzip in a state; it waits for the device; it
-- aborts, or does what is undefined.
pub data Exit (lib : Zip) (A : Type 0) : Type 0 where
  exited : A → lib.World → Exit lib A
  waits : Exit lib A
  stops : Exit lib A

module _ {usb : Ftdi} {lib : Zip} {A : Type 0} where
  abbrev pub exit_freed : A → OvDevice usb lib → Exit lib A
  exit_freed code ov = exited code (ov_free ov).fwpkg.world

  -- Behind ov_new.
  abbrev pub with_device : A → Made usb lib → (OvDevice usb lib → Exit lib A) → Exit lib A
  with_device code (made ov) next = next ov
  with_device code (null cha fwpkg) next = exited code fwpkg.world
  with_device code stopped next = stops

  -- `if (ret < 0) { ov_free(ov); return code; }`
  abbrev pub or_exit :
      {B : Type 0} → A → Answer usb lib B → (OvDevice usb lib → Exit lib A) → Exit lib A
  or_exit code (answered b ov) next = next ov
  or_exit code (not_answered ov) next = exit_freed code ov
  or_exit code still_waiting next = waits
  or_exit code undefined next = stops

  -- Behind ov_capture_start, with what is exited with when it fails.
  abbrev pub with_capture :
      {V : Type 0}
      → (Capturing usb lib V → A)
      → Captured usb lib V
      → (Capturing usb lib V → Exit lib A)
      → Exit lib A
  with_capture code (ret good cap) next = if good then next cap else exit_freed (code cap) cap.ov
  with_capture code capture_waiting next = waits
  with_capture code capture_aborted next = stops

  -- Behind ov_capture_stop, whose result is ignored.
  abbrev pub stop_and_exit : {V : Type 0} → A → Captured usb lib V → Exit lib A
  stop_and_exit code (ret good cap) = exit_freed code cap.ov
  stop_and_exit code capture_waiting = waits
  stop_and_exit code capture_aborted = stops
