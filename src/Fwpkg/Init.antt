-- ===== src/Fwpkg/Init.antt =====
-- reg_init_from_fwpkg of src/reg.c and cha_init of src/cha.c.
use libopenvizsla.Prelude.{
  ℕ, ◌+◌, ◌%◌, ◌^◌, ◌==◌, ltb, Bool, if◌then◌else◌, none, some, [], ◌∷◌, Bytes, length, ◌>>◌,
  replicate, Ret, ok, failed, waiting,
}
use libopenvizsla.Reg.State.{Reg, reg_max}
use libopenvizsla.Reg.Map.{Load, loaded, refused, aborted, reg_init}
use libopenvizsla.Ftdi.{Ftdi}
use libopenvizsla.Cha.State.{Cha, ChaAction, request}
use libopenvizsla.Fwpkg.Zip.{Zip}
use libopenvizsla.Fwpkg.Package.{Fwpkg, Read, read, not_read, fwpkg_map_size, fwpkg_read_map}

-- The text in front of the terminating NUL.
unfoldable pub c_string : Bytes → Bytes
c_string [] = []
c_string (b ∷ bs) = if b == 0 then [] else b ∷ c_string bs

-- How reg_init_from_fwpkg ends: with a result of reg_init, or by a write outside its object.
pub data FromFwpkg (lib : Zip) : Type 0 where
  came : Load → Fwpkg lib → FromFwpkg lib
  overrun : Fwpkg lib → FromFwpkg lib

module _ {lib : Zip} where
  -- The object has `size` bytes; `tmp[size] = '\0'` has the number of bytes read for `size`.
  abbrev pub map_read : ℕ → Reg → Read lib → FromFwpkg lib
  map_read size reg (not_read fwpkg) =
      came (refused (record reg { error_str = fwpkg.error_str })) fwpkg
  map_read size reg (read bytes fwpkg) =
      if ltb (length bytes) size then came (reg_init (c_string bytes)) fwpkg else overrun fwpkg

  abbrev pub with_room : (ℕ → Bool) → Reg → lib.Archive → ℕ × Fwpkg lib → FromFwpkg lib
  with_room malloc reg pkg (n, fwpkg) =
      let size = (n + 1) % 2 ^ 64 in
      if malloc size
      then map_read size reg (fwpkg_read_map pkg size fwpkg)
      else came
          (refused (record reg { error_str = some "Cannot allocate memory for register map" }))
          fwpkg

  -- `malloc` tells whether an allocation of that many bytes succeeds.
  unfoldable pub reg_init_from_fwpkg : (ℕ → Bool) → Reg → lib.Archive → Fwpkg lib → FromFwpkg lib
  reg_init_from_fwpkg malloc reg pkg fwpkg = with_room malloc reg pkg (fwpkg_map_size pkg fwpkg)

-- How cha_init ends: 0, -1, or what reg_init_from_fwpkg does instead of returning.
pub data ChaInit (usb : Ftdi) (lib : Zip) : Type 0 where
  cha_ready : Cha usb → Fwpkg lib → ChaInit usb lib
  cha_unready : Cha usb → Fwpkg lib → ChaInit usb lib
  cha_stopped : ChaInit usb lib

-- A register map of zeros.
abbrev pub zero_reg : Reg
zero_reg = record { error_str = none; addr = replicate reg_max 0 }

module _ {usb : Ftdi} where
  abbrev pub zero_cha : Cha usb
  zero_cha = record { ftdi = usb.zeroed; reg = zero_reg; error_str = none }

  -- The label `fail_ftdi_set_interface`.
  abbrev pub deinit_failed : Ret (Cha usb) (Unit {0}) → Ret (Cha usb) (Unit {0})
  deinit_failed (ok a cha) = ok a cha
  deinit_failed (failed cha) = failed (record cha { ftdi = usb.deinit cha.ftdi })
  deinit_failed (waiting cha) = waiting cha

  abbrev pub start_port : ChaAction usb (Unit {0})
  start_port =
      request usb.init >> (λ cha. deinit_failed (request (usb.set_interface usb.interface_a) cha))

module _ {usb : Ftdi} {lib : Zip} where
  abbrev pub cha_result : Ret (Cha usb) (Unit {0}) → Fwpkg lib → ChaInit usb lib
  cha_result (ok a cha) fwpkg = cha_ready cha fwpkg
  cha_result (failed cha) fwpkg = cha_unready cha fwpkg
  cha_result (waiting cha) fwpkg = cha_stopped

  abbrev pub with_map : FromFwpkg lib → ChaInit usb lib
  with_map (came (loaded reg) fwpkg) = cha_result (start_port (record zero_cha { reg = reg })) fwpkg
  with_map (came (refused reg) fwpkg) =
      cha_unready (record zero_cha { reg = reg; error_str = reg.error_str }) fwpkg
  with_map (came aborted fwpkg) = cha_stopped
  with_map (overrun fwpkg) = cha_stopped

  unfoldable pub cha_init : (ℕ → Bool) → lib.Archive → Fwpkg lib → ChaInit usb lib
  cha_init malloc pkg fwpkg = with_map (reg_init_from_fwpkg malloc zero_reg pkg fwpkg)
