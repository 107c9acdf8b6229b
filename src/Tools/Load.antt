-- ===== src/Tools/Load.antt =====
-- tools/load/main.c: the program that loads a firmware package.
use libopenvizsla.Prelude.{ℕ, Bool, Option, none, some, String, List, ◌∷◌, Bytes}
use libopenvizsla.Ftdi.{Ftdi}
use libopenvizsla.Reg.State.{Reg}
use libopenvizsla.Bit.Parser.{Bit}
use libopenvizsla.Fwpkg.Zip.{Zip}
use libopenvizsla.Device.Open.{ov_new}
use libopenvizsla.Device.Api.{ov_open, ov_load_firmware}
use libopenvizsla.Tools.Exit.{Exit, exit_freed, with_device, or_exit}

-- `argv[1]`, if `argc > 1`
abbrev pub filename_of : List String → Option String
filename_of (program ∷ filename ∷ rest) = some filename
filename_of _ = none

module _ (usb : Ftdi) {lib : Zip} (rounds : ℕ) (malloc : ℕ → Bool) where
  -- The status that the program exits with. `bit` and `reg` are uninitialised objects on the stack.
  unfoldable pub load_main : Bit → Reg → Bytes → List String → lib.World → Exit lib ℕ
  load_main bit reg preload argv w =
      let filename = filename_of argv in
      with_device {usb = usb} 1 (ov_new malloc preload filename w) (λ ov0.
        or_exit 1 (ov_open rounds malloc bit ov0) (λ ov1.
          or_exit 1 (ov_load_firmware rounds malloc bit reg preload filename ov1)
            (λ ov2. exit_freed 0 ov2)))
