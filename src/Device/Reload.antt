-- ===== src/Device/Reload.antt =====
-- What ov_load_firmware of src/ov.c leaves, on each of its paths.
use mathlib.Core.Path.{subst}
use libopenvizsla.Prelude.{
  ℕ, suc, ◌≡◌, refl, Bool, Bool-cases, inl, inr, Option, none, some, String, Bytes, length, Ret, ok,
  failed, waiting,
}
use libopenvizsla.Ftdi.{Ftdi}
use libopenvizsla.Reg.State.{Reg}
use libopenvizsla.Reg.Map.{loaded, refused, aborted}
use libopenvizsla.Reg.Complete.{AllBelow}
use libopenvizsla.Cha.State.{Cha}
use libopenvizsla.Cha.Port.{cha_switch_config_mode, cha_switch_fifo_mode, cha_set_reg}
use libopenvizsla.Chb.Port as Chb
use libopenvizsla.Chb.Port.{chb_switch_program_mode}
use libopenvizsla.Bit.Parser as Bit
use libopenvizsla.Bit.Parser.{Bit, Parse, parsed, out_of_bounds, bit_init}
use libopenvizsla.Bit.Loader as Loader
use libopenvizsla.Bit.Loader.{overwritten, null_transfer, out_of_fuel, bit_load_firmware}
use libopenvizsla.Fwpkg.Zip.{Zip}
use libopenvizsla.Fwpkg.Package.{
  Fwpkg, Read, read, not_read, Init, ready, unready, blank, fwpkg_bitstream_size,
  fwpkg_read_bitstream, fwpkg_init,
}
use libopenvizsla.Fwpkg.Init.{FromFwpkg, came, overrun, reg_init_from_fwpkg}
use libopenvizsla.Fwpkg.Archives.{Counts, IsBalanced, fwpkg_init-IsBalanced}
use libopenvizsla.Fwpkg.Kept.{
  Reads, Has, ReadHas, MapHas, file_size-Has, read_file-ReadHas, from_fwpkg-MapHas,
}
use libopenvizsla.Fwpkg.Starting.{LoadIsInitialized, from_fwpkg-IsInitialized}
use libopenvizsla.Device.Open.{OvDevice}
use libopenvizsla.Device.Ledger.{destroyed}
use libopenvizsla.Device.Firmware.{
  Loading, load_done, load_failed, load_waiting, load_null_transfer, load_undefined, restored,
  restore, after_fifo, after_bits, after_program, after_config, after_parse, after_bitstream,
  with_buffer, ov_load_firmware_from_fwpkg,
}
use libopenvizsla.Device.Api.{
  Answer, answered, not_answered, still_waiting, undefined, other_loaded, map_loaded, load_other,
  package_opened, ov_load_firmware,
}

module _ {lib : Zip} (archives : lib.World → ℕ) (rd : Reads lib archives) (usb : Ftdi)
    (rounds : ℕ) where
  -- The package that is left has its archive, `n` are open, and the device still has
  -- its own.
  abbrev pub LoadHas : ℕ → Option lib.Archive → Option lib.Archive → Loading usb lib → Type 0
  LoadHas n p q (load_done ov fwpkg) = Has archives rd n p fwpkg × (ov.fwpkg.pkg ≡ q)
  LoadHas n p q (load_failed ov fwpkg) = Has archives rd n p fwpkg × (ov.fwpkg.pkg ≡ q)
  LoadHas n p q _ = Unit

  module _ (n : ℕ) (p : Option lib.Archive) (fwpkg : Fwpkg lib)
      (h : Has archives rd n p fwpkg) where
    restored-LoadHas :
        (r : Ret (Cha usb) (Unit {0})) (ov : OvDevice usb lib)
        → LoadHas n p ov.fwpkg.pkg (restored r ov fwpkg)
    restored-LoadHas (ok a cha) ov = (h, refl)
    restored-LoadHas (failed cha) ov = (h, refl)
    restored-LoadHas (waiting cha) ov = tt

    restore-LoadHas : (ov : OvDevice usb lib) → LoadHas n p ov.fwpkg.pkg (restore rounds ov fwpkg)
    unfolding restore
    restore-LoadHas ov = restored-LoadHas (cha_switch_fifo_mode usb rounds ov.cha) ov

    fifo-LoadHas :
        (r : Ret (Cha usb) (Unit {0})) (ov : OvDevice usb lib)
        → LoadHas n p ov.fwpkg.pkg (after_fifo rounds r ov fwpkg)
    fifo-LoadHas (ok a cha) ov = (h, refl)
    fifo-LoadHas (failed cha) ov = restore-LoadHas _
    fifo-LoadHas (waiting cha) ov = tt

    bits-LoadHas :
        (r : Loader.Load usb (Unit {0})) (ov : OvDevice usb lib)
        → LoadHas n p ov.fwpkg.pkg (after_bits rounds r ov fwpkg)
    bits-LoadHas (Loader.loaded a l) ov = fifo-LoadHas (cha_switch_fifo_mode usb rounds l.cha) _
    bits-LoadHas (Loader.refused l) ov = restore-LoadHas _
    bits-LoadHas overwritten ov = tt
    bits-LoadHas null_transfer ov = tt
    bits-LoadHas out_of_fuel ov = tt

    program-LoadHas :
        (bit : Bit) (r : Chb.Ret usb) (ov : OvDevice usb lib)
        → LoadHas n p ov.fwpkg.pkg (after_program rounds bit r ov fwpkg)
    program-LoadHas bit (Chb.succeeded chb) ov = bits-LoadHas _ _
    program-LoadHas bit (Chb.failed chb) ov = restore-LoadHas _

    config-LoadHas :
        (bit : Bit) (r : Ret (Cha usb) (Unit {0})) (ov : OvDevice usb lib)
        → LoadHas n p ov.fwpkg.pkg (after_config rounds bit r ov fwpkg)
    config-LoadHas bit (ok a cha) ov = program-LoadHas bit (chb_switch_program_mode usb ov.chb) _
    config-LoadHas bit (failed cha) ov = (h, refl)
    config-LoadHas bit (waiting cha) ov = tt

    parse-LoadHas :
        (r : Parse) (ov : OvDevice usb lib)
        → LoadHas n p ov.fwpkg.pkg (after_parse rounds r ov fwpkg)
    parse-LoadHas (parsed bit) ov = config-LoadHas bit (cha_switch_config_mode usb rounds ov.cha) ov
    parse-LoadHas (Bit.refused bit) ov = (h, refl)
    parse-LoadHas out_of_bounds ov = tt

  read-LoadHas :
      (n : ℕ) (p : Option lib.Archive) (bit : Bit) (r : Read lib) (ov : OvDevice usb lib)
      → ReadHas archives rd n p r
      → LoadHas n p ov.fwpkg.pkg (after_bitstream rounds bit r ov)
  read-LoadHas n p bit (read bytes fwpkg) ov h =
      parse-LoadHas n p fwpkg h (bit_init bit bytes (length bytes)) ov
  read-LoadHas n p bit (not_read fwpkg) ov h = (h, refl)

  buffer-LoadHas :
      (malloc : ℕ → Bool) (bit : Bit) (n : ℕ) (p : Option lib.Archive) (pkg : lib.Archive)
      (s : ℕ × Fwpkg lib) (ov : OvDevice usb lib)
      → Has archives rd n p s.1
      → LoadHas n p ov.fwpkg.pkg (with_buffer rounds malloc bit pkg s ov)
  buffer-LoadHas malloc bit n p pkg (size, fwpkg) ov h = elim (Bool-cases (malloc size)) [
    | inl e ↦ rw e (
        read-LoadHas n p bit (fwpkg_read_bitstream pkg size fwpkg) ov (
          subst (λ q. ReadHas archives rd n q (fwpkg_read_bitstream pkg size fwpkg)) h.1
            (read_file-ReadHas archives rd n pkg size fwpkg.bitstream_index fwpkg h.0)))
    | inr e ↦ rw e (h, refl)
  ]

  pub load-LoadHas :
      (malloc : ℕ → Bool) (bit : Bit) (n : ℕ) (p : Option lib.Archive) (pkg : lib.Archive)
      (fwpkg : Fwpkg lib) (ov : OvDevice usb lib)
      → Has archives rd n p fwpkg
      → LoadHas n p ov.fwpkg.pkg (ov_load_firmware_from_fwpkg rounds malloc bit pkg fwpkg ov)
  unfolding ov_load_firmware_from_fwpkg
  load-LoadHas malloc bit n p pkg fwpkg ov h =
      buffer-LoadHas malloc bit n p pkg (fwpkg_bitstream_size pkg fwpkg) ov (
        subst (λ q. Has archives rd n q (fwpkg_bitstream_size pkg fwpkg).1) h.1
          (file_size-Has archives rd n pkg fwpkg.bitstream_index fwpkg h.0))

  module _ (malloc : ℕ → Bool) (bit : Bit) (reg0 : Reg) (counts : Counts lib archives) where
    -- `n` archives are open again, and the device has its own; after a success it has a whole
    -- register map.
    abbrev pub Reloads : ℕ → Option lib.Archive → Answer usb lib (Unit {0}) → Type 0
    Reloads n p (answered a ov) =
        Has archives rd n p ov.fwpkg
        × (length ov.cha.reg.addr ≡ 15)
        × AllBelow 0xffff ov.cha.reg.addr
    Reloads n p (not_answered ov) = Has archives rd n p ov.fwpkg
    Reloads n p still_waiting = Unit
    Reloads n p undefined = Unit

    other-Reloads :
        (n : ℕ) (p : Option lib.Archive) (pkg : lib.Archive) (reg : Reg) (r : Loading usb lib)
        → (length reg.addr ≡ 15) × AllBelow 0xffff reg.addr
        → LoadHas (suc n) (some pkg) p r
        → Reloads n p (other_loaded rounds malloc reg r)
    unfolding cha_set_reg
    other-Reloads n p pkg reg (load_done ov fwpkg) w h =
        ((destroyed archives rd usb counts n pkg fwpkg h.0, h.1), w.0, w.1)
    other-Reloads n p pkg reg (load_failed ov fwpkg) w h =
        (destroyed archives rd usb counts n pkg fwpkg h.0, h.1)
    other-Reloads n p pkg reg load_waiting w h = tt
    other-Reloads n p pkg reg load_null_transfer w h = tt
    other-Reloads n p pkg reg load_undefined w h = tt

    map-Reloads :
        (n : ℕ) (pkg : lib.Archive) (r : FromFwpkg lib) (ov : OvDevice usb lib)
        → LoadIsInitialized r
        → MapHas archives rd (suc n) (some pkg) r
        → Reloads n ov.fwpkg.pkg (map_loaded rounds malloc bit pkg r ov)
    map-Reloads n pkg (came (loaded reg) fwpkg) ov w h =
        other-Reloads n ov.fwpkg.pkg pkg reg _ w
          (load-LoadHas malloc bit (suc n) (some pkg) pkg fwpkg ov h)
    map-Reloads n pkg (came (refused reg) fwpkg) ov w h =
        (destroyed archives rd usb counts n pkg fwpkg h, refl)
    map-Reloads n pkg (came aborted fwpkg) ov w h = tt
    map-Reloads n pkg (overrun fwpkg) ov w h = tt

    other_package-Reloads :
        (n : ℕ) (p : Option lib.Archive) (fwpkg : Fwpkg lib) (ov : OvDevice usb lib)
        → fwpkg.pkg ≡ p
        → archives fwpkg.world ≡ suc n
        → Reloads n ov.fwpkg.pkg (load_other rounds malloc bit reg0 p fwpkg ov)
    other_package-Reloads n none fwpkg ov e h = tt
    other_package-Reloads n (some pkg) fwpkg ov e h =
        map-Reloads n pkg (reg_init_from_fwpkg malloc reg0 pkg fwpkg) ov
          (from_fwpkg-IsInitialized malloc reg0 pkg fwpkg)
          (subst (λ q. MapHas archives rd (suc n) q (reg_init_from_fwpkg malloc reg0 pkg fwpkg)) e
            (from_fwpkg-MapHas archives rd malloc (suc n) reg0 pkg fwpkg h))

    init-Reloads :
        (n : ℕ) (i : Init lib) (ov : OvDevice usb lib)
        → IsBalanced archives counts n i
        → Reloads n ov.fwpkg.pkg (package_opened rounds malloc bit reg0 i ov)
    init-Reloads n (ready fwpkg) ov h = other_package-Reloads n fwpkg.pkg fwpkg ov refl h.0
    init-Reloads n (unready fwpkg) ov h = (h, refl)

    -- Whatever the second package holds and whichever step fails: when ov_load_firmware returns, the
    -- archive that it opened is closed again, so that as many are open as before, and the device still
    -- has its own; when it returns 0, each of the device's 15 registers has an address below 0xffff.
    pub ov_load_firmware-Reloads :
        (preload : Bytes) (filename : Option String) (ov : OvDevice usb lib)
        → Reloads
            (archives ov.fwpkg.world)
            ov.fwpkg.pkg
            (ov_load_firmware rounds malloc bit reg0 preload filename ov)
    unfolding ov_load_firmware
    ov_load_firmware-Reloads preload filename ov =
        init-Reloads (archives ov.fwpkg.world) (fwpkg_init preload filename (blank ov.fwpkg.world))
          ov (fwpkg_init-IsBalanced archives counts preload filename (blank ov.fwpkg.world))
