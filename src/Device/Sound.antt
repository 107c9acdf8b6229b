-- ===== src/Device/Sound.antt =====
-- Loading the firmware in src/ov.c never does what is undefined, but for an empty bitstream.
use libopenvizsla.Prelude.{
  ℕ, zero, suc, ◌≤◌, Bool, Bool-cases, inl, inr, Bytes, length, take, Ret, ok, failed, waiting,
  arith,
}
use libopenvizsla.Ftdi.{Ftdi}
use libopenvizsla.Cha.State.{Cha}
use libopenvizsla.Cha.Port.{cha_switch_config_mode, cha_switch_fifo_mode}
use libopenvizsla.Chb.Port as Chb
use libopenvizsla.Chb.Port.{chb_switch_program_mode}
use libopenvizsla.Bit.Parser as Bit
use libopenvizsla.Bit.Parser.{Bit, Parse, parsed, out_of_bounds, bit_init}
use libopenvizsla.Bit.Bounds.{HasBits, Ends, bit_init-Ends}
use libopenvizsla.Bit.Loader as Loader
use libopenvizsla.Bit.Loader.{overwritten, null_transfer, out_of_fuel, send_loop, bit_load_firmware}
use libopenvizsla.Bit.Sending.{Recorder, HasLoaded, bit_load_firmware-HasLoaded}
use libopenvizsla.Fwpkg.Zip.{Zip}
use libopenvizsla.Fwpkg.Package.{
  Fwpkg, Read, read, not_read, fwpkg_bitstream_size, fwpkg_read_bitstream,
}
use libopenvizsla.Device.Open.{OvDevice}
use libopenvizsla.Device.Firmware.{
  Loading, load_undefined, restored, restore, after_fifo, after_bits, after_program, after_config,
  after_parse, after_bitstream, with_buffer, ov_load_firmware_from_fwpkg,
}

module _ {usb : Ftdi} {lib : Zip} (rec : Recorder usb) (rounds : ℕ) where
  -- It returns, still waits for the device, or waits for a null transfer.
  abbrev pub IsDefined : Loading usb lib → Type 0
  IsDefined load_undefined = ⊥
  IsDefined _ = Unit

  restored-IsDefined :
      (r : Ret (Cha usb) (Unit {0})) (ov : OvDevice usb lib) (fwpkg : Fwpkg lib)
      → IsDefined (restored r ov fwpkg)
  restored-IsDefined (ok a cha) ov fwpkg = tt
  restored-IsDefined (failed cha) ov fwpkg = tt
  restored-IsDefined (waiting cha) ov fwpkg = tt

  restore-IsDefined :
      (ov : OvDevice usb lib) (fwpkg : Fwpkg lib) → IsDefined (restore rounds ov fwpkg)
  unfolding restore
  restore-IsDefined ov fwpkg = restored-IsDefined (cha_switch_fifo_mode usb rounds ov.cha) ov fwpkg

  fifo-IsDefined :
      (r : Ret (Cha usb) (Unit {0})) (ov : OvDevice usb lib) (fwpkg : Fwpkg lib)
      → IsDefined (after_fifo rounds r ov fwpkg)
  fifo-IsDefined (ok a cha) ov fwpkg = tt
  fifo-IsDefined (failed cha) ov fwpkg = restore-IsDefined _ fwpkg
  fifo-IsDefined (waiting cha) ov fwpkg = tt

  bits-IsDefined :
      (bytes : Bytes) (l0 : Loader.Loader usb) (r : Loader.Load usb (Unit {0}))
      (ov : OvDevice usb lib) (fwpkg : Fwpkg lib)
      → HasLoaded usb rec bytes l0 r
      → IsDefined (after_bits rounds r ov fwpkg)
  bits-IsDefined bytes l0 (Loader.loaded a l) ov fwpkg h =
      fifo-IsDefined (cha_switch_fifo_mode usb rounds l.cha) _ fwpkg
  bits-IsDefined bytes l0 (Loader.refused l) ov fwpkg h = restore-IsDefined _ fwpkg
  bits-IsDefined bytes l0 overwritten ov fwpkg h = absurd h
  bits-IsDefined bytes l0 null_transfer ov fwpkg h = tt
  bits-IsDefined bytes l0 out_of_fuel ov fwpkg h = absurd h

  -- With no byte left the loader waits for a null transfer.
  sized-IsDefined :
      (source : Bytes) (size : ℕ) (l : Loader.Loader usb) (ov : OvDevice usb lib)
      (fwpkg : Fwpkg lib)
      → size ≤ length source
      → IsDefined (after_bits rounds (bit_load_firmware usb source size l) ov fwpkg)
  unfolding bit_load_firmware send_loop
  sized-IsDefined source zero l ov fwpkg h = tt
  sized-IsDefined source (suc n) l ov fwpkg h =
      bits-IsDefined (take (suc n) source) l (bit_load_firmware usb source (suc n) l) ov fwpkg
        (bit_load_firmware-HasLoaded usb rec source (suc n) l (omega arith) h)

  program-IsDefined :
      (bit : Bit) (r : Chb.Ret usb) (ov : OvDevice usb lib) (fwpkg : Fwpkg lib)
      → HasBits bit
      → IsDefined (after_program rounds bit r ov fwpkg)
  program-IsDefined bit (Chb.succeeded chb) ov fwpkg h =
      sized-IsDefined bit.data_ptr bit.size _ _ fwpkg h.0
  program-IsDefined bit (Chb.failed chb) ov fwpkg h = restore-IsDefined _ fwpkg

  config-IsDefined :
      (bit : Bit) (r : Ret (Cha usb) (Unit {0})) (ov : OvDevice usb lib) (fwpkg : Fwpkg lib)
      → HasBits bit
      → IsDefined (after_config rounds bit r ov fwpkg)
  config-IsDefined bit (ok a cha) ov fwpkg h =
      program-IsDefined bit (chb_switch_program_mode usb ov.chb) _ fwpkg h
  config-IsDefined bit (failed cha) ov fwpkg h = tt
  config-IsDefined bit (waiting cha) ov fwpkg h = tt

  parse-IsDefined :
      (r : Parse) (ov : OvDevice usb lib) (fwpkg : Fwpkg lib)
      → Ends HasBits r
      → IsDefined (after_parse rounds r ov fwpkg)
  parse-IsDefined (parsed bit) ov fwpkg h =
      config-IsDefined bit (cha_switch_config_mode usb rounds ov.cha) ov fwpkg h
  parse-IsDefined (Bit.refused bit) ov fwpkg h = tt
  parse-IsDefined out_of_bounds ov fwpkg h = absurd h

  read-IsDefined :
      (bit : Bit) (r : Read lib) (ov : OvDevice usb lib)
      → IsDefined (after_bitstream rounds bit r ov)
  read-IsDefined bit (read bytes fwpkg) ov =
      parse-IsDefined (bit_init bit bytes (length bytes)) ov fwpkg
        (bit_init-Ends bit bytes (length bytes) (omega arith))
  read-IsDefined bit (not_read fwpkg) ov = tt

  buffer-IsDefined :
      (malloc : ℕ → Bool) (bit : Bit) (pkg : lib.Archive) (s : ℕ × Fwpkg lib)
      (ov : OvDevice usb lib)
      → IsDefined (with_buffer rounds malloc bit pkg s ov)
  buffer-IsDefined malloc bit pkg (size, fwpkg) ov = elim (Bool-cases (malloc size)) [
    | inl e ↦ rw e (read-IsDefined bit (fwpkg_read_bitstream pkg size fwpkg) ov)
    | inr e ↦ rw e tt
  ]

  -- Whatever bytes the package has for a bitstream, and whichever call fails: the parser reads
  -- inside the buffer, and the loader does not write a buffer that is being sent and ends, so that
  -- ov_load_firmware_from_fwpkg returns, waits for the device, or waits for a transfer that is a
  -- null pointer.
  pub ov_load_firmware_from_fwpkg-IsDefined :
      (malloc : ℕ → Bool) (bit : Bit) (pkg : lib.Archive) (fwpkg : Fwpkg lib)
      (ov : OvDevice usb lib)
      → IsDefined (ov_load_firmware_from_fwpkg rounds malloc bit pkg fwpkg ov)
  unfolding ov_load_firmware_from_fwpkg
  ov_load_firmware_from_fwpkg-IsDefined malloc bit pkg fwpkg ov =
      buffer-IsDefined malloc bit pkg (fwpkg_bitstream_size pkg fwpkg) ov
