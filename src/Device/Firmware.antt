-- ===== src/Device/Firmware.antt =====
-- How src/ov.c loads the bitstream of a firmware package.
use libopenvizsla.Prelude.{
  ℕ, Bool, if◌then◌else◌, Option, some, String, length, Ret, ok, failed, waiting,
}
use libopenvizsla.Ftdi.{Ftdi}
use libopenvizsla.Cha.State.{Cha}
use libopenvizsla.Cha.Port.{cha_switch_config_mode, cha_switch_fifo_mode}
use libopenvizsla.Chb.Port as Chb
use libopenvizsla.Chb.Port.{chb_switch_program_mode}
use libopenvizsla.Bit.Parser as Bit
use libopenvizsla.Bit.Parser.{Bit, Parse, parsed, out_of_bounds, bit_init}
use libopenvizsla.Bit.Loader as Loader
use libopenvizsla.Bit.Loader.{loaded, overwritten, null_transfer, out_of_fuel, bit_load_firmware}
use libopenvizsla.Fwpkg.Zip.{Zip}
use libopenvizsla.Fwpkg.Package.{
  Fwpkg, Read, read, not_read, fwpkg_bitstream_size, fwpkg_read_bitstream,
}
use libopenvizsla.Device.Open.{OvDevice}

-- How it ends: with 0 or -1, and what it leaves of the package; still waiting for the device; with a
-- wait for a transfer that is a null pointer; with another thing that is undefined.
pub data Loading (usb : Ftdi) (lib : Zip) : Type 0 where
  load_done : OvDevice usb lib → Fwpkg lib → Loading usb lib
  load_failed : OvDevice usb lib → Fwpkg lib → Loading usb lib
  load_waiting : Loading usb lib
  load_null_transfer : Loading usb lib
  load_undefined : Loading usb lib

module _ {usb : Ftdi} {lib : Zip} where
  -- `ov->error_str = cha_get_error_string(&ov->cha)`, with the port as it is
  abbrev pub port_a_failed : Cha usb → OvDevice usb lib → OvDevice usb lib
  port_a_failed cha ov = record ov { cha = cha; error_str = cha.error_str }

  abbrev pub report : Option String → OvDevice usb lib → OvDevice usb lib
  report message ov = record ov { error_str = message }

  -- Behind the label `fail_chb_switch_program_mode`: the result is ignored.
  abbrev pub restored : Ret (Cha usb) (Unit {0}) → OvDevice usb lib → Fwpkg lib → Loading usb lib
  restored (ok a cha) ov fwpkg = load_failed (record ov { cha = cha }) fwpkg
  restored (failed cha) ov fwpkg = load_failed (record ov { cha = cha }) fwpkg
  restored (waiting cha) ov fwpkg = load_waiting

  module _ (rounds : ℕ) where
    unfoldable pub restore : OvDevice usb lib → Fwpkg lib → Loading usb lib
    restore ov fwpkg = restored (cha_switch_fifo_mode usb rounds ov.cha) ov fwpkg

    abbrev pub after_fifo :
        Ret (Cha usb) (Unit {0}) → OvDevice usb lib → Fwpkg lib → Loading usb lib
    after_fifo (ok a cha) ov fwpkg = load_done (record ov { cha = cha }) fwpkg
    after_fifo (failed cha) ov fwpkg = restore (port_a_failed cha ov) fwpkg
    after_fifo (waiting cha) ov fwpkg = load_waiting

    abbrev pub after_bits :
        Loader.Load usb (Unit {0}) → OvDevice usb lib → Fwpkg lib → Loading usb lib
    after_bits (loaded a l) ov fwpkg =
        after_fifo (cha_switch_fifo_mode usb rounds l.cha) (record ov { cha = l.cha; chb = l.chb })
          fwpkg
    after_bits (Loader.refused l) ov fwpkg =
        restore (record ov { cha = l.cha; chb = l.chb; error_str = l.error_str }) fwpkg
    after_bits overwritten ov fwpkg = load_undefined
    after_bits null_transfer ov fwpkg = load_null_transfer
    after_bits out_of_fuel ov fwpkg = load_undefined

    abbrev pub after_program : Bit → Chb.Ret usb → OvDevice usb lib → Fwpkg lib → Loading usb lib
    after_program bit (Chb.succeeded chb) ov fwpkg =
        after_bits
          (bit_load_firmware usb bit.data_ptr bit.size
            (record { error_str = bit.error_str; cha = ov.cha; chb = chb }))
          (record ov { chb = chb }) fwpkg
    after_program bit (Chb.failed chb) ov fwpkg =
        restore (record ov { chb = chb; error_str = chb.error_str }) fwpkg

    abbrev pub after_config :
        Bit → Ret (Cha usb) (Unit {0}) → OvDevice usb lib → Fwpkg lib → Loading usb lib
    after_config bit (ok a cha) ov fwpkg =
        after_program bit (chb_switch_program_mode usb ov.chb) (record ov { cha = cha }) fwpkg
    after_config bit (failed cha) ov fwpkg = load_failed (port_a_failed cha ov) fwpkg
    after_config bit (waiting cha) ov fwpkg = load_waiting

    abbrev pub after_parse : Parse → OvDevice usb lib → Fwpkg lib → Loading usb lib
    after_parse (parsed bit) ov fwpkg =
        after_config bit (cha_switch_config_mode usb rounds ov.cha) ov fwpkg
    after_parse (Bit.refused bit) ov fwpkg = load_failed (report bit.error_str ov) fwpkg
    after_parse out_of_bounds ov fwpkg = load_undefined

    -- `bit` is an uninitialised object. Of the buffer the bytes are kept that were read.
    abbrev pub after_bitstream : Bit → Read lib → OvDevice usb lib → Loading usb lib
    after_bitstream bit (read bytes fwpkg) ov =
        after_parse (bit_init bit bytes (length bytes)) ov fwpkg
    after_bitstream bit (not_read fwpkg) ov = load_failed (report fwpkg.error_str ov) fwpkg

    abbrev pub with_buffer :
        (ℕ → Bool) → Bit → lib.Archive → ℕ × Fwpkg lib → OvDevice usb lib → Loading usb lib
    with_buffer malloc bit pkg (size, fwpkg) ov =
        if malloc size
        then after_bitstream bit (fwpkg_read_bitstream pkg size fwpkg) ov
        else load_failed (report (some "Cannot allocate memory for firmware bitstream") ov) fwpkg

    -- `free(tmp)` is made on every path.
    unfoldable pub ov_load_firmware_from_fwpkg :
        (ℕ → Bool) → Bit → lib.Archive → Fwpkg lib → OvDevice usb lib → Loading usb lib
    ov_load_firmware_from_fwpkg malloc bit pkg fwpkg ov =
        with_buffer malloc bit pkg (fwpkg_bitstream_size pkg fwpkg) ov
