-- ===== src/Device/Api.antt =====
-- ov_open, ov_load_firmware and the speed functions of src/ov.c.
use libopenvizsla.Prelude.{ℕ, Bool, Option, none, some, String, Bytes, Ret, ok, failed, waiting}
use libopenvizsla.Ftdi.{Ftdi}
use libopenvizsla.Reg.State.{Reg}
use libopenvizsla.Reg.Map.{loaded, refused, aborted}
use libopenvizsla.Cha.State.{Cha, ChaAction}
use libopenvizsla.Cha.Ulpi.{UsbSpeed, cha_get_usb_speed, cha_set_usb_speed}
use libopenvizsla.Cha.Port.{cha_open, cha_switch_fifo_mode, cha_set_reg}
use libopenvizsla.Cha.Stream.{cha_stop_stream}
use libopenvizsla.Chb.Port as Chb
use libopenvizsla.Chb.Port.{chb_open}
use libopenvizsla.Bit.Parser.{Bit}
use libopenvizsla.Fwpkg.Zip.{Zip}
use libopenvizsla.Fwpkg.Package.{
  Fwpkg, Init, ready, unready, blank, in_world, fwpkg_init, fwpkg_destroy,
}
use libopenvizsla.Fwpkg.Init.{FromFwpkg, came, overrun, reg_init_from_fwpkg}
use libopenvizsla.Device.Open.{OvDevice}
use libopenvizsla.Device.Firmware.{
  Loading, load_done, load_failed, load_waiting, load_null_transfer, load_undefined, port_a_failed,
  report, ov_load_firmware_from_fwpkg,
}

-- How a function of the API ends: with 0 or -1, waiting, or in what is undefined.
pub data Answer (usb : Ftdi) (lib : Zip) (A : Type 0) : Type 0 where
  answered : A → OvDevice usb lib → Answer usb lib A
  not_answered : OvDevice usb lib → Answer usb lib A
  still_waiting : Answer usb lib A
  undefined : Answer usb lib A

module _ {usb : Ftdi} {lib : Zip} where
  -- A call on port A, whose message is taken when it fails, and what is done behind it.
  abbrev pub answer_a : {A : Type 0} → Ret (Cha usb) A → OvDevice usb lib → Answer usb lib A
  answer_a (ok a cha) ov = answered a (record ov { cha = cha })
  answer_a (failed cha) ov = not_answered (port_a_failed cha ov)
  answer_a (waiting cha) ov = still_waiting

  abbrev pub then_answer :
      {A B : Type 0} → Answer usb lib A → (OvDevice usb lib → Answer usb lib B) → Answer usb lib B
  then_answer (answered a ov) next = next ov
  then_answer (not_answered ov) next = not_answered ov
  then_answer still_waiting next = still_waiting
  then_answer undefined next = undefined

  abbrev pub call_a : {A : Type 0} → ChaAction usb A → OvDevice usb lib → Answer usb lib A
  call_a m ov = answer_a (m ov.cha) ov

  abbrev pub answer_b : Chb.Ret usb → OvDevice usb lib → Answer usb lib (Unit {0})
  answer_b (Chb.succeeded chb) ov = answered tt (record ov { chb = chb })
  answer_b (Chb.failed chb) ov = not_answered (record ov { chb = chb; error_str = chb.error_str })

  -- The package is the device's own.
  abbrev pub own_loaded : Loading usb lib → Answer usb lib (Unit {0})
  own_loaded (load_done ov fwpkg) = answered tt (record ov { fwpkg = fwpkg })
  own_loaded (load_failed ov fwpkg) = not_answered (record ov { fwpkg = fwpkg })
  own_loaded load_waiting = still_waiting
  own_loaded load_null_transfer = undefined
  own_loaded load_undefined = undefined

  module _ (rounds : ℕ) (malloc : ℕ → Bool) where
    abbrev pub load_own : Bit → Option lib.Archive → OvDevice usb lib → Answer usb lib (Unit {0})
    load_own bit none ov = undefined
    load_own bit (some pkg) ov =
        own_loaded (ov_load_firmware_from_fwpkg rounds malloc bit pkg ov.fwpkg ov)

    -- What was opened before a failure stays open.
    unfoldable pub ov_open : Bit → OvDevice usb lib → Answer usb lib (Unit {0})
    ov_open bit ov0 = then_answer (call_a (cha_open usb rounds) ov0) (λ ov1.
        then_answer (answer_b (chb_open usb ov1.chb) ov1) (λ ov2.
          then_answer (load_own bit ov2.fwpkg.pkg ov2) (λ ov3.
            then_answer (call_a (cha_switch_fifo_mode usb rounds) ov3)
              (call_a (cha_stop_stream usb rounds)))))

    unfoldable pub ov_get_usb_speed : OvDevice usb lib → Answer usb lib UsbSpeed
    ov_get_usb_speed = call_a (cha_get_usb_speed usb rounds)

    unfoldable pub ov_set_usb_speed : UsbSpeed → OvDevice usb lib → Answer usb lib (Unit {0})
    ov_set_usb_speed speed = call_a (cha_set_usb_speed usb rounds speed)

    -- The package is a second one: libzip's state goes on from the device's own, and goes back.
    abbrev pub with_world : Fwpkg lib → OvDevice usb lib → OvDevice usb lib
    with_world fwpkg ov = record ov { fwpkg = in_world fwpkg.world ov.fwpkg }

    -- The labels of ov_load_firmware, and its end.
    abbrev pub other_loaded : Reg → Loading usb lib → Answer usb lib (Unit {0})
    other_loaded reg (load_done ov fwpkg) =
        answer_a (cha_set_reg usb rounds reg ov.cha) (with_world (fwpkg_destroy fwpkg) ov)
    other_loaded reg (load_failed ov fwpkg) = not_answered (with_world (fwpkg_destroy fwpkg) ov)
    other_loaded reg load_waiting = still_waiting
    other_loaded reg load_null_transfer = undefined
    other_loaded reg load_undefined = undefined

    abbrev pub map_loaded :
        Bit → lib.Archive → FromFwpkg lib → OvDevice usb lib → Answer usb lib (Unit {0})
    map_loaded bit pkg (came (loaded reg) fwpkg) ov =
        other_loaded reg (ov_load_firmware_from_fwpkg rounds malloc bit pkg fwpkg ov)
    map_loaded bit pkg (came (refused reg) fwpkg) ov =
        not_answered (with_world (fwpkg_destroy fwpkg) (report reg.error_str ov))
    map_loaded bit pkg (came aborted fwpkg) ov = undefined
    map_loaded bit pkg (overrun fwpkg) ov = undefined

    abbrev pub load_other :
        Bit → Reg → Option lib.Archive → Fwpkg lib → OvDevice usb lib → Answer usb lib (Unit {0})
    load_other bit reg none fwpkg ov = undefined
    load_other bit reg (some pkg) fwpkg ov =
        map_loaded bit pkg (reg_init_from_fwpkg malloc reg pkg fwpkg) ov

    abbrev pub package_opened : Bit → Reg → Init lib → OvDevice usb lib → Answer usb lib (Unit {0})
    package_opened bit reg (ready fwpkg) ov = load_other bit reg fwpkg.pkg fwpkg ov
    package_opened bit reg (unready fwpkg) ov =
        not_answered (with_world fwpkg (report fwpkg.error_str ov))

    -- `bit` and `reg` are uninitialised objects.
    unfoldable pub ov_load_firmware :
        Bit → Reg → Bytes → Option String → OvDevice usb lib → Answer usb lib (Unit {0})
    ov_load_firmware bit reg preload filename ov =
        package_opened bit reg (fwpkg_init preload filename (blank ov.fwpkg.world)) ov
