-- ===== src/Device/Open.antt =====
-- `struct ov_device` of src/ov.c without its capture loop, and how it is made and freed.
use libopenvizsla.Prelude.{ℕ, Bool, Option, none, some, String, Bytes}
use libopenvizsla.Ftdi.{Ftdi}
use libopenvizsla.Cha.State.{Cha}
use libopenvizsla.Cha.Port.{cha_destroy}
use libopenvizsla.Chb.Port.{Chb, Ret, succeeded, failed, chb_init, chb_destroy}
use libopenvizsla.Fwpkg.Zip.{Zip}
use libopenvizsla.Fwpkg.Package.{Fwpkg, Init, ready, unready, blank, fwpkg_init, fwpkg_destroy}
use libopenvizsla.Fwpkg.Init.{ChaInit, cha_ready, cha_unready, cha_stopped, cha_init}

pub record OvDevice (usb : Ftdi) (lib : Zip) : Type 0 where
  pub cha : Cha usb
  pub chb : Chb usb
  pub fwpkg : Fwpkg lib
  pub error_str : Option String

-- What ov_new gives: a device, or a null pointer, with what was destroyed of port A, if it was made,
-- and of the package. `stopped` is for what cha_init does instead of returning.
pub data Made (usb : Ftdi) (lib : Zip) : Type 0 where
  made : OvDevice usb lib → Made usb lib
  null : Option (Cha usb) → Fwpkg lib → Made usb lib
  stopped : Made usb lib

-- What ov_free leaves of the parts.
pub record Freed (usb : Ftdi) (lib : Zip) : Type 0 where
  pub chb : Chb usb
  pub cha : Cha usb
  pub fwpkg : Fwpkg lib

module _ {usb : Ftdi} {lib : Zip} where
  -- The labels of ov_new: what was made before is destroyed.
  abbrev pub port_b_made : Cha usb → Fwpkg lib → Ret usb → Made usb lib
  port_b_made cha fwpkg (succeeded chb) =
      made (record { cha = cha; chb = chb; fwpkg = fwpkg; error_str = none })
  port_b_made cha fwpkg (failed chb) = null (some (cha_destroy usb 0 cha)) (fwpkg_destroy fwpkg)

  abbrev pub port_a_made : ChaInit usb lib → Made usb lib
  port_a_made (cha_ready cha fwpkg) = port_b_made cha fwpkg (chb_init usb)
  port_a_made (cha_unready cha fwpkg) = null none (fwpkg_destroy fwpkg)
  port_a_made cha_stopped = stopped

  -- An initialised package has an archive.
  abbrev pub with_archive : (ℕ → Bool) → Option lib.Archive → Fwpkg lib → Made usb lib
  with_archive malloc none fwpkg = stopped
  with_archive malloc (some pkg) fwpkg = port_a_made (cha_init malloc pkg fwpkg)

  abbrev pub package_made : (ℕ → Bool) → Init lib → Made usb lib
  package_made malloc (ready fwpkg) = with_archive malloc fwpkg.pkg fwpkg
  package_made malloc (unready fwpkg) = null none fwpkg

  -- `malloc` of the device succeeds. The package is zeroed memory, in libzip's state `w`.
  unfoldable pub ov_new : (ℕ → Bool) → Bytes → Option String → lib.World → Made usb lib
  ov_new malloc preload filename w = package_made malloc (fwpkg_init preload filename (blank w))

  unfoldable pub ov_free : OvDevice usb lib → Freed usb lib
  ov_free ov = record {
    chb = chb_destroy usb ov.chb;
    cha = cha_destroy usb 0 ov.cha;
    fwpkg = fwpkg_destroy ov.fwpkg;
  }
