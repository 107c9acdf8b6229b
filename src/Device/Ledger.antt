-- ===== src/Device/Ledger.antt =====
-- Which archives a device of src/ov.c leaves open.
use libopenvizsla.Prelude.{
  ℕ, suc, ◌≡◌, refl, Bool, Option, none, some, Bytes, String, Ret, ok, failed, waiting,
}
use mathlib.Core.Path.{subst}
use libopenvizsla.Reg.Map.{loaded, refused, aborted}
use libopenvizsla.Ftdi.{Ftdi}
use libopenvizsla.Cha.State.{Cha}
use libopenvizsla.Chb.Port.{Ret as PortRet, succeeded, failed as port_failed, chb_init}
use libopenvizsla.Fwpkg.Zip.{Zip}
use libopenvizsla.Fwpkg.Package.{Fwpkg, Init, ready, unready, blank, fwpkg_init, fwpkg_destroy}
use libopenvizsla.Fwpkg.Init.{
  FromFwpkg, came, overrun, with_map, cha_result, start_port, ChaInit, cha_ready, cha_unready,
  cha_stopped, cha_init, zero_reg, zero_cha,
}
use libopenvizsla.Fwpkg.Archives.{Counts, IsBalanced, fwpkg_init-IsBalanced}
use libopenvizsla.Fwpkg.Kept.{Reads, Has, MapHas, from_fwpkg-MapHas}
use libopenvizsla.Device.Open.{
  OvDevice, Made, made, null, stopped, port_b_made, port_a_made, with_archive, package_made, ov_new,
  ov_free,
}

module _ {lib : Zip} (archives : lib.World → ℕ) (rd : Reads lib archives) where
  abbrev ChaHas : {usb : Ftdi} → ℕ → Option lib.Archive → ChaInit usb lib → Type 0
  ChaHas n p (cha_ready cha fwpkg) = Has archives rd n p fwpkg
  ChaHas n p (cha_unready cha fwpkg) = Has archives rd n p fwpkg
  ChaHas n p cha_stopped = Unit

  result-ChaHas :
      {usb : Ftdi} (n : ℕ) (p : Option lib.Archive) (r : Ret (Cha usb) (Unit {0}))
      (fwpkg : Fwpkg lib)
      → Has archives rd n p fwpkg
      → ChaHas n p (cha_result r fwpkg)
  result-ChaHas n p (ok a cha) fwpkg h = h
  result-ChaHas n p (failed cha) fwpkg h = h
  result-ChaHas n p (waiting cha) fwpkg h = tt

  map-ChaHas :
      (usb : Ftdi) (n : ℕ) (p : Option lib.Archive) (r : FromFwpkg lib)
      → MapHas archives rd n p r
      → ChaHas {usb = usb} n p (with_map r)
  map-ChaHas usb n p (came (loaded reg) fwpkg) h =
      result-ChaHas {usb = usb} n p (start_port {usb = usb} (record zero_cha { reg = reg })) fwpkg h
  map-ChaHas usb n p (came (refused reg) fwpkg) h = h
  map-ChaHas usb n p (came aborted fwpkg) h = tt
  map-ChaHas usb n p (overrun fwpkg) h = tt

  init-ChaHas :
      (usb : Ftdi) (malloc : ℕ → Bool) (n : ℕ) (pkg : lib.Archive) (fwpkg : Fwpkg lib)
      → archives fwpkg.world ≡ n
      → ChaHas {usb = usb} n fwpkg.pkg (cha_init malloc pkg fwpkg)
  unfolding cha_init
  init-ChaHas usb malloc n pkg fwpkg h =
      map-ChaHas usb n fwpkg.pkg _ (from_fwpkg-MapHas archives rd malloc n zero_reg pkg fwpkg h)

  module _ (usb : Ftdi) (counts : Counts lib archives) where
    -- From `n` open archives: a device has one more, which ov_free closes; a null pointer leaves
    -- `n`.
    abbrev pub LeavesNone : ℕ → Made usb lib → Type 0
    LeavesNone n (made ov) =
        (archives ov.fwpkg.world ≡ suc n) × (archives (ov_free ov).fwpkg.world ≡ n)
    LeavesNone n (null cha fwpkg) = archives fwpkg.world ≡ n
    LeavesNone n stopped = Unit

    pub destroyed :
        (n : ℕ) (pkg : lib.Archive) (fwpkg : Fwpkg lib)
        → Has archives rd (suc n) (some pkg) fwpkg
        → archives (fwpkg_destroy fwpkg).world ≡ n
    unfolding fwpkg_destroy
    destroyed n pkg fwpkg h = rw (h.1) (counts.discarding pkg fwpkg.world n h.0)

    -- A device has an archive of its own, beside `n` others.
    abbrev pub IsOwner : ℕ → OvDevice usb lib → Type 0
    IsOwner n ov = (pkg : lib.Archive) × Has archives rd (suc n) (some pkg) ov.fwpkg

    pub ov_free-IsOwner :
        (n : ℕ) (ov : OvDevice usb lib) → IsOwner n ov → archives (ov_free ov).fwpkg.world ≡ n
    unfolding ov_free
    ov_free-IsOwner n ov (pkg, h) = destroyed n pkg ov.fwpkg h

    abbrev pub MakesOwner : ℕ → Made usb lib → Type 0
    MakesOwner n (made ov) = IsOwner n ov
    MakesOwner n (null cha fwpkg) = archives fwpkg.world ≡ n
    MakesOwner n stopped = Unit

    port_b-MakesOwner :
        (n : ℕ) (pkg : lib.Archive) (cha : Cha usb) (fwpkg : Fwpkg lib) (r : PortRet usb)
        → Has archives rd (suc n) (some pkg) fwpkg
        → MakesOwner n (port_b_made cha fwpkg r)
    port_b-MakesOwner n pkg cha fwpkg (succeeded chb) h = (pkg, h)
    port_b-MakesOwner n pkg cha fwpkg (port_failed chb) h = destroyed n pkg fwpkg h

    port_a-MakesOwner :
        (n : ℕ) (pkg : lib.Archive) (c : ChaInit usb lib)
        → ChaHas (suc n) (some pkg) c
        → MakesOwner n (port_a_made c)
    port_a-MakesOwner n pkg (cha_ready cha fwpkg) h =
        port_b-MakesOwner n pkg cha fwpkg (chb_init usb) h
    port_a-MakesOwner n pkg (cha_unready cha fwpkg) h = destroyed n pkg fwpkg h
    port_a-MakesOwner n pkg cha_stopped h = tt

    archive-MakesOwner :
        (malloc : ℕ → Bool) (n : ℕ) (p : Option lib.Archive) (fwpkg : Fwpkg lib)
        → fwpkg.pkg ≡ p
        → archives fwpkg.world ≡ suc n
        → MakesOwner n (with_archive malloc p fwpkg)
    archive-MakesOwner malloc n none fwpkg e h = tt
    archive-MakesOwner malloc n (some pkg) fwpkg e h =
        port_a-MakesOwner n pkg (cha_init malloc pkg fwpkg) (
          subst (λ q. ChaHas {usb = usb} (suc n) q (cha_init malloc pkg fwpkg)) e
            (init-ChaHas usb malloc (suc n) pkg fwpkg h))

    init-MakesOwner :
        (malloc : ℕ → Bool) (n : ℕ) (i : Init lib)
        → IsBalanced archives counts n i
        → MakesOwner n (package_made malloc i)
    init-MakesOwner malloc n (ready fwpkg) h = archive-MakesOwner malloc n fwpkg.pkg fwpkg refl h.0
    init-MakesOwner malloc n (unready fwpkg) h = h

    pub ov_new-MakesOwner :
        (malloc : ℕ → Bool) (preload : Bytes) (filename : Option String) (w : lib.World)
        → MakesOwner (archives w) (ov_new malloc preload filename w)
    unfolding ov_new
    ov_new-MakesOwner malloc preload filename w =
        init-MakesOwner malloc (archives w) (fwpkg_init preload filename (blank w))
          (fwpkg_init-IsBalanced archives counts preload filename (blank w))

    owner-LeavesNone : (n : ℕ) (m : Made usb lib) → MakesOwner n m → LeavesNone n m
    owner-LeavesNone n (made ov) h = (h.1.0, ov_free-IsOwner n ov h)
    owner-LeavesNone n (null cha fwpkg) h = h
    owner-LeavesNone n stopped h = h

    -- Whichever of its steps fails, and whatever the package holds: when ov_new returns a null
    -- pointer, as many archives are open as before; when it returns a device, one more is, and
    -- ov_free closes it.
    pub ov_new-LeavesNone :
        (malloc : ℕ → Bool) (preload : Bytes) (filename : Option String) (w : lib.World)
        → LeavesNone (archives w) (ov_new malloc preload filename w)
    ov_new-LeavesNone malloc preload filename w =
        owner-LeavesNone (archives w) (ov_new malloc preload filename w)
          (ov_new-MakesOwner malloc preload filename w)
