-- ===== src/Fwpkg/Starting.antt =====
-- What cha_init of src/cha.c makes of a firmware package.
use libopenvizsla.Prelude.{
  and_then, ℕ, ◌+◌, ◌^◌, ◌≡◌, ◌≢◌, ◌⊎◌, refl, ltb, Bool, Bool-cases, inl, inr, Option, none, some,
  Bytes, length, ◌%◌, and_then,
}
use libopenvizsla.Reg.State.{Reg}
use libopenvizsla.Reg.Map.{Load, reg_init, loaded, refused, aborted}
use libopenvizsla.Reg.Complete.{AllBelow, IsInitialized, reg_init-IsInitialized}
use libopenvizsla.Ftdi.{Ftdi}
use libopenvizsla.Cha.State.{Cha}
use libopenvizsla.Fwpkg.Zip.{Zip}
use libopenvizsla.Fwpkg.Package.{
  Fwpkg, Read, read, not_read, fwpkg_read_file, fwpkg_file_size, after_fopen, after_fread, size_of,
}
use libopenvizsla.Fwpkg.Init.{
  c_string, FromFwpkg, came, overrun, map_read, with_room, reg_init_from_fwpkg, ChaInit, cha_ready,
  cha_unready, cha_stopped,
}

-- A call of zip_fread fails.
abbrev pub FreadFails : Zip → Type 0
FreadFails lib = (file : lib.File) × (n : ℕ) × (w : lib.World) × ((lib.fread file n w).0 ≡ none)

-- Whether the port is ready or not: with all registers, or with a message, or without one since the
-- map was not read.
abbrev pub IsStarted : {usb : Ftdi} {lib : Zip} → ChaInit usb lib → Type 0
IsStarted (cha_ready cha fwpkg) = (length cha.reg.addr ≡ 15) × AllBelow 0xffff cha.reg.addr
IsStarted {lib = lib} (cha_unready cha fwpkg) = (cha.error_str ≢ none) ⊎ FreadFails lib
IsStarted cha_stopped = Unit

module _ {lib : Zip} where
  abbrev Complains : Read lib → Type 0
  Complains (read bytes fwpkg) = Unit
  Complains (not_read fwpkg) = (fwpkg.error_str ≢ none) ⊎ FreadFails lib

  fread-Complains :
      (file : lib.File) (n : ℕ) (w : lib.World) (r : Option Bytes × lib.World) (fwpkg : Fwpkg lib)
      → (lib.fread file n w).0 ≡ r.0
      → Complains (after_fread file r fwpkg)
  fread-Complains file n w (none, w') fwpkg e = inr (file, n, w, e)
  fread-Complains file n w (some bytes, w') fwpkg e = tt

  fopen-Complains :
      (pkg : lib.Archive) (size : ℕ) (o : Option lib.File × lib.World) (fwpkg : Fwpkg lib)
      → Complains (after_fopen pkg size o fwpkg)
  fopen-Complains pkg size (none, w) fwpkg = inl (λ e. cc)
  fopen-Complains pkg size (some file, w) fwpkg =
      fread-Complains file size w (lib.fread file size w) fwpkg refl

  abbrev pub LoadIsInitialized : FromFwpkg lib → Type 0
  LoadIsInitialized (came (loaded reg) fwpkg) = IsInitialized (loaded reg)
  LoadIsInitialized (came (refused reg) fwpkg) = (reg.error_str ≢ none) ⊎ FreadFails lib
  LoadIsInitialized (came aborted fwpkg) = IsInitialized aborted
  LoadIsInitialized (overrun fwpkg) = Unit

  came-LoadIsInitialized :
      (l : Load) (fwpkg : Fwpkg lib) → IsInitialized l → LoadIsInitialized (came l fwpkg)
  came-LoadIsInitialized (loaded reg) fwpkg h = h
  came-LoadIsInitialized (refused reg) fwpkg h = inl h
  came-LoadIsInitialized aborted fwpkg h = h

  map_read-IsInitialized :
      (size : ℕ) (reg : Reg) (r : Read lib) → Complains r → LoadIsInitialized (map_read size reg r)
  map_read-IsInitialized size reg (not_read fwpkg) h = h
  map_read-IsInitialized size reg (read bytes fwpkg) h =
      elim (Bool-cases (ltb (length bytes) size)) [
        | inl fits ↦ rw fits (
            came-LoadIsInitialized (reg_init (c_string bytes)) fwpkg
              (reg_init-IsInitialized (c_string bytes)))
        | inr long ↦ rw long tt
      ]

  room-IsInitialized :
      (malloc : ℕ → Bool) (reg : Reg) (pkg : lib.Archive) (s : ℕ × Fwpkg lib)
      → LoadIsInitialized (with_room malloc reg pkg s)
  unfolding fwpkg_read_file
  room-IsInitialized malloc reg pkg (n, fwpkg) =
      let size = (n + 1) % 2 ^ 64 in
      elim (Bool-cases (malloc size)) [
        | inl room ↦ rw room (
            map_read-IsInitialized size reg _
              (fopen-Complains pkg size (lib.fopen_index pkg fwpkg.map_index fwpkg.world) fwpkg))
        | inr full ↦ rw full (inl (λ e. cc))
      ]

  pub from_fwpkg-IsInitialized :
      (malloc : ℕ → Bool) (reg : Reg) (pkg : lib.Archive) (fwpkg : Fwpkg lib)
      → LoadIsInitialized (reg_init_from_fwpkg malloc reg pkg fwpkg)
  unfolding reg_init_from_fwpkg fwpkg_file_size
  from_fwpkg-IsInitialized malloc reg pkg fwpkg =
      room-IsInitialized malloc reg pkg
        (size_of pkg (lib.stat_index pkg fwpkg.map_index fwpkg.world) fwpkg)
