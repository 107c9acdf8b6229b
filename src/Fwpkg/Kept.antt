-- ===== src/Fwpkg/Kept.antt =====
-- What reading a firmware package leaves alone: its archive, and the number of open archives.
use mathlib.Core.Path.{subst}
use libopenvizsla.Prelude.{
  ℕ, ◌+◌, ◌%◌, ◌^◌, ◌≡◌, refl, ◌∙◌, Bool, Bool-cases, inl, inr, Option, none, some, Bytes, length,
  ltb,
}
use libopenvizsla.Reg.State.{Reg}
use libopenvizsla.Fwpkg.Zip.{Zip}
use libopenvizsla.Fwpkg.Package.{
  Fwpkg, Read, read, not_read, after_fread, after_fopen, size_of, fwpkg_read_file, fwpkg_file_size,
}
use libopenvizsla.Fwpkg.Init.{FromFwpkg, came, overrun, map_read, with_room, reg_init_from_fwpkg}

-- What libzip documents of reading an archive: it opens and closes none.
pub record Reads (lib : Zip) (archives : lib.World → ℕ) : Type 0 where
  pub stats :
      (pkg : lib.Archive) (i : ℕ) (w : lib.World) → archives (lib.stat_index pkg i w).1 ≡ archives w
  pub opens :
      (pkg : lib.Archive) (i : ℕ) (w : lib.World)
      → archives (lib.fopen_index pkg i w).1 ≡ archives w
  pub reads :
      (file : lib.File) (n : ℕ) (w : lib.World) → archives (lib.fread file n w).1 ≡ archives w
  pub closes : (file : lib.File) (w : lib.World) → archives (lib.fclose file w) ≡ archives w

module _ {lib : Zip} (archives : lib.World → ℕ) (rd : Reads lib archives) where
  -- `n` archives are open, and the package still has its own.
  abbrev pub Has : ℕ → Option lib.Archive → Fwpkg lib → Type 0
  Has n p fwpkg = (archives fwpkg.world ≡ n) × (fwpkg.pkg ≡ p)

  abbrev pub ReadHas : ℕ → Option lib.Archive → Read lib → Type 0
  ReadHas n p (read bytes fwpkg) = Has n p fwpkg
  ReadHas n p (not_read fwpkg) = Has n p fwpkg

  fread-ReadHas :
      (n : ℕ) (file : lib.File) (r : Option Bytes × lib.World) (fwpkg : Fwpkg lib)
      → archives r.1 ≡ n
      → ReadHas n fwpkg.pkg (after_fread file r fwpkg)
  fread-ReadHas n file (none, w) fwpkg h = (rd.closes file w ∙ h, refl)
  fread-ReadHas n file (some bytes, w) fwpkg h = (rd.closes file w ∙ h, refl)

  fopen-ReadHas :
      (n size : ℕ) (pkg : lib.Archive) (o : Option lib.File × lib.World) (fwpkg : Fwpkg lib)
      → archives o.1 ≡ n
      → ReadHas n fwpkg.pkg (after_fopen pkg size o fwpkg)
  fopen-ReadHas n size pkg (none, w) fwpkg h = (h, refl)
  fopen-ReadHas n size pkg (some file, w) fwpkg h =
      fread-ReadHas n file (lib.fread file size w) fwpkg (rd.reads file size w ∙ h)

  abbrev pub MapHas : ℕ → Option lib.Archive → FromFwpkg lib → Type 0
  MapHas n p (came l fwpkg) = Has n p fwpkg
  MapHas n p (overrun fwpkg) = Unit

  map_read-MapHas :
      (n size : ℕ) (p : Option lib.Archive) (reg : Reg) (r : Read lib)
      → ReadHas n p r
      → MapHas n p (map_read size reg r)
  map_read-MapHas n size p reg (not_read fwpkg) h = h
  map_read-MapHas n size p reg (read bytes fwpkg) h = elim (Bool-cases (ltb (length bytes) size)) [
    | inl e ↦ rw e h
    | inr e ↦ rw e tt
  ]

  room-MapHas :
      (malloc : ℕ → Bool) (n : ℕ) (p : Option lib.Archive) (reg : Reg) (pkg : lib.Archive)
      (s : ℕ × Fwpkg lib)
      → Has n p s.1
      → MapHas n p (with_room malloc reg pkg s)
  unfolding fwpkg_read_file
  room-MapHas malloc n p reg pkg (m, fwpkg) h =
      let size = (m + 1) % 2 ^ 64 in
      elim (Bool-cases (malloc size)) [
        | inl e ↦ rw e (
            map_read-MapHas n size p reg _ (
              subst
                (λ q.
                  ReadHas n q
                    (after_fopen pkg size (lib.fopen_index pkg fwpkg.map_index fwpkg.world) fwpkg))
                h.1
                (fopen-ReadHas n size pkg (lib.fopen_index pkg fwpkg.map_index fwpkg.world) fwpkg
                  (rd.opens pkg fwpkg.map_index fwpkg.world ∙ h.0))))
        | inr e ↦ rw e h
      ]

  stat-Has :
      (n : ℕ) (pkg : lib.Archive) (st : Option (Option ℕ) × lib.World) (fwpkg : Fwpkg lib)
      → archives st.1 ≡ n
      → Has n fwpkg.pkg (size_of pkg st fwpkg).1
  stat-Has n pkg (none, w) fwpkg h = (h, refl)
  stat-Has n pkg (some none, w) fwpkg h = (h, refl)
  stat-Has n pkg (some (some size), w) fwpkg h = (h, refl)

  pub file_size-Has :
      (n : ℕ) (pkg : lib.Archive) (i : ℕ) (fwpkg : Fwpkg lib)
      → archives fwpkg.world ≡ n
      → Has n fwpkg.pkg (fwpkg_file_size pkg i fwpkg).1
  unfolding fwpkg_file_size
  file_size-Has n pkg i fwpkg h =
      stat-Has n pkg (lib.stat_index pkg i fwpkg.world) fwpkg (rd.stats pkg i fwpkg.world ∙ h)

  pub read_file-ReadHas :
      (n : ℕ) (pkg : lib.Archive) (size i : ℕ) (fwpkg : Fwpkg lib)
      → archives fwpkg.world ≡ n
      → ReadHas n fwpkg.pkg (fwpkg_read_file pkg size i fwpkg)
  unfolding fwpkg_read_file
  read_file-ReadHas n pkg size i fwpkg h =
      fopen-ReadHas n size pkg (lib.fopen_index pkg i fwpkg.world) fwpkg
        (rd.opens pkg i fwpkg.world ∙ h)

  pub from_fwpkg-MapHas :
      (malloc : ℕ → Bool) (n : ℕ) (reg : Reg) (pkg : lib.Archive) (fwpkg : Fwpkg lib)
      → archives fwpkg.world ≡ n
      → MapHas n fwpkg.pkg (reg_init_from_fwpkg malloc reg pkg fwpkg)
  unfolding reg_init_from_fwpkg
  from_fwpkg-MapHas malloc n reg pkg fwpkg h =
      room-MapHas malloc n fwpkg.pkg reg pkg _ (file_size-Has n pkg fwpkg.map_index fwpkg h)
