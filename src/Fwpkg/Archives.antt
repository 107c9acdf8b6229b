-- ===== src/Fwpkg/Archives.antt =====
-- Which archives src/fwpkg.c leaves open.
use libopenvizsla.Prelude.{ℕ, suc, ◌≡◌, refl, ◌∙◌, Option, none, some, String, Bytes, ◌≢◌}
use mathlib.Core.Path.{subst}
use libopenvizsla.Fwpkg.Zip.{Zip}
use libopenvizsla.Fwpkg.Package.{
  Fwpkg, Init, ready, unready, bitstream_located, map_located, fwpkg_locate_files, opened, sourced,
  fwpkg_init_from_buffer, fwpkg_init_from_file, fwpkg_init, discard_pkg, fwpkg_destroy,
}

-- An archive that is opened is one more.
abbrev pub Grows :
    (lib : Zip) (archives : lib.World → ℕ) → ℕ → Option lib.Archive × lib.World → Type 0
Grows lib archives n (none, w) = archives w ≡ n
Grows lib archives n (some pkg, w) = archives w ≡ suc n

-- What libzip documents: `archives` counts those that are open; opening one adds it, and so does a
-- source that becomes an archive; zip_discard closes one; nothing else changes the number.
pub record Counts (lib : Zip) (archives : lib.World → ℕ) : Type 0 where
  pub opening :
      (name : String) (w : lib.World) → Grows lib archives (archives w) (lib.open_file name w)
  pub sourcing :
      (src : lib.Source) (w : lib.World)
      → Grows lib archives (archives w) (lib.open_from_source src w)
  pub buffering :
      (buf : Bytes) (w : lib.World) → archives (lib.source_buffer_create buf w).1 ≡ archives w
  pub locating :
      (pkg : lib.Archive) (name : String) (w : lib.World)
      → archives (lib.name_locate pkg name w).1 ≡ archives w
  pub discarding :
      (pkg : lib.Archive) (w : lib.World) (n : ℕ)
      → archives w ≡ suc n
      → archives (lib.discard pkg w) ≡ n

module _ {lib : Zip} (archives : lib.World → ℕ) (counts : Counts lib archives) where
  -- From `n` open archives: a package that is ready has one more, its own; a failure leaves `n`.
  abbrev pub Opens : ℕ → Init lib → Type 0
  Opens n (ready fwpkg) = (archives fwpkg.world ≡ suc n) × (fwpkg.pkg ≢ none)
  Opens n (unready fwpkg) = archives fwpkg.world ≡ n

  bitstream-Opens :
      (n : ℕ) (pkg : lib.Archive) (r : Option ℕ × lib.World) (fwpkg : Fwpkg lib)
      → archives r.1 ≡ suc n
      → fwpkg.pkg ≢ none
      → Opens n (bitstream_located pkg r fwpkg)
  bitstream-Opens n pkg (none, w) fwpkg h k = counts.discarding pkg w n h
  bitstream-Opens n pkg (some i, w) fwpkg h k = (h, k)

  map-Opens :
      (n : ℕ) (pkg : lib.Archive) (r : Option ℕ × lib.World) (fwpkg : Fwpkg lib)
      → archives r.1 ≡ suc n
      → fwpkg.pkg ≢ none
      → Opens n (map_located pkg r fwpkg)
  map-Opens n pkg (none, w) fwpkg h k = counts.discarding pkg w n h
  map-Opens n pkg (some i, w) fwpkg h k =
      bitstream-Opens n pkg (lib.name_locate pkg "ov3.bit" w)
        (record fwpkg { map_index = i; world = w }) (counts.locating pkg "ov3.bit" w ∙ h) k

  opened-Opens :
      (n : ℕ) (r : Option lib.Archive × lib.World) → Grows lib archives n r → Opens n (opened r)
  unfolding opened fwpkg_locate_files
  opened-Opens n (none, w) h = h
  opened-Opens n (some pkg, w) h =
      map-Opens n pkg (lib.name_locate pkg "map.txt" w) _ (counts.locating pkg "map.txt" w ∙ h)
        (λ e. cc)

  sourced-Opens :
      (n : ℕ) (r : Option lib.Source × lib.World) → archives r.1 ≡ n → Opens n (sourced r)
  unfolding sourced
  sourced-Opens n (none, w) h = h
  sourced-Opens n (some src, w) h =
      subst (λ m. Opens m (opened (lib.open_from_source src w))) h
        (opened-Opens (archives w) (lib.open_from_source src w) (counts.sourcing src w))

  init-Opens :
      (preload : Bytes) (filename : Option String) (fwpkg : Fwpkg lib)
      → Opens (archives fwpkg.world) (fwpkg_init preload filename fwpkg)
  unfolding fwpkg_init fwpkg_init_from_buffer fwpkg_init_from_file
  init-Opens preload none fwpkg =
      sourced-Opens (archives fwpkg.world) (lib.source_buffer_create preload fwpkg.world)
        (counts.buffering preload fwpkg.world)
  init-Opens preload (some filename) fwpkg =
      opened-Opens (archives fwpkg.world) (lib.open_file filename fwpkg.world)
        (counts.opening filename fwpkg.world)

  destroy-closes :
      (n : ℕ) (pkg : Option lib.Archive) (fwpkg : Fwpkg lib)
      → archives fwpkg.world ≡ suc n
      → pkg ≢ none
      → archives (discard_pkg pkg fwpkg).world ≡ n
  destroy-closes n none fwpkg h k = absurd (k refl)
  destroy-closes n (some pkg) fwpkg h k = counts.discarding pkg fwpkg.world n h

  -- `n` archives are open once the package is destroyed, if it was ready, and else at once.
  abbrev pub IsBalanced : ℕ → Init lib → Type 0
  IsBalanced n (ready fwpkg) =
      (archives fwpkg.world ≡ suc n) × (archives (fwpkg_destroy fwpkg).world ≡ n)
  IsBalanced n (unready fwpkg) = archives fwpkg.world ≡ n

  Opens-IsBalanced : (n : ℕ) (i : Init lib) → Opens n i → IsBalanced n i
  unfolding fwpkg_destroy
  Opens-IsBalanced n (ready fwpkg) h = (h.0, destroy-closes n fwpkg.pkg fwpkg h.0 h.1)
  Opens-IsBalanced n (unready fwpkg) h = h

  -- Whether it is given a file or uses the preloaded package: fwpkg_init leaves one more archive
  -- open if it returns 0, which fwpkg_destroy closes again, and none if it returns -1, whatever it
  -- failed at.
  pub fwpkg_init-IsBalanced :
      (preload : Bytes) (filename : Option String) (fwpkg : Fwpkg lib)
      → IsBalanced (archives fwpkg.world) (fwpkg_init preload filename fwpkg)
  fwpkg_init-IsBalanced preload filename fwpkg =
      Opens-IsBalanced (archives fwpkg.world) (fwpkg_init preload filename fwpkg)
        (init-Opens preload filename fwpkg)
