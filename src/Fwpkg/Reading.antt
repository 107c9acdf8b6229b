-- ===== src/Fwpkg/Reading.antt =====
-- What reg_init_from_fwpkg of src/reg.c makes of a firmware package.
use libopenvizsla.Prelude.{
  ◌∙◌, ap, ℕ, ◌+◌, ◌^◌, ◌<◌, ◌≡◌, refl, ◌==◌, ltb, Bool, true, false, Option, none, some, [], ◌∷◌,
  Bytes, length, take, take-length_le, lt→ltb, arith, ◌%◌, ap,
}
use libopenvizsla.Reg.State.{Reg}
use libopenvizsla.Reg.Map.{Load, reg_init}
use libopenvizsla.Fwpkg.Zip.{Zip}
use libopenvizsla.Fwpkg.Package.{
  Fwpkg, fwpkg_read_file, fwpkg_file_size, after_fopen, after_fread, size_of, in_world,
}
use libopenvizsla.Fwpkg.Init.{
  c_string, FromFwpkg, came, overrun, map_read, with_room, reg_init_from_fwpkg,
}

-- Text with no NUL in it.
abbrev pub IsText : Bytes → Type 0
IsText [] = Unit
IsText (b ∷ bs) = ((b == 0) ≡ false) × IsText bs

c_string-IsText : (bs : Bytes) → IsText bs → c_string bs ≡ bs
unfolding c_string
c_string-IsText [] h = refl
c_string-IsText (b ∷ bs) h = rw (h.0, c_string-IsText bs h.1) refl

-- An open file reads as `text` from its start on.
abbrev pub IsOpened : (lib : Zip) → Bytes → Option lib.File × lib.World → Type 0
IsOpened lib text (none, w) = ⊥
IsOpened lib text (some file, w) = (size : ℕ) → (lib.fread file size w).0 ≡ some (take size text)

-- What libzip does with the file `text` at an index of an intact archive: it knows its size, and
-- opens and reads it.
pub record Holds (lib : Zip) (pkg : lib.Archive) (index : ℕ) (text : Bytes) : Type 0 where
  pub sized : (w : lib.World) → (lib.stat_index pkg index w).0 ≡ some (some (length text))
  pub opens : (w : lib.World) → IsOpened lib text (lib.fopen_index pkg index w)

module _ {lib : Zip} where
  -- It returns the result.
  abbrev pub CameTo : Load → FromFwpkg lib → Type 0
  CameTo l (came l' fwpkg) = l' ≡ l
  CameTo l (overrun fwpkg) = ⊥

  module _ (malloc : ℕ → Bool) (reg : Reg) (pkg : lib.Archive) (text : Bytes)
      (clean : IsText text) where
    read-CameTo :
        (file : lib.File) (r : Option Bytes × lib.World) (fwpkg : Fwpkg lib) (size : ℕ)
        → size ≡ length text + 1
        → r.0 ≡ some (take size text)
        → CameTo (reg_init text) (map_read size reg (after_fread file r fwpkg))
    read-CameTo file (none, w) fwpkg size e h = absurd (cc)
    read-CameTo file (some bytes, w) fwpkg size e h =
        let part : bytes ≡ take size text = cc in
        let all : bytes ≡ text = part ∙ take-length_le size text (omega arith) in
        let fits : ltb (length bytes) size ≡ true =
          lt→ltb (length bytes) size (omega (arith, ap length all)) in
        rw (fits, all) (ap reg_init (c_string-IsText text clean))

    open-CameTo :
        (o : Option lib.File × lib.World) (fwpkg : Fwpkg lib) (size : ℕ)
        → size ≡ length text + 1
        → IsOpened lib text o
        → CameTo (reg_init text) (map_read size reg (after_fopen pkg size o fwpkg))
    open-CameTo (none, w) fwpkg size e h = absurd h
    open-CameTo (some file, w) fwpkg size e h =
        read-CameTo file (lib.fread file size w) fwpkg size e (h size)

    stat-CameTo :
        (st : Option (Option ℕ) × lib.World) (fwpkg : Fwpkg lib)
        → Holds lib pkg fwpkg.map_index text
        → length text + 1 < 2 ^ 64
        → malloc (length text + 1) ≡ true
        → st.0 ≡ some (some (length text))
        → CameTo (reg_init text) (with_room malloc reg pkg (size_of pkg st fwpkg))
    unfolding fwpkg_read_file
    stat-CameTo (none, w) fwpkg holds small room e = absurd (cc)
    stat-CameTo (some none, w) fwpkg holds small room e = absurd (cc)
    stat-CameTo (some (some n), w) fwpkg holds small room e =
        let n-is : n ≡ length text = cc in
        let exact : (n + 1) % 2 ^ 64 ≡ length text + 1 = omega arith in
        rw (ap malloc exact ∙ room) (
          open-CameTo (lib.fopen_index pkg fwpkg.map_index w) (in_world w fwpkg) ((n + 1) % 2 ^ 64)
            exact (holds.opens w))

    -- From a package whose map.txt is text with no NUL, and with enough memory, reg_init_from_fwpkg
    -- returns what reg_init makes of that text, and writes inside its object.
    pub reg_init_from_fwpkg-reg_init :
        (fwpkg : Fwpkg lib)
        → Holds lib pkg fwpkg.map_index text
        → length text + 1 < 2 ^ 64
        → malloc (length text + 1) ≡ true
        → CameTo (reg_init text) (reg_init_from_fwpkg malloc reg pkg fwpkg)
    unfolding reg_init_from_fwpkg fwpkg_file_size
    reg_init_from_fwpkg-reg_init fwpkg holds small room =
        stat-CameTo (lib.stat_index pkg fwpkg.map_index fwpkg.world) fwpkg holds small room
          (holds.sized fwpkg.world)
