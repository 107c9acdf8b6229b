-- ===== src/Decoder/Bytewise/Memory.antt =====
-- A `memcpy` of some bytes is one of the first and one of the others.
use libopenvizsla.Prelude.{
  ℕ, zero, suc, ◌+◌, ◌≤◌, ◌≡◌, refl, ap, Option, none, some, [], ◌∷◌, Bytes, length, arith, overlay,
  overlay_at, memcpy,
}
use native.Mathlib.Numerals.{add-one}

abbrev pub bind {ℓ κ} : {A : Type ℓ} {B : Type κ} → Option A → (A → Option B) → Option B
bind none f = none
bind (some a) f = f a

overlay_at-cons :
    (dst : Bytes) (off b : ℕ) (src : Bytes)
    → off + suc (length src) ≤ length dst
    → overlay_at dst off (b ∷ src) ≡ overlay_at (overlay_at dst off (b ∷ [])) (suc off) src
overlay_at-cons [] off b src h = absurd (omega arith)
overlay_at-cons (y ∷ dst) zero b src h = refl
overlay_at-cons (y ∷ dst) (suc off) b src h =
    ap (λ t. y ∷ t) (overlay_at-cons dst off b src (omega arith))

length-overlay : (dst src : Bytes) → length (overlay dst src) ≡ length dst
length-overlay dst [] = refl
length-overlay [] (x ∷ src) = refl
length-overlay (y ∷ dst) (x ∷ src) = ap suc (length-overlay dst src)

pub length-overlay_at :
    (dst : Bytes) (off : ℕ) (src : Bytes) → length (overlay_at dst off src) ≡ length dst
length-overlay_at dst zero src = length-overlay dst src
length-overlay_at [] (suc off) src = refl
length-overlay_at (y ∷ dst) (suc off) src = ap suc (length-overlay_at dst off src)

pub memcpy-cons :
    (dst : Bytes) (off b : ℕ) (src : Bytes)
    → memcpy dst off (b ∷ src) ≡ bind (memcpy dst off (b ∷ [])) (λ m. memcpy m (off + 1) src)
unfolding memcpy
memcpy-cons dst off b src =
    rw add-one (ground (arith, overlay_at-cons dst off b src, length-overlay_at dst off (b ∷ [])))
