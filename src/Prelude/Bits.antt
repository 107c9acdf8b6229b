-- ===== src/Prelude/Bits.antt =====
-- `|` of disjoint fields as a sum, for every width of the lower field, and the masks of a byte.
use Prim.Native.Nat.{
  ℕ, zero, suc, ◌+◌, ◌*◌, ◌/◌, ◌%◌, ◌^◌, ◌≤◌, ◌<◌, max, bit_or, bit_and, digits, bit_or-bitwise,
}
use mathlib.Core.Path.{◌≡◌, refl, sym, ap, ◌∙◌}
use mathlib.Core.Bool.{Bool, true, ◌&&◌}
use libopenvizsla.Prelude.Tests.{◌==◌}
use native.Mathlib.Decide.{dec_le}
use native.Mathlib.Nat.{pow-suc}
use native.Mathlib.Omega.{arith}

-- `bit_or` recurs on its digits, with its first argument as fuel; `joined_digits` shows the fuel.
abbrev joined_digits : ℕ → ℕ → ℕ → ℕ
joined_digits fuel hi lo = digits (λ y. y) max fuel hi lo

-- One unit of fuel beyond the number changes nothing.
joined_digits_grow :
    (fuel hi lo : ℕ) → hi ≤ fuel → joined_digits (suc fuel) hi lo ≡ joined_digits fuel hi lo
joined_digits_grow fuel zero lo le =
    elim fuel as (λ f. joined_digits (suc f) 0 lo ≡ joined_digits f 0 lo) [
      | zero ↦ refl
      | suc f ↦ refl
    ]
joined_digits_grow zero (suc hi) lo le = absurd (omega arith)
joined_digits_grow (suc fuel) (suc hi) lo le =
    ap (λ rest. rest * 2 + max (suc hi % 2) (lo % 2))
      (joined_digits_grow fuel (suc hi / 2) (lo / 2) (omega arith))

-- So any fuel from the number on gives what the number itself gives.
joined_digits_enough :
    (fuel hi lo : ℕ) → hi ≤ fuel → joined_digits fuel hi lo ≡ joined_digits hi hi lo
joined_digits_enough zero hi lo le =
    let e : 0 ≡ hi = omega arith in ap (λ k. joined_digits k hi lo) e
joined_digits_enough (suc fuel) hi lo le = elim (dec_le hi fuel) [
  | yes less ↦ joined_digits_grow fuel hi lo less ∙ joined_digits_enough fuel hi lo less
  | no more ↦ let e : suc fuel ≡ hi = omega arith in ap (λ k. joined_digits k hi lo) e
]

-- The lowest digit of `hi | lo`, and the others.
bit_or_digit : (hi lo : ℕ) → bit_or hi lo ≡ bit_or (hi / 2) (lo / 2) * 2 + max (hi % 2) (lo % 2)
bit_or_digit zero lo = omega (arith, bit_or-bitwise 0 lo, bit_or-bitwise 0 (lo / 2))
bit_or_digit (suc hi) lo = omega (
  arith,
  bit_or-bitwise (suc hi) lo,
  bit_or-bitwise (suc hi / 2) (lo / 2),
  joined_digits_enough hi (suc hi / 2) (lo / 2) (omega arith),
)

bit_or_comm : (sum x y : ℕ) → x + y ≤ sum → bit_or x y ≡ bit_or y x
bit_or_comm zero x y le =
    let e : x ≡ y = omega arith in ap (λ k. bit_or k y) e ∙ ap (bit_or y) (sym e)
bit_or_comm (suc sum) x y le =
    omega (arith, bit_or_digit x y, bit_or_digit y x, bit_or_comm sum (x / 2) (y / 2))

-- `lo | (hi << k)` is a sum if `lo` has `k` bits.
pub bit_or-shift : (k lo hi : ℕ) → lo < 2 ^ k → bit_or lo (hi * 2 ^ k) ≡ lo + hi * 2 ^ k
bit_or-shift zero lo hi h =
    let none_low : lo ≡ 0 = omega arith in
    ap (λ t. bit_or t (hi * 2 ^ 0)) none_low ∙ bit_or-bitwise 0 (hi * 2 ^ 0) ∙ omega arith
bit_or-shift (suc k) lo hi h = ground (
  arith,
  bit_or_digit lo (hi * 2 ^ suc k),
  pow-suc 2 k,
  ap (λ (t : ℕ). hi * t) (pow-suc 2 k),
  bit_or-shift k (lo / 2) hi,
)

-- The same with the fields in the other order, `(hi << k) | lo`.
pub shift-bit_or : (k lo hi : ℕ) → lo < 2 ^ k → bit_or (hi * 2 ^ k) lo ≡ hi * 2 ^ k + lo
shift-bit_or k lo hi h =
    omega
      (arith, bit_or_comm (hi * 2 ^ k + lo) (hi * 2 ^ k) lo (omega arith), bit_or-shift k lo hi h)

-- The masks 0x1f and 0xe0 of a length byte.
abbrev masks_agree : ℕ → Bool
masks_agree b = bit_and b 0x1f == b % 32 && bit_and b 0xe0 == b / 32 * 32

masks_agree_to : ℕ → Bool
masks_agree_to zero = true
masks_agree_to (suc n) = masks_agree_to n && masks_agree n

masks_agree_to_each : (n b : ℕ) → masks_agree_to n ≡ true → b < n → masks_agree b ≡ true
unfolding masks_agree_to
masks_agree_to_each zero b table lt = absurd (omega arith)
masks_agree_to_each (suc n) b table lt = ground (arith, masks_agree_to_each n b)

masks_agree_table : masks_agree_to 256 ≡ true
unfolding masks_agree_to
masks_agree_table = refl

pub bit_and_length : (b : ℕ) → b < 256 → (bit_and b 0x1f ≡ b % 32) × (bit_and b 0xe0 ≡ b / 32 * 32)
bit_and_length b h = ground (arith, masks_agree_to_each 256 b masks_agree_table)
