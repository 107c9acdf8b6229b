-- ===== src/Bit/Reverse.antt =====
-- `bitreverse8` of src/bit.c: the configuration port takes the bits of a byte in the other order.
use libopenvizsla.Prelude.{
  ℕ, zero, suc, ◌+◌, ◌*◌, ◌/◌, ◌%◌, ◌^◌, ◌-◌, ◌<◌, ==_iff, ◌≡◌, refl, ◌==◌, Bool, true, ◌&&◌, [],
  ◌∷◌, ◌++◌, Bytes, get_or, arith,
}

abbrev pub r2 : ℕ → Bytes
r2 n = n ∷ (n + 2 * 64) ∷ (n + 1 * 64) ∷ (n + 3 * 64) ∷ []

abbrev pub r4 : ℕ → Bytes
r4 n = r2 n ++ r2 (n + 2 * 16) ++ r2 (n + 1 * 16) ++ r2 (n + 3 * 16)

abbrev pub r6 : ℕ → Bytes
r6 n = r4 n ++ r4 (n + 2 * 4) ++ r4 (n + 1 * 4) ++ r4 (n + 3 * 4)

-- `map`
abbrev pub reversed : Bytes
reversed = r6 0 ++ r6 2 ++ r6 1 ++ r6 3

-- `map[x]`, for an `x` of eight bits.
unfoldable pub bitreverse8 : ℕ → ℕ
bitreverse8 x = get_or reversed x 0

abbrev pub bit_at : ℕ → ℕ → ℕ
bit_at i x = x / 2 ^ i % 2

-- For each `x` below `n`, the test `p`.
abbrev holds_to : (ℕ → Bool) → ℕ → Bool
holds_to p zero = true
holds_to p (suc n) = holds_to p n && p n

holds_to_each : (p : ℕ → Bool) (n x : ℕ) → holds_to p n ≡ true → x < n → p x ≡ true
holds_to_each p zero x table lt = absurd (omega arith)
holds_to_each p (suc n) x table lt = ground (arith, holds_to_each p n x)

-- Bit `i` of the result is bit `7 - i` of `x`.
abbrev is_reversal : ℕ → Bool
unfolding bitreverse8
is_reversal x = holds_to (λ i. bit_at i (bitreverse8 x) == bit_at (7 - i) x) 8

is_reversal_table : holds_to is_reversal 256 ≡ true
unfolding is_reversal
is_reversal_table = refl

-- For each byte `x` and each `i` below 8, bit `i` of `bitreverse8(x)` is bit `7 - i` of `x`: the
-- macros fill the table with the mirror images of all 256 bytes.
pub bitreverse8-mirror : (x i : ℕ) → x < 256 → i < 8 → bit_at i (bitreverse8 x) ≡ bit_at (7 - i) x
unfolding is_reversal
bitreverse8-mirror x i h k = (==_iff (bit_at i (bitreverse8 x)) (bit_at (7 - i) x)).0 (
    holds_to_each (λ j. bit_at j (bitreverse8 x) == bit_at (7 - j) x) 8 i
      (holds_to_each is_reversal 256 x is_reversal_table h) k)

abbrev is_twice_reversed : ℕ → Bool
unfolding bitreverse8
is_twice_reversed x = bitreverse8 (bitreverse8 x) == x

is_twice_reversed_table : holds_to is_twice_reversed 256 ≡ true
unfolding is_twice_reversed
is_twice_reversed_table = refl

-- `bitreverse8` applied twice to a byte gives the byte back.
pub bitreverse8-bitreverse8 : (x : ℕ) → x < 256 → bitreverse8 (bitreverse8 x) ≡ x
unfolding is_twice_reversed
bitreverse8-bitreverse8 x h =
    (==_iff (bitreverse8 (bitreverse8 x)) x).0
      (holds_to_each is_twice_reversed 256 x is_twice_reversed_table h)
