-- ===== src/Reg/Text.antt =====
-- What src/reg.c uses of the C library on a string, given as its bytes up to the null byte.
use Prim.Native.Char.{code}
use libopenvizsla.Prelude.{
  ℕ, ◌+◌, ◌-◌, ◌*◌, ◌^◌, ◌%◌, min, ltb, leb, ◌==◌, Bool, ◌&&◌, ◌||◌, if◌then◌else◌, Option, none,
  some, [], ◌∷◌, Bytes, String,
}

abbrev pub codes : String → Bytes
codes String.[] = []
codes (String.◌∷◌ c s) = code c ∷ codes s

-- `strchr` whose match is overwritten by a null byte: what stands before, and what behind it.
abbrev pub cons_first : ℕ → Bytes × Option Bytes → Bytes × Option Bytes
cons_first x (before, behind) = (x ∷ before, behind)

unfoldable pub split_at : ℕ → Bytes → Bytes × Option Bytes
split_at c [] = ([], none)
split_at c (x ∷ xs) = if x == c then ([], some xs) else cons_first x (split_at c xs)

unfoldable pub skip_spaces : Bytes → Bytes
skip_spaces [] = []
skip_spaces (x ∷ xs) = if x == b' ' then skip_spaces xs else x ∷ xs

abbrev pub token_or_null : Bytes → Option Bytes
token_or_null [] = none
token_or_null (x ∷ xs) = some (x ∷ xs)

-- The first call of `strtok` on a string, with the separator " ".
unfoldable pub strtok : Bytes → Option Bytes
unfolding skip_spaces split_at
strtok s = token_or_null (split_at b' ' (skip_spaces s)).0

-- `isspace` in the C locale: a blank, and the codes 9 to 13.
abbrev is_space : ℕ → Bool
is_space c = c == b' ' || leb 9 c && leb c 13

unfoldable pub skip_white : Bytes → Bytes
skip_white [] = []
skip_white (x ∷ xs) = if is_space x then skip_white xs else x ∷ xs

abbrev pub hex_digit : ℕ → Option ℕ
hex_digit c =
    if leb b'0' c && leb c b'9'
    then some (c - 48)
    else if leb b'a' c && leb c b'f'
    then some (c - 87)
    else if leb b'A' c && leb c b'F'
    then some (c - 55)
    else none

-- The digits from the front on, up to the first byte that is none.
unfoldable pub hex_value : ℕ → Bytes → ℕ
hex_value acc [] = acc
hex_value acc (c ∷ cs) = elim (hex_digit c) [ none ↦ acc | some d ↦ hex_value (acc * 16 + d) cs ]

-- A prefix 0x or 0X. Without a digit behind it the value is 0, with the prefix skipped or not.
unfoldable pub skip_prefix : Bytes → Bytes
skip_prefix (z ∷ x ∷ cs) = if z == b'0' && (x == b'x' || x == b'X') then cs else z ∷ x ∷ cs
skip_prefix cs = cs

abbrev pub ulong_max : ℕ
ulong_max = 2 ^ 64 - 1

abbrev pub magnitude : Bytes → ℕ
unfolding hex_value skip_prefix
magnitude cs = hex_value 0 (skip_prefix cs)

-- A sign; a magnitude above the largest value gives the largest value.
abbrev pub signed : Bytes → ℕ
unfolding magnitude
signed [] = 0
signed (c ∷ cs) =
    if c == b'-'
    then (if ltb ulong_max (magnitude cs) then ulong_max else (2 ^ 64 - magnitude cs) % 2 ^ 64)
    else if c == b'+'
    then min ulong_max (magnitude cs)
    else min ulong_max (magnitude (c ∷ cs))

-- `strtoul(s, NULL, 16)`, with an `unsigned long` of 64 bits
unfoldable pub strtoul : Bytes → ℕ
unfolding skip_white signed
strtoul s = signed (skip_white s)
