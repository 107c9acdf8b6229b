-- ===== src/Bit/Format.antt =====
-- The bitstream file that `bit_init` of src/bit.c accepts, written out as bytes, and where the parser
-- reads.
use libopenvizsla.Prelude.{
  ℕ, suc, false, ◌+◌, ◌-◌, ◌*◌, ◌/◌, ◌%◌, ◌^◌, ◌<◌, ◌≡◌, refl, ap, ltb, some, ◌∷◌, ◌++◌, Bytes,
  length, length-append, drop-length_append, arith,
}
use libopenvizsla.Bit.Parser.{
  Bit, parsed, header, bit_do_parse_field1_2, parse_str_body, bit_do_parse_field_str,
  set_ncd_filename, set_part_name, set_date, set_time, bit_do_parse_field7, bit_do_parse, bit_init,
}

-- The strings of the header and the configuration bits.
pub record BitFile : Type 0 where
  pub ncd_filename : Bytes
  pub part_name : Bytes
  pub date : Bytes
  pub time : Bytes
  pub bits : Bytes

-- A string field with `rest` behind it.
abbrev pub field_str : ℕ → Bytes → Bytes → Bytes
field_str key s rest = key ∷ (length s / 2 ^ 8 % 2 ^ 8) ∷ (length s % 2 ^ 8) ∷ (s ++ rest)

-- The parts of the file from a field on, with `trailing` behind the bits.
abbrev pub from_bits : BitFile → Bytes → Bytes
from_bits f trailing =
    101
    ∷ (length f.bits / 2 ^ 24 % 2 ^ 8)
    ∷ (length f.bits / 2 ^ 16 % 2 ^ 8)
    ∷ (length f.bits / 2 ^ 8 % 2 ^ 8)
    ∷ (length f.bits % 2 ^ 8)
    ∷ (f.bits ++ trailing)

abbrev pub from_time : BitFile → Bytes → Bytes
from_time f trailing = field_str 100 f.time (from_bits f trailing)

abbrev pub from_date : BitFile → Bytes → Bytes
from_date f trailing = field_str 99 f.date (from_time f trailing)

abbrev pub from_part_name : BitFile → Bytes → Bytes
from_part_name f trailing = field_str 98 f.part_name (from_date f trailing)

abbrev pub from_ncd_filename : BitFile → Bytes → Bytes
from_ncd_filename f trailing = field_str 97 f.ncd_filename (from_part_name f trailing)

abbrev pub encode : BitFile → Bytes → Bytes
encode f trailing = header ++ from_ncd_filename f trailing

-- The strings' lengths have 16 bits, that of the configuration bits 32.
abbrev pub IsEncodable : BitFile → Type 0
IsEncodable f =
    (length f.ncd_filename < 2 ^ 16)
    × (length f.part_name < 2 ^ 16)
    × (length f.date < 2 ^ 16)
    × (length f.time < 2 ^ 16)
    × (length f.bits < 2 ^ 32)

-- The parser in front of the bytes `d`, up to the end of the file.
abbrev pub at : Bytes → Bit → Bit
at d bit = record bit { data_ptr = d; size = length d }

abbrev KeepsPlace : (Bytes → Bit → Bit) → Type 0
KeepsPlace set =
    (s : Bytes) (bit : Bit) → ((set s bit).data_ptr ≡ bit.data_ptr) × ((set s bit).size ≡ bit.size)

ltb-append : (s rest : Bytes) → ltb (length (s ++ rest)) (length s) ≡ false
ltb-append s rest = ground (arith, length-append s rest)

rest_size : (s rest : Bytes) → length (s ++ rest) - length s ≡ length rest
rest_size s rest = omega (arith, length-append s rest)

-- The string is read whole.
parse_str_body_lem :
    (set : Bytes → Bit → Bit) (s rest : Bytes) (bit : Bit)
    → KeepsPlace set
    → parse_str_body set (length s) (at (s ++ rest) bit)
      ≡ parsed (at rest (set (s ++ rest) (at (s ++ rest) bit)))
unfolding parse_str_body
parse_str_body_lem set s rest bit keeps = rw (
  ltb-append s rest,
  (keeps (s ++ rest) (at (s ++ rest) bit)).0,
  (keeps (s ++ rest) (at (s ++ rest) bit)).1,
  drop-length_append s rest,
  rest_size s rest,
)

at_size :
    (n : ℕ) (d : Bytes) (bit : Bit)
    → n ≡ length d
    → record bit { data_ptr = d; size = n } ≡ at d bit
at_size n d bit h = ap (λ (k : ℕ). record bit { data_ptr = d; size = k }) h

two_digits : (n : ℕ) → n < 2 ^ 16 → n / 2 ^ 8 % 2 ^ 8 * 2 ^ 8 + n % 2 ^ 8 ≡ n
two_digits n h = omega arith

four_digits :
    (n : ℕ)
    → n < 2 ^ 32
    → n / 2 ^ 24 % 2 ^ 8 * 2 ^ 24
        + n / 2 ^ 16 % 2 ^ 8 * 2 ^ 16
        + n / 2 ^ 8 % 2 ^ 8 * 2 ^ 8
        + n % 2 ^ 8
      ≡ n
four_digits n h = omega arith

field_str_lem :
    (key : ℕ) (set : Bytes → Bit → Bit) (s rest : Bytes) (bit : Bit)
    → KeepsPlace set
    → length s < 2 ^ 16
    → bit_do_parse_field_str key set (at (field_str key s rest) bit)
      ≡ parsed (at rest (set (s ++ rest) (at (s ++ rest) bit)))
unfolding bit_do_parse_field_str
field_str_lem key set s rest bit keeps h = ground (
  arith,
  two_digits (length s) h,
  at_size (suc (suc (suc (length (s ++ rest)))) - 1 - 2) (s ++ rest) bit (omega arith),
  parse_str_body_lem set s rest bit keeps,
)

field7_lem :
    (f : BitFile) (trailing : Bytes) (bit : Bit)
    → length f.bits < 2 ^ 32
    → bit_do_parse_field7 (at (from_bits f trailing) bit)
      ≡ parsed (at (f.bits ++ trailing) (record bit { bit_length = length f.bits }))
unfolding bit_do_parse_field7
field7_lem f trailing bit h =
    ground (arith, four_digits (length f.bits) h, length-append f.bits trailing)

header_lem :
    (rest : Bytes) (bit : Bit)
    → bit_do_parse_field1_2 (at (header ++ rest) bit) ≡ parsed (at rest bit)
unfolding bit_do_parse_field1_2
header_lem rest bit = ground arith

abbrev named : BitFile → Bytes → Bit → Bit
named f trailing = set_ncd_filename (f.ncd_filename ++ from_part_name f trailing)

abbrev for_part : BitFile → Bytes → Bit → Bit
for_part f trailing bit = set_part_name (f.part_name ++ from_date f trailing) (named f trailing bit)

abbrev dated : BitFile → Bytes → Bit → Bit
dated f trailing bit = set_date (f.date ++ from_time f trailing) (for_part f trailing bit)

abbrev timed : BitFile → Bytes → Bit → Bit
timed f trailing bit = set_time (f.time ++ from_bits f trailing) (dated f trailing bit)

-- What `bit_init` leaves in the object: each string's address, and the bits in front of `data`.
abbrev pub decoded : BitFile → Bytes → Bit → Bit
decoded f trailing bit = record (at (f.bits ++ trailing) bit) {
  ncd_filename = some (f.ncd_filename ++ from_part_name f trailing);
  part_name = some (f.part_name ++ from_date f trailing);
  date = some (f.date ++ from_time f trailing);
  time = some (f.time ++ from_bits f trailing);
  bit_length = length f.bits;
}

-- On a file written with any four strings shorter than 2 ^ 16, configuration bits shorter than
-- 2 ^ 32 and any bytes behind them, `bit_init` returns 0: each string pointer stands at its string,
-- `bit_length` is the number of configuration bits, `data` points to them, and `size` counts them
-- and the bytes behind.
pub bit_init-encode :
    (f : BitFile) (trailing : Bytes) (bit : Bit)
    → IsEncodable f
    → bit_init bit (encode f trailing) (length (encode f trailing))
      ≡ parsed (decoded f trailing bit)
unfolding bit_init bit_do_parse
bit_init-encode f trailing bit (h0, h1, h2, h3, h4) = rw (
  header_lem (from_ncd_filename f trailing) bit,
  field_str_lem 97 set_ncd_filename f.ncd_filename (from_part_name f trailing) bit
      (λ s b. (refl, refl)) h0,
  field_str_lem 98 set_part_name f.part_name (from_date f trailing) (named f trailing bit)
      (λ s b. (refl, refl)) h1,
  field_str_lem 99 set_date f.date (from_time f trailing) (for_part f trailing bit)
      (λ s b. (refl, refl)) h2,
  field_str_lem 100 set_time f.time (from_bits f trailing) (dated f trailing bit)
      (λ s b. (refl, refl)) h3,
  field7_lem f trailing (timed f trailing bit) h4,
)
