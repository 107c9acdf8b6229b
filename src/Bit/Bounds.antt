-- ===== src/Bit/Bounds.antt =====
-- Where the parser of src/bit.c reads.
use libopenvizsla.Prelude.{
  ℕ, ◌+◌, ◌*◌, ◌^◌, ◌-◌, refl, ◌≤◌, ◌≢◌, ◌≡◌, none, length, length-drop, arith, Bytes, [], ◌∷◌,
}
use libopenvizsla.Bit.Parser.{
  Bit, Parse, parsed, refused, out_of_bounds, and_then, bit_do_parse_field1_2, parse_str_body,
  bit_do_parse_field_str, set_ncd_filename, set_part_name, set_date, set_time, parse_length,
  bit_do_parse_field7, bit_do_parse, bit_init,
}

-- `size` counts bytes of the file.
abbrev IsInside : Bit → Type 0
IsInside bit = bit.size ≤ length bit.data_ptr

-- No read outside the file; after a success `P` holds, after a failure there is a message.
abbrev pub Ends : (Bit → Type 0) → Parse → Type 0
Ends P (parsed bit) = P bit
Ends P (refused bit) = bit.error_str ≢ none
Ends P out_of_bounds = ⊥

Ends-and_then :
    (P Q : Bit → Type 0) (p : Parse) (next : Bit → Parse)
    → Ends P p
    → ((bit : Bit) → P bit → Ends Q (next bit))
    → Ends Q (and_then p next)
Ends-and_then P Q (parsed bit) next h k = k bit h
Ends-and_then P Q (refused bit) next h k = h
Ends-and_then P Q out_of_bounds next h k = h

-- `data` points to at least `bit_length` bytes.
abbrev pub HasBits : Bit → Type 0
HasBits bit = IsInside bit × (bit.bit_length ≤ bit.size)

header-Ends : (bit : Bit) → IsInside bit → Ends IsInside (bit_do_parse_field1_2 bit)
unfolding bit_do_parse_field1_2
header-Ends bit h = ground (arith, length-drop 13 bit.data_ptr)

abbrev KeepsInside : (Bytes → Bit → Bit) → Type 0
KeepsInside set = (s : Bytes) (bit : Bit) → IsInside bit → IsInside (set s bit)

abbrev KeepsSize : (Bytes → Bit → Bit) → Type 0
KeepsSize set = (s : Bytes) (bit : Bit) → (set s bit).size ≡ bit.size

body-Ends :
    (set : Bytes → Bit → Bit) (len : ℕ) (bit : Bit)
    → KeepsInside set
    → KeepsSize set
    → IsInside bit
    → Ends IsInside (parse_str_body set len bit)
unfolding parse_str_body
body-Ends set len bit keeps same h = ground (
  arith,
  keeps bit.data_ptr bit h,
  same bit.data_ptr bit,
  length-drop len (set bit.data_ptr bit).data_ptr,
)

-- The parser in front of `d`.
abbrev on : Bit → Bytes → Bit
on bit d = record bit { data_ptr = d }

str_on-Ends :
    (key : ℕ) (set : Bytes → Bit → Bit) (bit : Bit) (d : Bytes)
    → KeepsInside set
    → KeepsSize set
    → bit.size ≤ length d
    → Ends IsInside (bit_do_parse_field_str key set (on bit d))
unfolding bit_do_parse_field_str
str_on-Ends key set bit [] keeps same h = ground arith
str_on-Ends key set bit (k ∷ []) keeps same h = ground arith
str_on-Ends key set bit (k ∷ x ∷ []) keeps same h = ground arith
str_on-Ends key set bit (k ∷ x ∷ y ∷ rest) keeps same h =
    let behind = record bit { data_ptr = rest; size = bit.size - 1 - 2 } in
    ground (arith, body-Ends set (x * 2 ^ 8 + y) behind keeps same (omega arith))

str-Ends :
    (key : ℕ) (set : Bytes → Bit → Bit)
    → KeepsInside set
    → KeepsSize set
    → (bit : Bit) → IsInside bit
    → Ends IsInside (bit_do_parse_field_str key set bit)
str-Ends key set keeps same bit = str_on-Ends key set bit bit.data_ptr keeps same

field7_on-Ends :
    (bit : Bit) (d : Bytes) → bit.size ≤ length d → Ends HasBits (bit_do_parse_field7 (on bit d))
unfolding bit_do_parse_field7 parse_length
field7_on-Ends bit [] h = ground arith
field7_on-Ends bit (k ∷ []) h = ground arith
field7_on-Ends bit (k ∷ x ∷ []) h = ground arith
field7_on-Ends bit (k ∷ x ∷ y ∷ []) h = ground arith
field7_on-Ends bit (k ∷ x ∷ y ∷ z ∷ []) h = ground arith
field7_on-Ends bit (k ∷ x ∷ y ∷ z ∷ w ∷ rest) h = ground arith

-- For every file and any `size` up to its length, `bit_init` reads inside the file only. When it
-- returns 0, `data` points to at least `size` bytes and `size` is at least `bit_length`; when it
-- returns -1, it has set an error message.
pub bit_init-Ends :
    (bit : Bit) (source : Bytes) (size : ℕ)
    → size ≤ length source
    → Ends HasBits (bit_init bit source size)
unfolding bit_init bit_do_parse
bit_init-Ends bit source size h =
    let start = record bit { data_ptr = source; size = size } in
    let fields1_3 =
      Ends-and_then IsInside IsInside (bit_do_parse_field1_2 start)
        (bit_do_parse_field_str 97 set_ncd_filename) (header-Ends start h)
        (str-Ends 97 set_ncd_filename (λ s b i. i) (λ s b. refl)) in
    let fields1_4 =
      Ends-and_then IsInside IsInside _ (bit_do_parse_field_str 98 set_part_name) fields1_3
        (str-Ends 98 set_part_name (λ s b i. i) (λ s b. refl)) in
    let fields1_5 =
      Ends-and_then IsInside IsInside _ (bit_do_parse_field_str 99 set_date) fields1_4
        (str-Ends 99 set_date (λ s b i. i) (λ s b. refl)) in
    let fields1_6 =
      Ends-and_then IsInside IsInside _ (bit_do_parse_field_str 100 set_time) fields1_5
        (str-Ends 100 set_time (λ s b i. i) (λ s b. refl)) in
    Ends-and_then IsInside HasBits _ bit_do_parse_field7 fields1_6
      (λ b. field7_on-Ends b b.data_ptr)
