-- ===== src/Bit/Parser.antt =====
-- The parser of src/bit.c and `struct bit` of include/bit.h.
use libopenvizsla.Prelude.{
  ℕ, ◌+◌, ◌-◌, ◌*◌, ◌^◌, ltb, leb, ◌==◌, not, if◌then◌else◌, Option, none, some, [], ◌∷◌, Bytes,
  String, same_bytes, length, take, drop,
}

-- `struct bit`. A pointer is given as the bytes of the file from it on; `none` is a null pointer.
pub record Bit : Type 0 where
  pub data_ptr : Bytes
  pub size : ℕ
  pub ncd_filename : Option Bytes
  pub part_name : Option Bytes
  pub date : Option Bytes
  pub time : Option Bytes
  pub bit_length : ℕ
  pub error_str : Option String

-- What a parser function does: return 0, return -1, or read outside the file, which is undefined.
pub data Parse : Type 0 where
  parsed : Bit → Parse
  refused : Bit → Parse
  out_of_bounds : Parse

abbrev pub and_then : Parse → (Bit → Parse) → Parse
and_then (parsed bit) next = next bit
and_then (refused bit) next = refused bit
and_then out_of_bounds next = out_of_bounds

abbrev pub refuse : String → Bit → Parse
refuse message bit = refused (record bit { error_str = some message })

-- `data += n; size -= n`, behind a test that `n` bytes are there
abbrev pub move : ℕ → Bit → Bit
move n bit = record bit { data_ptr = drop n bit.data_ptr; size = bit.size - n }

abbrev pub header : Bytes
header =
    0x00 ∷ 0x09 ∷ 0x0f ∷ 0xf0 ∷ 0x0f ∷ 0xf0 ∷ 0x0f ∷ 0xf0 ∷ 0x0f ∷ 0xf0 ∷ 0x00 ∷ 0x00 ∷ 0x01 ∷ []

-- `memcmp` reads as many bytes as the header has.
unfoldable pub bit_do_parse_field1_2 : Bit → Parse
unfolding same_bytes
bit_do_parse_field1_2 bit =
    if ltb bit.size (length header)
    then refuse "Wrong bitstream header" bit
    else if not (leb (length header) (length bit.data_ptr))
    then out_of_bounds
    else if not (same_bytes (take (length header) bit.data_ptr) header)
    then refuse "Wrong bitstream header" bit
    else parsed (move (length header) bit)

-- `memcpy(&len, bit->data, 2)` and `be_to_host_16`: the value on a host of either byte order
abbrev pub read_16 : Bytes → Option ℕ
read_16 (b1 ∷ b0 ∷ _) = some (b1 * 2 ^ 8 + b0)
read_16 _ = none

-- The same for four bytes and `be_to_host_32`.
abbrev pub read_32 : Bytes → Option ℕ
read_32 (b3 ∷ b2 ∷ b1 ∷ b0 ∷ _) = some (b3 * 2 ^ 24 + b2 * 2 ^ 16 + b1 * 2 ^ 8 + b0)
read_32 _ = none

-- `*data != key`, and what follows when it is the key
abbrev pub check_key : ℕ → Bit → Bytes → (Bit → Parse) → Parse
check_key key bit [] next = out_of_bounds
check_key key bit (k ∷ _) next =
    if not (k == key) then refuse "Incorrent field key" bit else next (move 1 bit)

-- The string, of `len` bytes: `set` stores its address.
unfoldable pub parse_str_body : (Bytes → Bit → Bit) → ℕ → Bit → Parse
parse_str_body set len bit =
    if ltb bit.size len
    then refuse "Too few bytes" bit
    else parsed (move len (set bit.data_ptr bit))

-- The length behind the key
abbrev pub with_length : ℕ → Bit → Option ℕ → (ℕ → Bit → Parse) → Parse
with_length n bit none next = out_of_bounds
with_length n bit (some len) next = next len (move n bit)

unfoldable pub bit_do_parse_field_str : ℕ → (Bytes → Bit → Bit) → Bit → Parse
unfolding parse_str_body
bit_do_parse_field_str key set bit =
    if ltb bit.size 3
    then refuse "Too few bytes" bit
    else check_key key bit bit.data_ptr
        (λ b. with_length 2 b (read_16 b.data_ptr) (parse_str_body set))

abbrev pub set_ncd_filename : Bytes → Bit → Bit
set_ncd_filename s bit = record bit { ncd_filename = some s }

abbrev pub set_part_name : Bytes → Bit → Bit
set_part_name s bit = record bit { part_name = some s }

abbrev pub set_date : Bytes → Bit → Bit
set_date s bit = record bit { date = some s }

abbrev pub set_time : Bytes → Bit → Bit
set_time s bit = record bit { time = some s }

abbrev pub bit_do_parse_field2_3 : Bit → Parse
unfolding bit_do_parse_field_str
bit_do_parse_field2_3 = bit_do_parse_field_str 97 set_ncd_filename

abbrev pub bit_do_parse_field4 : Bit → Parse
unfolding bit_do_parse_field_str
bit_do_parse_field4 = bit_do_parse_field_str 98 set_part_name

abbrev pub bit_do_parse_field5 : Bit → Parse
unfolding bit_do_parse_field_str
bit_do_parse_field5 = bit_do_parse_field_str 99 set_date

abbrev pub bit_do_parse_field6 : Bit → Parse
unfolding bit_do_parse_field_str
bit_do_parse_field6 = bit_do_parse_field_str 100 set_time

-- `bit_length` is stored before the test.
unfoldable pub parse_length : ℕ → Bit → Parse
parse_length len bit =
    let body = record bit { bit_length = len } in
    if ltb body.size len then refuse "Too few bytes" body else parsed body

unfoldable pub bit_do_parse_field7 : Bit → Parse
unfolding parse_length
bit_do_parse_field7 bit =
    if ltb bit.size 5
    then refuse "Too few bytes" bit
    else check_key 101 bit bit.data_ptr (λ b. with_length 4 b (read_32 b.data_ptr) parse_length)

unfoldable pub bit_do_parse : Bit → Parse
unfolding bit_do_parse_field1_2 bit_do_parse_field_str bit_do_parse_field7
bit_do_parse bit =
    and_then
      (and_then
        (and_then
          (and_then (and_then (bit_do_parse_field1_2 bit) bit_do_parse_field2_3)
            bit_do_parse_field4)
          bit_do_parse_field5)
        bit_do_parse_field6)
      bit_do_parse_field7

unfoldable pub bit_init : Bit → Bytes → ℕ → Parse
unfolding bit_do_parse
bit_init bit source size = bit_do_parse (record bit { data_ptr = source; size = size })
