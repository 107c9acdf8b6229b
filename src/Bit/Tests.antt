-- ===== src/Bit/Tests.antt =====
-- Runs of the bitstream parser and the loader of src/bit.c, and instances of what is proved of it.
use libopenvizsla.Prelude.{◌≡◌, refl, none, [], ◌∷◌, Bytes, length, take, arith, true}
use libopenvizsla.Bit.Parser.{Bit, Parse, parsed, refused, bit_init}
use libopenvizsla.Bit.Format.{BitFile, encode, decoded, bit_init-encode}
use libopenvizsla.Bit.Bounds.{HasBits, Ends, bit_init-Ends}
use libopenvizsla.Bit.Reverse.{bit_at, bitreverse8, bitreverse8-mirror}
use libopenvizsla.Ftdi.Steady.{steady}
use libopenvizsla.Bit.Loader.{Loader, bit_load_firmware}
use libopenvizsla.Bit.Recording.{steady_recorder}
use libopenvizsla.Bit.Sending.{HasLoaded, bit_load_firmware-HasLoaded}

abbrev unset : Bit
unset = record {
  data_ptr = [];
  size = 0;
  ncd_filename = none;
  part_name = none;
  date = none;
  time = none;
  bit_length = 0;
  error_str = none;
}

abbrev small_file : BitFile
small_file = record {
  ncd_filename = 111 ∷ 118 ∷ 0 ∷ [];
  part_name = 54 ∷ 0 ∷ [];
  date = 50 ∷ 0 ∷ [];
  time = 49 ∷ 0 ∷ [];
  bits = 0xff ∷ 0xaa ∷ 0x99 ∷ 0x55 ∷ [];
}

abbrev message_of : Parse → Bytes
message_of (refused bit) = 1 ∷ []
message_of p = []

-- A file cut in its configuration bits is refused.
cut_file : message_of (bit_init unset (take 50 (encode small_file [])) 40) ≡ 1 ∷ []
unfolding bit_init
cut_file = refl

bit_init-encode_example :
    bit_init unset (encode small_file (7 ∷ [])) (length (encode small_file (7 ∷ [])))
    ≡ parsed (decoded small_file (7 ∷ []) unset)
bit_init-encode_example =
    bit_init-encode small_file (7 ∷ []) unset
      (omega arith, omega arith, omega arith, omega arith, omega arith)

bit_init-Ends_example : Ends HasBits (bit_init unset (encode small_file []) 40)
bit_init-Ends_example = bit_init-Ends unset (encode small_file []) 40 (omega arith)

bitreverse8-mirror_example : bit_at 2 (bitreverse8 0x25) ≡ bit_at 5 0x25
bitreverse8-mirror_example = bitreverse8-mirror 0x25 2 (omega arith) (omega arith)

-- The done bit is up.
abbrev loader : Loader (steady 4)
loader = record {
  error_str = none;
  cha = record {
    ftdi = record { opened = true; written = [] };
    reg = record { error_str = none; addr = [] };
    error_str = none;
  };
  chb = record { ftdi = record { opened = true; written = [] }; error_str = none };
}

bit_load_firmware-HasLoaded_example :
    HasLoaded
      (steady 4)
      (steady_recorder 4)
      (0xaa ∷ 0x99 ∷ [])
      loader
      (bit_load_firmware (steady 4) (0xaa ∷ 0x99 ∷ 0x55 ∷ []) 2 loader)
bit_load_firmware-HasLoaded_example =
    bit_load_firmware-HasLoaded (steady 4) (steady_recorder 4) (0xaa ∷ 0x99 ∷ 0x55 ∷ []) 2 loader
      (omega arith) (omega arith)
