-- ===== src/Decoder/State.antt =====
-- include/decoder.h and `struct ov_packet` of include/openvizsla.h: the state of both decoders.
use libopenvizsla.Prelude.{
  ℕ, ◌-◌, ◌%◌, ◌^◌, leb, ◌==◌, Bool, not, if◌then◌else◌, bit_and, Option, none, String, Bytes,
  length,
}

-- `struct ov_packet`. `bytes` is the flexible array `data`, with as many bytes as the caller's
-- object has behind the header.
pub record Packet : Type 0 where
  pub magic : ℕ
  pub flags : ℕ
  pub size : ℕ
  pub timestamp : ℕ
  pub bytes : Bytes

abbrev pub ov_flags_hf0_trunc : ℕ
ov_flags_hf0_trunc = 0x08

abbrev pub ov_flags_hf0_last : ℕ
ov_flags_hf0_last = 0x20

abbrev pub ov_max_packet_size : ℕ
ov_max_packet_size = 1027

abbrev pub has_flag : ℕ → ℕ → Bool
has_flag flags flag = not (bit_and flags flag == 0)

unfoldable pub captured_size : Packet → ℕ
captured_size p = if has_flag p.flags ov_flags_hf0_trunc then ov_max_packet_size else p.size

-- `struct decoder_ops`, over the type `U` of the object that `user_data` points to. A callback
-- returns that object as it leaves it; `none` is a null pointer.
pub record Ops (U : Type 0) : Type 0 where
  pub packet : Option (Packet → U → U)
  pub bus_frame : Option (ℕ → ℕ → U → U)

pub data PacketState : Type 0 where
  need_packet_magic need_packet_flags need_packet_length_lo need_packet_length_hi : PacketState
  need_packet_timestamp need_packet_data : PacketState

-- `struct packet_decoder`, with the objects that `packet` and `user_data` point to in place.
pub record PacketDecoder (U : Type 0) : Type 0 where
  pub packet : Packet
  pub ops : Ops U
  pub user : U
  pub cumulative_ts : ℕ
  pub ts_byte : ℕ
  pub ts_length : ℕ
  pub state : PacketState
  pub buf_actual_length : ℕ
  pub buf_length : ℕ
  pub error_str : Option String

pub data FrameState : Type 0 where
  need_frame_magic need_sdram_frame_length need_sdram_frame_data : FrameState
  need_bus_frame_addr_hi need_bus_frame_addr_lo need_bus_frame_value : FrameState
  need_bus_frame_checksum : FrameState

-- `struct frame_decoder`. The union's `sdram.required_length` and `bus.addr` are the same two
-- bytes, `word`; `value` and `checksum` are those of `bus`.
pub record FrameDecoder (U : Type 0) : Type 0 where
  pub pd : PacketDecoder U
  pub state : FrameState
  pub word : ℕ
  pub value : ℕ
  pub checksum : ℕ

-- What ends the program, or is undefined: a `memcpy` outside the packet, a failed `assert`; and
-- the model's own fuel.
pub data Fault : Type 0 where
  out_of_bounds assertion_failed out_of_fuel : Fault

-- What one pass through a loop body does with the pointer `buf`, given as the bytes from it on:
-- go on, leave by `goto end`, return -1.
pub data Step (S : Type 0) : Type 0 where
  advance : S → Bytes → Step S
  finished : S → Bytes → Step S
  refused : S → Step S
  broken : Fault → Step S

-- The rest of the loop behind one pass through its body.
abbrev pub resume : {S : Type 0} → (S → Bytes → Step S) → Step S → Step S
resume k (advance s rest) = k s rest
resume k (finished s rest) = finished s rest
resume k (refused s) = refused s
resume k (broken w) = broken w

-- An `int`, by its 32 bits.
abbrev pub to_int : ℕ → ℕ
to_int n = n % 2 ^ 32

abbrev pub is_negative : ℕ → Bool
is_negative n = leb (2 ^ 31) n

-- A call of a `proc` function: it returns the `int` that the number of bytes consumed is converted
-- to, or -1.
pub data Outcome (S : Type 0) : Type 0 where
  done : ℕ → S → Outcome S
  failed : S → Outcome S
  fault : Fault → Outcome S

-- `return size - (end - buf)`
abbrev pub returned : {S : Type 0} → ℕ → Step S → Outcome S
returned size (advance s rest) = done (to_int (size - length rest)) s
returned size (finished s rest) = done (to_int (size - length rest)) s
returned size (refused s) = failed s
returned size (broken w) = fault w

module _ {U : Type 0} where
  -- `packet_decoder_init`. The decoder itself is written in full, so nothing of the old one stays
  -- but the packet, which is the caller's.
  unfoldable pub packet_decoder_init : Packet → ℕ → Ops U → U → PacketDecoder U
  packet_decoder_init p size ops user = record {
    packet = p;
    ops = ops;
    user = user;
    cumulative_ts = 0;
    ts_byte = 0;
    ts_length = 0;
    state = need_packet_magic;
    buf_actual_length = 0;
    buf_length = size;
    error_str = none;
  }

  -- `frame_decoder_init` on the object `fd`: the union keeps what it held. The first test cannot
  -- fail, since `packet_decoder_init` returns 0.
  unfoldable pub frame_decoder_init : FrameDecoder U → Packet → ℕ → Ops U → U → FrameDecoder U
  frame_decoder_init fd p size ops user = record fd {
    pd = packet_decoder_init p size ops user;
    state = need_frame_magic;
  }
