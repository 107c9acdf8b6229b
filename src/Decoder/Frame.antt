-- ===== src/Decoder/Frame.antt =====
-- `frame_decoder_proc` of src/decoder.c.
use libopenvizsla.Prelude.{
  ℕ, zero, suc, ◌+◌, ◌-◌, ◌*◌, ◌%◌, ◌^◌, min, bit_or, ◌==◌, if◌then◌else◌, Option, none, some, [],
  ◌∷◌, Bytes, length, take, drop,
}
use libopenvizsla.Decoder.State.{
  PacketDecoder, FrameDecoder, FrameState, need_frame_magic, need_sdram_frame_length,
  need_sdram_frame_data, need_bus_frame_addr_hi, need_bus_frame_addr_lo, need_bus_frame_value,
  need_bus_frame_checksum, out_of_fuel, Step, advance, finished, refused, broken, Outcome, done,
  failed, fault, returned, resume, is_negative,
}
use libopenvizsla.Decoder.Packet.{packet_decoder_proc}

module _ {U : Type 0} where
  -- `case NEED_FRAME_MAGIC`
  frame_magic : FrameDecoder U → ℕ → Bytes → Step (FrameDecoder U)
  frame_magic fd b bs =
      if b == 0x55
      then advance (record fd { state = need_bus_frame_addr_hi }) bs
      else if b == 0xd0
      then advance (record fd { state = need_sdram_frame_length }) bs
      else refused (record fd { pd = record (fd.pd) { error_str = some "Wrong frame magic" } })

  -- `case NEED_SDRAM_FRAME_DATA` after the inner call, with `buf` the bytes from the pointer on
  unfoldable pub sdram_data :
      FrameDecoder U → Bytes → Outcome (PacketDecoder U) → Step (FrameDecoder U)
  sdram_data fd buf (done ret pd) =
      let left = (fd.word + 2 ^ 16 - ret) % 2 ^ 16 in
      if is_negative ret
      then refused (record fd { pd = pd })
      else advance
          (record fd {
            pd = pd;
            word = left;
            state = if left == 0 then need_frame_magic else fd.state;
          })
          (drop ret buf)
  sdram_data fd buf (failed pd) = refused (record fd { pd = pd })
  sdram_data fd buf (fault w) = broken w

  abbrev pub call_bus_frame : Option (ℕ → ℕ → U → U) → ℕ → ℕ → U → U
  call_bus_frame none addr value u = u
  call_bus_frame (some f) addr value u = f addr value u

  -- `case NEED_BUS_FRAME_CHECKSUM`: the checksum is stored, and not compared.
  bus_checksum : FrameDecoder U → ℕ → Bytes → Step (FrameDecoder U)
  bus_checksum fd b bs =
      advance
        (record fd {
          checksum = b;
          state = need_frame_magic;
          pd = record (fd.pd) {
            user = call_bus_frame fd.pd.ops.bus_frame fd.word fd.value fd.pd.user;
          };
        })
        bs

  -- The body of the loop, by the state.
  unfoldable pub frame_step_in : FrameState → FrameDecoder U → ℕ → Bytes → Step (FrameDecoder U)
  unfolding frame_magic sdram_data bus_checksum
  frame_step_in need_frame_magic fd b bs = frame_magic fd b bs
  frame_step_in need_sdram_frame_length fd b bs =
      advance (record fd { word = ((b + 1) * 2) % 2 ^ 16; state = need_sdram_frame_data }) bs
  frame_step_in need_sdram_frame_data fd b bs =
      let psize = min fd.word (length (b ∷ bs)) in
      sdram_data fd (b ∷ bs) (packet_decoder_proc fd.pd (take psize (b ∷ bs)))
  frame_step_in need_bus_frame_addr_hi fd b bs =
      advance (record fd { word = (b * 2 ^ 8) % 2 ^ 16; state = need_bus_frame_addr_lo }) bs
  frame_step_in need_bus_frame_addr_lo fd b bs =
      advance (record fd { word = bit_or fd.word b % 2 ^ 16; state = need_bus_frame_value }) bs
  frame_step_in need_bus_frame_value fd b bs =
      advance (record fd { value = b; state = need_bus_frame_checksum }) bs
  frame_step_in need_bus_frame_checksum fd b bs = bus_checksum fd b bs

  abbrev pub frame_step : FrameDecoder U → ℕ → Bytes → Step (FrameDecoder U)
  frame_step fd = frame_step_in fd.state fd

  -- `while (buf != end)`. A pass may leave `buf` where it is, when it only finalizes a packet with
  -- no data; the pass behind it moves `buf`.
  unfoldable pub frame_loop : ℕ → FrameDecoder U → Bytes → Step (FrameDecoder U)
  frame_loop zero fd [] = finished fd []
  frame_loop zero fd (b ∷ bs) = broken out_of_fuel
  frame_loop (suc fuel) fd [] = finished fd []
  frame_loop (suc fuel) fd (b ∷ bs) = resume (frame_loop fuel) (frame_step fd b bs)

  unfoldable pub frame_decoder_proc : FrameDecoder U → Bytes → Outcome (FrameDecoder U)
  frame_decoder_proc fd buf = returned (length buf) (frame_loop (2 * length buf + 1) fd buf)
