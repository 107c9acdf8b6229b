-- ===== src/Loop/Callbacks.antt =====
-- The functions of src/cha.c that the decoders call.
use libopenvizsla.Prelude.{
  ℕ, ◌+◌, ◌%◌, ◌^◌, ltb, leb, ◌==◌, Bool, not, ◌&&◌, if◌then◌else◌, Option, none, some,
}
use libopenvizsla.Decoder.State.{Packet, Ops, has_flag, ov_flags_hf0_last, to_int, is_negative}
use libopenvizsla.Reg.State.{addr_of, sdram_host_read_go}
use libopenvizsla.Loop.State.{
  break_loop, count_limit, end_of_stream, host_read_off, is_running, Control, enter,
}

module _ {V : Type 0} where
  -- `loop->state = BREAK_LOOP`; the cancelled transfers complete some time later.
  unfoldable pub cha_loop_break : Control V → Control V
  cha_loop_break c = enter break_loop c

  unfoldable pub called : V × Bool → Control V → Control V
  unfolding cha_loop_break
  called (v, breaks) c =
      let c' = record c { user_data = v } in if breaks then cha_loop_break c' else c'

  unfoldable pub call_user : Option (Packet → V → V × Bool) → Packet → Control V → Control V
  unfolding called
  call_user none packet c = c
  call_user (some f) packet c = called (f packet c.user_data) c

  -- `loop->count++`, of an `int`, is made only if there is a limit.
  abbrev pub count_packet : Control V → Control V
  count_packet c =
      if ltb 0 c.max_count
      then record c {
        count = to_int (c.count + 1);
        state =
            if not (is_negative c.count) && leb c.max_count c.count then count_limit else c.state;
      }
      else c

  abbrev pub note_last : Packet → Control V → Control V
  note_last packet c = if has_flag packet.flags ov_flags_hf0_last then enter end_of_stream c else c

  unfoldable pub cha_loop_packet_callback : Packet → Control V → Control V
  unfolding call_user
  cha_loop_packet_callback packet c =
      if not (is_running c.state)
      then c
      else note_last packet (count_packet (call_user c.callback packet c))

  -- `addr & ~0x8000`, of 16 bits
  unfoldable pub cha_loop_bus_frame_callback : ℕ → ℕ → Control V → Control V
  unfolding addr_of
  cha_loop_bus_frame_callback addr value c =
      if addr % 2 ^ 15 == addr_of c.reg sdram_host_read_go && value == 0
      then enter host_read_off c
      else c

  -- `ops` in cha_loop_init
  abbrev pub loop_ops : Ops (Control V)
  loop_ops = record {
    packet = some cha_loop_packet_callback;
    bus_frame = some cha_loop_bus_frame_callback;
  }

  -- It returns the old callback.
  abbrev pub cha_loop_set_callback :
      Option (Packet → V → V × Bool) → V → Control V → Option (Packet → V → V × Bool) × Control V
  cha_loop_set_callback callback user_data c =
      (c.callback, record c { callback = callback; user_data = user_data })
