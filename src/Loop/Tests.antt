-- ===== src/Loop/Tests.antt =====
-- A run of the capture loop, and the witnesses of its theorems.
use libopenvizsla.Prelude.{
  ℕ, ◌≤◌, ◌≡◌, refl, Bool, true, false, Option, none, some, List, [], ◌∷◌, Bytes, replicate, arith,
  take, length, memcpy, suc, sym, length-replicate,
}
use native.Mathlib.Nat.{le_of_eq}
use libopenvizsla.Decoder.State.{
  Packet, captured_size, need_frame_magic, need_packet_magic, packet_decoder_init,
  frame_decoder_init,
}
use libopenvizsla.Decoder.Packet.{packet_decoder_proc, packet_loop, packet_step_in}
use libopenvizsla.Decoder.Frame.{frame_decoder_proc, frame_loop, frame_step_in}
use libopenvizsla.Decoder.Valid.{FrameIsValid}
use libopenvizsla.Decoder.Safety.{HasRoom, room_needed}
use libopenvizsla.Decoder.Wire.{Sent}
use libopenvizsla.Decoder.Wire.Stream.{framed, AreSent}
use libopenvizsla.Reg.State.{addr_of}
use libopenvizsla.Loop.State.{
  count_limit, running, is_running, is_fatal, with_control, Control, Loop,
}
use libopenvizsla.Loop.Callbacks.{
  cha_loop_break, called, call_user, cha_loop_packet_callback, cha_loop_bus_frame_callback,
  loop_ops,
}
use libopenvizsla.Loop.Transfer.{
  completed, cancelled, errored, Submitted, accepted, release, decode_packet, packets_loop,
  release_control, submit_answer, submit_again, cha_loop_transfer_callback,
}
use libopenvizsla.Loop.Run.{
  Config, Step, complete_one, break_off, Reach, here, step, Returned, counted, cha_loop_init,
  after_turn, result_of, submit_all, start_run, finish_run,
}
use libopenvizsla.Loop.Invariant.{IsLive, finish_run-Reach}
use libopenvizsla.Loop.Drain.{started, start_run-IsLive, complete_all, complete_all-IsOver, IsOver}
use libopenvizsla.Loop.Limit.{deliver_all, calling, IsLimited}
use libopenvizsla.Loop.Ran.{submitted, broken_off, broken_off-Ran}
use libopenvizsla.Loop.Again.{IsStill, Ran-IsStill}
use libopenvizsla.Loop.Delivery.{packets_of, Leaves, frame_decoder_proc-limit}
use libopenvizsla.Loop.Memory.{TurnIsSafe, cha_loop_transfer_callback-TurnIsSafe}

abbrev Log : Type 0
Log = List Bytes

abbrev logging : Packet → Log → Log × Bool
logging p log = (take (captured_size p) p.bytes ∷ log, false)

abbrev blank : ℕ → Packet
blank n = record { magic = 0; flags = 0; size = 0; timestamp = 0; bytes = replicate n 0 }

abbrev old_control : Control Log
old_control = record {
  reg = record { error_str = none; addr = replicate 15 0xc28 };
  error_str = none;
  callback = none;
  user_data = [];
  count = 0;
  max_count = 0;
  state = running;
  active_transfers = 0;
  complete = false;
}

abbrev old_loop : Loop Log
old_loop = record {
  pd = packet_decoder_init (blank 0) 20 loop_ops old_control;
  state = need_frame_magic;
  word = 0;
  value = 0;
  checksum = 0;
}

abbrev all_accepted : List Submitted
all_accepted = accepted ∷ accepted ∷ accepted ∷ []

-- A run that counts to one, which has started.
abbrev first : Loop Log
first =
    start_run "LIBUSB_SUCCESS" 1 all_accepted
      (cha_loop_init old_loop (blank 8) 20 (some logging) [])

-- Two USB packets with an SDRAM frame of two packets of one byte.
abbrev received_bytes : Bytes
received_bytes =
    0x32 ∷ 0x60 ∷ 0xd0 ∷ 0x05 ∷ 0xa0 ∷ 0x00 ∷ 0x01 ∷ 0x00 ∷ 0x32 ∷ 0x60 ∷ 0xba ∷ 0xd7 ∷ 0xa0 ∷ 0x00
    ∷ 0x01 ∷ 0x00 ∷ 0x32 ∷ 0x60 ∷ 0x01 ∷ 0x5a ∷ []

abbrev outcome_of : Option (ℕ × Loop Log) → Option (ℕ × Option Returned × Log)
outcome_of none = none
outcome_of (some (again, loop)) = some (again, finish_run loop.pd.user, loop.pd.user.user_data)

loop_runs :
    outcome_of (
      complete_all 8
        ((completed received_bytes, accepted) ∷ (cancelled, accepted) ∷ (cancelled, accepted) ∷ [])
        first)
    ≡ some (0, some (counted 2), (0x5a ∷ []) ∷ (0xd7 ∷ []) ∷ [])
unfolding complete_all start_run submit_all cha_loop_init cha_loop_transfer_callback packets_loop
    decode_packet submit_again submit_answer release finish_run cha_loop_packet_callback call_user
    called cha_loop_break cha_loop_bus_frame_callback frame_decoder_proc frame_loop frame_step_in
    packet_decoder_proc packet_loop packet_step_in captured_size memcpy packet_decoder_init
    frame_decoder_init addr_of
loop_runs = refl

first-is_running : is_running first.pd.user.state ≡ true
unfolding start_run submit_all cha_loop_init frame_decoder_init packet_decoder_init
first-is_running = refl

-- The loop before the run.
abbrev fresh : Loop Log
fresh = cha_loop_init old_loop (blank 8) 20 (some logging) []

ops-fresh : fresh.pd.ops ≡ loop_ops
unfolding cha_loop_init frame_decoder_init packet_decoder_init
ops-fresh = refl

fresh-is_fatal : is_fatal fresh.pd.user.state ≡ false
unfolding cha_loop_init frame_decoder_init packet_decoder_init
fresh-is_fatal = refl

-- The program breaks off, and libusb cancels the transfers.
abbrev broken : Config Log
broken = record (started first) { loop = with_control cha_loop_break first }

abbrev cancel : Config Log → ℕ → Config Log
cancel c others = after_turn false (with_control release_control c.loop) others

first-flights : (started first).in_flight ≡ 3
unfolding start_run submit_all cha_loop_init frame_decoder_init packet_decoder_init
first-flights = refl

cancel-Step :
    (c : Config Log) (others : ℕ)
    → c.in_flight ≡ suc others
    → is_running c.loop.pd.user.state ≡ false
    → Step 8 c (cancel c others)
unfolding cha_loop_transfer_callback release
cancel-Step c others e h = complete_one others cancelled accepted e h refl

broken-is_running : is_running broken.loop.pd.user.state ≡ false
unfolding cha_loop_break
broken-is_running = refl

broken-complete : broken.loop.pd.user.complete ≡ false
unfolding cha_loop_break start_run submit_all cha_loop_init frame_decoder_init packet_decoder_init
broken-complete = refl

abbrev over : Config Log
over = cancel (cancel (cancel broken 2) 1) 0

over_lem :
    ((cancel broken 2).loop.pd.user.complete ≡ false)
    × ((cancel (cancel broken 2) 1).loop.pd.user.complete ≡ false)
    × (over.loop.pd.user.complete ≡ true)
unfolding cha_loop_break start_run submit_all cha_loop_init frame_decoder_init packet_decoder_init
over_lem = (refl, refl, refl)

first-complete : (started first).loop.pd.user.complete ≡ false
unfolding start_run submit_all cha_loop_init frame_decoder_init packet_decoder_init
first-complete = refl

over-Reach : Reach 8 (started first) over
over-Reach =
    step
      (step
        (step (step here first-complete break_off) broken-complete
          (cancel-Step broken 2 first-flights broken-is_running))
        over_lem.0 (cancel-Step (cancel broken 2) 1 refl broken-is_running))
      over_lem.1 (cancel-Step (cancel (cancel broken 2) 1) 0 refl broken-is_running)

finish_run-Reach_example :
    (finish_run over.loop.pd.user
      ≡ some (result_of over.loop.pd.user.state over.loop.pd.user.count))
    × (over.in_flight ≡ 0)
finish_run-Reach_example =
    finish_run-Reach 8 (started first) over
      (start_run-IsLive "LIBUSB_SUCCESS" 1 accepted accepted fresh ops-fresh fresh-is_fatal)
      over-Reach over_lem.2

-- The broken loop, as it is after the step.
broken-IsLive : IsLive broken
unfolding cha_loop_break start_run submit_all cha_loop_init frame_decoder_init packet_decoder_init
broken-IsLive = record {
  ops_are = refl;
  flights = refl;
  few = omega arith;
  ended = refl;
  busy = λ on. absurd (cc);
}

complete_all-IsOver_example : IsOver broken.loop (
    complete_all 8
      ((completed (1 ∷ 2 ∷ 3 ∷ []), accepted)
        ∷ (errored "LIBUSB_TRANSFER_STALL", accepted)
        ∷ (cancelled, accepted)
        ∷ [])
      broken.loop)
complete_all-IsOver_example =
    complete_all-IsOver 8
      ((completed (1 ∷ 2 ∷ 3 ∷ []), accepted)
        ∷ (errored "LIBUSB_TRANSFER_STALL", accepted)
        ∷ (cancelled, accepted)
        ∷ [])
      broken broken-IsLive (omega (arith, first-flights)) (sym first-flights) broken-is_running

-- Three packets of one byte.
abbrev one_byte : ℕ → Packet
one_byte b = record { magic = 0xa0; flags = 0; size = 1; timestamp = 0; bytes = b ∷ [] }

abbrev three_packets : List Packet
three_packets = one_byte 1 ∷ one_byte 2 ∷ one_byte 3 ∷ []

abbrev counting : Control Log
counting = record old_control { max_count = 1; active_transfers = 3 }

-- The log has the newest packet first: two packets for a limit of one.
two_delivered :
    (deliver_all three_packets (calling logging counting)).user_data ≡ (2 ∷ []) ∷ (1 ∷ []) ∷ []
unfolding deliver_all cha_loop_packet_callback call_user called captured_size cha_loop_break
two_delivered = refl

-- An object with room for every packet.
roomy : Bytes
roomy = replicate room_needed 0

length-roomy : room_needed ≤ length roomy
unfolding roomy
length-roomy = le_of_eq (sym (length-replicate {A = ℕ} room_needed 0))

abbrev ready : Loop Log
ready = start_run "LIBUSB_SUCCESS" 1 all_accepted (
    cha_loop_init old_loop (record { magic = 0; flags = 0; size = 0; timestamp = 0; bytes = roomy })
      8203 (some logging) [])

ready-FrameIsValid : FrameIsValid ready
unfolding start_run submit_all cha_loop_init frame_decoder_init packet_decoder_init
ready-FrameIsValid = ground arith

ready-HasRoom : HasRoom ready.pd
unfolding start_run submit_all cha_loop_init frame_decoder_init packet_decoder_init
ready-HasRoom = record { valid = ready-FrameIsValid.packet_valid; sized = tt; room = length-roomy }

cha_loop_transfer_callback-TurnIsSafe_example :
    TurnIsSafe (cha_loop_transfer_callback 512 (completed received_bytes) accepted ready)
cha_loop_transfer_callback-TurnIsSafe_example =
    cha_loop_transfer_callback-TurnIsSafe 512 (completed received_bytes) accepted ready
      (omega arith) (omega arith) tt (λ on. (ready-FrameIsValid, ready-HasRoom))

abbrev one_sent : ℕ → Sent
one_sent b = record {
  magic = 0xa0;
  flags = 0;
  size = 1;
  ts_length = 1;
  ticks = 0xba;
  payload = b ∷ [];
}

abbrev three_sent : List Sent
three_sent = one_sent 1 ∷ one_sent 2 ∷ one_sent 3 ∷ []

abbrev three_frames : List Bytes
three_frames =
    (0xa0 ∷ 0 ∷ 1 ∷ 0 ∷ 0xba ∷ 1 ∷ [])
    ∷ (0xa0 ∷ 0 ∷ 1 ∷ 0 ∷ 0xba ∷ 2 ∷ [])
    ∷ (0xa0 ∷ 0 ∷ 1 ∷ 0 ∷ 0xba ∷ 3 ∷ [])
    ∷ []

abbrev limited : Loop Log
limited = record old_loop {
  pd = packet_decoder_init (blank 8) 20 loop_ops (calling logging counting);
}

limited-user : limited.pd.user ≡ calling logging counting
unfolding packet_decoder_init
limited-user = refl

limited-ops : limited.pd.ops ≡ loop_ops
unfolding packet_decoder_init
limited-ops = refl

limited-state : limited.pd.state ≡ need_packet_magic
unfolding packet_decoder_init
limited-state = refl

limited-FrameIsValid : FrameIsValid limited
unfolding packet_decoder_init
limited-FrameIsValid = ground arith

three-AreSent : AreSent (length limited.pd.packet.bytes) three_sent
unfolding packet_decoder_init
three-AreSent = ground arith

frame_decoder_proc-limit_example :
    Leaves
      (IsLimited logging (packets_of limited.pd three_sent) [] 1)
      (frame_decoder_proc limited (framed three_frames))
frame_decoder_proc-limit_example =
    frame_decoder_proc-limit logging counting limited three_sent three_frames limited-user
      limited-ops refl limited-state limited-FrameIsValid three-AreSent (omega arith) refl
      (λ p v. refl) (refl, (refl, (refl, tt))) (omega arith) (omega arith) refl

-- The program's limit was reached, and a second call asks for more packets.
abbrev ended_loop : Loop Log
ended_loop = record old_loop {
  pd =
      packet_decoder_init (blank 8) 20 loop_ops
        (record old_control { callback = some logging; state = count_limit; complete = true });
}

ended-states :
    (is_fatal ended_loop.pd.user.state ≡ false) × (is_running ended_loop.pd.user.state ≡ false)
unfolding packet_decoder_init
ended-states = (refl, refl)

Ran-IsStill_example :
    IsStill ended_loop.pd.user.user_data (broken_off (submitted 100 ended_loop)).loop
Ran-IsStill_example =
    Ran-IsStill ended-states.0 ended-states.1
      (broken_off-Ran 512 "LIBUSB_SUCCESS" 100 ended_loop ended-states.0)
