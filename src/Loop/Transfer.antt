-- ===== src/Loop/Transfer.antt =====
-- cha_loop_transfer_callback of src/cha.c: what libusb calls when a transfer is completed.
use libopenvizsla.Prelude.{
  ℕ, zero, suc, ◌+◌, ◌-◌, ◌%◌, ◌^◌, min, ltb, ◌==◌, Bool, true, false, if◌then◌else◌, Option, some,
  [], ◌∷◌, Bytes, String, length, take, drop,
}
use libopenvizsla.Decoder.State.{
  FrameDecoder, Outcome, done, failed, fault, Fault, is_negative, out_of_fuel,
}
use libopenvizsla.Decoder.Frame.{frame_decoder_proc}
use libopenvizsla.Loop.State.{fatal_error, is_running, Control, Loop, with_control}

-- `transfer->status`, with the bytes of a transfer that is completed; the name of an error.
pub data Status : Type 0 where
  completed : Bytes → Status
  cancelled : Status
  errored : String → Status

-- What libusb_submit_transfer answers; a call that was interrupted is made again and changes
-- nothing, so this is the first answer of another kind.
pub data Submitted : Type 0 where
  accepted : Submitted
  rejected : String → Submitted

-- The callback returns, with whether the transfer was submitted again; or the decoder does what is
-- undefined.
pub data Turn (V : Type 0) : Type 0 where
  turned : Bool → Loop V → Turn V
  crashed : Fault → Turn V

module _ {V : Type 0} where
  abbrev pub fatal : Option String → Loop V → Loop V
  fatal message = with_control (λ c. record c { state = fatal_error; error_str = message })

  -- `loop->complete = !(--loop->active_transfers)`
  abbrev pub release_control : Control V → Control V
  release_control c =
      let left = (c.active_transfers + 2 ^ 64 - 1) % 2 ^ 64 in
      record c { active_transfers = left; complete = left == 0 }

  unfoldable pub release : Loop V → Turn V
  release loop = turned false (with_control release_control loop)

  -- Behind the call of the decoder.
  abbrev pub decoded_by : Outcome (FrameDecoder (Control V)) → (Loop V → Turn V) → Turn V
  decoded_by (done n loop) next =
      if is_negative n then next (fatal loop.pd.error_str loop) else next loop
  decoded_by (failed loop) next = next (fatal loop.pd.error_str loop)
  decoded_by (fault w) next = crashed w

  -- One USB packet: the FTDI header of two bytes is skipped.
  unfoldable pub decode_packet : Bytes → Loop V → (Loop V → Turn V) → Turn V
  decode_packet packet loop next =
      if ltb 2 (length packet)
      then decoded_by (frame_decoder_proc loop (drop 2 packet)) next
      else next loop

  -- The loop over the USB packets of a transfer, of at most `size` bytes each, on what is left of
  -- the buffer.
  unfoldable pub packets_loop : ℕ → ℕ → Bytes → Loop V → (Loop V → Turn V) → Turn V
  unfolding decode_packet
  packets_loop fuel size [] loop next = next loop
  packets_loop zero size (b ∷ bs) loop next =
      if is_running loop.pd.user.state then crashed out_of_fuel else next loop
  packets_loop (suc fuel) size (b ∷ bs) loop next =
      let n = min (length (b ∷ bs)) size in
      let more =
        decode_packet (take n (b ∷ bs)) loop
          (λ l. packets_loop fuel size (drop n (b ∷ bs)) l next) in
      if is_running loop.pd.user.state then more else next loop

  unfoldable pub submit_answer : Submitted → Loop V → Turn V
  unfolding release
  submit_answer accepted loop = turned true loop
  submit_answer (rejected name) loop = release (fatal (some name) loop)

  -- Behind the loop over the packets: a loop that is still running submits the transfer again.
  unfoldable pub submit_again : Submitted → Loop V → Turn V
  unfolding submit_answer release
  submit_again answer loop =
      if is_running loop.pd.user.state then submit_answer answer loop else release loop

  -- `size` is `ftdi->max_packet_size`.
  unfoldable pub cha_loop_transfer_callback : ℕ → Status → Submitted → Loop V → Turn V
  unfolding packets_loop submit_again release
  cha_loop_transfer_callback size (completed buf) answer loop =
      packets_loop (length buf) size buf loop (submit_again answer)
  cha_loop_transfer_callback size cancelled answer loop = release loop
  cha_loop_transfer_callback size (errored name) answer loop = release (fatal (some name) loop)
