-- ===== src/Loop/Run.antt =====
-- cha_loop_init and cha_loop_run of src/cha.c, and the steps of libusb and the program around them.
use libopenvizsla.Prelude.{
  ℕ, suc, ◌+◌, ◌≡◌, ◌==◌, Bool, false, not, if◌then◌else◌, Option, none, some, String, List, [],
  ◌∷◌,
}
use libopenvizsla.Decoder.State.{Packet, frame_decoder_init}
use libopenvizsla.Loop.State.{
  LoopState, running, count_limit, is_running, is_fatal, Control, Loop, with_control,
}
use libopenvizsla.Loop.Callbacks.{cha_loop_break, loop_ops}
use libopenvizsla.Loop.Transfer.{
  Status, cancelled, Submitted, accepted, rejected, turned, fatal, cha_loop_transfer_callback,
}

-- `sizeof(loop->transfer) / sizeof(loop->transfer[0])`
abbrev pub transfers : ℕ
transfers = 3

-- What cha_loop_run returns: the count, by its 32 bits, or the number of a state with its sign changed.
pub data Returned : Type 0 where
  counted : ℕ → Returned
  ended : LoopState → Returned

abbrev pub result_of : LoopState → ℕ → Returned
result_of count_limit count = counted count
result_of s count = ended s

-- The loop, and how many of its transfers libusb has.
pub record Config (V : Type 0) : Type 0 where
  pub loop : Loop V
  pub in_flight : ℕ

module _ {V : Type 0} where
  -- Allocations succeed. The loop object `loop` is the caller's.
  unfoldable pub cha_loop_init : Loop V → Packet → ℕ → Option (Packet → V → V × Bool) → V → Loop V
  unfolding frame_decoder_init
  cha_loop_init loop packet packet_size callback user_data =
      frame_decoder_init loop packet packet_size loop_ops
        (record (loop.pd.user) { callback = callback; user_data = user_data; state = running })

  abbrev pub one_more : Control V → Control V
  one_more c = record c { active_transfers = c.active_transfers + 1 }

  -- The `for` loop, with the answers to the submissions that are left. The message of a failure is
  -- the name of the code 0, since `ret` does not get the answer.
  unfoldable pub submit_all : String → List Submitted → Loop V → Loop V
  submit_all no_error [] loop = loop
  submit_all no_error (accepted ∷ answers) loop =
      submit_all no_error answers (with_control one_more loop)
  submit_all no_error (rejected name ∷ answers) loop = fatal (some no_error) loop

  abbrev pub start_control : ℕ → Control V → Control V
  start_control count c = record c {
    count = 0;
    max_count = count;
    complete = false;
    active_transfers = 0;
  }

  -- cha_loop_run up to its `do` loop. A fatal loop returns before it submits anything.
  unfoldable pub start_run : String → ℕ → List Submitted → Loop V → Loop V
  unfolding submit_all
  start_run no_error count answers loop =
      let started = submit_all no_error answers (with_control (start_control count) loop) in
      if is_fatal loop.pd.user.state
      then with_control (λ c. record c { count = 0; max_count = count; complete = false }) loop
      else started

  abbrev pub after_turn : Bool → Loop V → ℕ → Config V
  after_turn again loop others = record {
    loop = loop;
    in_flight = if again then suc others else others;
  }

  -- libusb reports a transfer as cancelled only when it was asked to cancel it, which the code does
  -- when the loop is no longer running.
  abbrev pub IsAllowed : Status → Control V → Type 0
  IsAllowed cancelled c = is_running c.state ≡ false
  IsAllowed _ c = Unit

  -- One thing that happens while cha_loop_run waits: libusb completes one of the transfers that it
  -- has, in whatever way; libusb_handle_events_timeout_completed fails; the program calls
  -- cha_loop_break.
  pub data Step (size : ℕ) : Config V → Config V → Type 0 where
    complete_one :
        {c : Config V} {again : Bool} {loop' : Loop V} (others : ℕ) (status : Status)
        (answer : Submitted)
        → c.in_flight ≡ suc others
        → IsAllowed status c.loop.pd.user
        → cha_loop_transfer_callback size status answer c.loop ≡ turned again loop'
        → Step size c (after_turn again loop' others)
    handle_error :
        {c : Config V} (name : String) → Step size c (record c { loop = fatal (some name) c.loop })
    break_off :
        {c : Config V} → Step size c (record c { loop = with_control cha_loop_break c.loop })

  -- `while (!loop->complete)`: nothing happens behind the last transfer.
  pub data Reach (size : ℕ) (c : Config V) : Config V → Type 0 where
    here : Reach size c c
    step :
        {d e : Config V}
        → Reach size c d
        → d.loop.pd.user.complete ≡ false
        → Step size d e
        → Reach size c e

  -- cha_loop_run behind its `do` loop; `none` is a failed `assert`.
  unfoldable pub finish_run : Control V → Option Returned
  finish_run c =
      if is_running c.state
      then none
      else if not (c.active_transfers == 0)
      then none
      else some (result_of c.state c.count)
