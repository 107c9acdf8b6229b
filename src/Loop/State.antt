-- ===== src/Loop/State.antt =====
-- `struct cha_loop` of include/cha.h.
use libopenvizsla.Prelude.{ℕ, Bool, true, false, Option, String}
use libopenvizsla.Decoder.State.{Packet, FrameDecoder}
use libopenvizsla.Reg.State.{Reg}

-- `enum cha_loop_state`
pub data LoopState : Type 0 where
  running fatal_error break_loop count_limit end_of_stream host_read_off : LoopState

abbrev pub is_running : LoopState → Bool
is_running running = true
is_running _ = false

abbrev pub is_fatal : LoopState → Bool
is_fatal fatal_error = true
is_fatal _ = false

-- The loop without its decoder and its transfers, and of the `cha` it points to the register map
-- and the message. A callback returns the object behind `user_data` as it leaves it, and whether it
-- called cha_loop_break. `count` is an `int`, by its 32 bits. For `max_count`
-- 0 stands for every number that is not positive.
pub record Control (V : Type 0) : Type 0 where
  pub reg : Reg
  pub error_str : Option String
  pub callback : Option (Packet → V → V × Bool)
  pub user_data : V
  pub count : ℕ
  pub max_count : ℕ
  pub state : LoopState
  pub active_transfers : ℕ
  pub complete : Bool

-- `user_data` of the decoder points back to the loop: the loop is the object of its decoder.
abbrev pub Loop : Type 0 → Type 0
Loop V = FrameDecoder (Control V)

module _ {V : Type 0} where
  abbrev pub with_control : (Control V → Control V) → Loop V → Loop V
  with_control f loop = record loop { pd = record (loop.pd) { user = f loop.pd.user } }

  abbrev pub enter : LoopState → Control V → Control V
  enter s c = record c { state = s }
