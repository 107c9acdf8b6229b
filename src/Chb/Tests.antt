-- ===== src/Chb/Tests.antt =====
-- Runs of src/chb.c, and instances of what is proved of it.
use libopenvizsla.Prelude.{ℕ, false, ◌≡◌, refl, none, [], ◌∷◌, Bytes}
use libopenvizsla.Ftdi.Steady.{steady}
use libopenvizsla.Chb.Port.{Chb, Ret, succeeded, failed, chb_open, chb_switch_program_mode}
use libopenvizsla.Chb.Open.{Documented, IsOpened, chb_open-IsOpened}
use libopenvizsla.Chb.Program.{IsLow, chb_switch_program_mode-IsLow}

abbrev steady_documented : (pins : ℕ) → Documented (steady pins)
steady_documented pins = record {
  is_open = λ line. line.opened;
  open_done = λ v p line h. refl;
  close_done = λ line. refl;
  reset_keeps = λ line. refl;
  event_keeps = λ c e line. refl;
  error_keeps = λ c e line. refl;
  flowctrl_keeps = λ f line. refl;
  bitmode_keeps = λ b m line. refl;
  write_keeps = λ d line. refl;
}

abbrev closed : (pins : ℕ) → Chb (steady pins)
closed pins = record { ftdi = record { opened = false; written = [] }; error_str = none }

abbrev sent : (pins : ℕ) → Ret (steady pins) → Bytes
sent pins (succeeded chb) = chb.ftdi.written
sent pins (failed chb) = []

-- The bytes that chb_open writes.
open_bytes : sent 0 (chb_open (steady 0) (closed 0)) ≡ 0x86 ∷ 0 ∷ 0 ∷ 0x80 ∷ 8 ∷ 0x0b ∷ []
unfolding chb_open
open_bytes = refl

chb_open-IsOpened_example :
    IsOpened (steady 0) (steady_documented 0) (chb_open (steady 0) (closed 0))
chb_open-IsOpened_example = chb_open-IsOpened (steady 0) (steady_documented 0) (closed 0) refl

chb_switch_program_mode-IsLow_example :
    IsLow (steady 0x20) (chb_switch_program_mode (steady 0x20) (closed 0x20))
chb_switch_program_mode-IsLow_example = chb_switch_program_mode-IsLow (steady 0x20) (closed 0x20)
