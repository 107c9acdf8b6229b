-- ===== src/Ftdi/Steady.antt =====
-- A libftdi on which code runs: every call succeeds, and what is written is kept.
use libopenvizsla.Prelude.{ℕ, Bool, true, false, some, [], ◌∷◌, ◌++◌, Bytes, length}
use libopenvizsla.Ftdi.{Ftdi}

-- Whether the device is open, and the bytes written to it.
pub record Line : Type 0 where
  pub opened : Bool
  pub written : Bytes

-- Every call succeeds; port B reads as `pins`.
abbrev pub steady : ℕ → Ftdi
steady pins = record {
  Context = Line;
  zeroed = record { opened = false; written = [] };
  init = λ line. (true, line);
  set_interface = λ i line. (true, line);
  deinit = λ line. line;
  usb_open = λ v p line. (true, record line { opened = true });
  usb_reset = λ line. (true, line);
  usb_close = λ line. record line { opened = false };
  set_event_char = λ c e line. (true, line);
  set_error_char = λ c e line. (true, line);
  setflowctrl = λ f line. (true, line);
  set_bitmode = λ b m line. (true, line);
  set_baudrate = λ b line. (true, line);
  tcioflush = λ line. (true, line);
  write_data = λ d line. (some (length d), record line { written = line.written ++ d });
  read_data = λ n line. (some (pins ∷ []), line);
  Transfer = Unit {0};
  write_data_submit = λ d line. (some tt, record line { written = line.written ++ d });
  transfer_data_done = λ t line. (true, line);
  get_error_string = λ line. "libftdi failed";
  sio_rts_cts_hs = 0x100;
  bitmode_reset = 0;
  bitmode_mpsse = 2;
  bitmode_bitbang = 1;
  bitmode_syncff = 0x40;
  tck_divisor = 0x86;
  set_bits_low = 0x80;
  set_bits_high = 0x82;
  get_bits_low = 0x81;
  get_bits_high = 0x83;
  interface_a = 1;
  interface_b = 2;
}
