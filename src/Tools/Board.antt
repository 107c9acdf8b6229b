-- ===== src/Tools/Board.antt =====
-- A simulated OpenVizsla board, on which the programs under tools/ run: the FPGA of Cha/Sim on port A,
-- and on port B pins that are read one after another.
use libopenvizsla.Prelude.{
  ℕ, ◌==◌, ◌%◌, ◌^◌, true, if◌then◌else◌, some, List, [], ◌∷◌, Bytes, length,
}
use libopenvizsla.Ftdi.{Ftdi}
use libopenvizsla.Cha.Sim.{Fpga, react}

pub record Chip : Type 0 where
  pub fpga : Fpga
  pub pins : List ℕ

abbrev pub next_pins : List ℕ → ℕ
next_pins [] = 0xff
next_pins (p ∷ ps) = p

abbrev pub later_pins : List ℕ → List ℕ
later_pins [] = []
later_pins (p ∷ ps) = ps

abbrev pub read_chip : ℕ → Chip → Bytes × Chip
read_chip n chip =
    if n == 1
    then (next_pins chip.pins ∷ [], record chip { pins = later_pins chip.pins })
    else (chip.fpga.pending, record chip { fpga = record (chip.fpga) { pending = [] } })

-- The transceiver clears the upper bit of a command, which says that it is not done.
abbrev pub settled : Fpga → Fpga
settled f = record f { registers = λ r. f.registers r % 2 ^ 7 }

-- The board whose port B reads as `pins` first.
abbrev pub board : List ℕ → Ftdi
board pins = record {
  Context = Chip;
  zeroed = record { fpga = record { registers = λ a. 0; pending = [] }; pins = pins };
  init = λ c. (true, c);
  set_interface = λ i c. (true, c);
  deinit = λ c. c;
  usb_open = λ v p c. (true, c);
  usb_reset = λ c. (true, c);
  usb_close = λ c. c;
  set_event_char = λ e x c. (true, c);
  set_error_char = λ e x c. (true, c);
  setflowctrl = λ m c. (true, c);
  set_bitmode = λ b m c. (true, c);
  set_baudrate = λ b c. (true, c);
  tcioflush = λ c. (true, c);
  write_data = λ d c. (some (length d), record c { fpga = settled (react d c.fpga) });
  read_data = λ n c. let (bytes, c') = read_chip n c in (some bytes, c');
  Transfer = Unit {0};
  write_data_submit = λ d c. (some tt, c);
  transfer_data_done = λ t c. (true, c);
  get_error_string = λ c. "libftdi failed";
  sio_rts_cts_hs = 0x100;
  bitmode_reset = 0;
  bitmode_mpsse = 2;
  bitmode_bitbang = 1;
  bitmode_syncff = 0x40;
  tck_divisor = 0x86;
  set_bits_low = 0x80;
  set_bits_high = 0x82;
  get_bits_low = 0x81;
  get_bits_high = 0x83;
  interface_a = 1;
  interface_b = 2;
}
