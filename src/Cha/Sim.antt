-- ===== src/Cha/Sim.antt =====
-- A simulated FPGA behind a simulated FTDI chip, on which the functions of src/cha.c run.
use libopenvizsla.Prelude.{
  ℕ, ◌+◌, ◌*◌, ◌/◌, ◌%◌, ◌^◌, ◌<◌, leb, ◌==◌, ◌≡◌, refl, Bool, true, false, if◌then◌else◌, some, [],
  Bytes, length, get_or, arith,
}
use libopenvizsla.Ftdi.{Ftdi}
use libopenvizsla.Cha.Message.{message}
use libopenvizsla.Cha.Device.{Device, exchange}

-- The registers, and the answer that waits to be read.
pub record Fpga : Type 0 where
  pub registers : ℕ → ℕ
  pub pending : Bytes

abbrev pub update : (ℕ → ℕ) → ℕ → ℕ → ℕ → ℕ
update f a v r = if r == a then v else f r

-- The address of a message, and whether it asks for a write.
abbrev pub address : Bytes → ℕ
address msg = get_or msg 1 0 % 2 ^ 7 * 2 ^ 8 + get_or msg 2 0

abbrev pub is_write : Bytes → Bool
is_write msg = leb (2 ^ 7) (get_or msg 1 0)

abbrev pub react : Bytes → Fpga → Fpga
react msg fpga =
    if is_write msg
    then record { registers = update fpga.registers (address msg) (get_or msg 3 0); pending = msg }
    else record fpga { pending = message (address msg) (fpga.registers (address msg) % 2 ^ 8) }

abbrev pub sim : Ftdi
sim = record {
  Context = Fpga;
  zeroed = record { registers = λ a. 0; pending = [] };
  init = λ f. (true, f);
  set_interface = λ i f. (true, f);
  deinit = λ f. f;
  usb_open = λ v p f. (true, f);
  usb_reset = λ f. (true, f);
  usb_close = λ f. f;
  set_event_char = λ c e f. (true, f);
  set_error_char = λ c e f. (true, f);
  setflowctrl = λ m f. (true, f);
  set_bitmode = λ b m f. (true, f);
  set_baudrate = λ b f. (true, f);
  tcioflush = λ f. (true, f);
  write_data = λ d f. (some (length d), react d f);
  read_data = λ n f. (some f.pending, record f { pending = [] });
  Transfer = Unit {0};
  write_data_submit = λ d f. (some tt, f);
  transfer_data_done = λ t f. (true, f);
  get_error_string = λ f. "libftdi failed";
  sio_rts_cts_hs = 0x100;
  bitmode_reset = 0;
  bitmode_mpsse = 2;
  bitmode_bitbang = 1;
  bitmode_syncff = 0x40;
  tck_divisor = 0x86;
  set_bits_low = 0x80;
  set_bits_high = 0x82;
  get_bits_low = 0x81;
  get_bits_high = 0x83;
  interface_a = 1;
  interface_b = 2;
}

abbrev pub sim_stored : ℕ → ℕ → Fpga → Fpga
sim_stored a v f = record { registers = update f.registers a v; pending = [] }

pub store_answer :
    (a v : ℕ) (f : Fpga)
    → a < 2 ^ 15
    → exchange sim 1 (message (a + 2 ^ 15) v) f ≡ some (message (a + 2 ^ 15) v, sim_stored a v f)
unfolding exchange message
store_answer a v f h =
    let w : leb (2 ^ 7) ((a + 2 ^ 15) / 2 ^ 8) ≡ true = ground arith in
    let e : (a + 2 ^ 15) / 2 ^ 8 % 2 ^ 7 * 2 ^ 8 + (a + 2 ^ 15) % 2 ^ 8 ≡ a = omega arith in
    rw (w, e)

pub fetch_answer :
    (a : ℕ) (f : Fpga)
    → a < 2 ^ 15
    → exchange sim 1 (message a 0) f
      ≡ some (message a (f.registers a % 2 ^ 8), record f { pending = [] })
unfolding exchange message
fetch_answer a f h =
    let w : leb (2 ^ 7) (a / 2 ^ 8) ≡ false = ground arith in
    let e : a / 2 ^ 8 % 2 ^ 7 * 2 ^ 8 + a % 2 ^ 8 ≡ a = omega arith in rw (w, e)

pub peek-stored :
    (a v r : ℕ) (f : Fpga)
    → v < 2 ^ 8
    → update f.registers a v r % 2 ^ 8 ≡ (if r == a then v else f.registers r % 2 ^ 8)
peek-stored a v r f h = ground arith

abbrev pub sim_device : Device sim 1
sim_device = record {
  IsIdle = λ f. Unit;
  IsPlain = λ r. Unit;
  peek = λ f r. f.registers r % 2 ^ 8;
  stored = sim_stored;
  fetched = λ a f. record f { pending = [] };
  store_answer = λ a v f h k idle. store_answer a v f h;
  fetch_answer = λ a f h idle. fetch_answer a f h;
  stored-IsIdle = λ a v f idle. tt;
  fetched-IsIdle = λ a f idle. tt;
  peek-lt = λ f a. omega arith;
  peek-stored = λ a v r f h plain. peek-stored a v r f h;
  peek-fetched = λ a r f plain. refl;
}
