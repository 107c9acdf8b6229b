-- ===== src/Ftdi.antt =====
-- What src/cha.c, src/chb.c and src/bit.c call of libftdi: parameters, since that library is not
-- part of the repository.
pub mod Steady
use libopenvizsla.Prelude.{ℕ, Bool, true, false, Option, none, some, String, Bytes}

-- `struct ftdi_context` with the device behind it is a value of `Context`. A call gives whether its
-- result is not negative, and the context behind it. `write_data` gives the number of bytes written
-- and `read_data` the bytes read, at most as many as asked for, where their result is not negative;
-- `write_data_submit` gives none for a null pointer. The numbers are libftdi's constants.
pub record Ftdi : Type 1 where
  pub Context : Type 0
  pub zeroed : Context
  pub init : Context → Bool × Context
  pub set_interface : ℕ → Context → Bool × Context
  pub deinit : Context → Context
  pub usb_open : ℕ → ℕ → Context → Bool × Context
  pub usb_reset : Context → Bool × Context
  pub usb_close : Context → Context
  pub set_event_char : ℕ → ℕ → Context → Bool × Context
  pub set_error_char : ℕ → ℕ → Context → Bool × Context
  pub setflowctrl : ℕ → Context → Bool × Context
  pub set_bitmode : ℕ → ℕ → Context → Bool × Context
  pub set_baudrate : ℕ → Context → Bool × Context
  pub tcioflush : Context → Bool × Context
  pub write_data : Bytes → Context → Option ℕ × Context
  pub read_data : ℕ → Context → Option Bytes × Context
  pub Transfer : Type 0
  pub write_data_submit : Bytes → Context → Option Transfer × Context
  pub transfer_data_done : Transfer → Context → Bool × Context
  pub get_error_string : Context → String
  pub sio_rts_cts_hs : ℕ
  pub bitmode_reset : ℕ
  pub bitmode_mpsse : ℕ
  pub bitmode_bitbang : ℕ
  pub bitmode_syncff : ℕ
  pub tck_divisor : ℕ
  pub set_bits_low : ℕ
  pub set_bits_high : ℕ
  pub get_bits_low : ℕ
  pub get_bits_high : ℕ
  pub interface_a : ℕ
  pub interface_b : ℕ

-- Whether a call with a result is not negative, or not null.
abbrev pub is_given {ℓ} : {A : Type ℓ} → Option A → Bool
is_given none = false
is_given (some a) = true

abbrev pub given {ℓ κ} : {A : Type ℓ} {C : Type κ} → Option A × C → Bool × C
given (a, ctx) = (is_given a, ctx)
