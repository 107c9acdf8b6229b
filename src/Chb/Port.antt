-- ===== src/Chb/Port.antt =====
-- The functions of src/chb.c.
use libopenvizsla.Prelude.{
  ℕ, zero, suc, ◌/◌, ◌^◌, bit_and, bit_or, ◌==◌, Bool, not, if◌then◌else◌, Option, none, some, List,
  [], ◌∷◌, String, Bytes, get_or,
}
use libopenvizsla.Ftdi.{Ftdi, given}

abbrev ov_vendor : ℕ
ov_vendor = 0x1d50

abbrev ov_product : ℕ
ov_product = 0x607c

abbrev portb_tck_bit : ℕ
portb_tck_bit = 2 ^ 0

abbrev portb_tdi_bit : ℕ
portb_tdi_bit = 2 ^ 1

abbrev portb_tms_bit : ℕ
portb_tms_bit = 2 ^ 3

abbrev portb_csi_bit : ℕ
portb_csi_bit = 2 ^ 0

abbrev portb_rdwr_bit : ℕ
portb_rdwr_bit = 2 ^ 1

abbrev portb_done_bit : ℕ
portb_done_bit = 2 ^ 2

abbrev portb_prog_bit : ℕ
portb_prog_bit = 2 ^ 3

abbrev portb_m0_bit : ℕ
portb_m0_bit = 2 ^ 6

abbrev portb_m1_bit : ℕ
portb_m1_bit = 2 ^ 7

-- `status & PORTB_DONE_BIT`
abbrev pub is_done : ℕ → Bool
is_done status = not (bit_and status portb_done_bit == 0)

module _ (lib : Ftdi) where
  pub record Chb : Type 0 where
    pub ftdi : lib.Context
    pub error_str : Option String

  -- `return 0` and `return -1`
  pub data Ret : Type 0 where
    succeeded : Chb → Ret
    failed : Chb → Ret

  abbrev pub and_then : Ret → (Chb → Ret) → Ret
  and_then (succeeded chb) next = next chb
  and_then (failed chb) next = failed chb

  -- A call of libftdi, whose message is taken when it fails.
  abbrev pub call : Chb → Bool × lib.Context → Ret
  call chb (ok, ctx) =
      if ok
      then succeeded (record chb { ftdi = ctx })
      else failed (record chb { ftdi = ctx; error_str = some (lib.get_error_string ctx) })

  abbrev pub chb_set : ℕ → ℕ → ℕ → Chb → Ret
  chb_set cmd val mask chb = call chb (given (lib.write_data (cmd ∷ val ∷ mask ∷ []) chb.ftdi))

  abbrev pub chb_tck_divisor : ℕ → Chb → Ret
  chb_tck_divisor value = chb_set lib.tck_divisor (bit_and value 0xff) (value / 2 ^ 8)

  abbrev pub chb_set_low : ℕ → Chb → Ret
  chb_set_low val =
      chb_set lib.set_bits_low val (bit_or (bit_or portb_tck_bit portb_tdi_bit) portb_tms_bit)

  abbrev pub chb_set_high : ℕ → Chb → Ret
  chb_set_high val = chb_set lib.set_bits_high val (
      bit_or (bit_or (bit_or (bit_or portb_csi_bit portb_rdwr_bit) portb_m1_bit) portb_prog_bit)
        portb_m0_bit)

  abbrev pub request : (lib.Context → Bool × lib.Context) → Chb → Ret
  request f chb = call chb (f chb.ftdi)

  -- The steps one after the other, up to the first that fails.
  abbrev pub run : List (Chb → Ret) → Chb → Ret
  run [] chb = succeeded chb
  run (step ∷ steps) chb = and_then (step chb) (run steps)

  -- The calls behind `ftdi_usb_open`.
  abbrev pub open_steps : List (Chb → Ret)
  open_steps =
      (request lib.usb_reset
        ∷ request (lib.set_event_char 0 0)
        ∷ request (lib.set_error_char 0 0)
        ∷ request (lib.setflowctrl lib.sio_rts_cts_hs)
        ∷ request (lib.set_bitmode 0 lib.bitmode_reset)
        ∷ request (lib.set_bitmode 0 lib.bitmode_mpsse)
        ∷ chb_tck_divisor 0
        ∷ chb_set_low portb_tms_bit
        ∷ [])

  unfoldable pub configure : Chb → Ret
  configure = run open_steps

  -- The label `fail_ftdi_usb_reset`.
  abbrev pub close_on_failure : Ret → Ret
  close_on_failure (succeeded chb) = succeeded chb
  close_on_failure (failed chb) = failed (record chb { ftdi = lib.usb_close chb.ftdi })

  unfoldable pub chb_open : Chb → Ret
  unfolding configure
  chb_open chb =
      and_then (call chb (lib.usb_open ov_vendor ov_product chb.ftdi))
        (λ chb0. close_on_failure (configure chb0))

  -- `*val` and 0, or -1.
  pub data Got : Type 0 where
    read : ℕ → Chb → Got
    not_read : Chb → Got

  -- The bytes read are stored at `val`: none of them leaves `*val` as it was.
  abbrev pub read_answer : ℕ → Chb → Option Bytes × lib.Context → Got
  read_answer val chb (some bytes, ctx) = read (get_or bytes 0 val) (record chb { ftdi = ctx })
  read_answer val chb (none, ctx) =
      not_read (record chb { ftdi = ctx; error_str = some (lib.get_error_string ctx) })

  abbrev pub then_read : ℕ → Ret → Got
  then_read val (succeeded chb) = read_answer val chb (lib.read_data 1 chb.ftdi)
  then_read val (failed chb) = not_read chb

  unfoldable pub chb_get : ℕ → ℕ → Chb → Got
  chb_get val cmd chb = then_read val (call chb (given (lib.write_data (cmd ∷ []) chb.ftdi)))

  abbrev pub chb_get_high : ℕ → Chb → Got
  unfolding chb_get
  chb_get_high val = chb_get val lib.get_bits_high

  -- What follows a read in the loop; `poll` is the loop with one try less.
  abbrev pub polled : (ℕ → Chb → Ret) → Got → Ret
  polled poll (read status chb) = if is_done status then poll status chb else succeeded chb
  polled poll (not_read chb) = failed chb

  -- The loop over `try` and the two tests behind it. Waiting changes nothing.
  unfoldable pub wait_not_done : ℕ → ℕ → Chb → Ret
  unfolding chb_get
  wait_not_done zero status chb =
      if is_done status
      then failed
          (record chb { error_str = some "done bit stuck high after going into programming mode" })
      else succeeded chb
  wait_not_done (suc try) status chb = polled (wait_not_done try) (chb_get_high status chb)

  unfoldable pub chb_switch_program_mode : Chb → Ret
  unfolding wait_not_done
  chb_switch_program_mode chb0 =
      and_then
        (chb_set_high
          (bit_or (bit_or (bit_or portb_csi_bit portb_rdwr_bit) portb_prog_bit) portb_m1_bit) chb0)
        (λ chb1. and_then (chb_set_high (bit_or portb_csi_bit portb_m1_bit) chb1) (λ chb2.
          and_then (chb_set_high (bit_or portb_prog_bit portb_m1_bit) chb2) (wait_not_done 3 0)))

  -- What `memset` leaves of the object.
  abbrev pub cleared : Chb
  cleared = record { ftdi = lib.zeroed; error_str = none }

  -- The label `fail_ftdi_set_interface`.
  abbrev pub deinit_on_failure : Ret → Ret
  deinit_on_failure (succeeded chb) = succeeded chb
  deinit_on_failure (failed chb) = failed (record chb { ftdi = lib.deinit chb.ftdi })

  unfoldable pub chb_init : Ret
  chb_init =
      and_then (request lib.init cleared)
        (λ chb. deinit_on_failure (request (lib.set_interface lib.interface_b) chb))

  unfoldable pub chb_destroy : Chb → Chb
  chb_destroy chb = record chb { ftdi = lib.deinit chb.ftdi }

  unfoldable pub chb_get_low : ℕ → Chb → Got
  unfolding chb_get
  chb_get_low val = chb_get val lib.get_bits_low

  abbrev pub chb_get_status : ℕ → Chb → Got
  chb_get_status = chb_get_high
