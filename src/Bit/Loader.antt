-- ===== src/Bit/Loader.antt =====
-- bit_load_firmware of src/bit.c: the configuration bits go to the FPGA through port A, and its done
-- bit is read on port B.
use libopenvizsla.Prelude.{
  ℕ, zero, suc, ◌+◌, ◌*◌, ◌%◌, ltb, ◌==◌, Bool, true, false, not, if◌then◌else◌, Option, none, some,
  [], ◌∷◌, Bytes, String, take, drop, length, map, replicate,
}
use libopenvizsla.Ftdi.{Ftdi}
use libopenvizsla.Cha.State.{Cha}
use libopenvizsla.Chb.Port.{Chb, Got, read, not_read, chb_get_high, is_done}
use libopenvizsla.Bit.Reverse.{bitreverse8}

-- `sizeof(buf[bidx])`
abbrev pub buffer_size : ℕ
buffer_size = 4 * 1024

abbrev pub init_cycles : Bytes
init_cycles = replicate 8 0

module _ (lib : Ftdi) where
  -- The message of `struct bit` and the two ports. The parser's fields do not change.
  pub record Loader : Type 0 where
    pub error_str : Option String
    pub cha : Cha lib
    pub chb : Chb lib

  -- `tc`: the transfer under way, if any, and which of the two buffers it sends.
  abbrev pub Flight : Type 0
  Flight = Option (ℕ × lib.Transfer)

  -- How a part of the function ends: it goes on, returns -1, writes to a buffer that a transfer is
  -- sending, or waits for a transfer that is a null pointer.
  pub data Load (A : Type 0) : Type 0 where
    loaded : A → Loader → Load A
    refused : Loader → Load A
    overwritten : Load A
    null_transfer : Load A
    out_of_fuel : Load A

  abbrev pub then_load : {A B : Type 0} → Load A → (A → Loader → Load B) → Load B
  then_load (loaded a l) next = next a l
  then_load (refused l) next = refused l
  then_load overwritten next = overwritten
  then_load null_transfer next = null_transfer
  then_load out_of_fuel next = out_of_fuel

  -- A failed call on port A, whose message is taken.
  abbrev pub refuse : {A : Type 0} → lib.Context → Loader → Load A
  refuse ctx l = refused (record l {
    error_str = some (lib.get_error_string ctx);
    cha = record (l.cha) { ftdi = ctx };
  })

  abbrev pub on_port : lib.Context → Loader → Loader
  on_port ctx l = record l { cha = record (l.cha) { ftdi = ctx } }

  abbrev pub waited : Bool × lib.Context → Loader → Load (Unit {0})
  waited (true, ctx) l = loaded tt (on_port ctx l)
  waited (false, ctx) l = refuse ctx l

  -- `tc && ftdi_transfer_data_done(tc) < 0`
  abbrev pub wait_if : Flight → Loader → Load (Unit {0})
  wait_if none l = loaded tt l
  wait_if (some (bidx, tc)) l = waited (lib.transfer_data_done tc l.cha.ftdi) l

  abbrev pub submitted : ℕ → Option lib.Transfer × lib.Context → Loader → Load Flight
  submitted bidx (none, ctx) l = refuse ctx l
  submitted bidx (some tc, ctx) l = loaded (some (bidx, tc)) (on_port ctx l)

  abbrev pub submit : ℕ → Bytes → Loader → Load Flight
  submit bidx buf l = submitted bidx (lib.write_data_submit buf l.cha.ftdi) l

  abbrev pub is_sending : ℕ → Flight → Bool
  is_sending bidx none = false
  is_sending bidx (some (other, tc)) = other == bidx

  -- The loop over the two buffers, on what is left of the data. Each round takes a byte at least.
  unfoldable pub send_loop : ℕ → ℕ → Flight → Bytes → Loader → Load Flight
  unfolding bitreverse8
  send_loop fuel bidx tc [] l = loaded tc l
  send_loop zero bidx tc (b ∷ bs) l = out_of_fuel
  send_loop (suc fuel) bidx tc (b ∷ bs) l =
      let buf = map bitreverse8 (take buffer_size (b ∷ bs)) in
      let rest = then_load (wait_if tc l) (λ _ l1.
        then_load (submit bidx buf l1)
          (λ tc' l2. send_loop fuel ((bidx + 1) % 2) tc' (drop buffer_size (b ∷ bs)) l2)) in
      if is_sending bidx tc then overwritten else rest

  -- The wait behind the loop.
  abbrev pub wait_last : Flight → Loader → Load (Unit {0})
  wait_last none l = null_transfer
  wait_last (some (bidx, tc)) l = waited (lib.transfer_data_done tc l.cha.ftdi) l

  -- Behind the read of the pins: `again` is the loop with one try less.
  abbrev pub after_read : (ℕ → Loader → Load (Unit {0})) → Loader → Got lib → Load (Unit {0})
  after_read again l (read status chb) =
      if is_done status
      then loaded tt (record l { chb = chb })
      else again status (record l { chb = chb })
  after_read again l (not_read chb) = refused (record l { chb = chb })

  -- Behind the write: it goes on when at least one byte was written; a result of 0 leaves the loop
  -- with no error.
  abbrev pub after_write :
      ℕ → (ℕ → Loader → Load (Unit {0})) → Option ℕ × lib.Context → Loader → Load (Unit {0})
  after_write status again (none, ctx) l = refused (on_port ctx l)
  after_write status again (some n, ctx) l =
      if ltb 0 n
      then after_read again (on_port ctx l) (chb_get_high lib status l.chb)
      else loaded tt (on_port ctx l)

  -- The loop over `try`, with the tests behind it.
  unfoldable pub wait_done : ℕ → ℕ → Loader → Load (Unit {0})
  wait_done zero status l =
      if not (is_done status)
      then refused (record l { error_str = some "done bit stuck low after programming" })
      else loaded tt l
  wait_done (suc try) status l =
      after_write status (wait_done try) (lib.write_data init_cycles l.cha.ftdi) l

  -- `bit->data` and `bit->size`, as the parser leaves them.
  unfoldable pub bit_load_firmware : Bytes → ℕ → Loader → Load (Unit {0})
  unfolding send_loop wait_done
  bit_load_firmware source size l0 =
      let bytes = take size source in
      then_load (send_loop (length bytes) 0 none bytes l0)
        (λ tc l1. then_load (wait_last tc l1) (λ _ l2. wait_done 3 0 l2))
