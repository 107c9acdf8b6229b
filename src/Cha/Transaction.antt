-- ===== src/Cha/Transaction.antt =====
-- The static functions of src/cha.c that send a message and wait for an answer.
use libopenvizsla.Prelude.{
  ℕ, zero, suc, ◌+◌, ◌==◌, not, if◌then◌else◌, [], ◌∷◌, Bytes, length, get_or, overlay, waiting,
  pure, ◌>>=◌, ◌>>◌,
}
use libopenvizsla.Ftdi.{Ftdi}
use libopenvizsla.Cha.State.{ChaAction, fail, request, write_data, read_data}
use libopenvizsla.Cha.Message.{cha_transaction_checksum, message}

-- The inner loop of cha_sync_stream over the bytes read: the next `sync_state`, which is 5 when the
-- loop is left by `break`.
unfoldable pub scan : Bytes → ℕ → Bytes → ℕ
scan msg sync_state [] = sync_state
scan msg sync_state (b ∷ bs) =
    let next = if b == get_or msg sync_state 0 then sync_state + 1 else 0 in
    if next == 5 then 5 else scan msg next bs

module _ (lib : Ftdi) where
  -- One pass of the outer loop behind the read.
  abbrev pub synced_with :
      Bytes → (ℕ → ChaAction lib (Unit {0})) → ℕ → Bytes → ChaAction lib (Unit {0})
  synced_with msg again sync_state buf =
      let next = scan msg sync_state buf in
      let rest = again next in if next == 5 then pure tt else rest

  -- `do { … } while (sync_state != 5)`
  unfoldable pub sync_loop : ℕ → Bytes → ℕ → ChaAction lib (Unit {0})
  sync_loop zero msg sync_state = waiting
  sync_loop (suc fuel) msg sync_state =
      read_data 32 >>= synced_with msg (sync_loop fuel msg) sync_state

  -- `while (ret == 0)`: else the bytes read are stored over those of the message.
  abbrev pub answered_with : Bytes → ChaAction lib Bytes → Bytes → ChaAction lib Bytes
  answered_with msg again buf = if length buf == 0 then again else pure (overlay msg buf)

  -- `do { … } while (ret == 0)`
  unfoldable pub answer_loop : ℕ → Bytes → ChaAction lib Bytes
  answer_loop zero msg = waiting
  answer_loop (suc fuel) msg = read_data 5 >>= answered_with msg (answer_loop fuel msg)

  unfoldable pub check_answer : Bytes → ChaAction lib ℕ
  unfolding cha_transaction_checksum
  check_answer msg =
      if not (cha_transaction_checksum msg 4 == get_or msg 4 0)
      then fail "Wrong checksum"
      else pure (get_or msg 3 0)

-- `rounds` bounds each loop that waits for the device.
module _ (lib : Ftdi) (rounds : ℕ) where
  unfoldable pub cha_sync_stream : ℕ → ChaAction lib (Unit {0})
  unfolding sync_loop message scan
  cha_sync_stream addr = do
    request lib.tcioflush
    write_data (message addr 0)
    sync_loop lib rounds (message addr 0) 0
    request lib.tcioflush

  -- What is stored at `out_val`, if that is no null pointer, is the result.
  unfoldable pub cha_transaction : ℕ → ℕ → ChaAction lib ℕ
  unfolding answer_loop message check_answer
  cha_transaction addr in_val = do
    write_data (message addr in_val)
    msg ← answer_loop lib rounds (message addr in_val)
    check_answer lib msg
