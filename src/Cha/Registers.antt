-- ===== src/Cha/Registers.antt =====
-- The functions of src/cha.c that read and write one register.
use libopenvizsla.Prelude.{
  ℕ, zero, suc, ◌+◌, ◌-◌, ◌*◌, ◌/◌, ◌%◌, ◌^◌, bit_or, [], ◌∷◌, ◌==◌, if◌then◌else◌, Action, waiting,
  pure, ◌>>=◌, ◌>>◌,
}
use libopenvizsla.Ftdi.{Ftdi}
use libopenvizsla.Reg.State.{RegName, addr_of}
use libopenvizsla.Cha.State.{ChaAction, write_data}
use libopenvizsla.Cha.Message.{with_checksum}
use libopenvizsla.Cha.Transaction.{cha_transaction}

-- `(val << 8) | tmp`, in 32 bits
unfoldable pub appended : ℕ → ℕ → ℕ
appended val tmp = bit_or ((val * 2 ^ 8) % 2 ^ 32) tmp

abbrev ignore : {S A : Type 0} → Action S A → Action S (Unit {0})
ignore m = m >>= λ _. pure tt

module _ (lib : Ftdi) (rounds : ℕ) where
  -- `addr | 0x8000`: the upper bit asks for a write.
  unfoldable pub cha_write_reg : ℕ → ℕ → ChaAction lib (Unit {0})
  unfolding cha_transaction
  cha_write_reg addr val = ignore (cha_transaction lib rounds (bit_or addr 0x8000) val)

  unfoldable pub cha_read_reg : ℕ → ChaAction lib ℕ
  unfolding cha_transaction
  cha_read_reg addr = cha_transaction lib rounds addr 0

  -- The loop of cha_write_reg32, with `i` one above the register that is written next.
  unfoldable pub write_loop : ℕ → ℕ → ℕ → ℕ → ChaAction lib (Unit {0})
  unfolding cha_write_reg
  write_loop zero addr i val = waiting
  write_loop (suc fuel) addr i val =
      let next = (i + 2 ^ 16 - 1) % 2 ^ 16 in
      let rest = cha_write_reg next (val % 2 ^ 8) >> write_loop fuel addr next (val / 2 ^ 8) in
      if i == addr then pure tt else rest

  -- `i = addr + 4` in 16 bits: four rounds whatever the address is, and the test behind them.
  unfoldable pub cha_write_reg32 : ℕ → ℕ → ChaAction lib (Unit {0})
  cha_write_reg32 addr val = write_loop 5 addr ((addr + 4) % 2 ^ 16) val

  -- The loop of cha_read_reg32: `i` has 16 bits, and `addr + 4` has more.
  unfoldable pub read_loop : ℕ → ℕ → ℕ → ℕ → ChaAction lib ℕ
  unfolding cha_read_reg appended
  read_loop zero addr i val = waiting
  read_loop (suc fuel) addr i val =
      let rest =
        cha_read_reg i >>= λ tmp. read_loop fuel addr ((i + 1) % 2 ^ 16) (appended val tmp) in
      if i == addr + 4 then pure val else rest

  -- The old value `*val` is shifted out. From the address 0xfffc on `i` never gets to `addr + 4`:
  -- the loop does not end, which the model says after five rounds.
  unfoldable pub cha_read_reg32 : ℕ → ℕ → ChaAction lib ℕ
  cha_read_reg32 addr val = read_loop 5 addr addr val

  -- A message is sent, and no answer awaited: the upper byte is `0x80 | (addr >> 8)`.
  unfoldable pub cha_cast_reg : ℕ → ℕ → ChaAction lib (Unit {0})
  unfolding with_checksum
  cha_cast_reg addr val =
      write_data (with_checksum (0x55 ∷ bit_or 0x80 (addr / 2 ^ 8) ∷ (addr % 2 ^ 8) ∷ val ∷ 0 ∷ []))

  abbrev at_name : {A : Type 0} → RegName → (ℕ → ChaAction lib A) → ChaAction lib A
  unfolding addr_of
  at_name name f cha = f (addr_of cha.reg name) cha

  unfoldable pub cha_write_reg_by_name : RegName → ℕ → ChaAction lib (Unit {0})
  unfolding cha_write_reg at_name
  cha_write_reg_by_name name val = at_name name (λ addr. cha_write_reg addr val)

  unfoldable pub cha_read_reg_by_name : RegName → ChaAction lib ℕ
  unfolding cha_read_reg at_name
  cha_read_reg_by_name name = at_name name cha_read_reg

  unfoldable pub cha_cast_reg_by_name : RegName → ℕ → ChaAction lib (Unit {0})
  unfolding cha_cast_reg at_name
  cha_cast_reg_by_name name val = at_name name (λ addr. cha_cast_reg addr val)

  unfoldable pub cha_write_reg32_by_name : RegName → ℕ → ChaAction lib (Unit {0})
  unfolding cha_write_reg32 at_name
  cha_write_reg32_by_name name val = at_name name (λ addr. cha_write_reg32 addr val)

  unfoldable pub cha_read_reg32_by_name : RegName → ℕ → ChaAction lib ℕ
  unfolding cha_read_reg32 at_name
  cha_read_reg32_by_name name val = at_name name (λ addr. cha_read_reg32 addr val)
