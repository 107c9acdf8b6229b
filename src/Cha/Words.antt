-- ===== src/Cha/Words.antt =====
-- The registers of 32 bits, which src/cha.c writes and reads byte by byte.
use libopenvizsla.Prelude.{
  ℕ, zero, suc, ◌+◌, ◌-◌, ◌*◌, ◌/◌, ◌%◌, ◌^◌, ◌<◌, ◌≡◌, refl, ◌∙◌, ap, ◌==◌, bit_or, bit_or-shift,
  shift-bit_or, ok, ◌>>=◌, arith, false, true,
}
use libopenvizsla.Ftdi.{Ftdi}
use libopenvizsla.Cha.State.{Cha}
use libopenvizsla.Cha.Registers.{
  cha_write_reg, cha_read_reg, appended, write_loop, read_loop, cha_write_reg32, cha_read_reg32,
}
use libopenvizsla.Cha.Device.{Device, cha_transaction-exchange}

module _ (lib : Ftdi) (rounds : ℕ) (dev : Device lib rounds) where
  abbrev pub after : Cha lib → lib.Context → Cha lib
  after cha ctx = record cha { ftdi = ctx }

  write_bit : (a : ℕ) → a < 2 ^ 15 → bit_or a 0x8000 ≡ a + 2 ^ 15
  write_bit a h = bit_or-shift 15 a 1 h

  pub cha_write_reg_lem :
      (a v : ℕ) (cha : Cha lib)
      → a < 2 ^ 15
      → v < 2 ^ 8
      → dev.IsIdle cha.ftdi
      → cha_write_reg lib rounds a v cha ≡ ok tt (after cha (dev.stored a v cha.ftdi))
  unfolding cha_write_reg
  cha_write_reg_lem a v cha h k idle = rw (
    write_bit a h,
    cha_transaction-exchange lib rounds (a + 2 ^ 15) v cha (a + 2 ^ 15) v (dev.stored a v cha.ftdi)
        (dev.store_answer a v cha.ftdi h k idle),
  )

  pub cha_read_reg_lem :
      (a : ℕ) (cha : Cha lib)
      → a < 2 ^ 15
      → dev.IsIdle cha.ftdi
      → cha_read_reg lib rounds a cha
        ≡ ok (dev.peek cha.ftdi a) (after cha (dev.fetched a cha.ftdi))
  unfolding cha_read_reg
  cha_read_reg_lem a cha h idle =
      cha_transaction-exchange lib rounds a 0 cha a (dev.peek cha.ftdi a) (dev.fetched a cha.ftdi)
        (dev.fetch_answer a cha.ftdi h idle)

  eq_false : (i j : ℕ) → i < j → (i == j) ≡ false
  eq_false i j h = ground arith

  eq_false' : (i j : ℕ) → j < i → (i == j) ≡ false
  eq_false' i j h = ground arith

  eq_self : (i : ℕ) → (i == i) ≡ true
  eq_self i = ground arith

  -- One round of cha_write_reg32's loop, `k + 1` above the register's address.
  write_round :
      (fuel addr k val : ℕ) (cha : Cha lib)
      → addr + k < 2 ^ 15
      → dev.IsIdle cha.ftdi
      → write_loop lib rounds (suc fuel) addr (addr + k + 1) val cha
        ≡ write_loop lib rounds fuel addr
            (addr + k)
            (val / 2 ^ 8)
            (after cha (dev.stored (addr + k) (val % 2 ^ 8) cha.ftdi))
  unfolding write_loop
  write_round fuel addr k val cha h idle =
      let next : (addr + k + 1 + 2 ^ 16 - 1) % 2 ^ 16 ≡ addr + k = omega arith in
      rw (
        eq_false' (addr + k + 1) addr (omega arith),
        next,
        cha_write_reg_lem (addr + k) (val % 2 ^ 8) cha h (omega arith) idle,
      )

  write_end :
      (fuel addr val : ℕ) (cha : Cha lib)
      → write_loop lib rounds (suc fuel) addr addr val cha ≡ ok tt cha
  unfolding write_loop
  write_end fuel addr val cha = rw (eq_self addr)

  -- `k` bytes from the address on, the upper ones at the lower addresses, which are written last.
  abbrev pub stored_bytes : ℕ → ℕ → ℕ → lib.Context → lib.Context
  stored_bytes zero a val ctx = ctx
  stored_bytes (suc k) a val ctx =
      stored_bytes k a (val / 2 ^ 8) (dev.stored (a + k) (val % 2 ^ 8) ctx)

  write_loop_lem :
      (k addr val : ℕ) (cha : Cha lib)
      → addr + k < 2 ^ 15 + 1
      → dev.IsIdle cha.ftdi
      → write_loop lib rounds (suc k) addr (addr + k) val cha
        ≡ ok tt (after cha (stored_bytes k addr val cha.ftdi))
  write_loop_lem zero addr val cha h idle =
      let e : addr + 0 ≡ addr = omega arith in rw e (write_end 0 addr val cha)
  write_loop_lem (suc k) addr val cha h idle =
      let ctx = dev.stored (addr + k) (val % 2 ^ 8) cha.ftdi in
      let e : addr + suc k ≡ addr + k + 1 = omega arith in
      rw e (
        write_round (suc k) addr k val cha (omega arith) idle
        ∙ write_loop_lem k addr (val / 2 ^ 8) (after cha ctx) (omega arith)
            (dev.stored-IsIdle (addr + k) (val % 2 ^ 8) cha.ftdi idle))

  pub cha_write_reg32_lem :
      (a val : ℕ) (cha : Cha lib)
      → a + 3 < 2 ^ 15
      → dev.IsIdle cha.ftdi
      → cha_write_reg32 lib rounds a val cha ≡ ok tt (after cha (stored_bytes 4 a val cha.ftdi))
  unfolding cha_write_reg32
  cha_write_reg32_lem a val cha h idle =
      let e : (a + 4) % 2 ^ 16 ≡ a + 4 = omega arith in
      rw e (write_loop_lem 4 a val cha (omega arith) idle)

  -- What the read loop gets in its last `n` rounds, from the address `i` on.
  abbrev pub value_from : ℕ → ℕ → ℕ → lib.Context → ℕ
  value_from zero i val ctx = val
  value_from (suc n) i val ctx =
      value_from n (i + 1) (appended val (dev.peek ctx i)) (dev.fetched i ctx)

  abbrev pub fetched_bytes : ℕ → ℕ → lib.Context → lib.Context
  fetched_bytes zero i ctx = ctx
  fetched_bytes (suc n) i ctx = fetched_bytes n (i + 1) (dev.fetched i ctx)

  read_end :
      (fuel addr i val : ℕ) (cha : Cha lib)
      → i ≡ addr + 4
      → read_loop lib rounds (suc fuel) addr i val cha ≡ ok val cha
  unfolding read_loop
  read_end fuel addr i val cha h = rw (h, eq_self (addr + 4))

  read_round :
      (fuel addr i val : ℕ) (cha : Cha lib)
      → i < addr + 4
      → i < 2 ^ 15
      → dev.IsIdle cha.ftdi
      → read_loop lib rounds (suc fuel) addr i val cha
        ≡ read_loop lib rounds fuel addr
            (i + 1)
            (appended val (dev.peek cha.ftdi i))
            (after cha (dev.fetched i cha.ftdi))
  unfolding read_loop
  read_round fuel addr i val cha lt h idle =
      let next : (i + 1) % 2 ^ 16 ≡ i + 1 = omega arith in
      rw (eq_false i (addr + 4) lt, cha_read_reg_lem i cha h idle, next)

  read_loop_lem :
      (n addr i val : ℕ) (cha : Cha lib)
      → i + n ≡ addr + 4
      → addr + 4 < 2 ^ 15 + 1
      → dev.IsIdle cha.ftdi
      → read_loop lib rounds (suc n) addr i val cha
        ≡ ok (value_from n i val cha.ftdi) (after cha (fetched_bytes n i cha.ftdi))
  read_loop_lem zero addr i val cha e h idle = read_end 0 addr i val cha (omega arith)
  read_loop_lem (suc n) addr i val cha e h idle =
      read_round (suc n) addr i val cha (omega arith) (omega arith) idle
      ∙ read_loop_lem n addr (i + 1) (appended val (dev.peek cha.ftdi i))
          (after cha (dev.fetched i cha.ftdi)) (omega arith) h (dev.fetched-IsIdle i cha.ftdi idle)

  pub cha_read_reg32_lem :
      (a old : ℕ) (cha : Cha lib)
      → a + 3 < 2 ^ 15
      → dev.IsIdle cha.ftdi
      → cha_read_reg32 lib rounds a old cha
        ≡ ok (value_from 4 a old cha.ftdi) (after cha (fetched_bytes 4 a cha.ftdi))
  unfolding cha_read_reg32
  cha_read_reg32_lem a old cha h idle = read_loop_lem 4 a a old cha refl (omega arith) idle

  -- Registers at and above the written bytes, or plain ones read over, stay.
  peek-stored_bytes :
      (k a val r : ℕ) (ctx : lib.Context)
      → dev.IsPlain r
      → a + k < r + 1
      → dev.peek (stored_bytes k a val ctx) r ≡ dev.peek ctx r
  peek-stored_bytes zero a val r ctx plain h = refl
  peek-stored_bytes (suc k) a val r ctx plain h =
      peek-stored_bytes k a (val / 2 ^ 8) r (dev.stored (a + k) (val % 2 ^ 8) ctx) plain
        (omega arith)
      ∙ dev.peek-stored (a + k) (val % 2 ^ 8) r ctx (omega arith) plain
      ∙ rw (eq_false' r (a + k) (omega arith)) refl

  -- The byte that was written last at `a + k` is there.
  peek_last :
      (k a val v : ℕ) (ctx : lib.Context)
      → v < 2 ^ 8
      → dev.IsPlain (a + k)
      → dev.peek (stored_bytes k a val (dev.stored (a + k) v ctx)) (a + k) ≡ v
  peek_last k a val v ctx byte plain =
      peek-stored_bytes k a val (a + k) (dev.stored (a + k) v ctx) plain (omega arith)
      ∙ dev.peek-stored (a + k) v (a + k) ctx byte plain
      ∙ rw (eq_self (a + k)) refl

  appended_lem : (val tmp : ℕ) → tmp < 2 ^ 8 → appended val tmp ≡ val % 2 ^ 24 * 2 ^ 8 + tmp
  unfolding appended
  appended_lem val tmp h =
      let e : (val * 2 ^ 8) % 2 ^ 32 ≡ val % 2 ^ 24 * 2 ^ 8 = omega arith in
      rw e (shift-bit_or 8 tmp (val % 2 ^ 24) h)

  -- Four bytes, the upper one first, whatever was there before.
  appended_four :
      (old val b0 b1 b2 b3 : ℕ)
      → val < 2 ^ 32
      → b0 ≡ val / 2 ^ 8 / 2 ^ 8 / 2 ^ 8 % 2 ^ 8
      → b1 ≡ val / 2 ^ 8 / 2 ^ 8 % 2 ^ 8
      → b2 ≡ val / 2 ^ 8 % 2 ^ 8
      → b3 ≡ val % 2 ^ 8
      → appended (appended (appended (appended old b0) b1) b2) b3 ≡ val
  appended_four old val b0 b1 b2 b3 h e0 e1 e2 e3 = omega (
    arith,
    appended_lem old b0 (omega arith),
    appended_lem (appended old b0) b1 (omega arith),
    appended_lem (appended (appended old b0) b1) b2 (omega arith),
    appended_lem (appended (appended (appended old b0) b1) b2) b3 (omega arith),
  )

  -- The four bytes are read back, each behind the ones before it.
  value_from-stored_bytes :
      (a old val : ℕ) (ctx : lib.Context)
      → val < 2 ^ 32
      → ((k : ℕ) → k < 4 → dev.IsPlain (a + k))
      → value_from 4 a old (stored_bytes 4 a val ctx) ≡ val
  value_from-stored_bytes a old val ctx h plain =
      let at0 : a ≡ a + 0 = omega arith in
      let at2 : a + 1 + 1 ≡ a + 2 = omega arith in
      let at3 : a + 2 + 1 ≡ a + 3 = omega arith in
      let c3 = dev.stored (a + 3) (val % 2 ^ 8) ctx in
      let c2 = dev.stored (a + 2) (val / 2 ^ 8 % 2 ^ 8) c3 in
      let c1 = dev.stored (a + 1) (val / 2 ^ 8 / 2 ^ 8 % 2 ^ 8) c2 in
      let c = stored_bytes 4 a val ctx in
      let f1 = dev.fetched a c in
      let f2 = dev.fetched (a + 1) f1 in
      let f3 = dev.fetched (a + 2) f2 in
      let p0 = plain 0 (omega arith) in
      let p1 = plain 1 (omega arith) in
      let p2 = plain 2 (omega arith) in
      let p3 = plain 3 (omega arith) in
      rw (at2, at3)
        (appended_four old val (dev.peek c a) (dev.peek f1 (a + 1)) (dev.peek f2 (a + 2))
          (dev.peek f3 (a + 3)) h
          (ap (dev.peek c) at0
            ∙ peek_last 0 a (val / 2 ^ 8 / 2 ^ 8 / 2 ^ 8 / 2 ^ 8)
                (val / 2 ^ 8 / 2 ^ 8 / 2 ^ 8 % 2 ^ 8) c1 (omega arith) p0)
          (dev.peek-fetched a (a + 1) c p1
            ∙ peek_last 1 a (val / 2 ^ 8 / 2 ^ 8 / 2 ^ 8) (val / 2 ^ 8 / 2 ^ 8 % 2 ^ 8) c2
                (omega arith) p1)
          (dev.peek-fetched (a + 1) (a + 2) f1 p2
            ∙ dev.peek-fetched a (a + 2) c p2
            ∙ peek_last 2 a (val / 2 ^ 8 / 2 ^ 8) (val / 2 ^ 8 % 2 ^ 8) c3 (omega arith) p2)
          (dev.peek-fetched (a + 2) (a + 3) f2 p3
            ∙ dev.peek-fetched (a + 1) (a + 3) f1 p3
            ∙ dev.peek-fetched a (a + 3) c p3
            ∙ peek_last 3 a (val / 2 ^ 8) (val % 2 ^ 8) ctx (omega arith) p3))

  stored_bytes-IsIdle :
      (k a val : ℕ) (ctx : lib.Context) → dev.IsIdle ctx → dev.IsIdle (stored_bytes k a val ctx)
  stored_bytes-IsIdle zero a val ctx h = h
  stored_bytes-IsIdle (suc k) a val ctx h =
      stored_bytes-IsIdle k a (val / 2 ^ 8) _ (dev.stored-IsIdle (a + k) (val % 2 ^ 8) ctx h)

  -- With an idle FPGA whose four registers from `a` on keep what is stored in them, `a` at most
  -- 2 ^ 15 - 4: cha_write_reg32 of any 32-bit value and then cha_read_reg32 both return 0, and the
  -- value read is the value written, whatever `*val` was before.
  pub cha_read_reg32-cha_write_reg32 :
      (a old val : ℕ) (cha : Cha lib)
      → a + 3 < 2 ^ 15
      → val < 2 ^ 32
      → ((k : ℕ) → k < 4 → dev.IsPlain (a + k))
      → dev.IsIdle cha.ftdi
      → (cha_write_reg32 lib rounds a val >>= λ _. cha_read_reg32 lib rounds a old) cha
        ≡ ok val (after cha (fetched_bytes 4 a (stored_bytes 4 a val cha.ftdi)))
  cha_read_reg32-cha_write_reg32 a old val cha h k plain idle =
      let c = stored_bytes 4 a val cha.ftdi in
      rw (
        cha_write_reg32_lem a val cha h idle,
        cha_read_reg32_lem a old (after cha c) h (stored_bytes-IsIdle 4 a val cha.ftdi idle),
        value_from-stored_bytes a old val cha.ftdi k plain,
      )
