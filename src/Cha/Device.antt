-- ===== src/Cha/Device.antt =====
-- The FPGA behind port A as src/cha.c sees it: a file of byte registers. It is not part of the
-- repository; `Device` states the protocol that the messages of cha_transaction follow.
use libopenvizsla.Prelude.{
  ℕ, zero, suc, ◌+◌, ◌^◌, ◌<◌, ◌≡◌, ◌==◌, if◌then◌else◌, Option, none, some, [], ◌∷◌, Bytes,
  overlay, ok, and_then, arith,
}
use libopenvizsla.Ftdi.{Ftdi, given}
use libopenvizsla.Cha.State.{Cha, call_result, done_if}
use libopenvizsla.Cha.Message.{message}
use libopenvizsla.Cha.Transaction.{answered_with, answer_loop, check_answer, cha_transaction}

-- The next answer, polled for at most so many times, and the context behind it.
module _ (lib : Ftdi) where
  abbrev pub answered :
      (lib.Context → Option (Bytes × lib.Context))
      → Option Bytes × lib.Context
      → Option (Bytes × lib.Context)
  answered again (none, ctx) = none
  answered again (some [], ctx) = again ctx
  answered again (some (b ∷ bs), ctx) = some (b ∷ bs, ctx)

  pub answer : ℕ → lib.Context → Option (Bytes × lib.Context)
  answer zero ctx = none
  answer (suc n) ctx = answered (answer n) (lib.read_data 5 ctx)

  abbrev pub answer_to : ℕ → Option ℕ × lib.Context → Option (Bytes × lib.Context)
  answer_to rounds (none, ctx) = none
  answer_to rounds (some n, ctx) = answer rounds ctx

  unfoldable pub exchange : ℕ → Bytes → lib.Context → Option (Bytes × lib.Context)
  unfolding answer
  exchange rounds msg ctx = answer_to rounds (lib.write_data msg ctx)

  -- One round of the loop, by what is read.
  round-answered :
      (fuel : ℕ) (sent : Bytes) (cha : Cha lib) (b : ℕ) (bs : Bytes) (ctx : lib.Context)
      (r : Option Bytes × lib.Context)
      → ((c : lib.Context)
          → answer fuel c ≡ some (b ∷ bs, ctx)
          → answer_loop lib fuel sent (record cha { ftdi = c })
            ≡ ok (overlay sent (b ∷ bs)) (record cha { ftdi = ctx }))
      → answered (answer fuel) r ≡ some (b ∷ bs, ctx)
      → and_then (call_result r cha) (answered_with lib sent (answer_loop lib fuel sent))
        ≡ ok (overlay sent (b ∷ bs)) (record cha { ftdi = ctx })
  round-answered fuel sent cha b bs ctx (none, c) again h = ground arith
  round-answered fuel sent cha b bs ctx (some [], c) again h = again c h
  round-answered fuel sent cha b bs ctx (some (x ∷ xs), c) again h = ground arith

  answer_loop-answered :
      (fuel : ℕ) (sent : Bytes) (cha : Cha lib) (b : ℕ) (bs : Bytes) (ctx : lib.Context)
      → answer fuel cha.ftdi ≡ some (b ∷ bs, ctx)
      → answer_loop lib fuel sent cha ≡ ok (overlay sent (b ∷ bs)) (record cha { ftdi = ctx })
  unfolding answer answer_loop
  answer_loop-answered zero sent cha b bs ctx h = ground arith
  answer_loop-answered (suc fuel) sent cha b bs ctx h =
      round-answered fuel sent cha b bs ctx (lib.read_data 5 cha.ftdi)
        (λ c. answer_loop-answered fuel sent (record cha { ftdi = c }) b bs ctx) h

  -- An answer with a value in its place and the right checksum.
  check_answer-message :
      (addr val : ℕ) (cha : Cha lib) → check_answer lib (message addr val) cha ≡ ok val cha
  unfolding check_answer message
  check_answer-message addr val cha = ground arith

  message_answered :
      (rounds : ℕ) (cha : Cha lib) (addr val a v : ℕ) (ctx : lib.Context)
      → answer rounds cha.ftdi ≡ some (message a v, ctx)
      → answer_loop lib rounds (message addr val) cha ≡ ok (message a v) (record cha { ftdi = ctx })
  unfolding message
  message_answered rounds cha addr val a v ctx h =
      answer_loop-answered rounds (message addr val) cha _ _ ctx h

  -- What is left of a transaction, by what the write returns.
  answer_to-checked :
      (rounds addr val : ℕ) (cha : Cha lib) (a v : ℕ) (ctx : lib.Context)
      (r : Option ℕ × lib.Context)
      → answer_to rounds r ≡ some (message a v, ctx)
      → and_then
          (call_result (done_if (given r).0, (given r).1) cha)
          (λ x s. and_then (answer_loop lib rounds (message addr val) s) (check_answer lib))
        ≡ ok v (record cha { ftdi = ctx })
  answer_to-checked rounds addr val cha a v ctx (none, c) h = ground arith
  answer_to-checked rounds addr val cha a v ctx (some n, c) h =
      rw (message_answered rounds (record cha { ftdi = c }) addr val a v ctx h)
        (check_answer-message a v (record cha { ftdi = ctx }))

  -- A transaction is an exchange of messages, when the answer is one.
  pub cha_transaction-exchange :
      (rounds addr val : ℕ) (cha : Cha lib) (a v : ℕ) (ctx : lib.Context)
      → exchange rounds (message addr val) cha.ftdi ≡ some (message a v, ctx)
      → cha_transaction lib rounds addr val cha ≡ ok v (record cha { ftdi = ctx })
  unfolding exchange cha_transaction
  cha_transaction-exchange rounds addr val cha a v ctx h =
      answer_to-checked rounds addr val cha a v ctx (lib.write_data (message addr val) cha.ftdi) h

-- The FPGA. A message whose address has the upper bit stores its value in the register of that
-- address, one without it fetches the register's value; either is answered by a message with the
-- address and the value, within `rounds` reads. Plain registers hold what was stored last; others,
-- such as those that command the transceiver, may change by themselves.
pub record Device (lib : Ftdi) (rounds : ℕ) : Type 1 where
  pub IsIdle : lib.Context → Type 0
  pub IsPlain : ℕ → Type 0
  pub peek : lib.Context → ℕ → ℕ
  pub stored : ℕ → ℕ → lib.Context → lib.Context
  pub fetched : ℕ → lib.Context → lib.Context
  pub store_answer :
      (a v : ℕ) (ctx : lib.Context)
      → a < 2 ^ 15
      → v < 2 ^ 8
      → IsIdle ctx
      → exchange lib rounds (message (a + 2 ^ 15) v) ctx
        ≡ some (message (a + 2 ^ 15) v, stored a v ctx)
  pub fetch_answer :
      (a : ℕ) (ctx : lib.Context)
      → a < 2 ^ 15
      → IsIdle ctx
      → exchange lib rounds (message a 0) ctx ≡ some (message a (peek ctx a), fetched a ctx)
  pub stored-IsIdle : (a v : ℕ) (ctx : lib.Context) → IsIdle ctx → IsIdle (stored a v ctx)
  pub fetched-IsIdle : (a : ℕ) (ctx : lib.Context) → IsIdle ctx → IsIdle (fetched a ctx)
  pub peek-lt : (ctx : lib.Context) (a : ℕ) → peek ctx a < 2 ^ 8
  pub peek-stored :
      (a v r : ℕ) (ctx : lib.Context)
      → v < 2 ^ 8
      → IsPlain r
      → peek (stored a v ctx) r ≡ (if r == a then v else peek ctx r)
  pub peek-fetched : (a r : ℕ) (ctx : lib.Context) → IsPlain r → peek (fetched a ctx) r ≡ peek ctx r
