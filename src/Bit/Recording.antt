-- ===== src/Bit/Recording.antt =====
-- The steady libftdi records what src/bit.c sends.
use libopenvizsla.Prelude.{ℕ, ◌≡◌, Bool, some, ◌++◌, take-length_le, Bytes, length, take, arith}
use libopenvizsla.Ftdi.Steady.{Line, steady}
use libopenvizsla.Bit.Sending.{Recorder}

steady_submit :
    (pins : ℕ) (buf : Bytes) (ctx ctx' : Line) (tc : Unit {0})
    → (steady pins).write_data_submit buf ctx ≡ (some tc, ctx')
    → ctx'.written ≡ ctx.written ++ buf
steady_submit pins buf ctx ctx' tc e = cc

steady_wait :
    (pins : ℕ) (tc : Unit {0}) (ctx ctx' : Line) (done : Bool)
    → (steady pins).transfer_data_done tc ctx ≡ (done, ctx')
    → ctx'.written ≡ ctx.written
steady_wait pins tc ctx ctx' done e = cc

steady_write :
    (pins : ℕ) (bytes : Bytes) (ctx ctx' : Line) (n : ℕ)
    → (steady pins).write_data bytes ctx ≡ (some n, ctx')
    → ctx'.written ≡ ctx.written ++ take n bytes
steady_write pins bytes ctx ctx' n e = cc (take-length_le (length bytes) bytes (omega arith))

pub steady_recorder : (pins : ℕ) → Recorder (steady pins)
steady_recorder pins = record {
  sent = λ line. line.written;
  submit_sent = steady_submit pins;
  wait_sent = steady_wait pins;
  write_sent = steady_write pins;
}
