-- ===== src/Cha/State.antt =====
-- `struct cha` of include/cha.h, and how the functions of src/cha.c call libftdi.
use libopenvizsla.Prelude.{
  ℕ, Bool, if◌then◌else◌, Option, none, some, String, Bytes, ok, failed, Action,
}
use libopenvizsla.Ftdi.{Ftdi, given}
use libopenvizsla.Reg.State.{Reg}

pub record Cha (lib : Ftdi) : Type 0 where
  pub ftdi : lib.Context
  pub reg : Reg
  pub error_str : Option String

abbrev pub ChaAction : Ftdi → Type 0 → Type 0
ChaAction lib A = Action (Cha lib) A

abbrev pub done_if : Bool → Option (Unit {0})
done_if done = if done then some tt else none

module _ {lib : Ftdi} where
  abbrev pub fail : {A : Type 0} → String → ChaAction lib A
  fail message cha = failed (record cha { error_str = some message })

  -- The result of a call of libftdi, whose message is taken when the call fails.
  abbrev pub call_result : {A : Type 0} → Option A × lib.Context → ChaAction lib A
  call_result (some a, ctx) cha = ok a (record cha { ftdi = ctx })
  call_result (none, ctx) cha =
      failed (record cha { ftdi = ctx; error_str = some (lib.get_error_string ctx) })

  abbrev pub request : (lib.Context → Bool × lib.Context) → ChaAction lib (Unit {0})
  request f cha = let (done, ctx) = f cha.ftdi in call_result (done_if done, ctx) cha

  abbrev pub write_data : Bytes → ChaAction lib (Unit {0})
  write_data bytes = request (λ ctx. given (lib.write_data bytes ctx))

  abbrev pub read_data : ℕ → ChaAction lib Bytes
  read_data size cha = call_result (lib.read_data size cha.ftdi) cha
