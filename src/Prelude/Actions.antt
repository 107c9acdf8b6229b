-- ===== src/Prelude/Actions.antt =====
-- What a C function does that returns 0 or -1 and changes an object of type `S`.

-- `return 0` with what the function stores through its pointers, `return -1`, and a loop that is
-- still waiting for the device when its rounds are used up.
pub data Ret (S A : Type 0) : Type 0 where
  ok : A → S → Ret S A
  failed : S → Ret S A
  waiting : S → Ret S A

abbrev pub Action : Type 0 → Type 0 → Type 0
Action S A = S → Ret S A

module _ {S A : Type 0} where
  abbrev pub pure : A → Action S A
  pure a s = ok a s

  -- What is left to do behind a call that was made.
  abbrev pub and_then : {B : Type 0} → Ret S A → (A → Action S B) → Ret S B
  and_then (ok a s) f = f a s
  and_then (failed s) f = failed s
  and_then (waiting s) f = waiting s

infixl 5 ◌>>=◌ ◌>>◌
abbrev pub ◌>>=◌ : {S A B : Type 0} → Action S A → (A → Action S B) → Action S B
◌>>=◌ m f s = and_then (m s) f

abbrev pub ◌>>◌ : {S B : Type 0} → Action S (Unit {0}) → Action S B → Action S B
m >> k = m >>= λ _. k

module _ {S : Type 0} where
  -- A postcondition: `P` after a success, `Q` after a failure; nothing of a call that waits.
  abbrev pub Ensures : {A : Type 0} → (A → S → Type 0) → (S → Type 0) → Ret S A → Type 0
  Ensures P Q (ok a s) = P a s
  Ensures P Q (failed s) = Q s
  Ensures P Q (waiting s) = Unit

  pub Ensures-and_then :
      {A B : Type 0} (P : A → S → Type 0) (Q : S → Type 0) (R : B → S → Type 0) (r : Ret S A)
      (f : A → Action S B)
      → Ensures P Q r
      → ((a : A) (s : S) → P a s → Ensures R Q (f a s))
      → Ensures R Q (and_then r f)
  Ensures-and_then P Q R (ok a s) f h k = k a s h
  Ensures-and_then P Q R (failed s) f h k = h
  Ensures-and_then P Q R (waiting s) f h k = h
