-- ===== src/Chb/Program.antt =====
-- How chb_switch_program_mode of src/chb.c ends.
use libopenvizsla.Prelude.{
  ℕ, zero, suc, ◌≡◌, ◌≢◌, refl, Bool, true, false, none, Bool-cases, arith, [], ◌∷◌, Option, some,
  Bytes,
}
use mathlib.Core.Logic.{inl, inr}
use libopenvizsla.Ftdi.{Ftdi, given}
use libopenvizsla.Chb.Port.{
  Chb, Ret, succeeded, failed, and_then, call, is_done, Got, read, not_read, then_read, read_answer,
  chb_get, chb_get_high, chb_set_high, polled, wait_not_done, chb_switch_program_mode,
}

module _ (lib : Ftdi) where
  -- After a success, the last read gave a value without the done bit; after a failure, there is a
  -- message.
  abbrev pub IsLow : Ret lib → Type 0
  IsLow (succeeded chb) =
      (before : Chb lib) × (old : ℕ) × (status : ℕ) × (chb_get_high lib old before
        ≡ read status chb)
      × (is_done status ≡ false)
  IsLow (failed chb) = chb.error_str ≢ none

  -- A failure has a message.
  abbrev IsExplained : Ret lib → Type 0
  IsExplained (succeeded chb) = Unit
  IsExplained (failed chb) = chb.error_str ≢ none

  IsLow-and_then :
      (r : Ret lib) (next : Chb lib → Ret lib)
      → IsExplained r
      → ((chb : Chb lib) → IsLow (next chb))
      → IsLow (and_then lib r next)
  IsLow-and_then (succeeded chb) next h k = k chb
  IsLow-and_then (failed chb) next h k = h

  call-IsExplained : (chb : Chb lib) (r : Bool × lib.Context) → IsExplained (call lib chb r)
  call-IsExplained chb (true, ctx) = tt
  call-IsExplained chb (false, ctx) = λ h. ground arith

  polled-IsLow :
      (poll : ℕ → Chb lib → Ret lib) (old : ℕ) (before : Chb lib) (got : Got lib)
      → chb_get_high lib old before ≡ got
      → ((status : ℕ) (chb : Chb lib) → is_done status ≡ true → IsLow (poll status chb))
      → ((chb : Chb lib) → got ≡ not_read chb → chb.error_str ≢ none)
      → IsLow (polled lib poll got)
  polled-IsLow poll old before (read status chb) h k m = elim (Bool-cases (is_done status)) [
    | inl e ↦ rw e (k status chb e)
    | inr e ↦ rw e (before, old, status, h, e)
  ]
  polled-IsLow poll old before (not_read chb) h k m = m chb refl

  read_answer-message :
      (val : ℕ) (chb chb' : Chb lib) (r : Option Bytes × lib.Context)
      → read_answer lib val chb r ≡ not_read chb'
      → chb'.error_str ≢ none
  read_answer-message val chb chb' (some bytes, ctx) h = λ e. ground arith
  read_answer-message val chb chb' (none, ctx) h = λ e. ground arith

  then_read-message :
      (val : ℕ) (r : Ret lib) (chb' : Chb lib)
      → IsExplained r
      → then_read lib val r ≡ not_read chb'
      → chb'.error_str ≢ none
  then_read-message val (succeeded chb) chb' h e =
      read_answer-message val chb chb' (lib.read_data 1 chb.ftdi) e
  then_read-message val (failed chb) chb' h e = λ k. ground arith

  chb_get-message :
      (val cmd : ℕ) (chb chb' : Chb lib)
      → chb_get lib val cmd chb ≡ not_read chb'
      → chb'.error_str ≢ none
  unfolding chb_get
  chb_get-message val cmd chb chb' =
      let r = given (lib.write_data (cmd ∷ []) chb.ftdi) in
      then_read-message val (call lib chb r) chb' (call-IsExplained chb r)

  wait_not_done-IsLow :
      (try status : ℕ) (chb : Chb lib)
      → is_done status ≡ true
      → IsLow (wait_not_done lib try status chb)
  unfolding wait_not_done
  wait_not_done-IsLow zero status chb h = rw h (λ e. ground arith)
  wait_not_done-IsLow (suc try) status chb h =
      polled-IsLow (wait_not_done lib try) status chb (chb_get_high lib status chb) refl
        (wait_not_done-IsLow try) (λ chb'. chb_get-message status lib.get_bits_high chb chb')

  -- The first round does not read the variable.
  first_wait-IsLow : (chb : Chb lib) → IsLow (wait_not_done lib 3 0 chb)
  unfolding wait_not_done
  first_wait-IsLow chb =
      polled-IsLow (wait_not_done lib 2) 0 chb (chb_get_high lib 0 chb) refl (wait_not_done-IsLow 2)
        (λ chb'. chb_get-message 0 lib.get_bits_high chb chb')

  -- However libftdi behaves: when `chb_switch_program_mode` returns 0, the last thing it did was to
  -- read port B's upper pins into a variable that then has the done bit low (a read that gives no byte
  -- leaves the variable as it was); when it returns -1, an error message is set.
  pub chb_switch_program_mode-IsLow : (chb : Chb lib) → IsLow (chb_switch_program_mode lib chb)
  unfolding chb_switch_program_mode
  chb_switch_program_mode-IsLow chb0 =
      IsLow-and_then (chb_set_high lib 0x8b chb0) _ (call-IsExplained chb0 _) (λ chb1.
        IsLow-and_then (chb_set_high lib 0x81 chb1) _ (call-IsExplained chb1 _) (λ chb2.
          IsLow-and_then (chb_set_high lib 0x88 chb2) _ (call-IsExplained chb2 _)
            (λ chb3. first_wait-IsLow chb3)))
