-- ===== src/Chb/Open.antt =====
-- How chb_open of src/chb.c ends.
use libopenvizsla.Prelude.{ℕ, ◌≡◌, ◌≢◌, ◌∙◌, Bool, true, false, Bytes, none, arith, List, [], ◌∷◌}
use libopenvizsla.Ftdi.{Ftdi, given}
use libopenvizsla.Chb.Port.{
  Chb, Ret, succeeded, failed, and_then, call, request, run, open_steps, close_on_failure,
  configure, chb_open,
}

-- What chb_open relies on: libftdi opens a device that `ftdi_usb_open` reports open, leaves one
-- open that it configures or writes to, and closes it in `ftdi_usb_close`.
pub record Documented (lib : Ftdi) : Type 0 where
  pub is_open : lib.Context → Bool
  pub open_done :
      (v p : ℕ) (ctx : lib.Context)
      → is_open ctx ≡ false
      → is_open (lib.usb_open v p ctx).1 ≡ (lib.usb_open v p ctx).0
  pub close_done : (ctx : lib.Context) → is_open (lib.usb_close ctx) ≡ false
  pub reset_keeps : (ctx : lib.Context) → is_open (lib.usb_reset ctx).1 ≡ is_open ctx
  pub event_keeps :
      (c e : ℕ) (ctx : lib.Context) → is_open (lib.set_event_char c e ctx).1 ≡ is_open ctx
  pub error_keeps :
      (c e : ℕ) (ctx : lib.Context) → is_open (lib.set_error_char c e ctx).1 ≡ is_open ctx
  pub flowctrl_keeps : (f : ℕ) (ctx : lib.Context) → is_open (lib.setflowctrl f ctx).1 ≡ is_open ctx
  pub bitmode_keeps :
      (b m : ℕ) (ctx : lib.Context) → is_open (lib.set_bitmode b m ctx).1 ≡ is_open ctx
  pub write_keeps : (d : Bytes) (ctx : lib.Context) → is_open (lib.write_data d ctx).1 ≡ is_open ctx

module _ (lib : Ftdi) (doc : Documented lib) where
  -- Open after a success; closed, with a message, after a failure.
  abbrev pub IsOpened : Ret lib → Type 0
  IsOpened (succeeded chb) = doc.is_open chb.ftdi ≡ true
  IsOpened (failed chb) = (doc.is_open chb.ftdi ≡ false) × (chb.error_str ≢ none)

  abbrev StaysOpen : Ret lib → Type 0
  StaysOpen (succeeded chb) = doc.is_open chb.ftdi ≡ true
  StaysOpen (failed chb) = chb.error_str ≢ none

  KeepsOpen : (Chb lib → Ret lib) → Type 0
  KeepsOpen step = (chb : Chb lib) → doc.is_open chb.ftdi ≡ true → StaysOpen (step chb)

  AllKeepOpen : List (Chb lib → Ret lib) → Type 0
  AllKeepOpen [] = Unit
  AllKeepOpen (step ∷ steps) = KeepsOpen step × AllKeepOpen steps

  call-StaysOpen :
      (chb : Chb lib) (r : Bool × lib.Context)
      → doc.is_open r.1 ≡ doc.is_open chb.ftdi
      → doc.is_open chb.ftdi ≡ true
      → StaysOpen (call lib chb r)
  call-StaysOpen chb (true, ctx) h k = h ∙ k
  call-StaysOpen chb (false, ctx) h k = λ e. ground arith

  request-KeepsOpen :
      (f : lib.Context → Bool × lib.Context)
      → ((ctx : lib.Context) → doc.is_open (f ctx).1 ≡ doc.is_open ctx)
      → KeepsOpen (request lib f)
  unfolding KeepsOpen
  request-KeepsOpen f keeps chb = call-StaysOpen chb (f chb.ftdi) (keeps chb.ftdi)

  and_then-StaysOpen :
      (r : Ret lib) (next : Chb lib → Ret lib)
      → StaysOpen r
      → KeepsOpen next
      → StaysOpen (and_then lib r next)
  unfolding KeepsOpen
  and_then-StaysOpen (succeeded chb) next h k = k chb h
  and_then-StaysOpen (failed chb) next h k = h

  run-KeepsOpen : (steps : List (Chb lib → Ret lib)) → AllKeepOpen steps → KeepsOpen (run lib steps)
  unfolding KeepsOpen AllKeepOpen
  run-KeepsOpen [] all chb h = h
  run-KeepsOpen (step ∷ steps) all chb h =
      and_then-StaysOpen (step chb) (run lib steps) (all.0 chb h) (run-KeepsOpen steps all.1)

  configure-KeepsOpen : KeepsOpen (configure lib)
  unfolding configure KeepsOpen AllKeepOpen
  configure-KeepsOpen = run-KeepsOpen (open_steps lib) (
    request-KeepsOpen lib.usb_reset doc.reset_keeps,
    (
      request-KeepsOpen (lib.set_event_char 0 0) (doc.event_keeps 0 0),
      (
        request-KeepsOpen (lib.set_error_char 0 0) (doc.error_keeps 0 0),
        (
          request-KeepsOpen (lib.setflowctrl lib.sio_rts_cts_hs)
              (doc.flowctrl_keeps lib.sio_rts_cts_hs),
          (
            request-KeepsOpen (lib.set_bitmode 0 lib.bitmode_reset)
                (doc.bitmode_keeps 0 lib.bitmode_reset),
            (
              request-KeepsOpen (lib.set_bitmode 0 lib.bitmode_mpsse)
                  (doc.bitmode_keeps 0 lib.bitmode_mpsse),
              (
                request-KeepsOpen (λ ctx. given (lib.write_data (lib.tck_divisor ∷ 0 ∷ 0 ∷ []) ctx))
                    (doc.write_keeps (lib.tck_divisor ∷ 0 ∷ 0 ∷ [])),
                (
                  request-KeepsOpen
                      (λ ctx. given (lib.write_data (lib.set_bits_low ∷ 8 ∷ 0x0b ∷ []) ctx))
                      (doc.write_keeps (lib.set_bits_low ∷ 8 ∷ 0x0b ∷ [])),
                  tt,
                ),
              ),
            ),
          ),
        ),
      ),
    ),
  )

  close_on_failure-IsOpened : (r : Ret lib) → StaysOpen r → IsOpened (close_on_failure lib r)
  close_on_failure-IsOpened (succeeded chb) h = h
  close_on_failure-IsOpened (failed chb) h = (doc.close_done chb.ftdi, h)

  opened :
      (chb : Chb lib) (r : Bool × lib.Context)
      → doc.is_open r.1 ≡ r.0
      → IsOpened (and_then lib (call lib chb r) (λ c. close_on_failure lib (configure lib c)))
  unfolding KeepsOpen
  opened chb (true, ctx) h =
      let chb' = record chb { ftdi = ctx } in
      close_on_failure-IsOpened (configure lib chb') (configure-KeepsOpen chb' h)
  opened chb (false, ctx) h = (h, λ e. ground arith)

  -- On a closed context, with libftdi as documented: when `chb_open` returns 0 the device is open;
  -- when it returns -1, whichever of its nine calls failed, the device is closed and an error
  -- message is set.
  pub chb_open-IsOpened :
      (chb : Chb lib) → doc.is_open chb.ftdi ≡ false → IsOpened (chb_open lib chb)
  unfolding chb_open
  chb_open-IsOpened chb h =
      opened chb (lib.usb_open 0x1d50 0x607c chb.ftdi) (doc.open_done 0x1d50 0x607c chb.ftdi h)
