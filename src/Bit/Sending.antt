-- ===== src/Bit/Sending.antt =====
-- What bit_load_firmware of src/bit.c sends, and when.
use mathlib.Core.List.{map-append}
use libopenvizsla.Prelude.{
  ℕ, zero, suc, ◌+◌, ◌%◌, ◌≤◌, ◌<◌, ◌≡◌, ◌≢◌, refl, sym, ap, ◌∙◌, ltb, Bool, true, false,
  Bool-cases, inl, inr, Option, none, some, [], ◌∷◌, ◌++◌, append-nil, append_assoc, Bytes, length,
  take, drop, map, length-drop, length-take, take-append-drop, arith,
}
use libopenvizsla.Ftdi.{Ftdi}
use libopenvizsla.Chb.Port.{Got, read, not_read, chb_get_high, is_done}
use libopenvizsla.Bit.Reverse.{bitreverse8}
use libopenvizsla.Bit.Loader.{
  buffer_size, Loader, Flight, Load, loaded, refused, overwritten, null_transfer, out_of_fuel,
  then_load, waited, wait_if, submitted, submit, is_sending, send_loop, wait_last, init_cycles,
  after_read, after_write, wait_done, bit_load_firmware,
}

-- What the loader relies on of libftdi: the device gets the buffers in the order in which they are
-- submitted, and the bytes of a write behind them; waiting sends nothing.
pub record Recorder (lib : Ftdi) : Type 0 where
  pub sent : lib.Context → Bytes
  pub submit_sent :
      (buf : Bytes) (ctx ctx' : lib.Context) (tc : lib.Transfer)
      → lib.write_data_submit buf ctx ≡ (some tc, ctx')
      → sent ctx' ≡ sent ctx ++ buf
  pub wait_sent :
      (tc : lib.Transfer) (ctx ctx' : lib.Context) (done : Bool)
      → lib.transfer_data_done tc ctx ≡ (done, ctx')
      → sent ctx' ≡ sent ctx
  pub write_sent :
      (bytes : Bytes) (ctx ctx' : lib.Context) (n : ℕ)
      → lib.write_data bytes ctx ≡ (some n, ctx')
      → sent ctx' ≡ sent ctx ++ take n bytes

module _ (lib : Ftdi) where
  -- No buffer is written while it is sent, no null transfer is waited for, and the fuel is enough;
  -- after a success `P` holds.
  abbrev pub Sends : {A : Type 0} → (A → Loader lib → Type 0) → Load lib A → Type 0
  Sends P (loaded a l) = P a l
  Sends P (refused l) = Unit
  Sends P overwritten = ⊥
  Sends P null_transfer = ⊥
  Sends P out_of_fuel = ⊥

  Sends-then :
      {A B : Type 0} (P : A → Loader lib → Type 0) (Q : B → Loader lib → Type 0) (r : Load lib A)
      (next : A → Loader lib → Load lib B)
      → Sends P r
      → ((a : A) (l : Loader lib) → P a l → Sends Q (next a l))
      → Sends Q (then_load lib r next)
  Sends-then P Q (loaded a l) next h k = k a l h
  Sends-then P Q (refused l) next h k = tt
  Sends-then P Q overwritten next h k = h
  Sends-then P Q null_transfer next h k = h
  Sends-then P Q out_of_fuel next h k = h

module _ (lib : Ftdi) (rec : Recorder lib) where
  abbrev pub bytes_of : Loader lib → Bytes
  bytes_of l = rec.sent l.cha.ftdi

  -- The bytes `xs` were sent since `l0`.
  abbrev HasSent : {A : Type 0} → Loader lib → Bytes → A → Loader lib → Type 0
  HasSent l0 xs a l = bytes_of l ≡ bytes_of l0 ++ xs

  waited-Sends :
      (tc : lib.Transfer) (l : Loader lib) (r : Bool × lib.Context)
      → lib.transfer_data_done tc l.cha.ftdi ≡ r
      → Sends lib (λ _ l'. bytes_of l' ≡ bytes_of l) (waited lib r l)
  waited-Sends tc l (true, ctx) e = rec.wait_sent tc l.cha.ftdi ctx true e
  waited-Sends tc l (false, ctx) e = tt

  wait_if-Sends :
      (tc : Flight lib) (l : Loader lib)
      → Sends lib (λ _ l'. bytes_of l' ≡ bytes_of l) (wait_if lib tc l)
  wait_if-Sends none l = refl
  wait_if-Sends (some (bidx, tc)) l = waited-Sends tc l (lib.transfer_data_done tc l.cha.ftdi) refl

  -- A transfer under way that sends the buffer `bidx`.
  abbrev IsFlying : ℕ → Flight lib → Type 0
  IsFlying bidx none = ⊥
  IsFlying bidx (some (other, tc)) = other ≡ bidx

  submitted-Sends :
      (bidx : ℕ) (buf : Bytes) (l : Loader lib) (r : Option lib.Transfer × lib.Context)
      → lib.write_data_submit buf l.cha.ftdi ≡ r
      → Sends lib
          (λ tc l'. IsFlying bidx tc × (bytes_of l' ≡ bytes_of l ++ buf))
          (submitted lib bidx r l)
  submitted-Sends bidx buf l (none, ctx) e = tt
  submitted-Sends bidx buf l (some tc, ctx) e = (refl, rec.submit_sent buf l.cha.ftdi ctx tc e)

  -- The loop's state: no transfer before the first round, and then one from the other buffer.
  abbrev IsReady : ℕ → Flight lib → Type 0
  IsReady bidx none = Unit
  IsReady bidx (some (other, tc)) = (other + bidx ≡ 1)

  not_sending : (bidx : ℕ) (tc : Flight lib) → IsReady bidx tc → is_sending lib bidx tc ≡ false
  not_sending bidx none h = refl
  not_sending bidx (some (other, tc)) h = ground arith

  IsFlying-IsReady :
      (bidx : ℕ) (tc : Flight lib) → bidx < 2 → IsFlying bidx tc → IsReady ((bidx + 1) % 2) tc
  IsFlying-IsReady bidx none h k = tt
  IsFlying-IsReady bidx (some (other, tc)) h k = omega arith

  chunks_join :
      (old new xs : Bytes) (n : ℕ)
      → new ≡ old ++ map bitreverse8 (take n xs)
      → new ++ map bitreverse8 (drop n xs) ≡ old ++ map bitreverse8 xs
  chunks_join old new xs n h = rw h (
      append_assoc old (map bitreverse8 (take n xs)) (map bitreverse8 (drop n xs))
      ∙ ap (λ t. old ++ t)
          (sym (map-append bitreverse8 (take n xs) (drop n xs))
            ∙ ap (map bitreverse8) (take-append-drop n xs)))

  IsFlying-ne-none : (bidx : ℕ) (tc : Flight lib) → IsFlying bidx tc → tc ≢ none
  IsFlying-ne-none bidx none h = absurd h
  IsFlying-ne-none bidx (some (other, tc)) h = λ e. ground arith

  -- What holds of the rest of the data holds of all of it.
  joined :
      (l0 l : Loader lib) (xs : Bytes) (n : ℕ) (r : Load lib (Flight lib))
      → bytes_of l ≡ bytes_of l0 ++ map bitreverse8 (take n xs)
      → Sends lib
          (λ tc l'. (tc ≢ none) × (bytes_of l' ≡ bytes_of l ++ map bitreverse8 (drop n xs)))
          r
      → Sends lib (λ tc l'. (tc ≢ none) × (bytes_of l' ≡ bytes_of l0 ++ map bitreverse8 xs)) r
  joined l0 l xs n (loaded tc l') h (some', e) =
      (some', e ∙ chunks_join (bytes_of l0) (bytes_of l) xs n h)
  joined l0 l xs n (refused l') h k = tt
  joined l0 l xs n overwritten h k = k
  joined l0 l xs n null_transfer h k = k
  joined l0 l xs n out_of_fuel h k = k

  send_loop-Sends :
      (fuel bidx : ℕ) (tc : Flight lib) (xs : Bytes) (l : Loader lib)
      → bidx < 2
      → length xs ≤ fuel
      → IsReady bidx tc
      → (xs ≡ [] → tc ≢ none)
      → Sends lib
          (λ tc' l'. (tc' ≢ none) × (bytes_of l' ≡ bytes_of l ++ map bitreverse8 xs))
          (send_loop lib fuel bidx tc xs l)
  unfolding send_loop
  send_loop-Sends zero bidx tc [] l lt h ready some' = (some' refl, sym (append-nil (bytes_of l)))
  send_loop-Sends (suc fuel) bidx tc [] l lt h ready some' =
      (some' refl, sym (append-nil (bytes_of l)))
  send_loop-Sends zero bidx tc (b ∷ bs) l lt h ready some' = absurd (omega arith)
  send_loop-Sends (suc fuel) bidx tc (b ∷ bs) l lt h ready some' =
      let xs = b ∷ bs in
      let buf = map bitreverse8 (take buffer_size xs) in
      rw (not_sending bidx tc ready) (
        Sends-then lib _ _ (wait_if lib tc l) _ (wait_if-Sends tc l) (λ u l1 e1.
          Sends-then lib _ _ (submit lib bidx buf l1) _
            (submitted-Sends bidx buf l1 (lib.write_data_submit buf l1.cha.ftdi) refl)
            (λ tc' l2 e2.
              joined l l2 xs buffer_size
                (send_loop lib fuel ((bidx + 1) % 2) tc' (drop buffer_size xs) l2)
                (e2.1 ∙ ap (λ t. t ++ buf) e1)
                (send_loop-Sends fuel ((bidx + 1) % 2) tc' (drop buffer_size xs) l2 (omega arith)
                  (omega (arith, length-drop buffer_size xs)) (IsFlying-IsReady bidx tc' lt e2.0)
                  (λ nil. IsFlying-ne-none bidx tc' e2.0)))))

abbrev pub AllZero : Bytes → Type 0
AllZero [] = Unit
AllZero (b ∷ bs) = (b ≡ 0) × AllZero bs

AllZero-take : (n : ℕ) (bs : Bytes) → AllZero bs → AllZero (take n bs)
AllZero-take zero bs h = tt
AllZero-take (suc n) [] h = tt
AllZero-take (suc n) (b ∷ bs) h = (h.0, AllZero-take n bs h.1)

AllZero-append : (xs ys : Bytes) → AllZero xs → AllZero ys → AllZero (xs ++ ys)
AllZero-append [] ys h k = k
AllZero-append (x ∷ xs) ys h k = (h.0, AllZero-append xs ys h.1 k)

module _ (lib : Ftdi) (rec : Recorder lib) where
  -- From `old` to `new` only zeros were sent.
  abbrev AddsZeros : Bytes → Bytes → Type 0
  AddsZeros old new = (zs : Bytes) × AllZero zs × (new ≡ old ++ zs)

  AddsZeros-refl : (old : Bytes) → AddsZeros old old
  AddsZeros-refl old = ([], tt, sym (append-nil old))

  AddsZeros-trans : (xs ys zs : Bytes) → AddsZeros xs ys → AddsZeros ys zs → AddsZeros xs zs
  AddsZeros-trans xs ys zs (as', h, e) (bs, k, f) =
      (as' ++ bs, AllZero-append as' bs h k, f ∙ ap (λ t. t ++ bs) e ∙ append_assoc xs as' bs)

  abbrev EndsWithZeros : Loader lib → Load lib (Unit {0}) → Type 0
  EndsWithZeros l = Sends lib (λ _ l'. AddsZeros (bytes_of lib rec l) (bytes_of lib rec l'))

  -- More zeros in front.
  EndsWithZeros-trans :
      (l l1 : Loader lib) (r : Load lib (Unit {0}))
      → AddsZeros (bytes_of lib rec l) (bytes_of lib rec l1)
      → EndsWithZeros l1 r
      → EndsWithZeros l r
  EndsWithZeros-trans l l1 (loaded a l') h k = AddsZeros-trans _ _ _ h k
  EndsWithZeros-trans l l1 (refused l') h k = tt
  EndsWithZeros-trans l l1 overwritten h k = k
  EndsWithZeros-trans l l1 null_transfer h k = k
  EndsWithZeros-trans l l1 out_of_fuel h k = k

  after_read-EndsWithZeros :
      (again : ℕ → Loader lib → Load lib (Unit {0})) (l : Loader lib) (got : Got lib)
      → ((status : ℕ) (l' : Loader lib) → EndsWithZeros l' (again status l'))
      → EndsWithZeros l (after_read lib again l got)
  after_read-EndsWithZeros again l (read status chb) ih = elim (Bool-cases (is_done status)) [
    | inl up ↦ rw up (AddsZeros-refl (bytes_of lib rec l))
    | inr down ↦ rw down (ih status (record l { chb = chb }))
  ]
  after_read-EndsWithZeros again l (not_read chb) ih = tt

  after_write-EndsWithZeros :
      (status : ℕ) (again : ℕ → Loader lib → Load lib (Unit {0})) (l : Loader lib)
      (r : Option ℕ × lib.Context)
      → lib.write_data init_cycles l.cha.ftdi ≡ r
      → ((s : ℕ) (l' : Loader lib) → EndsWithZeros l' (again s l'))
      → EndsWithZeros l (after_write lib status again r l)
  after_write-EndsWithZeros status again l (none, ctx) e ih = tt
  after_write-EndsWithZeros status again l (some n, ctx) e ih =
      let l1 = record l { cha = record (l.cha) { ftdi = ctx } } in
      let zeros : AddsZeros (bytes_of lib rec l) (bytes_of lib rec l1) = (
        take n init_cycles,
        AllZero-take n init_cycles (omega arith),
        rec.write_sent init_cycles l.cha.ftdi ctx n e,
      ) in
      elim (Bool-cases (ltb 0 n)) [
        | inl some' ↦ rw some' (
            EndsWithZeros-trans l l1 _ zeros
              (after_read-EndsWithZeros again l1 (chb_get_high lib status l.chb) ih))
        | inr none' ↦ rw none' zeros
      ]

  wait_done-EndsWithZeros :
      (try status : ℕ) (l : Loader lib) → EndsWithZeros l (wait_done lib try status l)
  unfolding wait_done
  wait_done-EndsWithZeros zero status l = elim (Bool-cases (is_done status)) [
    | inl up ↦ rw up (AddsZeros-refl (bytes_of lib rec l))
    | inr down ↦ rw down tt
  ]
  wait_done-EndsWithZeros (suc try) status l =
      after_write-EndsWithZeros status (wait_done lib try) l (lib.write_data init_cycles l.cha.ftdi)
        refl (wait_done-EndsWithZeros try)

  wait_last-Sends :
      (tc : Flight lib) (l : Loader lib)
      → tc ≢ none
      → Sends lib (λ _ l'. bytes_of lib rec l' ≡ bytes_of lib rec l) (wait_last lib tc l)
  wait_last-Sends none l h = absurd (h refl)
  wait_last-Sends (some (bidx, tc)) l h =
      waited-Sends lib rec tc l (lib.transfer_data_done tc l.cha.ftdi) refl

  -- What the whole load sent.
  abbrev pub HasLoaded : Bytes → Loader lib → Load lib (Unit {0}) → Type 0
  HasLoaded bits l0 = Sends lib (λ _ l.
      (zs : Bytes) × AllZero zs
      × (bytes_of lib rec l ≡ bytes_of lib rec l0 ++ (map bitreverse8 bits ++ zs)))

  whole :
      (old mid new xs : Bytes)
      → mid ≡ old ++ xs
      → AddsZeros mid new
      → (zs : Bytes) × AllZero zs × (new ≡ old ++ (xs ++ zs))
  whole old mid new xs h (zs, k, e) = (zs, k, e ∙ ap (λ t. t ++ zs) h ∙ append_assoc old xs zs)

  whole-HasLoaded :
      (bits : Bytes) (l0 l : Loader lib) (r : Load lib (Unit {0}))
      → bytes_of lib rec l ≡ bytes_of lib rec l0 ++ map bitreverse8 bits
      → EndsWithZeros l r
      → HasLoaded bits l0 r
  whole-HasLoaded bits l0 l (loaded a l') h k = whole _ _ _ (map bitreverse8 bits) h k
  whole-HasLoaded bits l0 l (refused l') h k = tt
  whole-HasLoaded bits l0 l overwritten h k = k
  whole-HasLoaded bits l0 l null_transfer h k = k
  whole-HasLoaded bits l0 l out_of_fuel h k = k

  -- On a file with at least one byte left: bit_load_firmware never writes to a buffer that a transfer
  -- is sending, never waits for a null transfer, and ends. When it returns 0, the device was sent
  -- each of the `size` bytes with its bits turned around, once and in order, and behind them nothing
  -- but zeros.
  pub bit_load_firmware-HasLoaded :
      (source : Bytes) (size : ℕ) (l : Loader lib)
      → 0 < size
      → size ≤ length source
      → HasLoaded (take size source) l (bit_load_firmware lib source size l)
  unfolding bit_load_firmware
  bit_load_firmware-HasLoaded source size l0 pos fits =
      let xs = take size source in
      Sends-then lib _ _ (send_loop lib (length xs) 0 none xs l0) _
        (send_loop-Sends lib rec (length xs) 0 none xs l0 (omega arith) (omega arith) tt
          (λ nil. absurd (omega (arith, ap length nil, length-take size source))))
        (λ tc l1 e1.
          Sends-then lib _ _ (wait_last lib tc l1) _ (wait_last-Sends tc l1 e1.0) (λ u l2 e2.
            whole-HasLoaded xs l0 l2 (wait_done lib 3 0 l2) (e2 ∙ e1.1)
              (wait_done-EndsWithZeros 3 0 l2)))
