-- ===== src/Cha/Sync.antt =====
-- What cha_sync_stream of src/cha.c finds in the stream.
use libopenvizsla.Prelude.{
  ℕ, zero, suc, ◌+◌, ◌^◌, ◌≤◌, ◌<◌, ◌≡◌, ◌≢◌, refl, sym, ap, ◌∙◌, ◌⊎◌, inl, inr, ◌==◌, false,
  Bool-cases, ==_iff, Option, none, some, [], ◌∷◌, ◌++◌, append-nil, append_assoc, Bytes, length,
  take, take-length_le, get_or, Ret, ok, failed, waiting, and_then, arith,
}
use libopenvizsla.Ftdi.{Ftdi}
use libopenvizsla.Cha.State.{Cha, ChaAction, call_result}
use libopenvizsla.Cha.Message.{message}
use libopenvizsla.Cha.Transaction.{synced_with, scan, sync_loop}

module _ (msg : Bytes) where
  -- The bytes end with the first `n` of the message.
  abbrev EndsWith : Bytes → ℕ → Type 0
  EndsWith seen n = (pre : Bytes) × (seen ≡ pre ++ take n msg)

  -- The message stands somewhere in the bytes.
  abbrev pub Contains : Bytes → Type 0
  Contains seen = (pre : Bytes) × (rest : Bytes) × (seen ≡ pre ++ (msg ++ rest))

  abbrev Scanned : Bytes → ℕ → Type 0
  Scanned seen n = ((n ≡ 5) × Contains seen) ⊎ ((n < 5) × EndsWith seen n)

take_next :
    (n : ℕ) (msg : Bytes) → n < length msg → take (n + 1) msg ≡ take n msg ++ (get_or msg n 0 ∷ [])
take_next zero [] h = absurd (omega arith)
take_next zero (x ∷ msg) h = refl
take_next (suc n) [] h = absurd (omega arith)
take_next (suc n) (x ∷ msg) h =
    let e : suc n + 1 ≡ suc (n + 1) = omega arith in
    rw e (ap (λ t. x ∷ t) (take_next n msg (omega arith)))

module _ (msg : Bytes) (five : length msg ≡ 5) where
  EndsWith-next :
      (seen : Bytes) (n b : ℕ)
      → n < 5
      → b ≡ get_or msg n 0
      → EndsWith msg seen n
      → EndsWith msg (seen ++ (b ∷ [])) (n + 1)
  EndsWith-next seen n b h e (pre, at) = (
    pre,
    rw (at, take_next n msg (omega arith), e) (append_assoc pre (take n msg) (get_or msg n 0 ∷ [])),
  )

  found : (seen bs : Bytes) (n : ℕ) → n ≡ 5 → EndsWith msg seen n → Contains msg (seen ++ bs)
  found seen bs n e (pre, at) =
      (pre, bs, rw (at, e, take-length_le 5 msg (omega arith)) (append_assoc pre msg bs))

  snoc : (seen : Bytes) (b : ℕ) (bs : Bytes) → (seen ++ (b ∷ [])) ++ bs ≡ seen ++ (b ∷ bs)
  snoc seen b bs = append_assoc seen (b ∷ []) bs

  scan_lem :
      (bs seen : Bytes) (n : ℕ)
      → n < 5
      → EndsWith msg seen n
      → Scanned msg (seen ++ bs) (scan msg n bs)
  unfolding scan
  scan_lem [] seen n h e = inr (h, rw (append-nil seen) e)
  scan_lem (b ∷ bs) seen n h e = rw (← snoc seen b bs) (elim (Bool-cases (b == get_or msg n 0)) [
    | inl same ↦
        let next = EndsWith-next seen n b h ((==_iff b (get_or msg n 0)).0 same) e in
        elim (Bool-cases (n + 1 == 5)) [
          | inl whole ↦
              rw (same, whole)
                (inl (refl, found (seen ++ (b ∷ [])) bs (n + 1) ((==_iff (n + 1) 5).0 whole) next))
          | inr part ↦ rw (same, part) (scan_lem bs (seen ++ (b ∷ [])) (n + 1) (ground arith) next)
        ]
    | inr other ↦ rw other (
        scan_lem bs (seen ++ (b ∷ [])) 0 (omega arith)
          (seen ++ (b ∷ []), sym (append-nil (seen ++ (b ∷ [])))))
  ])

not_five : (n : ℕ) → n < 5 → (n == 5) ≡ false
not_five n h = ground arith

-- What the reads give: the bytes of the first `n`, up to one that fails.
module _ (lib : Ftdi) where
  abbrev pub then_bytes : (lib.Context → Bytes) → Option Bytes × lib.Context → Bytes
  then_bytes more (none, ctx) = []
  then_bytes more (some bs, ctx) = bs ++ more ctx

  unfoldable pub stream : ℕ → lib.Context → Bytes
  stream zero ctx = []
  stream (suc n) ctx = then_bytes (stream n) (lib.read_data 32 ctx)

  -- After a success the message stands in `seen` and what the reads from `ctx` on gave.
  abbrev pub IsSynced : Bytes → Bytes → lib.Context → Ret (Cha lib) (Unit {0}) → Type 0
  IsSynced msg seen ctx (ok a cha) = (n : ℕ) × Contains msg (seen ++ stream n ctx)
  IsSynced msg seen ctx (failed cha) = Unit
  IsSynced msg seen ctx (waiting cha) = Unit

  -- Bytes behind the message do not matter.
  Contains-append : (msg xs ys : Bytes) → Contains msg xs → Contains msg (xs ++ ys)
  Contains-append msg xs ys (pre, rest, e) = (
    pre,
    rest ++ ys,
    rw e (append_assoc pre (msg ++ rest) ys ∙ ap (λ t. pre ++ t) (append_assoc msg rest ys)),
  )

  later :
      (msg seen buf : Bytes) (ctx : lib.Context) (c : lib.Context) (r : Ret (Cha lib) (Unit {0}))
      → lib.read_data 32 ctx ≡ (some buf, c)
      → IsSynced msg (seen ++ buf) c r
      → IsSynced msg seen ctx r
  unfolding stream
  later msg seen buf ctx c (ok a cha) h (n, k) =
      (suc n, rw h (rw (← append_assoc seen buf (stream n c)) k))
  later msg seen buf ctx c (failed cha) h k = tt
  later msg seen buf ctx c (waiting cha) h k = tt

  round-IsSynced :
      (msg seen : Bytes) (n : ℕ) (cha : Cha lib) (again : ℕ → ChaAction lib (Unit {0}))
      (r : Option Bytes × lib.Context)
      → length msg ≡ 5
      → n < 5
      → EndsWith msg seen n
      → lib.read_data 32 cha.ftdi ≡ r
      → ((s : Bytes) (k : ℕ) (c : lib.Context)
          → k < 5
          → EndsWith msg s k
          → IsSynced msg s c (again k (record cha { ftdi = c })))
      → IsSynced msg seen cha.ftdi (and_then (call_result r cha) (synced_with lib msg again n))
  round-IsSynced msg seen n cha again (none, c) five h e read ih = tt
  round-IsSynced msg seen n cha again (some buf, c) five h e read ih =
      later msg seen buf cha.ftdi c _ read (elim (scan_lem msg five buf seen n h e) [
        | inl (done, whole) ↦ rw (done) (0, Contains-append msg (seen ++ buf) (stream 0 c) whole)
        | inr (lt, part) ↦
            rw (not_five (scan msg n buf) lt) (ih (seen ++ buf) (scan msg n buf) c lt part)
      ])

  sync_loop-IsSynced :
      (fuel : ℕ) (msg seen : Bytes) (n : ℕ) (cha : Cha lib)
      → length msg ≡ 5
      → n < 5
      → EndsWith msg seen n
      → IsSynced msg seen cha.ftdi (sync_loop lib fuel msg n cha)
  unfolding sync_loop
  sync_loop-IsSynced zero msg seen n cha five h e = tt
  sync_loop-IsSynced (suc fuel) msg seen n cha five h e =
      round-IsSynced msg seen n cha (sync_loop lib fuel msg) (lib.read_data 32 cha.ftdi) five h e
        refl
        (λ s k c lt part. sync_loop-IsSynced fuel msg s k (record cha { ftdi = c }) five lt part)

  -- When the waiting loop of cha_sync_stream ends with success, whatever it read and in however
  -- many pieces, the message that was sent stands, whole and unbroken, in the bytes that were read.
  pub sync_loop_lem :
      (fuel addr : ℕ) (cha : Cha lib)
      → IsSynced (message addr 0) [] cha.ftdi (sync_loop lib fuel (message addr 0) 0 cha)
  unfolding message
  sync_loop_lem fuel addr cha =
      sync_loop-IsSynced fuel (message addr 0) [] 0 cha refl (omega arith) ([], refl)

-- The scan misses a message: for every address with the upper bit set, as cha_switch_fifo_mode
-- uses it, a byte 0x55 in front of the message, the message's own first byte, makes the scan of
-- both fail.
pub scan-missed :
    (addr : ℕ) → 2 ^ 15 ≤ addr → addr < 2 ^ 16 → scan (message addr 0) 0 (0x55 ∷ message addr 0) ≢ 5
unfolding scan message
scan-missed addr low high = ground arith
