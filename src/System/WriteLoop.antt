-- ===== src/System/WriteLoop.antt =====
-- The write loop ends, and what it writes is a prefix of what it was given: all of it, unless a
-- write fails. `appended` stands for the bytes that the log file has received so far.
use captains_log.Base.{
  ℕ, zero, suc, ◌+◌, ◌≤◌, ◌<◌, ◌≡◌, refl, sym, ap, ◌∙◌, ◌≢◌, inl, inr, ◌⊎◌, List, [], ◌∷◌, ◌++◌,
  append-nil, append_assoc, Outcome, returned, arith, length, take, drop, take-length, length-drop,
  Bool-cases, ◌==◌,
}
use captains_log.System.{WriteResult, wrote, failed, Os, write_loop, open_file}

-- What write(2) and open(2) guarantee on a regular file, documented by POSIX.
pub record OsLaws {W : Type 0} (os : Os W) (appended : W → List ℕ) : Type 0 where
  pub write_count :
      (fd : ℕ) (bytes : List ℕ) (w w' : W) (n : ℕ)
      → os.write fd bytes w ≡ (wrote n, w')
      → n ≤ length bytes
  pub write_progress :
      (fd : ℕ) (bytes : List ℕ) (w w' : W) (n : ℕ)
      → os.write fd bytes w ≡ (wrote n, w')
      → 0 < length bytes
      → 0 < n
  pub write_bytes :
      (fd : ℕ) (bytes : List ℕ) (w w' : W) (n : ℕ)
      → os.write fd bytes w ≡ (wrote n, w')
      → appended w' ≡ appended w ++ take n bytes
  pub write_failed :
      (fd : ℕ) (bytes : List ℕ) (w w' : W)
      → os.write fd bytes w ≡ (failed, w')
      → appended w' ≡ appended w
  pub open_keeps : (w : W) → appended (open_file os w).1 ≡ appended w

-- No write fails: the disk is neither broken nor full.
abbrev pub NeverFails : {W : Type 0} → Os W → Type 0
NeverFails {W} os = (fd : ℕ) (bytes : List ℕ) (w : W) → (os.write fd bytes w).0 ≢ failed

take-nil : (k : ℕ) → take {A = ℕ} k [] ≡ []
take-nil zero = refl
take-nil (suc k) = refl

take-append-take : (n k : ℕ) (xs : List ℕ) → take n xs ++ take k (drop n xs) ≡ take (n + k) xs
take-append-take zero k xs = ap (λ m. take m xs) (omega arith)
take-append-take (suc n) k [] = take-nil k ∙ sym (take-nil (suc n + k))
take-append-take (suc n) k (x ∷ xs) =
    ap (◌∷◌ x) (take-append-take n k xs)
    ∙ ap (λ m. take m (x ∷ xs)) (let e : suc (n + k) ≡ suc n + k = omega arith in e)

module _ {W : Type 0} (os : Os W) {appended : W → List ℕ} (laws : OsLaws os appended) where
  -- The run returned, having appended the first `k` of the bytes: all, or a write failed.
  abbrev pub Wrote : ℕ → List ℕ → W → Outcome W → Type 0
  Wrote fd bytes w r =
      (w' : W) × (k : ℕ) × (r ≡ returned w')
      × (appended w' ≡ appended w ++ take k bytes)
      × ((k ≡ length bytes) ⊎ ((left : List ℕ) × (v : W) × ((os.write fd left v).0 ≡ failed)))

  round :
      (fuel fd : ℕ) (bytes : List ℕ) (w : W)
      → length bytes < suc fuel
      → ((rest : List ℕ) (w1 : W)
          → length rest < fuel
          → Wrote fd rest w1 (write_loop os fuel fd rest w1))
      → (r : WriteResult) (w1 : W) → os.write fd bytes w ≡ (r, w1)
      → Wrote fd bytes w (write_loop os (suc fuel) fd bytes w)
  unfolding write_loop
  round fuel fd bytes w h ih failed w1 e = (
    w1,
    0,
    ground arith,
    laws.write_failed fd bytes w w1 e ∙ sym (append-nil (appended w)),
    inr (bytes, w, ap (λ r. r.0) e),
  )
  round fuel fd bytes w h ih (wrote n) w1 e = elim (Bool-cases (n == length bytes)) [
    | inl all ↦ (w1, n, ground arith, laws.write_bytes fd bytes w w1 n e, inl (ground arith))
    | inr part ↦
        let (w2, k, run, bytes2, whole) = ih (drop n bytes) w1 (
          ground (
            arith,
            length-drop n bytes,
            laws.write_count fd bytes w w1 n e,
            laws.write_progress fd bytes w w1 n e,
          )) in
        (
          w2,
          n + k,
          ground arith,
          bytes2
              ∙ ap (λ xs. xs ++ take k (drop n bytes)) (laws.write_bytes fd bytes w w1 n e)
              ∙ append_assoc (appended w) (take n bytes) (take k (drop n bytes))
              ∙ ap (◌++◌ (appended w)) (take-append-take n k bytes),
          elim whole [
            | inl all ↦
                inl (omega (arith, all, length-drop n bytes, laws.write_count fd bytes w w1 n e))
            | inr bad ↦ inr bad
          ],
        )
  ]

  -- With more fuel than bytes, where each write takes at least one (`OsLaws`), the loop returns,
  -- having appended all of the bytes, or a prefix of them where a write failed.
  pub write_loop_total :
      (fuel fd : ℕ) (bytes : List ℕ) (w : W)
      → length bytes < fuel
      → Wrote fd bytes w (write_loop os fuel fd bytes w)
  write_loop_total zero fd bytes w h = absurd (omega arith)
  write_loop_total (suc fuel) fd bytes w h =
      round fuel fd bytes w h (write_loop_total fuel fd) (os.write fd bytes w).0
        (os.write fd bytes w).1 refl

  -- If no write fails, and each takes at least one byte (`OsLaws`), the loop returns and all of
  -- the bytes have reached the file, in order.
  pub write_loop_complete :
      (fd : ℕ) (bytes : List ℕ) (w : W)
      → NeverFails os
      → (w' : W) × (write_loop os (suc (length bytes)) fd bytes w ≡ returned w')
        × (appended w' ≡ appended w ++ bytes)
  write_loop_complete fd bytes w fine =
      let (w', k, run, bytes', whole) =
        write_loop_total (suc (length bytes)) fd bytes w (omega arith) in
      elim whole [
        | inl all ↦ (
          w',
          run,
          bytes'
              ∙ ap (λ m. appended w ++ take m bytes) all
              ∙ ap (◌++◌ (appended w)) (take-length bytes),
        )
        | inr (left, v, bad) ↦ absurd (fine fd left v bad)
      ]
