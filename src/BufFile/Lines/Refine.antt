-- ===== src/BufFile/Lines/Refine.antt =====
-- `write` of a buffered log file flushes the batches of lines that `plan` names, one by one.
use captains_log.Base.{
  All, ◌<◌, ℕ, ◌≡◌, sym, ap, ◌∙◌, inl, inr, List, [], ◌∷◌, ◌++◌, append-nil, true, false, Outcome,
  returned, ◌>>=◌, length, concat, Bool-cases, leb,
}
use captains_log.System.{Os}
use captains_log.Rotation.Limits.{Archive}
use captains_log.BufFile.{Writer, is_full, flush, flush_if, write}
use captains_log.BufFile.Steady.{Steady, IsReady, IsOpen}
use captains_log.BufFile.Bytes.{flush_lem}
use captains_log.BufFile.Lines.{
  Fits, plan-Fits, plan_partition, Line, plan, add_line, overflows, plan_full, plan_room,
  concat-snoc,
}

abbrev pub set_buf : {W : Type 0} → List ℕ → Writer W → Writer W
set_buf bytes s = record s { inner = record s.inner { buf = bytes } }

module _ {W : Type 0} (os : Os W) (archive : Archive W) where
  -- Each batch is flushed by a flush of its own.
  pub run_batches : List (List Line) → Writer W → Outcome (Writer W)
  run_batches [] s = returned s
  run_batches (lines ∷ batches) s = do
    s' ← flush os archive false (set_buf (concat lines) s)
    run_batches batches s'

module _ {W : Type 0} (os : Os W) (archive : Archive W) {appended : W → List ℕ}
    (steady : Steady os archive appended) where
  -- The second half of `write`, from a buffer that holds `bytes`.
  abbrev store : ℕ → List ℕ → Writer W → Outcome (Writer W)
  store limit bytes s = flush_if os archive (leb limit (length bytes)) (set_buf bytes s)

  set_buf_self : (s : Writer W) (bytes : List ℕ) → s.buf ≡ bytes → s ≡ set_buf bytes s
  set_buf_self s bytes e = ap (λ b. set_buf b s) e

  store-refines :
      (limit : ℕ) (lines : List Line) (s : Writer W)
      → IsOpen s
      → IsReady s
      → (s' : Writer W) × (run_batches os archive (add_line limit [] lines).batches s ≡ returned s')
        × (store limit (concat lines) s
            ≡ returned (set_buf (concat (add_line limit [] lines).pending) s'))
  unfolding add_line run_batches
  store-refines limit lines s o r = elim (Bool-cases (leb limit (length (concat lines)))) [
    | inl yea ↦
        let (s1, run, fl) = flush_lem os archive steady false (set_buf (concat lines) s) o r in
        (s1, rw (yea, run), rw yea (run ∙ ap returned (set_buf_self s1 [] fl.buffer)))
    | inr nay ↦ (s, rw nay, rw nay)
  ]

  write_full :
      (limit : ℕ) (line : Line) (s s1 : Writer W)
      → is_full s line ≡ true
      → flush os archive false s ≡ returned s1
      → s1.flush_size ≡ limit
      → write os archive line s ≡ store limit (s1.buf ++ line) s1
  unfolding write
  write_full limit line s s1 full run same =
      rw (full, run)
        (ap
          (λ m. flush_if os archive (leb m (length (s1.buf ++ line))) (set_buf (s1.buf ++ line) s1))
          same)

  write_room :
      (limit : ℕ) (line : Line) (s : Writer W)
      → is_full s line ≡ false
      → s.flush_size ≡ limit
      → write os archive line s ≡ store limit (s.buf ++ line) s
  unfolding write
  write_room limit line s room same = rw room (
      ap (λ m. flush_if os archive (leb m (length (s.buf ++ line))) (set_buf (s.buf ++ line) s))
        same)

  run_batches-cons :
      (lines : List Line) (batches : List (List Line)) (s s1 s2 : Writer W)
      → s.buf ≡ concat lines
      → flush os archive false s ≡ returned s1
      → run_batches os archive batches s1 ≡ returned s2
      → run_batches os archive (lines ∷ batches) s ≡ returned s2
  unfolding run_batches
  run_batches-cons lines batches s s1 s2 e run rest =
      ap (λ m. flush os archive false m >>= run_batches os archive batches)
        (sym (set_buf_self s (concat lines) e))
      ∙ rw run rest

  -- Writing a line to an open file, whose buffer holds the lines `pending`, is flushing the batches of
  -- the plan and leaving its pending lines in the buffer; both return.
  pub write_refines_plan :
      (limit : ℕ) (pending : List Line) (line : Line) (s : Writer W)
      → s.flush_size ≡ limit
      → s.buf ≡ concat pending
      → IsOpen s
      → IsReady s
      → (s' : Writer W) × (run_batches os archive (plan limit pending line).batches s ≡ returned s')
        × (write os archive line s
            ≡ returned (set_buf (concat (plan limit pending line).pending) s'))
  write_refines_plan limit pending line s m e o r =
      elim (Bool-cases (overflows limit pending line)) [
        | inl full ↦
            let (s1, run, fl) = flush_lem os archive steady false s o r in
            let (s', rest, stored) = store-refines limit (line ∷ []) s1 fl.opened fl.ready in
            let bytes : s1.buf ++ line ≡ line ++ [] =
              ap (λ b. b ++ line) fl.buffer ∙ sym (append-nil line) in
            (
              s',
              rw (plan_full limit pending line full) (
                  run_batches-cons pending (add_line limit [] (line ∷ [])).batches s s1 s' e run
                    rest),
              write_full limit line s s1 (rw (m, e) full) run (fl.limit ∙ m)
                  ∙ ap (λ b. store limit b s1) bytes
                  ∙ rw (plan_full limit pending line full) stored,
            )
        | inr room ↦
            let (s', run, stored) = store-refines limit (pending ++ line ∷ []) s o r in
            (
              s',
              rw (plan_room limit pending line room) run,
              write_room limit line s (rw (m, e) room) m
                  ∙ ap (λ b. store limit b s)
                      (ap (λ b. b ++ line) e ∙ sym (concat-snoc pending line))
                  ∙ rw (plan_room limit pending line room) stored,
            )
      ]

  -- Where the system calls and the archive behave (`Steady`), writing a line to an open file with
  -- a known creation time, whose buffer holds whole lines below the limit, returns. It flushes
  -- groups of whole lines, one flush for each group, and leaves whole lines below the limit in the
  -- buffer. Each group is within the limit, or is one line with at most empty lines before it. The
  -- groups and what is left are the old lines and the new one, in order.
  pub write-Fits :
      (limit : ℕ) (pending : List Line) (line : Line) (s : Writer W)
      → 0 < limit
      → length (concat pending) < limit
      → s.flush_size ≡ limit
      → s.buf ≡ concat pending
      → IsOpen s
      → IsReady s
      → (groups : List (List Line)) × (left : List Line) × (s' : Writer W) × (run_batches os archive
            groups s
          ≡ returned s')
        × (write os archive line s ≡ returned (set_buf (concat left) s'))
        × (concat groups ++ left ≡ pending ++ line ∷ [])
        × All (Fits limit) groups
        × (length (concat left) < limit)
  write-Fits limit pending line s pos small m e o r =
      let (s', run, written) = write_refines_plan limit pending line s m e o r in
      let (fit, rest) = plan-Fits limit pending line pos small in
      (
        (plan limit pending line).batches,
        (plan limit pending line).pending,
        s',
        run,
        written,
        plan_partition limit pending line,
        fit,
        rest,
      )
