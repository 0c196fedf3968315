-- ===== src/Macros/Evaluations.antt =====
-- How often the assertions of src/macros.rs run the expressions that they are given.
use captains_log.Base.{
  ℕ, ◌+◌, ◌≡◌, refl, ◌∙◌, inl, inr, Bool, true, false, not, Bool-cases, arith, if◌then◌else◌,
}
use captains_log.Filter.{Filter, Site, Record}
use captains_log.Macros.{
  Expr, Process, Messages, Ran, finished, panics, world_of, enabled, run_log_filter, shown, value,
  logger_assert, logger_assert_args, logger_assert_eq, logger_assert_eq_args,
}

abbrev pub has_panicked : {W : Type 0} → Ran W → Bool
has_panicked (finished w) = false
has_panicked (panics text w) = true

module _ {V W A : Type 0} (p : Process V W) (msgs : Messages A) (evaluations : W → ℕ)
    (emit_keeps : (r : Record V) (w : W) → evaluations (p.emit r w) ≡ evaluations w) where
  -- Each run of the expression is counted.
  abbrev pub Counts : {B : Type 0} → Expr W B → Type 0
  Counts e = (w : W) → evaluations (e w).1 ≡ evaluations w + 1

  run_counts :
      {B : Type 0} (filter : Filter V) (f : B → ℕ) (e : Expr W B) (site : Site) (w : W)
      → Counts e
      → evaluations (run_log_filter p filter 1 (shown p f e) site w)
        ≡ (if enabled p filter 1 w then evaluations w + 1 else evaluations w)
  unfolding run_log_filter
  run_counts filter f e site w counts = elim (Bool-cases (enabled p filter 1 w)) [
    | inl b ↦ rw b (emit_keeps _ (e w).1 ∙ counts w)
    | inr b ↦ rw b refl
  ]

  -- A run that is not counted.
  abbrev pub CountsNot : {B : Type 0} → Expr W B → Type 0
  CountsNot e = (w : W) → evaluations (e w).1 ≡ evaluations w

  message_keeps :
      (filter : Filter V) (f : ℕ → ℕ) (e : Expr W ℕ) (site : Site) (w : W)
      → CountsNot e
      → evaluations (run_log_filter p filter 1 (shown p f e) site w) ≡ evaluations w
  unfolding run_log_filter
  message_keeps filter f e site w same = elim (Bool-cases (enabled p filter 1 w)) [
    | inl b ↦ rw b (emit_keeps _ (e w).1 ∙ same w)
    | inr b ↦ rw b refl
  ]

  run_keeps :
      (filter : Filter V) (t : ℕ) (site : Site) (w : W)
      → evaluations (run_log_filter p filter 1 (value p t) site w) ≡ evaluations w
  unfolding run_log_filter
  run_keeps filter t site w = elim (Bool-cases (enabled p filter 1 w)) [
    | inl b ↦ rw b (emit_keeps _ w)
    | inr b ↦ rw b refl
  ]

  condition_evaluations :
      (filter : Filter V) (cond : Expr W Bool) (site : Site) (w : W)
      → Counts cond
      → (has_panicked (logger_assert p msgs filter cond site w) ≡ not (cond w).0)
        × (evaluations (world_of (logger_assert p msgs filter cond site w)) ≡ (
            if (cond w).0
            then evaluations w + 1
            else if enabled p filter 1 (cond w).1
            then evaluations w + 3
            else evaluations w + 2))
  unfolding logger_assert
  condition_evaluations filter cond site w counts = elim (Bool-cases (cond w).0) [
    | inl e ↦ (rw e refl, rw e (counts w))
    | inr e ↦
        let w1 = (cond w).1 in
        let w2 = run_log_filter p filter 1 (shown p msgs.condition_failed cond) site w1 in
        let logged = run_counts filter msgs.condition_failed cond site w1 counts in
        (
          rw e refl,
          rw e (elim (Bool-cases (enabled p filter 1 w1)) [
            | inl b ↦ rw b (omega (arith, counts w2, rw b at logged, counts w))
            | inr b ↦ rw b (omega (arith, counts w2, rw b at logged, counts w))
          ]),
        )
  ]

  operand_evaluations :
      (eq : A → A → Bool) (filter : Filter V) (left right : Expr W A) (site : Site) (w : W)
      → Counts left
      → Counts right
      → (has_panicked (logger_assert_eq p msgs eq filter left right site w)
          ≡ not (eq (left w).0 (right (left w).1).0))
        × (evaluations (world_of (logger_assert_eq p msgs eq filter left right site w))
            ≡ evaluations w + 2)
  unfolding logger_assert_eq
  operand_evaluations eq filter left right site w hl hr =
      let w1 = (left w).1 in
      let w2 = (right w1).1 in
      let text = msgs.not_equal (left w).0 (right w1).0 in
      elim (Bool-cases (eq (left w).0 (right w1).0)) [
        | inl e ↦ (rw e refl, rw e (omega (arith, hl w, hr w1)))
        | inr e ↦ (rw e refl, rw e (omega (arith, run_keeps filter text site w2, hl w, hr w1)))
      ]

  message_evaluations :
      (filter : Filter V) (cond : Expr W Bool) (args : Expr W ℕ) (site : Site) (w : W)
      → Counts cond
      → CountsNot args
      → (has_panicked (logger_assert_args p msgs filter cond args site w) ≡ not (cond w).0)
        × (evaluations (world_of (logger_assert_args p msgs filter cond args site w))
            ≡ evaluations w + 1)
  unfolding logger_assert_args
  message_evaluations filter cond args site w counts same = elim (Bool-cases (cond w).0) [
    | inl e ↦ (rw e refl, rw e (counts w))
    | inr e ↦ (
      rw e refl,
      rw e (same _ ∙ message_keeps filter msgs.args_failed args site (cond w).1 same ∙ counts w),
    )
  ]

  operand_message_evaluations :
      (eq : A → A → Bool) (filter : Filter V) (left right : Expr W A) (args : Expr W ℕ)
      (site : Site) (w : W)
      → Counts left
      → Counts right
      → CountsNot args
      → (has_panicked (logger_assert_eq_args p msgs eq filter left right args site w)
          ≡ not (eq (left w).0 (right (left w).1).0))
        × (evaluations (world_of (logger_assert_eq_args p msgs eq filter left right args site w))
            ≡ evaluations w + 2)
  unfolding logger_assert_eq_args
  operand_message_evaluations eq filter left right args site w hl hr same =
      let w1 = (left w).1 in
      let w2 = (right w1).1 in
      let text = msgs.not_equal_args (left w).0 (right w1).0 in
      let w3 = run_log_filter p filter 1 (value p text) site w2 in
      elim (Bool-cases (eq (left w).0 (right w1).0)) [
        | inl e ↦ (rw e refl, rw e (omega (arith, hl w, hr w1)))
        | inr e ↦
            (rw e refl, rw e (omega (arith, same w3, run_keeps filter text site w2, hl w, hr w1)))
      ]

  -- Where each run of the condition and of the operands is counted and neither logging nor the
  -- arguments of a message count: `logger_assert` without a message panics exactly if its condition
  -- is false at the first run, and has run it once if it holds, and otherwise twice, and a third time
  -- if the error level is enabled. With a message it panics in the same case, but has run the
  -- condition once. `logger_assert_eq`, with a message or without, panics exactly if the operands are
  -- not equal, and has run the two of them once each, that is two runs.
  pub assert_evaluations :
      (eq : A → A → Bool) (filter : Filter V) (cond : Expr W Bool) (left right : Expr W A)
      (args : Expr W ℕ) (site : Site) (w : W)
      → Counts cond
      → CountsNot args
      → Counts left
      → Counts right
      → (has_panicked (logger_assert p msgs filter cond site w) ≡ not (cond w).0)
        × (evaluations (world_of (logger_assert p msgs filter cond site w)) ≡ (
            if (cond w).0
            then evaluations w + 1
            else if enabled p filter 1 (cond w).1
            then evaluations w + 3
            else evaluations w + 2))
        × (has_panicked (logger_assert_args p msgs filter cond args site w) ≡ not (cond w).0)
        × (evaluations (world_of (logger_assert_args p msgs filter cond args site w))
            ≡ evaluations w + 1)
        × (has_panicked (logger_assert_eq p msgs eq filter left right site w)
            ≡ not (eq (left w).0 (right (left w).1).0))
        × (evaluations (world_of (logger_assert_eq p msgs eq filter left right site w))
            ≡ evaluations w + 2)
        × (has_panicked (logger_assert_eq_args p msgs eq filter left right args site w)
            ≡ not (eq (left w).0 (right (left w).1).0))
        × (evaluations (world_of (logger_assert_eq_args p msgs eq filter left right args site w))
            ≡ evaluations w + 2)
  assert_evaluations eq filter cond left right args site w hc ha hl hr =
      let (panics1, runs1) = condition_evaluations filter cond site w hc in
      let (panics2, runs2) = operand_evaluations eq filter left right site w hl hr in
      let (panics3, runs3) = message_evaluations filter cond args site w hc ha in
      let (panics4, runs4) =
        operand_message_evaluations eq filter left right args site w hl hr ha in
      (panics1, runs1, panics3, runs3, panics2, runs2, panics4, runs4)
