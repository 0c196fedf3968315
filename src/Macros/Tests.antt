-- ===== src/Macros/Tests.antt =====
-- A process that counts the runs of expressions and the records.
use captains_log.Base.{ℕ, ◌+◌, ◌≡◌, refl, true, false, ◌==◌}
use captains_log.Filter.{dummy_filter, Site, is_enabled, dummy_filter_is_enabled}
use captains_log.Macros.{
  Expr, Process, Messages, world_of, log_println, logger_assert, logger_assert_args,
  logger_assert_eq, logger_assert_eq_args,
}
use captains_log.Macros.Evaluations.{has_panicked, assert_evaluations}

record Counters : Type 0 where
  runs : ℕ
  records : ℕ

abbrev counting : Process ℕ Counters
counting = record {
  static_max_level = 5;
  max_level = λ w. 5;
  cells = λ w c. 5;
  emit = λ r w. record w { records = w.records + 1 };
  println = λ t w. w;
  eprintln = λ t w. w;
  debug_assertions = true;
}

abbrev no_texts : Messages ℕ
no_texts = record {
  condition_failed = λ b. 0;
  args_failed = λ t. t;
  not_equal = λ a b. 1;
  not_equal_args = λ a b. 2;
  equality_failed = λ a b. 3;
  equality_failed_args = λ a b t. t;
}

abbrev counted : {A : Type 0} → A → Expr Counters A
counted a w = (a, record w { runs = w.runs + 1 })

abbrev here : Site
here = record { target = 1; module_path = 1; file = 2; line = 3 }

abbrev none_yet : Counters
none_yet = record { runs = 0; records = 0 }

assert_evaluations_example :
    (has_panicked (logger_assert counting no_texts dummy_filter (counted false) here none_yet)
      ≡ true)
    × ((world_of (logger_assert counting no_texts dummy_filter (counted false) here none_yet)).runs
        ≡ 3)
    × (has_panicked (
          logger_assert_args counting no_texts dummy_filter
            (counted false)
            (λ w. (8, w))
            here
            none_yet)
        ≡ true)
    × ((world_of (
          logger_assert_args counting no_texts dummy_filter
            (counted false)
            (λ w. (8, w))
            here
            none_yet)).runs
        ≡ 1)
    × (has_panicked (
          logger_assert_eq counting no_texts ◌==◌ dummy_filter
            (counted 4)
            (counted 4)
            here
            none_yet)
        ≡ false)
    × ((world_of (
          logger_assert_eq counting no_texts ◌==◌ dummy_filter
            (counted 4)
            (counted 4)
            here
            none_yet)).runs
        ≡ 2)
    × (has_panicked (
          logger_assert_eq_args counting no_texts ◌==◌ dummy_filter
            (counted 4)
            (counted 4)
            (λ w. (8, w))
            here
            none_yet)
        ≡ false)
    × ((world_of (
          logger_assert_eq_args counting no_texts ◌==◌ dummy_filter
            (counted 4)
            (counted 4)
            (λ w. (8, w))
            here
            none_yet)).runs
        ≡ 2)
unfolding is_enabled dummy_filter_is_enabled
assert_evaluations_example =
    assert_evaluations counting no_texts (λ w. w.runs) (λ r w. refl) ◌==◌ dummy_filter
      (counted false) (counted 4) (counted 4) (λ w. (8, w)) here none_yet (λ w. refl) (λ w. refl)
      (λ w. refl) (λ w. refl)

-- The arguments of `log_println` are run twice.
println_twice : log_println counting (counted 9) here none_yet ≡ record { runs = 2; records = 1 }
unfolding log_println
println_twice = refl
