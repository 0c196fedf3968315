-- ===== src/Macros.antt =====
-- src/macros.rs: the macros that log through a filter or with the log crate, and the assertions. An
-- expression in a macro's arguments is run where the expansion has it, as often as it has it; texts
-- are numbers, as in Filter.
pub mod Evaluations
mod Tests
use captains_log.Base.{ℕ, Bool, true, false, ◌&&◌, leb, if◌then◌else◌}
use captains_log.Filter.{Cells, Filter, Site, Record, is_enabled, private_api_log, default_api_log}

-- Running an expression.
abbrev pub Expr : Type 0 → Type 0 → Type 0
Expr W A = W → A × W

-- What the macros use of the process: the level compiled in, the log crate's level, the filters'
-- cells, the logger, the terminal, and whether debug assertions are compiled in.
pub record Process (V W : Type 0) : Type 0 where
  pub static_max_level : ℕ
  pub max_level : W → ℕ
  pub cells : W → Cells
  pub emit : Record V → W → W
  pub println : ℕ → W → W
  pub eprintln : ℕ → W → W
  pub debug_assertions : Bool

-- The texts of the messages: of a condition, of its value under "assertion failed", and of operands.
pub record Messages (A : Type 0) : Type 0 where
  pub condition_failed : Bool → ℕ
  pub args_failed : ℕ → ℕ
  pub not_equal : A → A → ℕ
  pub not_equal_args : A → A → ℕ
  pub equality_failed : A → A → ℕ
  pub equality_failed_args : A → A → ℕ → ℕ

-- The expansion goes on, or panics with a text.
pub data Ran (W : Type 0) : Type 0 where
  finished : W → Ran W
  panics : ℕ → W → Ran W

abbrev pub world_of : {W : Type 0} → Ran W → W
world_of (finished w) = w
world_of (panics text w) = w

module _ {V W : Type 0} (p : Process V W) where
  abbrev pub enabled : Filter V → ℕ → W → Bool
  enabled filter level w =
      leb level p.static_max_level
      && (leb level (p.max_level w) && is_enabled filter level (p.cells w))

  -- `do_log_filter`: the arguments are run only where the level is enabled.
  unfoldable pub run_log_filter : Filter V → ℕ → Expr W ℕ → Site → W → W
  unfolding is_enabled private_api_log
  run_log_filter filter level args site w =
      let (a, w') = args w in
      if enabled filter level w then p.emit (private_api_log filter a level site) w' else w

  unfoldable pub logger_error : Filter V → Expr W ℕ → Site → W → W
  unfolding run_log_filter
  logger_error filter args site w = run_log_filter filter 1 args site w

  unfoldable pub logger_warn : Filter V → Expr W ℕ → Site → W → W
  unfolding run_log_filter
  logger_warn filter args site w = run_log_filter filter 2 args site w

  unfoldable pub logger_info : Filter V → Expr W ℕ → Site → W → W
  unfolding run_log_filter
  logger_info filter args site w = run_log_filter filter 3 args site w

  unfoldable pub logger_debug : Filter V → Expr W ℕ → Site → W → W
  unfolding run_log_filter
  logger_debug filter args site w = run_log_filter filter 4 args site w

  unfoldable pub logger_trace : Filter V → Expr W ℕ → Site → W → W
  unfolding run_log_filter
  logger_trace filter args site w = run_log_filter filter 5 args site w

  -- The log crate's macro at a level.
  abbrev pub log_at : ℕ → Expr W ℕ → Site → W → W
  log_at level args site w =
      let (a, w') = args w in
      if leb level p.static_max_level && leb level (p.max_level w)
      then p.emit (default_api_log a level site) w'
      else w

  -- std::panic! with a text that is made of an expression.
  abbrev pub panic_with : Expr W ℕ → W → Ran W
  panic_with text w = let (t, w') = text w in panics t w'

  -- An expression whose value goes into a text.
  abbrev pub shown : {A : Type 0} → (A → ℕ) → Expr W A → Expr W ℕ
  shown f e w = let (a, w') = e w in (f a, w')

  abbrev pub value : ℕ → Expr W ℕ
  value t w = (t, w)

  module _ {A : Type 0} (msgs : Messages A) where
    unfoldable pub logger_assert : Filter V → Expr W Bool → Site → W → Ran W
    logger_assert filter cond site w =
        let (holds, w1) = cond w in
        let text = shown msgs.condition_failed cond in
        if holds then finished w1 else panic_with text (run_log_filter filter 1 text site w1)

    -- With a message of its own.
    unfoldable pub logger_assert_args : Filter V → Expr W Bool → Expr W ℕ → Site → W → Ran W
    logger_assert_args filter cond args site w =
        let (holds, w1) = cond w in
        if holds
        then finished w1
        else panic_with args (run_log_filter filter 1 (shown msgs.args_failed args) site w1)

    unfoldable pub logger_assert_eq :
        (A → A → Bool) → Filter V → Expr W A → Expr W A → Site → W → Ran W
    logger_assert_eq eq filter left right site w =
        let (left_val, w1) = left w in
        let (right_val, w2) = right w1 in
        if eq left_val right_val
        then finished w2
        else panic_with (value (msgs.equality_failed left_val right_val))
            (run_log_filter filter 1 (value (msgs.not_equal left_val right_val)) site w2)

    unfoldable pub logger_assert_eq_args :
        (A → A → Bool) → Filter V → Expr W A → Expr W A → Expr W ℕ → Site → W → Ran W
    logger_assert_eq_args eq filter left right args site w =
        let (left_val, w1) = left w in
        let (right_val, w2) = right w1 in
        if eq left_val right_val
        then finished w2
        else panic_with (shown (msgs.equality_failed_args left_val right_val) args)
            (run_log_filter filter 1 (value (msgs.not_equal_args left_val right_val)) site w2)

    unfoldable pub logger_debug_assert : Filter V → Expr W Bool → Site → W → Ran W
    unfolding logger_assert
    logger_debug_assert filter cond site w =
        if p.debug_assertions then logger_assert filter cond site w else finished w

    unfoldable pub logger_debug_assert_eq :
        (A → A → Bool) → Filter V → Expr W A → Expr W A → Site → W → Ran W
    unfolding logger_assert_eq
    logger_debug_assert_eq eq filter left right site w =
        if p.debug_assertions then logger_assert_eq eq filter left right site w else finished w

    unfoldable pub log_assert : Expr W Bool → Site → W → Ran W
    log_assert cond site w =
        let (holds, w1) = cond w in
        let text = shown msgs.condition_failed cond in
        if holds then finished w1 else panic_with text (log_at 1 text site w1)

    unfoldable pub log_assert_args : Expr W Bool → Expr W ℕ → Site → W → Ran W
    log_assert_args cond args site w =
        let (holds, w1) = cond w in
        if holds
        then finished w1
        else panic_with args (log_at 1 (shown msgs.args_failed args) site w1)

    unfoldable pub log_assert_eq : (A → A → Bool) → Expr W A → Expr W A → Site → W → Ran W
    log_assert_eq eq left right site w =
        let (left_val, w1) = left w in
        let (right_val, w2) = right w1 in
        if eq left_val right_val
        then finished w2
        else panic_with (value (msgs.equality_failed left_val right_val))
            (log_at 1 (value (msgs.not_equal left_val right_val)) site w2)

    unfoldable pub log_assert_eq_args :
        (A → A → Bool) → Expr W A → Expr W A → Expr W ℕ → Site → W → Ran W
    log_assert_eq_args eq left right args site w =
        let (left_val, w1) = left w in
        let (right_val, w2) = right w1 in
        if eq left_val right_val
        then finished w2
        else panic_with (shown (msgs.equality_failed_args left_val right_val) args)
            (log_at 1 (value (msgs.not_equal_args left_val right_val)) site w2)

    unfoldable pub log_debug_assert : Expr W Bool → Site → W → Ran W
    unfolding log_assert
    log_debug_assert cond site w = if p.debug_assertions then log_assert cond site w else finished w

    unfoldable pub log_debug_assert_eq : (A → A → Bool) → Expr W A → Expr W A → Site → W → Ran W
    unfolding log_assert_eq
    log_debug_assert_eq eq left right site w =
        if p.debug_assertions then log_assert_eq eq left right site w else finished w

  -- The arguments are run for the terminal and again for the record.
  unfoldable pub log_println : Expr W ℕ → Site → W → W
  log_println args site w = let (t, w1) = args w in log_at 3 args site (p.println t w1)

  unfoldable pub log_eprintln : Expr W ℕ → Site → W → W
  log_eprintln args site w = let (t, w1) = args w in log_at 3 args site (p.eprintln t w1)
