-- ===== src/Recipe/Builders/Choice.antt =====
-- What `env_logger` of src/recipe.rs makes of the environment.
use captains_log.Base.{
  ◌≡◌, ◌≢◌, refl, sym, ap, ◌∙◌, ◌⊎◌, inl, inr, [], ◌∷◌, Option, none, some, Option-cases, true,
  false, arith, Outcome, returned, ◌>>=◌, Text, is_empty,
}
use captains_log.Sinks.{Records, LogFormat}
use captains_log.Sinks.Config.{Paths, ConsoleTarget, stderr, console, from_str, log_dir, raw_file}
use captains_log.Sinks.Console.{Words, from_str-Words, Words-from_str}
use captains_log.Logger.{Builder, test, signal, add_sink}
use captains_log.EnvVar.{Environment, var, env_or, parsed}
use captains_log.Recipe.{Display, debug_format_f, log_format_debug}
use captains_log.Recipe.Builders.{
  SinkConfig, raw_config, console_config, Names, default_builder, console_logger,
  raw_file_logger_custom, raw_file_logger, env_logger,
}

List-cases : (s : Text) → (s ≡ []) ⊎ (s ≢ [])
List-cases [] = inl refl
List-cases (x ∷ xs) = inr (λ e. cc)

is_empty-false : (s : Text) → s ≢ [] → is_empty s ≡ false
is_empty-false [] h = absurd (h refl)
is_empty-false (x ∷ xs) h = refl

no_name : {t : ConsoleTarget} → none ≡ some t → ⊥
no_name e = cc

module _ {L R P W : Type 0} (records : Records L R) (display : Display L R) (paths : Paths P W)
    (names : Names P) where
  abbrev console_at : ConsoleTarget → L → SinkConfig L R P
  console_at t max_level = console_config (console t max_level (log_format_debug records display))

  abbrev file_at : P → P → L → SinkConfig L R P
  file_at dir name max_level = raw_config (record {
    level = max_level;
    format = log_format_debug records display;
    file_path = paths.join dir name;
  })

  -- Where the output goes, by the value of the variable.
  pub data Goes (value : Option Text) (max_level : L) : SinkConfig L R P → Type 0 where
    to_console :
        (s : Text) (t : ConsoleTarget)
        → value ≡ some s
        → Words t s
        → Goes value max_level (console_at t max_level)
    to_stderr :
        (value ≡ none) ⊎ (value ≡ some []) → Goes value max_level (console_at stderr max_level)
    to_file :
        (s : Text) (p dir name : P)
        → value ≡ some s
        → s ≢ []
        → ((t : ConsoleTarget) → ¬ (Words t s))
        → names.absolute (names.of_text s) ≡ some p
        → names.parent p ≡ some dir
        → names.file_name p ≡ some name
        → Goes value max_level (file_at dir name max_level)

  -- The level, by the value of the variable.
  pub data LevelOf (level_of : Text → Option L) (info : L) (value : Option Text) : L → Type 0 where
    named :
        (s : Text) (l : L) → value ≡ some s → level_of s ≡ some l → LevelOf level_of info value l
    no_variable : value ≡ none → LevelOf level_of info value info
    no_level : (s : Text) → value ≡ some s → level_of s ≡ none → LevelOf level_of info value info

  value-LevelOf :
      (level_of : Text → Option L) (info : L) (value : Option Text)
      → LevelOf level_of info value
          (elim value [ none ↦ info | some s ↦ elim (level_of s) [ none ↦ info | some l ↦ l ] ])
  value-LevelOf level_of info none = no_variable refl
  value-LevelOf level_of info (some s) = elim (Option-cases (level_of s)) [
    | inl n ↦ rw n (no_level s refl n)
    | inr (l, n) ↦ rw n (named s l refl n)
  ]

  parsed-LevelOf :
      (level_of : Text → Option L) (info : L) (env : Environment) (name : Text)
      → LevelOf level_of info (var env name) (parsed level_of env (env_or name info))
  unfolding parsed env_or
  parsed-LevelOf level_of info env name = value-LevelOf level_of info (var env name)

  -- The path names a file in a directory that is there.
  abbrev pub IsUsable : W → Text → Type 0
  IsUsable w s =
      (p : P) × (dir : P) × (name : P) × (names.absolute (names.of_text s) ≡ some p)
      × (names.parent p ≡ some dir)
      × (names.file_name p ≡ some name)
      × (paths.exists dir w ≡ true)

  -- One sink, and flags as for tests.
  abbrev pub one_sink : SinkConfig L R P → Builder (SinkConfig L R P)
  one_sink c = record {
    dynamic = true;
    rotation_signals = [];
    panic_hook = false;
    force_abort_on_panic = false;
    sinks = c ∷ [];
    tracing_global = false;
  }

  abbrev as_test :
      Outcome (Builder (SinkConfig L R P) × W) → Outcome (Builder (SinkConfig L R P) × W)
  as_test m = m >>= λ (b, w'). returned (test b, w')

  raw_file_here :
      (dir name : P) (max_level : L) (format : LogFormat R) (w : W)
      → paths.exists dir w ≡ true
      → raw_file paths dir name max_level format w
        ≡ returned
            (record { level = max_level; format = format; file_path = paths.join dir name }, w)
  unfolding raw_file log_dir
  raw_file_here dir name max_level format w h = ground (arith, h)

  raw_file_lem :
      (path p dir name : P) (max_level : L) (w : W)
      → names.absolute path ≡ some p
      → names.parent p ≡ some dir
      → names.file_name p ≡ some name
      → paths.exists dir w ≡ true
      → as_test (raw_file_logger records display paths names path max_level w)
        ≡ returned (one_sink (file_at dir name max_level), w)
  unfolding raw_file_logger raw_file_logger_custom default_builder add_sink signal test
      debug_format_f
  raw_file_lem path p dir name max_level w a b c d =
      rw (a, b, c, raw_file_here dir name max_level (log_format_debug records display) w d) refl

  -- Where the path in the variable, if it is one, is usable: `env_logger` returns a builder with one
  -- sink, dynamic, without signals and hooks, and has made no directory. The sink has the level of
  -- the second variable, or Info where that is missing or no level, and goes to the console that the
  -- first one names in any case, to stderr where it is missing, not Unicode or empty, and to the
  -- file otherwise.
  pub env_logger-Goes :
      (level_of : Text → Option L) (info : L) (env : Environment) (file_name level_name : Text)
      (w : W)
      → ((s : Text) → var env file_name ≡ some s → from_str s ≡ none → s ≢ [] → IsUsable w s)
      → (l : L) × (c : SinkConfig L R P) × (env_logger records display paths names level_of info env
            file_name level_name w
          ≡ returned (one_sink c, w))
        × LevelOf level_of info (var env level_name) l
        × Goes (var env file_name) l c
  unfolding env_logger console_logger default_builder add_sink test
  env_logger-Goes level_of info env file_name level_name w usable =
      let level = parsed level_of env (env_or level_name info) in
      let known = parsed-LevelOf level_of info env level_name in
      elim (Option-cases (var env file_name)) [
        | inl e ↦
            (level, console_at stderr level, rw (e, env_logger) refl, known, to_stderr (inl e))
        | inr (s, e) ↦ elim (Option-cases (from_str s)) [
          | inr (t, n) ↦ (
            level,
            console_at t level,
            rw (e, n, env_logger) refl,
            known,
            to_console s t e (from_str-Words s t n),
          )
          | inl n ↦ elim (List-cases s) [
            | inl m ↦ (
              level,
              console_at stderr level,
              rw (e, n, m, env_logger) refl,
              known,
              to_stderr (inr (e ∙ ap some m)),
            )
            | inr m ↦
                let (p, dir, name, a, b, c, d) = usable s e n m in
                (
                  level,
                  file_at dir name level,
                  rw (e, n, is_empty-false s m, env_logger)
                      (raw_file_lem (names.of_text s) p dir name level w a b c d),
                  known,
                  to_file s p dir name e m (λ t h. no_name (sym n ∙ Words-from_str s t h)) a b c,
                )
          ]
        ]
      ]
