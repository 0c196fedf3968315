-- ===== src/Recipe/Builders.antt =====
-- The ready-made builders of src/recipe.rs. Names and directories are paths `P`.
pub mod Choice
use captains_log.Base.{
  ℕ, [], ◌∷◌, ◌++◌, Option, none, some, false, true, Outcome, returned, ◌>>=◌, unwrap, Text, codes,
  is_empty, if◌then◌else◌,
}
use captains_log.Rotation.Config.{Rotation}
use captains_log.Syslog.{Syslog, new}
use captains_log.Sinks.{Records, FormatRecord, LogFormat}
use captains_log.Sinks.Config.{
  Paths, LogRawFile, LogBufFile, LogConsole, LogRingFile, ConsoleTarget, stdout, stderr, from_str,
  raw_file, buf_file, rotation, console, ring_file,
}
use captains_log.Logger.{Builder, test, signal, add_sink}
use captains_log.EnvVar.{Environment, var, env_or, parsed}
use captains_log.Recipe.{
  Display, default_time, debug_format_f, log_format_debug, log_format_threaded_debug,
  log_format_prod,
}

-- Box<dyn SinkConfigTrait>; the facilities of syslog are numbers.
pub data SinkConfig (L R P : Type 0) : Type 0 where
  raw_config : LogRawFile L R P → SinkConfig L R P
  buf_config : LogBufFile L R P → SinkConfig L R P
  console_config : LogConsole L R → SinkConfig L R P
  syslog_config : Syslog ℕ L Text P → SinkConfig L R P
  ring_config : LogRingFile L R P → SinkConfig L R P

-- std::path: `absolute` may fail, and a path may have no parent and no file name.
pub record Names (P : Type 0) : Type 0 where
  pub of_text : Text → P
  pub absolute : P → Option P
  pub parent : P → Option P
  pub file_name : P → Option P

-- The number of SIGUSR1 on Linux.
abbrev pub sigusr1 : ℕ
sigusr1 = 10

-- `Default` for `Builder`, where every flag is off.
unfoldable pub default_builder : {C : Type 0} → Builder C
default_builder = record {
  dynamic = false;
  rotation_signals = [];
  panic_hook = false;
  force_abort_on_panic = false;
  sinks = [];
  tracing_global = false;
}

unfoldable pub get_level : {L R P : Type 0} → SinkConfig L R P → L
get_level (raw_config c) = c.level
get_level (buf_config c) = c.level
get_level (console_config c) = c.level
get_level (syslog_config c) = c.level
get_level (ring_config c) = c.level

module _ {L R P W : Type 0} (records : Records L R) (display : Display L R) (paths : Paths P W)
    (names : Names P) where
  abbrev Config : Type 0
  Config = SinkConfig L R P

  unfoldable pub console_logger : ConsoleTarget → L → Builder Config
  unfolding default_builder add_sink console
  console_logger target max_level =
      add_sink (console_config (console target max_level (log_format_debug records display)))
        default_builder

  unfoldable pub stdout_logger : L → Builder Config
  unfolding console_logger test
  stdout_logger max_level = test (console_logger stdout max_level)

  unfoldable pub stderr_logger : L → Builder Config
  unfolding console_logger test
  stderr_logger max_level = test (console_logger stderr max_level)

  unfoldable pub raw_file_logger_custom :
      P → L → ℕ → (FormatRecord R → Text) → W → Outcome (Builder Config × W)
  unfolding default_builder add_sink signal
  raw_file_logger_custom path max_level time_fmt format_func w = do
    p ← unwrap (names.absolute path)
    dir ← unwrap (names.parent p)
    name ← unwrap (names.file_name p)
    (config, w') ←
        raw_file paths dir name max_level (record { time_fmt = time_fmt; format_fn = format_func })
          w
    returned (add_sink (raw_config config) (signal sigusr1 default_builder), w')

  unfoldable pub raw_file_logger : P → L → W → Outcome (Builder Config × W)
  unfolding raw_file_logger_custom
  raw_file_logger path max_level =
      raw_file_logger_custom path max_level default_time (debug_format_f records display)

  unfoldable pub split_error_file_logger : L → P → Text → L → W → Outcome (Builder Config × W)
  unfolding default_builder add_sink signal raw_file
  split_error_file_logger error dir name max_level w = do
    (debug_file, w1) ←
        raw_file paths dir (names.of_text (name ++ codes ".log")) max_level
          (log_format_debug records display) w
    (error_file, w2) ←
        raw_file paths dir (names.of_text (name ++ codes ".log.wf")) error
          (log_format_prod records display) w1
    returned (
      add_sink (raw_config error_file)
          (add_sink (raw_config debug_file) (signal sigusr1 default_builder)),
      w2,
    )

  unfoldable pub buffered_file_logger_custom :
      P
      → L
      → ℕ
      → (FormatRecord R → Text)
      → ℕ
      → Option (Rotation P)
      → W
      → Outcome (Builder Config × W)
  unfolding default_builder add_sink signal buf_file rotation
  buffered_file_logger_custom path max_level time_fmt format_func flush_millis rotate w = do
    p ← unwrap (names.absolute path)
    dir ← unwrap (names.parent p)
    name ← unwrap (names.file_name p)
    (config, w') ←
        buf_file paths dir name max_level (record { time_fmt = time_fmt; format_fn = format_func })
          flush_millis w
    let config' : LogBufFile L R P = elim rotate [ none ↦ config | some ro ↦ rotation ro config ]
    returned (add_sink (buf_config config') (signal sigusr1 default_builder), w')

  unfoldable pub buffered_file_logger : P → L → W → Outcome (Builder Config × W)
  unfolding buffered_file_logger_custom
  buffered_file_logger path max_level =
      buffered_file_logger_custom path max_level default_time (debug_format_f records display) 0
        none

  unfoldable pub buffered_rotated_file_logger :
      P → L → Rotation P → W → Outcome (Builder Config × W)
  unfolding buffered_file_logger_custom
  buffered_rotated_file_logger path max_level ro =
      buffered_file_logger_custom path max_level default_time (debug_format_f records display) 0
        (some ro)

  unfoldable pub syslog_local : ℕ → L → Builder Config
  unfolding default_builder add_sink new
  syslog_local facility max_level =
      add_sink (syslog_config (new facility max_level)) default_builder

  unfoldable pub ring_file_logger : P → ℕ → L → ℕ → Outcome (Builder Config)
  unfolding default_builder add_sink signal ring_file
  ring_file_logger path buf_size max_level dump_signal = do
    ring ← ring_file path buf_size max_level (log_format_threaded_debug records display)
    let config : Builder Config = add_sink (ring_config ring) (signal dump_signal default_builder)
    returned (record config { dynamic = true })

  -- `level_of` is `Level::from_str` of the log crate, and `info` the level Info.
  unfoldable pub env_logger :
      (Text → Option L) → L → Environment → Text → Text → W → Outcome (Builder Config × W)
  unfolding console_logger raw_file_logger env_or test
  env_logger level_of info env file_env_name level_env_name w =
      let level = parsed level_of env (env_or level_env_name info) in
      let on_console : ConsoleTarget → Outcome (Builder Config × W) =
        λ target. returned (test (console_logger target level), w) in
      elim (var env file_env_name) [
        | none ↦ on_console stderr
        | some file_path ↦ elim (from_str file_path) [
          | some target ↦ on_console target
          | none ↦
              if is_empty file_path
              then on_console stderr
              else raw_file_logger (names.of_text file_path) level w >>= λ (b, w').
                  returned (test b, w')
        ]
      ]
