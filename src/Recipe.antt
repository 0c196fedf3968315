-- ===== src/Recipe.antt =====
-- src/recipe.rs: the format functions, and the ready-made builders (Recipe/Builders), some of which
-- read the environment. What the functions print of a record enters by `Display`.
pub mod Pattern
pub mod ReadBack
pub mod Builders
mod Tests
use captains_log.Base.{ℕ, [], ◌∷◌, ◌++◌, Text, codes, decimal}
use captains_log.Sinks.{Records, FormatRecord, LogFormat, file, line_of}

-- The time in a format of chrono, a level of the log crate, the message and the current thread, as they
-- are printed.
pub record Display (L R : Type 0) : Type 0 where
  pub time_str : ℕ → ℕ → Text
  pub level_name : L → Text
  pub message : R → Text
  pub thread_name : Text

-- The number of the format "%Y-%m-%d %H:%M:%S%.6f".
abbrev pub default_time : ℕ
default_time = 6

module _ {L R : Type 0} (records : Records L R) (display : Display L R) where
  -- `time`, `level` and `msg` of `FormatRecord`
  unfoldable pub time : FormatRecord R → Text
  time r = display.time_str r.now r.fmt_str

  unfoldable pub level : FormatRecord R → L
  level r = records.level r.record_of

  unfoldable pub msg : FormatRecord R → Text
  msg r = display.message r.record_of

  unfoldable pub debug_format_f : FormatRecord R → Text
  unfolding time level msg file line_of
  debug_format_f r =
      codes "["
      ++ (time r
          ++ (codes "]["
              ++ (display.level_name (level r)
                  ++ (codes "]["
                      ++ (file records r
                          ++ (codes ":"
                              ++ (decimal (line_of records r)
                                  ++ (codes "] " ++ (msg r ++ 10 ∷ [])))))))))

  unfoldable pub threaded_debug_format_f : FormatRecord R → Text
  unfolding time level msg file line_of
  threaded_debug_format_f r =
      codes "["
      ++ (time r
          ++ (codes "]["
              ++ (display.level_name (level r)
                  ++ (codes "]["
                      ++ (display.thread_name
                          ++ (codes "]["
                              ++ (file records r
                                  ++ (codes ":"
                                      ++ (decimal (line_of records r)
                                          ++ (codes "] " ++ (msg r ++ 10 ∷ [])))))))))))

  unfoldable pub prod_format_f : FormatRecord R → Text
  unfolding time level msg
  prod_format_f r =
      codes "["
      ++ (time r
          ++ (codes "][" ++ (display.level_name (level r) ++ (codes "] " ++ (msg r ++ 10 ∷ [])))))

  abbrev pub log_format_debug : LogFormat R
  log_format_debug = record { time_fmt = default_time; format_fn = debug_format_f }

  abbrev pub log_format_threaded_debug : LogFormat R
  log_format_threaded_debug = record {
    time_fmt = default_time;
    format_fn = threaded_debug_format_f;
  }

  abbrev pub log_format_prod : LogFormat R
  log_format_prod = record { time_fmt = default_time; format_fn = prod_format_f }
