-- ===== src/Recipe/Tests.antt =====
-- Records that are pairs of a level and a line, and an environment with a path.
use captains_log.Base.{
  ℕ, arith, ◌≡◌, refl, List, [], ◌∷◌, ◌++◌, map, none, some, true, returned, Text, codes, text_eq,
  decimal, leb, ◌==◌, if◌then◌else◌,
}
use captains_log.Methods.{ok}
use captains_log.Sinks.{Records, process, basename, file}
use captains_log.Sinks.Config.{Paths}
use captains_log.Sinks.Text.{text}
use captains_log.Parser.{collect}
use captains_log.EnvVar.{Environment, unicode, var}
use captains_log.Recipe.{Display, time, debug_format_f, log_format_debug}
use captains_log.Recipe.Pattern.{debug_pattern, read_lines}
use captains_log.Recipe.ReadBack.{IsReadable, collect-text}
use captains_log.Recipe.Builders.{SinkConfig, Names, env_logger}
use captains_log.Recipe.Builders.Choice.{one_sink, LevelOf, Goes, env_logger-Goes}

abbrev pairs : Records ℕ (ℕ × ℕ)
pairs = record {
  level = λ r. r.0;
  within = leb;
  file_name = λ r. some (codes "src/a.rs");
  line_number = λ r. some r.1;
}

abbrev shown : Display ℕ (ℕ × ℕ)
shown = record {
  time_str = λ now fmt. codes "12:00";
  level_name = λ l. if l == 1 then codes "ERROR" else codes "INFO";
  message = λ r. codes "up";
  thread_name = codes "ThreadId(1)";
}

abbrev two_records : List (ℕ × (ℕ × ℕ))
two_records = (50, (1, 7)) ∷ (51, (3, 12)) ∷ []

log_test :
    text pairs 3 (log_format_debug pairs shown) two_records
    ≡ codes "[12:00][ERROR][a.rs:7] up" ++ 10 ∷ codes "[12:00][INFO][a.rs:12] up" ++ 10 ∷ []
unfolding text process debug_format_f decimal
log_test = refl

first_plain : IsReadable pairs shown (50, (1, 7))
unfolding time file basename
first_plain = record {
  time_plain = ground arith;
  level_plain = ground arith;
  file_plain = ground arith;
  msg_plain = ground arith;
}

second_plain : IsReadable pairs shown (51, (3, 12))
unfolding time file basename
second_plain = record {
  time_plain = ground arith;
  level_plain = ground arith;
  file_plain = ground arith;
  msg_plain = ground arith;
}

collect-text_example :
    collect debug_pattern 5
      (map ok (read_lines [] (text pairs 3 (log_format_debug pairs shown) two_records)))
    ≡ returned (
        ok (
          codes "[12:00][ERROR][a.rs:7] up"
          ∷ codes "12:00"
          ∷ codes "ERROR"
          ∷ codes "a.rs"
          ∷ codes "7"
          ∷ codes "up"
          ∷ [])
        ∷ ok (
            codes "[12:00][INFO][a.rs:12] up"
            ∷ codes "12:00"
            ∷ codes "INFO"
            ∷ codes "a.rs"
            ∷ codes "12"
            ∷ codes "up"
            ∷ [])
        ∷ [])
unfolding text process debug_format_f decimal
collect-text_example =
    collect-text pairs shown 3 two_records 5 (first_plain, (second_plain, tt)) (omega arith)

-- Paths are texts; the directory "/" is there.
abbrev text_paths : Paths Text ℕ
text_paths = record {
  exists = λ p w. true;
  create_dir = λ p w. (ok tt, w);
  join = λ dir name. dir ++ name;
}

abbrev text_names : Names Text
text_names = record {
  of_text = λ s. s;
  absolute = λ s. some (codes "/" ++ s);
  parent = λ p. some (codes "/");
  file_name = λ p. elim p [ [] ↦ none | c ∷ cs ↦ some cs ];
}

abbrev one_variable : Environment
one_variable name = if text_eq name (codes "LOG_FILE") then some (unicode (codes "a.log")) else none

env_logger-Goes_example :
    (l : ℕ) × (c : SinkConfig ℕ (ℕ × ℕ) Text) × (env_logger pairs shown text_paths text_names
        (λ s. none)
        3
        one_variable
        (codes "LOG_FILE")
        (codes "LOG_LEVEL")
        0
      ≡ returned (one_sink pairs shown text_paths text_names c, 0))
    × LevelOf pairs shown text_paths text_names (λ s. none) 3 none l
    × Goes pairs shown text_paths text_names (some (codes "a.log")) l c
unfolding var text_eq
env_logger-Goes_example =
    env_logger-Goes pairs shown text_paths text_names (λ s. none) 3 one_variable (codes "LOG_FILE")
      (codes "LOG_LEVEL") 0 (λ s e n m. (codes "/" ++ s, codes "/", s, refl, refl, refl, refl))
