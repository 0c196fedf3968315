-- ===== src/Tracing/Tests.antt =====
-- A subscriber with two spans, and a logger that keeps the texts of its records.
use captains_log.Base.{
  ℕ, ◌≡◌, refl, List, [], ◌∷◌, ◌++◌, Option, none, some, false, returned, Text, codes, text_eq,
  ◌==◌, decimal, if◌then◌else◌,
}
use mathlib.Core.Option
use captains_log.Methods.{ok}
use captains_log.Logger.{Env, once, log}
use captains_log.Tracing.{
  info_level, Metadata, Record, str, debug, Registry, Bridge, record_all, record_of, span_args,
  new_layer, disable_exit,
}
use captains_log.Tracing.Visitor.{message, tracing_text, render, record_all-render}
use captains_log.Tracing.Layer.{
  Callback, new_span, recorded, entered, exited, callbacks, log_records, told_all,
}
use captains_log.Tracing.Layer.Refine.{RegistryLaws, callbacks-told}

fields_test :
    record_all tracing_text
      (str message [] ∷ str message (codes "hi") ∷ debug (codes "n") (codes "3") ∷ [])
      tracing_text.default
    ≡ codes "hi, n=3"
unfolding tracing_text record_all text_eq
fields_test = refl

record_all-render_example :
    record_all tracing_text
      (debug message (codes "up") ∷ str (codes "who") (codes "me") ∷ [])
      tracing_text.default
    ≡ codes "up, who=me"
unfolding text_eq
record_all-render_example =
    record_all-render (debug message (codes "up") ∷ str (codes "who") (codes "me") ∷ [])

-- The one sink writes down the texts.
abbrev texts : Env ℕ ℕ ℕ Record (List Text)
texts = record {
  build = λ c w. some (c, w);
  sink_open = λ s w. (ok tt, w);
  sink_reopen = λ s w. (ok tt, w);
  sink_log = λ s r w. w ++ r.args ∷ [];
  sink_flush = λ s w. w;
  get_level = λ c. c;
  error_level = 1;
  rank = λ l. l;
  hash = λ dynamic signals hook force sinks. 0;
  set_logger = λ w. (ok tt, w);
  set_max_level = λ l w. w;
  set_global_default = λ w. (ok tt, w);
  set_hook = λ h w. w;
  spawn_listener = λ signals w. w;
}

abbrev here : Metadata
here = record {
  level = info_level;
  target = codes "app";
  module_path = none;
  file = none;
  line = some 7;
}

-- The registry knows the span 5, and keeps the extensions by a function.
abbrev spans : Registry Text (ℕ → Option Text)
spans = record {
  metadata = λ id t. if id == 5 then some here else none;
  get = λ id t. t id;
  insert = λ id v t j. if id == j then some v else t j;
}

spans-laws : RegistryLaws spans
spans-laws = record { get-insert = λ i j v t. refl; metadata-insert = λ i j v t. refl }

abbrev at_start : Bridge ℕ (List Text) (ℕ → Option Text)
at_start = record {
  logger = record {
    config_checksum = 0;
    inner = some (once (1 ∷ []));
    signal_listener = false;
    tracing_inited = false;
    inited = false;
    world = [];
  };
  spans = λ j. none;
}

abbrev calls : List Callback
calls =
    new_span 5 (str (codes "a") (codes "x") ∷ [])
    ∷ entered 5
    ∷ exited 5
    ∷ recorded 5 (debug (codes "b") (codes "2") ∷ [])
    ∷ []

callbacks-told_example :
    (b' : Bridge ℕ (List Text) (ℕ → Option Text)) × (callbacks texts tracing_text spans
        (disable_exit new_layer)
        calls
        at_start
      ≡ returned b')
    × (b'.logger
        ≡ log_records texts
            (told_all render (λ id. here) (disable_exit new_layer) calls (λ j. none)).1
            at_start.logger)
    × ((j : ℕ)
        → b'.spans j
          ≡ Option.map
              (λ l. record_all tracing_text l tracing_text.default)
              ((told_all render (λ id. here) (disable_exit new_layer) calls (λ j. none)).0 j))
unfolding tracing_text
callbacks-told_example =
    callbacks-told texts tracing_text spans spans-laws render record_all-render (λ id. here)
      (disable_exit new_layer) calls (λ j. none) at_start (refl, (refl, (refl, (refl, tt))))
      (λ j. refl)

told_test :
    (log_records texts
      (told_all render (λ id. here) (disable_exit new_layer) calls (λ j. none)).1
      at_start.logger).world
    ≡ codes "span(5) new: a=x" ∷ codes "span(5) enter: a=x" ∷ codes "span(5) record: a=x, b=2" ∷ []
unfolding log_records log told_all record_of span_args decimal text_eq disable_exit new_layer
told_test = refl
