-- ===== src/Tracing.antt =====
-- src/tracing_bridge.rs: the layer that turns the spans and events of tracing into records of the
-- global logger. The formatter of a span's fields is an interface, and `TracingText` fills it in
-- Tracing/Visitor.
pub mod Visitor
pub mod Layer
mod Tests
use captains_log.Base.{
  ℕ, List, [], ◌∷◌, ◌++◌, Option, none, some, Bool, true, false, Outcome, returned, panicked, Text,
  codes, is_empty, decimal, leb, if◌then◌else◌,
}
use captains_log.Logger.{Env, Global, log}

-- tracing::Level
pub data Level : Type 0 where
  error_level warn_level info_level debug_level trace_level : Level

-- A level of the log crate is its number.
unfoldable pub convert_tracing_level : Level → ℕ
convert_tracing_level trace_level = 5
convert_tracing_level debug_level = 4
convert_tracing_level info_level = 3
convert_tracing_level warn_level = 2
convert_tracing_level error_level = 1

-- What the layer reads of tracing's Metadata, and what it puts into a record of the log crate.
pub record Metadata : Type 0 where
  pub level : Level
  pub target : Text
  pub module_path : Option Text
  pub file : Option Text
  pub line : Option ℕ

pub record Record : Type 0 where
  pub level : ℕ
  pub target : Text
  pub module_path : Option Text
  pub file : Option Text
  pub line : Option ℕ
  pub args : Text

-- A field as it is handed to a visitor: a text, or the debug form of another value.
pub data Visited : Type 0 where
  str debug : (name value : Text) → Visited

-- The trait TracingFormatter: Visit, Default and AsRef<str>.
pub record TracingFormatter (F : Type 0) : Type 0 where
  pub default : F
  pub visit : Visited → F → F
  pub as_ref : F → Text

-- tracing hands the fields to a visitor one after the other.
unfoldable pub record_all : {F : Type 0} → TracingFormatter F → List Visited → F → F
record_all fmt [] v = v
record_all fmt (field ∷ fields) v = record_all fmt fields (fmt.visit field v)

-- The spans of tracing's registry `T`, with the extension of type `F` of each.
pub record Registry (F T : Type 0) : Type 0 where
  pub metadata : ℕ → T → Option Metadata
  pub get : ℕ → T → Option F
  pub insert : ℕ → F → T → T

-- CaptainsLogLayer; the logger is in the state.
pub record CaptainsLogLayer : Type 0 where
  pub disable_span_new : Bool
  pub disable_record : Bool
  pub disable_enter : Bool
  pub disable_exit : Bool
  pub disable_close : Bool

unfoldable pub new_layer : CaptainsLogLayer
new_layer = record {
  disable_span_new = false;
  disable_record = false;
  disable_enter = false;
  disable_exit = false;
  disable_close = false;
}

unfoldable pub disable_enter : CaptainsLogLayer → CaptainsLogLayer
disable_enter layer = record layer { disable_enter = true }

unfoldable pub disable_exit : CaptainsLogLayer → CaptainsLogLayer
disable_exit layer = record layer { disable_exit = true }

unfoldable pub disable_close : CaptainsLogLayer → CaptainsLogLayer
disable_close layer = record layer { disable_close = true }

unfoldable pub disable_record : CaptainsLogLayer → CaptainsLogLayer
disable_record layer = record layer { disable_record = true }

unfoldable pub disable_span : CaptainsLogLayer → CaptainsLogLayer
disable_span layer = record layer {
  disable_span_new = true;
  disable_record = true;
  disable_enter = true;
  disable_exit = true;
  disable_close = true;
}

-- `enabled`, given the level that was compiled in.
unfoldable pub enabled : ℕ → Metadata → Bool
unfolding convert_tracing_level
enabled static_max_level meta = leb (convert_tracing_level meta.level) static_max_level

unfoldable pub record_of : Metadata → Text → Record
unfolding convert_tracing_level
record_of meta args = record {
  level = convert_tracing_level meta.level;
  target = meta.target;
  module_path = meta.module_path;
  file = meta.file;
  line = meta.line;
  args = args;
}

-- The arguments that `log_span` gives to the record.
unfoldable pub span_args : ℕ → Text → Text → Text
span_args id action msg =
    if is_empty msg
    then codes "span(" ++ (decimal id ++ (codes ") " ++ action))
    else codes "span(" ++ (decimal id ++ (codes ") " ++ (action ++ (codes ": " ++ msg))))

-- The global logger, and the registry of the subscriber that the layer is part of.
pub record Bridge (S W T : Type 0) : Type 0 where
  pub logger : Global S W
  pub spans : T

module _ {C S L W F T : Type 0} (env : Env C S L Record W) (fmt : TracingFormatter F)
    (reg : Registry F T) where
  unfoldable pub log_span : ℕ → Metadata → Text → F → Global S W → Global S W
  unfolding span_args record_of log
  log_span id meta action v g = log env (record_of meta (span_args id action (fmt.as_ref v))) g

  unfoldable pub on_new_span :
      CaptainsLogLayer → List Visited → ℕ → Bridge S W T → Outcome (Bridge S W T)
  unfolding log_span record_all
  on_new_span layer attrs id b =
      if layer.disable_span_new then returned b else (elim (reg.metadata id b.spans) [
        | none ↦ panicked
        | some meta ↦ elim (reg.get id b.spans) [
          | some v ↦ returned b
          | none ↦
              let v = record_all fmt attrs fmt.default in
              returned (record b {
                logger = log_span id meta (codes "new") v b.logger;
                spans = reg.insert id v b.spans;
              })
        ]
      ])

  unfoldable pub on_record :
      CaptainsLogLayer → ℕ → List Visited → Bridge S W T → Outcome (Bridge S W T)
  unfolding log_span record_all
  on_record layer id values b =
      if layer.disable_span_new then returned b else (elim (reg.metadata id b.spans) [
        | none ↦ panicked
        | some meta ↦
            let old : F = elim (reg.get id b.spans) [ none ↦ fmt.default | some v ↦ v ] in
            let v = record_all fmt values old in
            returned (record b {
              logger =
                  if layer.disable_record
                  then b.logger
                  else log_span id meta (codes "record") v b.logger;
              spans = reg.insert id v b.spans;
            })
      ])

  -- `on_enter`, `on_exit` and `on_close` differ in their flag and their word.
  unfoldable pub log_known : Bool → Text → ℕ → Bridge S W T → Outcome (Bridge S W T)
  unfolding log_span
  log_known disabled action id b =
      if disabled then returned b else (elim (reg.metadata id b.spans) [
        | none ↦ panicked
        | some meta ↦ elim (reg.get id b.spans) [
          | none ↦ returned b
          | some v ↦ returned (record b { logger = log_span id meta action v b.logger })
        ]
      ])

  unfoldable pub on_enter : CaptainsLogLayer → ℕ → Bridge S W T → Outcome (Bridge S W T)
  unfolding log_known
  on_enter layer id b = log_known layer.disable_enter (codes "enter") id b

  unfoldable pub on_exit : CaptainsLogLayer → ℕ → Bridge S W T → Outcome (Bridge S W T)
  unfolding log_known
  on_exit layer id b = log_known layer.disable_exit (codes "exit") id b

  unfoldable pub on_close : CaptainsLogLayer → ℕ → Bridge S W T → Outcome (Bridge S W T)
  unfolding log_known
  on_close layer id b = log_known layer.disable_close (codes "close") id b

  unfoldable pub on_event : Metadata → List Visited → Bridge S W T → Bridge S W T
  unfolding record_of record_all log
  on_event meta fields b = record b {
    logger = log env (record_of meta (fmt.as_ref (record_all fmt fields fmt.default))) b.logger;
  }
