-- ===== src/Tracing/Layer.antt =====
-- Runs of the layer of src/tracing_bridge.rs: sequences of tracing's calls to it, and what they are to
-- do in terms of the fields of the spans.
pub mod Refine
use captains_log.Base.{
  ℕ, List, [], ◌∷◌, ◌++◌, Option, none, some, Bool, Outcome, returned, ◌>>=◌, Text, codes, ◌==◌,
  if◌then◌else◌,
}
use captains_log.Logger.{Env, Global, log}
use captains_log.Tracing.{
  Metadata, Record, Visited, TracingFormatter, Registry, CaptainsLogLayer, record_of, span_args,
  Bridge, on_new_span, on_record, on_enter, on_exit, on_close, on_event,
}

-- A call to the layer, by the number of the span.
pub data Callback : Type 0 where
  new_span recorded : ℕ → List Visited → Callback
  entered exited closed : ℕ → Callback
  event : Metadata → List Visited → Callback

module _ {C S L W F T : Type 0} (env : Env C S L Record W) (fmt : TracingFormatter F)
    (reg : Registry F T) where
  unfoldable pub callback : CaptainsLogLayer → Callback → Bridge S W T → Outcome (Bridge S W T)
  unfolding on_new_span on_record on_enter on_exit on_close on_event
  callback layer (new_span id attrs) b = on_new_span env fmt reg layer attrs id b
  callback layer (recorded id values) b = on_record env fmt reg layer id values b
  callback layer (entered id) b = on_enter env fmt reg layer id b
  callback layer (exited id) b = on_exit env fmt reg layer id b
  callback layer (closed id) b = on_close env fmt reg layer id b
  callback layer (event meta fields) b = returned (on_event env fmt reg meta fields b)

  unfoldable pub callbacks :
      CaptainsLogLayer → List Callback → Bridge S W T → Outcome (Bridge S W T)
  unfolding callback
  callbacks layer [] b = returned b
  callbacks layer (c ∷ cs) b = callback layer c b >>= callbacks layer cs

module _ {C S L W : Type 0} (env : Env C S L Record W) where
  -- The records go to the global logger, one after the other.
  unfoldable pub log_records : List Record → Global S W → Global S W
  log_records [] g = g
  log_records (r ∷ rs) g = log_records rs (log env r g)

-- What is known of the spans: the fields recorded so far, in order.
abbrev pub Fields : Type 0
Fields = ℕ → Option (List Visited)

abbrev pub set_fields : ℕ → List Visited → Fields → Fields
set_fields id l fs = λ j. if id == j then some l else fs j

abbrev pub known_fields : Option (List Visited) → List Visited
known_fields none = []
known_fields (some l) = l

abbrev pub unless : {A : Type 0} → Bool → List A → List A
unless off l = if off then [] else l

module _ (text : List Visited → Text) (meta : ℕ → Metadata) (layer : CaptainsLogLayer) where
  abbrev pub span_record : ℕ → Text → List Visited → Record
  span_record id action l = record_of (meta id) (span_args id action (text l))

  abbrev pub told_known : ℕ → Text → Option (List Visited) → List Record
  told_known id action none = []
  told_known id action (some l) = span_record id action l ∷ []

  abbrev pub told_new : ℕ → List Visited → Option (List Visited) → Fields → Fields × List Record
  told_new id attrs none fs = (set_fields id attrs fs, span_record id (codes "new") attrs ∷ [])
  told_new id attrs (some l) fs = (fs, [])

  -- The fields after a call, and the records that it gives to the global logger.
  unfoldable pub told : Callback → Fields → Fields × List Record
  told (new_span id attrs) fs =
      if layer.disable_span_new then (fs, []) else told_new id attrs (fs id) fs
  told (recorded id values) fs =
      let l = known_fields (fs id) ++ values in
      if layer.disable_span_new then (fs, []) else (
        set_fields id l fs,
        unless layer.disable_record (span_record id (codes "record") l ∷ []),
      )
  told (entered id) fs = (fs, unless layer.disable_enter (told_known id (codes "enter") (fs id)))
  told (exited id) fs = (fs, unless layer.disable_exit (told_known id (codes "exit") (fs id)))
  told (closed id) fs = (fs, unless layer.disable_close (told_known id (codes "close") (fs id)))
  told (event m fields) fs = (fs, record_of m (text fields) ∷ [])

  unfoldable pub told_all : List Callback → Fields → Fields × List Record
  unfolding told
  told_all [] fs = (fs, [])
  told_all (c ∷ cs) fs =
      let (fs1, rs1) = told c fs in let (fs2, rs2) = told_all cs fs1 in (fs2, rs1 ++ rs2)
