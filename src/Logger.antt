-- ===== src/Logger.antt =====
-- src/log_impl.rs and `Builder` of src/config.rs: the global logger, its set-up and re-configuration,
-- and the passing of records to the sinks. A set-up is one step here; Threads has several at a time.
pub mod Setup
pub mod Threads
pub mod Panics
pub mod Levels
mod Tests
use captains_log.Base.{
  ℕ, List, [], ◌∷◌, ◌++◌, Option, none, some, Bool, true, false, Outcome, returned, panicked, ltb,
  if◌then◌else◌,
}
use captains_log.Methods.{Io, ok, err, Method, pure, ◌>>=◌, ◌>>◌, gets, assert}

pub record Builder (C : Type 0) : Type 0 where
  pub dynamic : Bool
  pub rotation_signals : List ℕ
  pub panic_hook : Bool
  pub force_abort_on_panic : Bool
  pub sinks : List C
  pub tracing_global : Bool

module _ {C : Type 0} where
  unfoldable pub new_builder : Builder C
  new_builder = record {
    dynamic = false;
    rotation_signals = [];
    panic_hook = true;
    force_abort_on_panic = false;
    sinks = [];
    tracing_global = false;
  }

  unfoldable pub tracing_global : Builder C → Builder C
  tracing_global b = record b { tracing_global = true }

  unfoldable pub no_panic_hook : Builder C → Builder C
  no_panic_hook b = record b { panic_hook = false }

  unfoldable pub force_abort_on_panic : Builder C → Builder C
  force_abort_on_panic b = record b { force_abort_on_panic = true }

  unfoldable pub test : Builder C → Builder C
  test b = record b { dynamic = true; rotation_signals = [] }

  unfoldable pub signal : ℕ → Builder C → Builder C
  signal n b = record b { rotation_signals = b.rotation_signals ++ n ∷ [] }

  unfoldable pub add_sink : C → Builder C → Builder C
  add_sink c b = record b { sinks = b.sinks ++ c ∷ [] }

pub data PanicHook : Type 0 where
  panic_hook_log panic_hook_force_exit : PanicHook

-- What the set-up uses of the sinks, the log crate, tracing and the process. `rank` orders the log
-- crate's levels, and `hash` is the checksum of what `cal_checksum` feeds to the hasher. Where the
-- build of a sink panics, as that of a buffered file may in `Rotation::build`, there is none.
pub record Env (C S L R W : Type 0) : Type 0 where
  pub build : C → W → Option (S × W)
  pub sink_open : S → W → Io (Unit {0}) × W
  pub sink_reopen : S → W → Io (Unit {0}) × W
  pub sink_log : S → R → W → W
  pub sink_flush : S → W → W
  pub get_level : C → L
  pub error_level : L
  pub rank : L → ℕ
  pub hash : Bool → List ℕ → Bool → Bool → List C → ℕ
  pub set_logger : W → Io (Unit {0}) × W
  pub set_max_level : L → W → W
  pub set_global_default : W → Io (Unit {0}) × W
  pub set_hook : PanicHook → W → W
  pub spawn_listener : List ℕ → W → W

pub data LoggerInner (S : Type 0) : Type 0 where
  once dyn : List S → LoggerInner S

-- The global logger, `inited` of its static, and the rest of the process.
pub record Global (S W : Type 0) : Type 0 where
  pub config_checksum : ℕ
  pub inner : Option (LoggerInner S)
  pub signal_listener : Bool
  pub tracing_inited : Bool
  pub inited : Bool
  pub world : W

module _ {S : Type 0} where
  abbrev pub sinks_of : LoggerInner S → List S
  sinks_of (once sinks) = sinks
  sinks_of (dyn sinks) = sinks

  -- `LoggerInner::new`
  unfoldable pub new_inner : Bool → List S → LoggerInner S
  new_inner dynamic sinks = if dynamic then dyn sinks else once sinks

  -- `LoggerInner::set`
  unfoldable pub set : LoggerInner S → List S → Io (LoggerInner S)
  set (once old) sinks = err
  set (dyn old) sinks = ok (dyn sinks)

module _ {S W : Type 0} where
  abbrev pub on_world : (W → Io (Unit {0}) × W) → Method (Global S W) (Unit {0})
  on_world f g = let (r, w) = f g.world in returned (r, record g { world = w })

  abbrev pub update : (Global S W → Global S W) → Method (Global S W) (Unit {0})
  update f g = returned (ok tt, f g)

  abbrev pub fail : {A : Type 0} → Method (Global S W) A
  fail g = returned (err, g)

  unfoldable pub try_get_logger : Global S W → Option (Option (LoggerInner S))
  try_get_logger g = if g.inited then some g.inner else none

module _ {C S L R W : Type 0} (env : Env C S L R W) where
  unfoldable pub max_level_from : L → List C → L
  max_level_from top [] = top
  max_level_from top (c ∷ cs) =
      max_level_from
        (if ltb (env.rank top) (env.rank (env.get_level c)) then env.get_level c else top) cs

  -- The result's level filter is the level.
  unfoldable pub get_max_level : Builder C → L
  unfolding max_level_from
  get_max_level b = max_level_from env.error_level b.sinks

  unfoldable pub cal_checksum : Builder C → ℕ
  cal_checksum b = env.hash b.dynamic b.rotation_signals b.panic_hook b.force_abort_on_panic b.sinks

  abbrev pub with_sink : S → Option (Io (List S) × W) → Option (Io (List S) × W)
  with_sink sink none = none
  with_sink sink (some (ok sinks, w)) = some (ok (sink ∷ sinks), w)
  with_sink sink (some (err, w)) = some (err, w)

  -- Each sink is built and opened before the next one is built. There is no result where the build of
  -- one panics.
  unfoldable pub build_sinks : List C → W → Option (Io (List S) × W)
  build_sinks [] w = some (ok [], w)
  build_sinks (c ∷ cs) w = elim (env.build c w) [
    | none ↦ none
    | some (sink, w1) ↦
        let (opened, w2) = env.sink_open sink w1 in
        elim opened [ err ↦ some (err, w2) | ok u ↦ with_sink sink (build_sinks cs w2) ]
  ]

  -- The first sink that fails ends the loop.
  unfoldable pub each_sink : (S → W → Io (Unit {0}) × W) → List S → W → Io (Unit {0}) × W
  each_sink f [] w = (ok tt, w)
  each_sink f (sink ∷ sinks) w =
      let (r, w1) = f sink w in
      let rest = each_sink f sinks w1 in elim r [ err ↦ (err, w1) | ok u ↦ rest ]

  abbrev pub on_inner : (S → W → Io (Unit {0}) × W) → Option (LoggerInner S) → W → Io (Unit {0}) × W
  on_inner f none w = (ok tt, w)
  on_inner f (some inner) w = each_sink f (sinks_of inner) w

  unfoldable pub open_sinks : Method (Global S W) (Unit {0})
  unfolding each_sink
  open_sinks g = on_world (on_inner env.sink_open g.inner) g

  unfoldable pub reopen : Method (Global S W) (Unit {0})
  unfolding each_sink
  reopen g = on_world (on_inner env.sink_reopen g.inner) g

  unfoldable pub log_all : R → List S → W → W
  log_all r [] w = w
  log_all r (sink ∷ sinks) w = log_all r sinks (env.sink_log sink r w)

  unfoldable pub flush_all : List S → W → W
  flush_all [] w = w
  flush_all (sink ∷ sinks) w = flush_all sinks (env.sink_flush sink w)

  unfoldable pub log : R → Global S W → Global S W
  unfolding log_all
  log r g = elim g.inner [
    | none ↦ g
    | some inner ↦ record g { world = log_all r (sinks_of inner) g.world }
  ]

  unfoldable pub flush : Global S W → Global S W
  unfolding flush_all
  flush g = elim g.inner [
    | none ↦ g
    | some inner ↦ record g { world = flush_all (sinks_of inner) g.world }
  ]
