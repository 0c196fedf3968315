-- ===== src/Logger/Setup.antt =====
-- `try_setup` and `setup_log` of src/log_impl.rs, with what they call.
pub mod Effect
pub mod Refine
pub mod Forever
pub mod Retry
pub mod Tracing
use captains_log.Base.{
  ◌==◌, ℕ, List, [], ◌∷◌, Option, none, some, Bool, true, false, Outcome, returned, panicked,
  out_of_fuel, ltb, if◌then◌else◌,
}
use captains_log.Methods.{Io, ok, err, Method, pure, ◌>>=◌, ◌>>◌, gets, assert, expect}
use captains_log.Logger.{
  Builder, PanicHook, panic_hook_log, panic_hook_force_exit, Env, LoggerInner, once, dyn, Global,
  on_world, update, fail, new_inner, set, get_max_level, cal_checksum, build_sinks, open_sinks,
}

abbrev pub is_some {ℓ} : {A : Type ℓ} → Option A → Bool
is_some none = false
is_some (some a) = true

abbrev pub is_empty : List ℕ → Bool
is_empty [] = true
is_empty (x ∷ xs) = false

module _ {S W : Type 0} where
  -- A layer is a value `new` here; Tracing has the layer's own operations.
  unfoldable pub tracing_layer : {A : Type 0} → A → Method (Global S W) A
  tracing_layer new g = if g.tracing_inited then returned (err, g) else returned (ok new, g)

  -- The layer is unwrapped after the flag has been tested here too.
  unfoldable pub tracing_dispatch : {A : Type 0} → A → Method (Global S W) A
  unfolding tracing_layer
  tracing_dispatch new g =
      if g.tracing_inited then returned (err, g) else (elim (expect (tracing_layer new) g) [
        | returned (layer, g') ↦ returned (ok layer, g')
        | panicked ↦ panicked
        | out_of_fuel ↦ out_of_fuel
      ])

module _ {C S L R W : Type 0} (env : Env C S L R W) where
  -- `build_sinks` on the state.
  abbrev pub built : Builder C → Method (Global S W) (List S)
  built b g = elim (build_sinks env b.sinks g.world) [
    | none ↦ panicked
    | some (r, w) ↦ returned (r, record g { world = w })
  ]

  unfoldable pub check_the_same : Builder C → Global S W → Option Bool
  unfolding cal_checksum
  check_the_same b g = elim g.inner [
    | none ↦ none
    | some inner ↦ some (g.config_checksum == cal_checksum env b)
  ]

  abbrev pub store_inner : Option (LoggerInner S) → List S → Method (Global S W) (Unit {0})
  store_inner none sinks g = panicked
  store_inner (some inner) sinks g = elim (set inner sinks) [
    | ok inner' ↦ returned (ok tt, record g { inner = some inner' })
    | err ↦ returned (err, g)
  ]

  unfoldable pub reinit : Builder C → Method (Global S W) (Unit {0})
  unfolding build_sinks set cal_checksum
  reinit b = do
    sinks ← built b
    inner ← gets (λ (g : Global S W). g.inner)
    store_inner inner sinks
    update (λ g. record g { config_checksum = cal_checksum env b })

  unfoldable pub init : Builder C → Method (Global S W) (Unit {0})
  unfolding build_sinks new_inner cal_checksum
  init b = do
    sinks ← built b
    assert (λ (g : Global S W). if is_some g.inner then false else true)
    update (λ g. record g {
      inner = some (new_inner b.dynamic sinks);
      config_checksum = cal_checksum env b;
    })

  unfoldable pub init_tracing_global : Method (Global S W) (Unit {0})
  unfolding tracing_dispatch
  init_tracing_global = do
    tracing_dispatch tt
    on_world env.set_global_default
    update (λ g. record g { tracing_inited = true })

  abbrev pub init_tracing : Builder C → Method (Global S W) (Unit {0})
  init_tracing b = if b.tracing_global then init_tracing_global else pure tt

  abbrev pub reset_level : Builder C → Method (Global S W) (Unit {0})
  reset_level b = update (λ g. record g { world = env.set_max_level (get_max_level env b) g.world })

  abbrev pub setup_same : Builder C → Method (Global S W) Bool
  setup_same b = do open_sinks env; reset_level b; pure false

  abbrev pub setup_other : Builder C → Method (Global S W) Bool
  setup_other b = do
    let allowed : Method (Global S W) (Unit {0}) = if b.dynamic then pure tt else fail
    allowed
    reinit b
    reset_level b
    init_tracing b
    pure false

  abbrev pub setup_first : Builder C → Method (Global S W) Bool
  setup_first b = do init b; init_tracing b; update (λ g. record g { inited = true }); pure true

  unfoldable pub try_setup : Builder C → Method (Global S W) Bool
  unfolding check_the_same
  try_setup b g = elim (check_the_same b g) [
    | some true ↦ setup_same b g
    | some false ↦ setup_other b g
    | none ↦ setup_first b g
  ]

  abbrev pub hook : Builder C → Global S W → Global S W
  hook b g =
      if b.panic_hook
      then record g {
        world =
            env.set_hook (if b.force_abort_on_panic then panic_hook_force_exit else panic_hook_log)
              g.world;
      }
      else g

  -- `swap` on `signal_listener`, and the thread.
  abbrev pub listen : Builder C → Global S W → Global S W
  listen b g =
      if is_empty b.rotation_signals then g else if g.signal_listener then g else record g {
        signal_listener = true;
        world = env.spawn_listener b.rotation_signals g.world;
      }

  abbrev pub install : Builder C → Method (Global S W) (Unit {0})
  install b = do on_world env.set_logger; reset_level b; update (hook b); update (listen b)

  unfoldable pub setup_log : Builder C → Method (Global S W) (Unit {0})
  unfolding try_setup
  setup_log b = do
    first ← try_setup b
    let rest : Method (Global S W) (Unit {0}) = if first then install b else pure tt
    rest
