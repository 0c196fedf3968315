-- ===== src/Logger/Tests.antt =====
-- A process whose sinks are numbers that count how often they were opened, and set-ups in it.
use captains_log.Base.{
  ◌==◌, ℕ, ◌≡◌, ◌⊎◌, panicked, refl, List, [], ◌∷◌, ◌++◌, none, some, Bool, true, false, returned,
  length, if◌then◌else◌,
}
use captains_log.Methods.{Io, ok, err}
use captains_log.Logger.{
  Builder, Env, once, dyn, Global, try_get_logger, new_inner, get_max_level, max_level_from,
  cal_checksum, build_sinks, each_sink, open_sinks, panic_hook_force_exit, log, log_all, flush,
  flush_all, reopen,
}
use captains_log.Logger.Panics.{unwinding, log_panic, run_hook, listener_for_signal}
use captains_log.Logger.Setup.{
  init, check_the_same, try_setup, setup_log, tracing_layer, tracing_dispatch,
}
use captains_log.Logger.Setup.Effect.{SomePanics, this_panics, other_panics, Effect}
use captains_log.Logger.Setup.Refine.{setup_log-Effect}
use captains_log.Logger.Setup.Forever.{setups}
use captains_log.Logger.Setup.Tracing.{
  tracing_twice_fails, tracing_failure_hidden, tracing_request_ignored,
}
use captains_log.Logger.Setup.Tracing.Flag.{tracing_refused_forever}
use captains_log.Logger.Setup.Retry.{retry_hides_failure}

-- Another logger may have been set before; the opened sinks are kept in order.
pub record Process : Type 0 where
  pub taken : Bool
  pub installed : Bool
  pub level : ℕ
  pub opened : List ℕ

-- A sink's configuration is its level.
abbrev pub process : Env ℕ ℕ ℕ ℕ Process
process = record {
  build = λ c w. some (c, w);
  sink_open = λ s w. (ok tt, record w { opened = w.opened ++ s ∷ [] });
  sink_reopen = λ s w. (ok tt, w);
  sink_log = λ s r w. w;
  sink_flush = λ s w. w;
  get_level = λ c. c;
  error_level = 1;
  rank = λ l. l;
  hash = λ dynamic signals hook force sinks. elim sinks [ [] ↦ 0 | c ∷ cs ↦ c ];
  set_logger = λ w. if w.taken then (err, w) else (ok tt, record w { installed = true });
  set_max_level = λ l w. record w { level = l };
  set_global_default = λ w. (ok tt, w);
  set_hook = λ h w. w;
  spawn_listener = λ signals w. w;
}

abbrev pub at_start : Bool → Global ℕ Process
at_start taken = record {
  config_checksum = 0;
  inner = none;
  signal_listener = false;
  tracing_inited = false;
  inited = false;
  world = record { taken = taken; installed = false; level = 0; opened = [] };
}

abbrev pub two_sinks : Builder ℕ
two_sinks = record {
  dynamic = false;
  rotation_signals = [];
  panic_hook = true;
  force_abort_on_panic = false;
  sinks = 3 ∷ 5 ∷ [];
  tracing_global = false;
}

setup_log-Effect_example :
    ((r : Io (Unit {0})) × (g' : Global ℕ Process) × (setup_log process two_sinks (at_start false)
        ≡ returned (r, g'))
      × Effect process two_sinks 0 none r g'.config_checksum g'.inner)
    ⊎ ((setup_log process two_sinks (at_start false) ≡ panicked)
        × SomePanics process two_sinks.sinks)
setup_log-Effect_example = setup_log-Effect process two_sinks (at_start false)

-- The second sink's build panics.
abbrev breaking : Env ℕ ℕ ℕ ℕ Process
breaking = record process { build = λ c w. if c == 5 then none else some (c, w) }

build_panics : setup_log breaking two_sinks (at_start false) ≡ panicked
unfolding setup_log try_setup check_the_same init build_sinks
build_panics = refl

abbrev pub in_use : Bool → Global ℕ Process
in_use taken = record (at_start taken) {
  config_checksum = 3;
  inner = some (once (3 ∷ 5 ∷ []));
  inited = true;
  world = record { taken = taken; installed = false; level = 0; opened = 3 ∷ 5 ∷ [] };
}

abbrev opened_again : Global ℕ Process
opened_again = record (in_use true) {
  world = record (in_use true).world { opened = 3 ∷ 5 ∷ 3 ∷ 5 ∷ [] };
}

retry_hides_failure_example :
    (setup_log process two_sinks (at_start true) ≡ returned (err, in_use true))
    × (setup_log process two_sinks (in_use true)
        ≡ returned (ok tt, record opened_again { world = record opened_again.world { level = 5 } }))
unfolding get_max_level max_level_from
retry_hides_failure_example =
    retry_hides_failure process two_sinks (at_start true) (in_use true) opened_again refl
      (unfold try_setup init cal_checksum check_the_same build_sinks new_inner in refl) refl
      (unfold open_sinks each_sink in refl)

-- Tracing's global dispatcher is in use already, or not yet.
abbrev traced : Env ℕ ℕ ℕ ℕ Process
traced = record process { set_global_default = λ w. if w.taken then (err, w) else (ok tt, w) }

abbrev with_tracing : Builder ℕ
with_tracing = record two_sinks { dynamic = true; tracing_global = true }

abbrev dispatching : Global ℕ Process
dispatching = record (in_use false) { inner = some (dyn (3 ∷ 5 ∷ [])); tracing_inited = true }

tracing_twice_fails_example :
    setup_log traced (record with_tracing { sinks = 4 ∷ [] }) dispatching
    ≡ returned (
      err,
      record dispatching {
        config_checksum = 4;
        inner = some (dyn (4 ∷ []));
        world = record dispatching.world { opened = 3 ∷ 5 ∷ 4 ∷ []; level = 4 };
      },
    )
unfolding get_max_level max_level_from cal_checksum build_sinks
tracing_twice_fails_example =
    tracing_twice_fails traced (record with_tracing { sinks = 4 ∷ [] }) dispatching (3 ∷ 5 ∷ [])
      (4 ∷ []) (record dispatching.world { opened = 3 ∷ 5 ∷ 4 ∷ [] }) refl refl refl refl refl refl

builds : (cs : List ℕ) → ¬ (SomePanics traced cs)
builds _ (this_panics w e) = cc
builds _ (other_panics p) = builds _ p

tracing_refused_forever_example :
    (rs : List (Io (Unit {0}))) × (g' : Global ℕ Process) × (setups traced
        (two_sinks ∷ with_tracing ∷ [])
        dispatching
      ≡ returned (rs, g'))
    × (tracing_layer {A = ℕ} 7 g' ≡ returned (err, g'))
    × (tracing_dispatch {A = ℕ} 7 g' ≡ returned (err, g'))
tracing_refused_forever_example =
    tracing_refused_forever traced {A = ℕ} 7 (two_sinks ∷ with_tracing ∷ []) dispatching
      (builds two_sinks.sinks, (builds with_tracing.sinks, tt)) refl

abbrev left_behind : Global ℕ Process
left_behind = record (at_start true) {
  config_checksum = 3;
  inner = some (dyn (3 ∷ 5 ∷ []));
  world = record (at_start true).world { opened = 3 ∷ 5 ∷ [] };
}

tracing_failure_hidden_example :
    (g' : Global ℕ Process) × (setup_log traced with_tracing (at_start true)
      ≡ returned (err, left_behind))
    × (setup_log traced with_tracing left_behind ≡ returned (ok tt, g'))
    × (g'.world ≡ record left_behind.world { opened = 3 ∷ 5 ∷ 3 ∷ 5 ∷ []; level = 5 })
    × (try_get_logger g' ≡ none)
unfolding get_max_level max_level_from cal_checksum build_sinks each_sink new_inner
tracing_failure_hidden_example =
    tracing_failure_hidden traced with_tracing (at_start true) (3 ∷ 5 ∷ []) left_behind.world
      left_behind.world (record left_behind.world { opened = 3 ∷ 5 ∷ 3 ∷ 5 ∷ [] }) refl refl refl
      refl refl refl refl

tracing_request_ignored_example :
    setup_log process (record two_sinks { tracing_global = true }) (in_use false)
    ≡ returned (
      ok tt,
      record (in_use false) {
        world = record (in_use false).world { opened = 3 ∷ 5 ∷ 3 ∷ 5 ∷ []; level = 5 };
      },
    )
unfolding get_max_level max_level_from cal_checksum each_sink
tracing_request_ignored_example =
    tracing_request_ignored process two_sinks (in_use false) (once (3 ∷ 5 ∷ []))
      (record (in_use false).world { opened = 3 ∷ 5 ∷ 3 ∷ 5 ∷ [] }) refl refl refl

-- Sinks that keep what they are given: a record as its number, and 0 for a flush or a reopening.
abbrev keeping : Env ℕ ℕ ℕ ℕ Process
keeping = record process {
  sink_log = λ s r w. record w { opened = w.opened ++ r ∷ [] };
  sink_flush = λ s w. record w { opened = w.opened ++ 0 ∷ [] };
  sink_reopen = λ s w. (err, record w { opened = w.opened ++ 0 ∷ [] });
}

force_exit_flushes :
    run_hook keeping
      (λ place text. length text)
      panic_hook_force_exit
      (record { text = 7 ∷ 8 ∷ []; location = none })
      (in_use false)
    ≡ (
      unwinding (7 ∷ 8 ∷ []),
      record (in_use false) {
        world = record (in_use false).world { opened = 3 ∷ 5 ∷ 2 ∷ 2 ∷ 0 ∷ 0 ∷ [] };
      },
    )
unfolding run_hook log_panic log log_all flush flush_all
force_exit_flushes = refl

-- The first sink that does not open again ends each turn, but not the listener.
signals_reopen :
    listener_for_signal keeping (10 ∷ 12 ∷ []) (in_use false)
    ≡ returned (record (in_use false) {
      world = record (in_use false).world { opened = 3 ∷ 5 ∷ 0 ∷ 0 ∷ [] };
    })
unfolding listener_for_signal reopen each_sink
signals_reopen = refl
