-- ===== src/Logger/Setup/Tracing.antt =====
-- Set-ups of src/log_impl.rs with the global dispatcher of tracing.
pub mod Flag
use captains_log.Base.{
  ◌==◌, ℕ, List, [], ◌∷◌, ◌≡◌, refl, ap, ◌∙◌, Option, none, some, Bool, true, false, Bool-cases,
  inl, inr, arith, Outcome, returned, panicked, out_of_fuel, ◌>>=◌ as ◌>>=ₒ◌, if◌then◌else◌,
}
use captains_log.Methods.{Io, ok, err, Method, pure, ◌>>=◌, ◌>>◌, assert, gets}
use captains_log.Logger.{
  Builder, Env, LoggerInner, once, dyn, Global, on_world, update, fail, set, get_max_level,
  cal_checksum, new_inner, build_sinks, each_sink, sinks_of, open_sinks, on_inner, try_get_logger,
}
use captains_log.Logger.Setup.Forever.{setups, setups_step}
use captains_log.Logger.Setup.Refine.{setup_log-Effect}
use captains_log.Logger.Setup.Retry.{same_again}
use captains_log.Logger.Setup.{
  is_some, check_the_same, built, store_inner, reinit, init, tracing_layer, tracing_dispatch,
  init_tracing_global, init_tracing, hook, listen, reset_level, setup_same, setup_other,
  setup_first, try_setup, install, setup_log,
}

module _ {C S L R W : Type 0} (env : Env C S L R W) where
  replaced_sinks : Builder C → List S → W → Global S W → Global S W
  replaced_sinks b new w g = record g {
    config_checksum = cal_checksum env b;
    inner = some (dyn new);
    world = w;
  }

  reinit_lem :
      (b : Builder C) (g : Global S W) (old new : List S) (w : W)
      → g.inner ≡ some (dyn old)
      → build_sinks env b.sinks g.world ≡ some (ok new, w)
      → reinit env b g ≡ returned (ok tt, replaced_sinks b new w g)
  unfolding reinit set replaced_sinks
  reinit_lem b g old new w i made = cc

  -- Where tracing's global dispatcher has been set up, a set-up that asks for it and changes the
  -- configuration of a dynamic logger returns an error when its sinks are built, although it has
  -- taken effect: the new sinks are in use, under their checksum, and the level is set.
  pub tracing_twice_fails :
      (b : Builder C) (g : Global S W) (old new : List S) (w : W)
      → g.inner ≡ some (dyn old)
      → g.tracing_inited ≡ true
      → b.dynamic ≡ true
      → b.tracing_global ≡ true
      → (g.config_checksum == cal_checksum env b) ≡ false
      → build_sinks env b.sinks g.world ≡ some (ok new, w)
      → setup_log env b g
        ≡ returned (
          err,
          record g {
            config_checksum = cal_checksum env b;
            inner = some (dyn new);
            world = env.set_max_level (get_max_level env b) w;
          },
        )
  unfolding setup_log try_setup check_the_same init_tracing_global tracing_dispatch replaced_sinks
  tracing_twice_fails b g old new w i t d global differs made =
      let r = reinit_lem b g old new w i made in cc

  -- The state after `init`.
  abbrev first_sinks : Builder C → List S → W → Global S W → Global S W
  first_sinks b sinks w g = record g {
    config_checksum = cal_checksum env b;
    inner = some (new_inner b.dynamic sinks);
    world = w;
  }

  init_lem :
      (b : Builder C) (g : Global S W) (sinks : List S) (w : W)
      → g.inner ≡ none
      → build_sinks env b.sinks g.world ≡ some (ok sinks, w)
      → init env b g ≡ returned (ok tt, first_sinks b sinks w g)
  unfolding init
  init_lem b g sinks w fresh made = cc

  first_fails :
      (b : Builder C) (g : Global S W) (sinks : List S) (w w' : W)
      → g.inner ≡ none
      → g.tracing_inited ≡ false
      → b.tracing_global ≡ true
      → build_sinks env b.sinks g.world ≡ some (ok sinks, w)
      → env.set_global_default w ≡ (err, w')
      → setup_log env b g ≡ returned (err, first_sinks b sinks w' g)
  unfolding setup_log try_setup check_the_same init_tracing_global tracing_dispatch
  first_fails b g sinks w w' fresh t global made failed =
      let i = init_lem b g sinks w fresh made in cc

  -- Where the first set-up asks for tracing's global dispatcher and another one is there, it returns
  -- an error, but its sinks stay; the same set-up again returns without an error where the sinks
  -- open again, although the log crate has never been given the logger: it opens the sinks and sets
  -- the level, and there is still no global logger to be had.
  pub tracing_failure_hidden :
      (b : Builder C) (g : Global S W) (sinks : List S) (w1 w2 w3 : W)
      → g.inner ≡ none
      → g.inited ≡ false
      → g.tracing_inited ≡ false
      → b.tracing_global ≡ true
      → build_sinks env b.sinks g.world ≡ some (ok sinks, w1)
      → env.set_global_default w1 ≡ (err, w2)
      → each_sink env env.sink_open (sinks_of (new_inner b.dynamic sinks)) w2 ≡ (ok tt, w3)
      → (g' : Global S W) × (setup_log env b g ≡ returned (err, first_sinks b sinks w2 g))
        × (setup_log env b (first_sinks b sinks w2 g) ≡ returned (ok tt, g'))
        × (g'.world ≡ env.set_max_level (get_max_level env b) w3)
        × (try_get_logger g' ≡ none)
  unfolding open_sinks try_get_logger
  tracing_failure_hidden b g sinks w1 w2 w3 fresh unset t global made failed again = (
    first_sinks b sinks (env.set_max_level (get_max_level env b) w3) g,
    first_fails b g sinks w1 w2 fresh t global made failed,
    same_again env b (first_sinks b sinks w2 g) (first_sinks b sinks w3 g)
        (new_inner b.dynamic sinks) (refl, refl) (cc),
    refl,
    cc,
  )

  -- Where a configuration is in use and its sinks open again, the same one with tracing's global
  -- dispatcher asked for counts as the same: the set-up returns without an error, and the dispatcher
  -- is not set up.
  pub tracing_request_ignored :
      (b : Builder C) (g : Global S W) (i : LoggerInner S) (w : W)
      → g.inner ≡ some i
      → g.config_checksum ≡ cal_checksum env b
      → each_sink env env.sink_open (sinks_of i) g.world ≡ (ok tt, w)
      → setup_log env (record b { tracing_global = true }) g
        ≡ returned (ok tt, record g { world = env.set_max_level (get_max_level env b) w })
  unfolding cal_checksum get_max_level open_sinks
  tracing_request_ignored b g i w e k again =
      same_again env (record b { tracing_global = true }) g (record g { world = w }) i (k, e) (cc)
