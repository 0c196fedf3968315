-- ===== src/Logger/Setup/Retry.antt =====
-- A set-up after one in which `log::set_logger` failed.
use captains_log.Base.{◌==◌, ℕ, ◌≡◌, refl, ap, ◌∙◌, none, some, true, arith, returned}
use captains_log.Methods.{ok, err}
use captains_log.Methods.Triples.{RunsOr-returned}
use captains_log.Logger.{
  Builder, Env, LoggerInner, Global, get_max_level, cal_checksum, new_inner, open_sinks,
}
use captains_log.Logger.Setup.{install, try_setup, setup_log}
use captains_log.Logger.Setup.Effect.{Conf, Configured}
use captains_log.Logger.Setup.Refine.{checked, try_setup-Started}

module _ {C S L R W : Type 0} (env : Env C S L R W) where
  pub test_refl : (a : ℕ) → (a == a) ≡ true
  test_refl a = ground arith

  pub same_again :
      (b : Builder C) (g g2 : Global S W) (i : LoggerInner S)
      → Conf env (cal_checksum env b) (some i) g
      → open_sinks env g ≡ returned (ok tt, g2)
      → setup_log env b g
        ≡ returned (ok tt, record g2 { world = env.set_max_level (get_max_level env b) g2.world })
  unfolding setup_log try_setup
  same_again b g g2 i h o =
      let c = checked env b (cal_checksum env b) i g h ∙ ap some (test_refl (cal_checksum env b)) in
      cc

  pub first_Configured :
      (b : Builder C) (g g1 : Global S W)
      → g.inner ≡ none
      → try_setup env b g ≡ returned (ok true, g1)
      → Configured env b g.config_checksum g1
  first_Configured b g g1 fresh first =
      RunsOr-returned (try_setup env b) (try_setup-Started env b g.config_checksum) g (refl, fresh)
        (ok true) g1 first

  install_fails :
      (b : Builder C) (g : Global S W)
      → (env.set_logger g.world).0 ≡ err
      → install env b g ≡ returned (err, record g { world = (env.set_logger g.world).1 })
  install_fails b g h = cc

  first_fails :
      (b : Builder C) (g g1 : Global S W)
      → try_setup env b g ≡ returned (ok true, g1)
      → setup_log env b g ≡ install env b g1
  unfolding setup_log
  first_fails b g g1 h = cc

  -- If the first set-up fails in `set_logger`, it returns the error, and a second one with the
  -- same configuration succeeds where the sinks open again: after the failure it opens the sinks
  -- and sets the level, and does nothing else to the state.
  pub retry_hides_failure :
      (b : Builder C) (g g1 g2 : Global S W)
      → g.inner ≡ none
      → try_setup env b g ≡ returned (ok true, g1)
      → (env.set_logger g1.world).0 ≡ err
      → open_sinks env (record g1 { world = (env.set_logger g1.world).1 }) ≡ returned (ok tt, g2)
      → (setup_log env b g ≡ returned (err, record g1 { world = (env.set_logger g1.world).1 }))
        × (setup_log env b (record g1 { world = (env.set_logger g1.world).1 })
            ≡ returned
                (ok tt, record g2 { world = env.set_max_level (get_max_level env b) g2.world }))
  retry_hides_failure b g g1 g2 fresh first failed again =
      let (sinks, h) = first_Configured b g g1 fresh first in
      (
        first_fails b g g1 first ∙ install_fails b g1 failed,
        same_again b _ g2 (new_inner b.dynamic sinks) h again,
      )
