-- ===== src/Logger/Threads/Early.antt =====
-- A set-up of src/log_impl.rs that returns while another thread still installs the logger.
use captains_log.Base.{ℕ, List, ◌≡◌, ◌≢◌, refl, sym, ap, ◌∙◌, none, some, true, false, returned}
use captains_log.Methods.{ok}
use captains_log.Logger.{
  Builder, Env, LoggerInner, Global, get_max_level, cal_checksum, new_inner, open_sinks,
}
use captains_log.Logger.Setup.{try_setup}
use captains_log.Logger.Setup.Effect.{Conf}
use captains_log.Logger.Setup.Refine.{checked}
use captains_log.Logger.Setup.Retry.{test_refl, first_Configured}
use captains_log.Logger.Threads.{
  idle, setting_logger, done, Action, after_setup, call, Threads, at_start, Run,
}
use captains_log.Logger.Threads.Once.{count_set}
use captains_log.Logger.Threads.Runs.{quiet_step, attempt, hand_over, stays}

module _ {C S L R W : Type 0} (env : Env C S L R W) where
  same_setup :
      (b : Builder C) (g g2 : Global S W) (i : LoggerInner S)
      → Conf env (cal_checksum env b) (some i) g
      → open_sinks env g ≡ returned (ok tt, g2)
      → try_setup env b g
        ≡ returned
            (ok false, record g2 { world = env.set_max_level (get_max_level env b) g2.world })
  unfolding try_setup
  same_setup b g g2 i h o =
      let c =
        checked env b (cal_checksum env b) i g h ∙ ap some (test_refl env (cal_checksum env b)) in
      cc

  -- Two threads set up the same configuration at the start, and its sinks can be opened twice: there
  -- is a run in which the second one has returned without an error, the first one is about to call
  -- `log::set_logger`, and nobody has called it.
  pub returns_before_logger :
      (i j : ℕ) (b : Builder C) (g g1 g2 : Global S W)
      → i ≢ j
      → g.inner ≡ none
      → try_setup env b g ≡ returned (ok true, g1)
      → open_sinks env g1 ≡ returned (ok tt, g2)
      → (acts : List Action) × (t : Threads C S W) × Run env (at_start g) acts t
        × (t.phase i ≡ setting_logger b)
        × (t.phase j ≡ done (ok tt))
        × (count_set acts ≡ 0)
  unfolding after_setup
  returns_before_logger i j b g g1 g2 other fresh first again =
      let (sinks, h) = first_Configured env b g g1 fresh first in
      let one = attempt env (quiet_step env (stays env (at_start g) i idle refl) call) first in
      let two =
        attempt env (quiet_step env (hand_over env one j other) call)
          (same_setup b g1 g2 (new_inner b.dynamic sinks) h again) in
      (two.acts, two.end, two.run, two.others i (λ q. other (sym q)) ∙ one.at, two.at, two.calls)
