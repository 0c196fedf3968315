-- ===== src/Logger/Setup/Forever.antt =====
-- Any number of set-ups of src/log_impl.rs, one after the other.
use captains_log.Base.{
  All, ℕ, List, [], ◌∷◌, ◌≡◌, refl, ap, ◌∙◌, Option, some, Outcome, returned, ◌>>=◌,
}
use captains_log.Methods.{Io}
use captains_log.Logger.{Builder, Env, LoggerInner, once, Global}
use captains_log.Logger.Setup.{setup_log}
use captains_log.Logger.Setup.Effect.{
  SomePanics, Effect, unconfigured, configured, reopened, refused, replaced,
}
use captains_log.Logger.Setup.Refine.{setup_log_returns}

module _ {C S L R W : Type 0} (env : Env C S L R W) where
  -- The results and the last state.
  unfoldable pub setups :
      List (Builder C) → Global S W → Outcome (List (Io (Unit {0})) × Global S W)
  setups [] g = returned ([], g)
  setups (b ∷ bs) g =
      setup_log env b g >>= λ (r, g1). setups bs g1 >>= λ (rs, g2). returned (r ∷ rs, g2)

  pub Effect-once :
      {b : Builder C} {k k' : ℕ} {r : Io (Unit {0})} {i i' : Option (LoggerInner S)}
      (sinks : List S)
      → Effect env b k i r k' i'
      → i ≡ some (once sinks)
      → i' ≡ some (once sinks)
  Effect-once sinks unconfigured e = cc
  Effect-once sinks (configured new) e = cc
  Effect-once sinks reopened e = e
  Effect-once sinks refused e = e
  Effect-once sinks (replaced new d) e = cc

  pub setups_step :
      (b : Builder C) (bs : List (Builder C)) (g g1 : Global S W) (r : Io (Unit {0}))
      → setup_log env b g ≡ returned (r, g1)
      → setups (b ∷ bs) g ≡ (setups bs g1 >>= λ (rs, g2). returned (r ∷ rs, g2))
  unfolding setups
  setups_step b bs g g1 r e =
      ap (λ o. o >>= λ (r, g1). setups bs g1 >>= λ (rs, g2). returned (r ∷ rs, g2)) e

  -- No set-up of the sequence has a sink whose build panics.
  abbrev pub AllBuild : List (Builder C) → Type 0
  AllBuild bs = All (λ (b : Builder C). ¬ (SomePanics env b.sinks)) bs

  -- Sinks that were not configured as dynamic stay in use for ever: no sequence of set-ups replaces
  -- them, and each set-up of it returns, where no build of a sink panics.
  pub once_forever :
      (bs : List (Builder C)) (g : Global S W) (sinks : List S)
      → AllBuild bs
      → g.inner ≡ some (once sinks)
      → (rs : List (Io (Unit {0}))) × (g' : Global S W) × (setups bs g ≡ returned (rs, g'))
        × (g'.inner ≡ some (once sinks))
  once_forever [] g sinks safe h = ([], g, unfold setups in refl, h)
  once_forever (b ∷ bs) g sinks safe h =
      let (r, g1, e, effect) = setup_log_returns env b g safe.0 in
      let (rs, g2, e2, h2) = once_forever bs g1 sinks safe.1 (Effect-once sinks effect h) in
      (
        r ∷ rs,
        g2,
        setups_step b bs g g1 r e ∙ ap (λ o. o >>= λ (rs, g2). returned (r ∷ rs, g2)) e2,
        h2,
      )
