-- ===== src/Logger/Threads/Tried.antt =====
-- `try_setup` of src/log_impl.rs as the step that a thread makes under the lock.
use captains_log.Base.{
  ℕ, ◌≡◌, refl, ap, sym, subst, inl, inr, Option, none, some, Bool, true, false, Option-cases,
  returned, panicked, ◌⊎◌,
}
use captains_log.Methods.{Io, ok, err}
use captains_log.Methods.Triples.{RunsOr-returned}
use captains_log.Logger.{Builder, Env, LoggerInner, Global}
use captains_log.Logger.Setup.{is_some, try_setup}
use captains_log.Logger.Setup.Effect.{
  SomePanics, Effect, unconfigured, configured, reopened, refused, replaced, Started, Effect-at,
}
use captains_log.Logger.Setup.Refine.{Known, try_setup-Known, try_setup-Started}

-- The result without the flag of the first set-up.
abbrev pub outcome : Io Bool → Io (Unit {0})
outcome (ok first) = ok tt
outcome err = err

module _ {C S L R W : Type 0} (env : Env C S L R W) where
  -- What a set-up that returned has done: its effect, and, where it was the first, from nothing to
  -- something.
  pub record Tried (b : Builder C) (g : Global S W) (r : Io Bool) (g' : Global S W) : Type 0 where
    pub effect : Effect env b g.config_checksum g.inner (outcome r) g'.config_checksum g'.inner
    pub fresh : r ≡ ok true → is_some g.inner ≡ false
    pub filled : r ≡ ok true → is_some g'.inner ≡ true

  Started-Tried :
      (b : Builder C) (g g' : Global S W) (r : Io Bool)
      → g.inner ≡ none
      → Started env b g.config_checksum r g'
      → Tried b g r g'
  Started-Tried b g g' (ok a) e (sinks, h) = record {
    effect =
        subst (λ i. Effect env b g.config_checksum i (ok tt) g'.config_checksum g'.inner) (sym e)
          (Effect-at env g' h (configured sinks));
    fresh = λ q. ap is_some e;
    filled = λ q. ap is_some h.1;
  }
  Started-Tried b g g' err e (inl h) = record {
    effect =
        subst (λ i. Effect env b g.config_checksum i err g'.config_checksum g'.inner) (sym e)
          (Effect-at env g' h unconfigured);
    fresh = λ q. cc;
    filled = λ q. cc;
  }
  Started-Tried b g g' err e (inr (sinks, h)) = record {
    effect =
        subst (λ i. Effect env b g.config_checksum i err g'.config_checksum g'.inner) (sym e)
          (Effect-at env g' h (configured sinks));
    fresh = λ q. cc;
    filled = λ q. cc;
  }

  Known-Tried :
      (b : Builder C) (g g' : Global S W) (i : LoggerInner S) (r : Io Bool)
      → g.inner ≡ some i
      → Known env b g.config_checksum i r g'
      → Tried b g r g'
  Known-Tried b g g' i (ok first) e (f, h) = record {
    effect =
        subst (λ i. Effect env b g.config_checksum i (ok tt) g'.config_checksum g'.inner) (sym e) h;
    fresh = λ q. cc;
    filled = λ q. cc;
  }
  Known-Tried b g g' i err e h = record {
    effect =
        subst (λ i. Effect env b g.config_checksum i err g'.config_checksum g'.inner) (sym e) h;
    fresh = λ q. cc;
    filled = λ q. cc;
  }

  -- A set-up under the lock returns, or the build of one of its sinks panics.
  pub try_setup-Tried :
      (b : Builder C) (g : Global S W)
      → ((r : Io Bool) × (g' : Global S W) × (try_setup env b g ≡ returned (r, g'))
          × Tried b g r g')
        ⊎ ((try_setup env b g ≡ panicked) × SomePanics env b.sinks)
  try_setup-Tried b g = elim (Option-cases g.inner) [
    | inl e ↦ elim (try_setup-Started env b g.config_checksum g (refl, e)) [
      | inl (r, g', e', h) ↦ inl (r, g', e', Started-Tried b g g' r e h)
      | inr p ↦ inr p
    ]
    | inr (i, e) ↦ elim (try_setup-Known env b g.config_checksum i g (refl, e)) [
      | inl (r, g', e', h) ↦ inl (r, g', e', Known-Tried b g g' i r e h)
      | inr p ↦ inr p
    ]
  ]

  pub tried :
      {b : Builder C} {g g' : Global S W} {r : Io Bool}
      → try_setup env b g ≡ returned (r, g')
      → Tried b g r g'
  tried {b} {g} {g'} {r} e =
      RunsOr-returned {P = λ h. h ≡ g} {Q = λ r g'. Tried b g r g'} (try_setup env b)
        (λ h same.
          subst
            (λ h.
              ((r : Io Bool) × (g' : Global S W) × (try_setup env b h ≡ returned (r, g'))
                × Tried b g r g')
              ⊎ ((try_setup env b h ≡ panicked) × SomePanics env b.sinks))
            (sym same) (try_setup-Tried b g))
        g refl r g' e

  Effect-filled :
      {b : Builder C} {k k' : ℕ} {i i' : Option (LoggerInner S)} {r : Io (Unit {0})}
      → Effect env b k i r k' i'
      → is_some i ≡ true
      → is_some i' ≡ true
  Effect-filled unconfigured h = h
  Effect-filled (configured sinks) h = refl
  Effect-filled reopened h = refl
  Effect-filled refused h = refl
  Effect-filled (replaced new d) h = refl

  -- What is configured stays configured.
  pub stays_filled :
      {b : Builder C} {g g' : Global S W} {r : Io Bool}
      → Tried b g r g'
      → is_some g.inner ≡ true
      → is_some g'.inner ≡ true
  stays_filled t = Effect-filled t.effect
