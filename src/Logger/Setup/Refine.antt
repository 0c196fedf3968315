-- ===== src/Logger/Setup/Refine.antt =====
-- `setup_log` of src/log_impl.rs has one of the effects of `Effect`, whatever fails.
use captains_log.Base.{
  ◌==◌, ℕ, List, ◌≡◌, refl, ap, ◌∙◌, sym, subst, ◌⊎◌, panicked, inl, inr, Option, none, some, Bool,
  true, false, Option-cases, Bool-cases, arith, returned, if◌then◌else◌,
}
use captains_log.Methods.{Io, ok, err, Method, pure, ◌>>◌}
use captains_log.Methods.Triples.{Runs, RunsOr, total, >>=-Runs, >>=-RunsOr, RunsOr-congr}
use captains_log.Logger.{
  Builder, Env, LoggerInner, once, dyn, Global, update, fail, set, cal_checksum, open_sinks,
  on_inner,
}
use captains_log.Logger.Setup.{
  check_the_same, store_inner, reinit, init_tracing, reset_level, setup_same, setup_other,
  setup_first, try_setup, install, setup_log,
}
use captains_log.Logger.Setup.Effect.{
  SomePanics, Effect, reopened, refused, replaced, Conf, keep_pure, keep_world, keep_level, keep_if,
  keep_tracing, keep_install, keep_built, Started, Effect-at, Started-Effect, keep_Started,
  setup_first-Started,
}

module _ {C S L R W : Type 0} (env : Env C S L R W) where
  -- The effect where something was configured before.
  abbrev Settled : {A : Type 0} → Builder C → ℕ → LoggerInner S → Io A → Global S W → Type 0
  Settled b k i (ok a) g = Effect env b k (some i) (ok tt) g.config_checksum g.inner
  Settled b k i err g = Effect env b k (some i) err g.config_checksum g.inner

  -- `reinit` stores the sinks and the checksum, or fails and leaves both.
  abbrev Stored : Builder C → ℕ → LoggerInner S → Io (Unit {0}) → Global S W → Type 0
  Stored b k i (ok u) g =
      (old : List S) × (new : List S) × (i ≡ dyn old)
      × Conf env (cal_checksum env b) (some (dyn new)) g
  Stored b k i err g = Conf env k (some i) g

  abbrev Found : ℕ → LoggerInner S → Io (Option (LoggerInner S)) → Global S W → Type 0
  Found k i (ok o) g = (o ≡ some i) × Conf env k (some i) g
  Found k i err g = Conf env k (some i) g

  store-Stored :
      (b : Builder C) (k : ℕ) (i : LoggerInner S) (sinks : List S)
      → Runs
          (Conf env k (some i))
          (store_inner env (some i) sinks
            >> update (λ g. record g { config_checksum = cal_checksum env b }))
          (Stored b k i)
  unfolding set
  store-Stored b k (once old) sinks g h = (err, g, refl, h)
  store-Stored b k (dyn old) sinks g h = (
    ok tt,
    record g { inner = some (dyn sinks); config_checksum = cal_checksum env b },
    refl,
    (old, sinks, refl, (refl, refl)),
  )

  reinit-Stored :
      (b : Builder C) (k : ℕ) (i : LoggerInner S)
      → RunsOr (SomePanics env b.sinks) (Conf env k (some i)) (reinit env b) (Stored b k i)
  unfolding reinit
  reinit-Stored b k i =
      >>=-RunsOr (λ r. Conf env k (some i)) _ _ (keep_built env k (some i) b)
        (λ sinks. total (
          >>=-Runs (Found k i) _ _ (λ g h. (ok g.inner, g, refl, (h.1, h)))
            (λ o g h.
              subst
                (λ o.
                  (r : Io (Unit {0})) × (g' : Global S W) × ((store_inner env o sinks
                        >> update (λ g. record g { config_checksum = cal_checksum env b }))
                      g
                    ≡ returned (r, g'))
                  × Stored b k i r g')
                (sym h.0) (store-Stored b k i sinks g h.1))
            (λ g h. h)))
        (λ g h. h)

  -- Nothing is left to install where something was configured.
  abbrev pub Known : Builder C → ℕ → LoggerInner S → Io Bool → Global S W → Type 0
  Known b k i (ok first) g =
      (first ≡ false) × Effect env b k (some i) (ok tt) g.config_checksum g.inner
  Known b k i err g = Effect env b k (some i) err g.config_checksum g.inner

  last_steps : Builder C → Method (Global S W) Bool
  last_steps b = reset_level env b >> (init_tracing env b >> pure false)

  stored_Effect :
      (b : Builder C) (k : ℕ) (i : LoggerInner S) (old new : List S) (r : Io (Unit {0}))
      (g : Global S W)
      → b.dynamic ≡ true
      → i ≡ dyn old
      → Conf env (cal_checksum env b) (some (dyn new)) g
      → Effect env b k (some i) r g.config_checksum g.inner
  stored_Effect b k i old new r g d e h =
      subst (λ i. Effect env b k (some i) r g.config_checksum g.inner) (sym e)
        (Effect-at env g h (replaced new d))

  last_steps-Known :
      (b : Builder C) (k : ℕ) (i : LoggerInner S)
      → b.dynamic ≡ true
      → Runs (Stored b k i (ok tt)) (last_steps b) (Known b k i)
  unfolding last_steps
  last_steps-Known b k i d g (old, new, e, h) =
      >>=-Runs (λ r. Conf env (cal_checksum env b) (some (dyn new))) _ _
        (keep_level env (cal_checksum env b) (some (dyn new)) b)
        (λ u.
          >>=-Runs (λ r. Conf env (cal_checksum env b) (some (dyn new))) _ _
            (keep_tracing env (cal_checksum env b) (some (dyn new)) b)
            (λ u g h. (ok false, g, refl, (refl, stored_Effect b k i old new (ok tt) g d e h)))
            (λ g h. stored_Effect b k i old new err g d e h))
        (λ g h. stored_Effect b k i old new err g d e h) g h

  abbrev Allowed : Builder C → ℕ → LoggerInner S → Io (Unit {0}) → Global S W → Type 0
  Allowed b k i (ok u) g = (b.dynamic ≡ true) × Conf env k (some i) g
  Allowed b k i err g = Conf env k (some i) g

  allowed :
      (b : Builder C) (k : ℕ) (i : LoggerInner S)
      → Runs (Conf env k (some i)) (if b.dynamic then pure tt else fail) (Allowed b k i)
  allowed b k i g h = elim (Bool-cases b.dynamic) [
    | inl e ↦ (ok tt, g, ground (arith, e), (e, h))
    | inr e ↦ (err, g, ground (arith, e), h)
  ]

  setup_other-Known :
      (b : Builder C) (k : ℕ) (i : LoggerInner S)
      → RunsOr (SomePanics env b.sinks) (Conf env k (some i)) (setup_other env b) (Known b k i)
  unfolding last_steps
  setup_other-Known b k i =
      >>=-RunsOr (Allowed b k i) _ _ (total (allowed b k i))
        (λ u g h.
          >>=-RunsOr (Stored b k i) _ (λ u. last_steps b) (reinit-Stored b k i)
            (λ u. total (last_steps-Known b k i h.0)) (λ g h. Effect-at env g h refused) g h.1)
        (λ g h. Effect-at env g h refused)

  setup_same-Known :
      (b : Builder C) (k : ℕ) (i : LoggerInner S)
      → k ≡ cal_checksum env b
      → Runs (Conf env k (some i)) (setup_same env b) (Known b k i)
  unfolding open_sinks
  setup_same-Known b k i e =
      let kept : (r : Io (Unit {0})) (g : Global S W)
          → Conf env k (some i) g
          → Effect env b k (some i) r g.config_checksum g.inner =
        λ r g h.
          Effect-at env g h (subst (λ l. Effect env b l (some i) r l (some i)) (sym e) reopened) in
      >>=-Runs (λ r. Conf env k (some i)) (open_sinks env) _
        (λ g. keep_world env k (some i) (on_inner env env.sink_open g.inner) g)
        (λ u.
          >>=-Runs (λ r. Conf env k (some i)) _ _ (keep_level env k (some i) b)
            (λ u g h. (ok false, g, refl, (refl, kept (ok tt) g h))) (kept err))
        (kept err)

  tests_equal : (a b : ℕ) → (a == b) ≡ true → a ≡ b
  tests_equal a b e = ground arith

  pub checked :
      (b : Builder C) (k : ℕ) (i : LoggerInner S) (g : Global S W)
      → Conf env k (some i) g
      → check_the_same env b g ≡ some (k == cal_checksum env b)
  unfolding check_the_same
  checked b k i g h = let e0 = h.0 in let e1 = h.1 in cc

  pub try_setup-Known :
      (b : Builder C) (k : ℕ) (i : LoggerInner S)
      → RunsOr (SomePanics env b.sinks) (Conf env k (some i)) (try_setup env b) (Known b k i)
  unfolding try_setup
  try_setup-Known b k i = elim (Bool-cases (k == cal_checksum env b)) [
    | inl e ↦
        RunsOr-congr _ (setup_same env b) (λ g h. let c = checked b k i g h ∙ ap some e in cc)
          (total (setup_same-Known b k i (tests_equal k (cal_checksum env b) e)))
    | inr e ↦
        RunsOr-congr _ (setup_other env b) (λ g h. let c = checked b k i g h ∙ ap some e in cc)
          (setup_other-Known b k i)
  ]

  pub try_setup-Started :
      (b : Builder C) (k : ℕ)
      → RunsOr (SomePanics env b.sinks) (Conf env k none) (try_setup env b) (Started env b k)
  unfolding try_setup check_the_same
  try_setup-Started b k =
      RunsOr-congr _ (setup_first env b) (λ g h. let c = h.1 in cc) (setup_first-Started env b k)

  next_log :
      (b : Builder C) (k : ℕ) (i : LoggerInner S)
      → RunsOr
          (SomePanics env b.sinks)
          (Conf env k (some i))
          (setup_log env b)
          (λ r g. Effect env b k (some i) r g.config_checksum g.inner)
  unfolding setup_log
  next_log b k i =
      >>=-RunsOr (Known b k i) _ _ (try_setup-Known b k i)
        (λ first g h. inl (ok tt, g, ground (arith, h.0), h.1)) (λ g h. h)

  first_log :
      (b : Builder C) (k : ℕ)
      → RunsOr
          (SomePanics env b.sinks)
          (Conf env k none)
          (setup_log env b)
          (λ r g. Effect env b k none r g.config_checksum g.inner)
  unfolding setup_log
  first_log b k g h =
      let first_Started : RunsOr (SomePanics env b.sinks) (Conf env k none) (setup_log env b)
          (Started env b k) =
        >>=-RunsOr (Started env b k) _ _ (try_setup-Started b k)
          (λ first. total (
            keep_Started env b k (if first then install env b else pure tt)
              (λ sinks. keep_if env _ _ first _ _ (keep_install env _ _ b) (keep_pure env _ _ tt))))
          (λ g h. h) in
      elim (first_Started g h) [
        | inl (r, g', e, started) ↦ inl (r, g', e, Started-Effect env r g' started)
        | inr p ↦ inr p
      ]

  -- Whether or not sinks open and the log crate and tracing accept the logger: a set-up returns, and its
  -- effect on the sinks in use and their checksum is one of `Effect`, or it panics, and then the build
  -- of one of its sinks panics.
  pub setup_log-Effect :
      (b : Builder C) (g : Global S W)
      → ((r : Io (Unit {0})) × (g' : Global S W) × (setup_log env b g ≡ returned (r, g'))
          × Effect env b g.config_checksum g.inner r g'.config_checksum g'.inner)
        ⊎ ((setup_log env b g ≡ panicked) × SomePanics env b.sinks)
  setup_log-Effect b g = elim (Option-cases g.inner) [
    | inl e ↦ elim (first_log b g.config_checksum g (refl, e)) [
      | inl (r, g', e', h) ↦ inl (
        r,
        g',
        e',
        subst (λ i. Effect env b g.config_checksum i r g'.config_checksum g'.inner) (sym e) h,
      )
      | inr p ↦ inr p
    ]
    | inr (i, e) ↦ elim (next_log b g.config_checksum i g (refl, e)) [
      | inl (r, g', e', h) ↦ inl (
        r,
        g',
        e',
        subst (λ i. Effect env b g.config_checksum i r g'.config_checksum g'.inner) (sym e) h,
      )
      | inr p ↦ inr p
    ]
  ]

  -- Where no sink's build panics, a set-up returns.
  pub setup_log_returns :
      (b : Builder C) (g : Global S W)
      → ¬ (SomePanics env b.sinks)
      → (r : Io (Unit {0})) × (g' : Global S W) × (setup_log env b g ≡ returned (r, g'))
        × Effect env b g.config_checksum g.inner r g'.config_checksum g'.inner
  setup_log_returns b g safe = elim (setup_log-Effect b g) [
    | inl done ↦ done
    | inr (e, p) ↦ absurd (safe p)
  ]
