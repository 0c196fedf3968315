-- ===== src/Logger/Setup/Effect.antt =====
-- What a set-up does to the configuration of the global logger: the sinks in use and their checksum.
use captains_log.Base.{
  ℕ, List, ◌≡◌, refl, ap, sym, subst, ◌⊎◌, inl, inr, [], ◌∷◌, Option-cases, Option, none, some,
  Bool, true, false, Bool-cases, arith, if◌then◌else◌,
}
use captains_log.Methods.{Io, ok, err, Method, pure, ◌>>=◌}
use captains_log.Methods.Triples.{Runs, RunsOr, total, >>=-Runs, >>=-RunsOr, assert-true}
use captains_log.Logger.{
  Builder, Env, LoggerInner, dyn, Global, on_world, update, fail, new_inner, cal_checksum,
  build_sinks, with_sink,
}
use captains_log.Logger.Setup.{
  is_some, built, init, init_tracing, init_tracing_global, tracing_dispatch, reset_level,
  setup_first, hook, listen, install,
}

module _ {C S L R W : Type 0} (env : Env C S L R W) where
  -- The build of one of the sinks panics, in some state of the process.
  pub data SomePanics : List C → Type 0 where
    this_panics : {c : C} {cs : List C} (w : W) → env.build c w ≡ none → SomePanics (c ∷ cs)
    other_panics : {c : C} {cs : List C} → SomePanics cs → SomePanics (c ∷ cs)

  with_sink-none :
      (sink : S) (o : Option (Io (List S) × W)) → with_sink env sink o ≡ none → o ≡ none
  with_sink-none sink none e = refl
  with_sink-none sink (some (ok sinks, w)) e = cc
  with_sink-none sink (some (err, w)) e = cc

  rest_panics :
      (cs : List C) (sink : S) (o : Io (Unit {0})) (w2 : W)
      → (elim o as (λ x. Option (Io (List S) × W)) [
        | err ↦ some (err, w2)
        | ok u ↦ with_sink env sink (build_sinks env cs w2)
      ])
        ≡ none
      → build_sinks env cs w2 ≡ none
  rest_panics cs sink err w2 e = cc
  rest_panics cs sink (ok u) w2 e = with_sink-none sink (build_sinks env cs w2) e

  build_sinks-SomePanics : (cs : List C) (w : W) → build_sinks env cs w ≡ none → SomePanics cs
  unfolding build_sinks
  build_sinks-SomePanics [] w e = cc
  build_sinks-SomePanics (c ∷ cs) w e = elim (Option-cases (env.build c w)) [
    | inl b ↦ this_panics w b
    | inr ((sink, w1), b) ↦
        let (o, w2) = env.sink_open sink w1 in
        other_panics
          (build_sinks-SomePanics cs w2 (rest_panics cs sink o w2 (rw (b, build_sinks) at e)))
  ]

  -- From a checksum and an inner logger, by a set-up with this result, to the next ones: nothing is
  -- configured, the first configuration, the sinks in use are opened again, nothing changes, or the
  -- sinks are replaced, which takes a dynamic configuration before and now.
  pub data Effect (b : Builder C)
      : ℕ → Option (LoggerInner S) → Io (Unit {0}) → ℕ → Option (LoggerInner S) → Type 0 where
    unconfigured : {k : ℕ} → Effect b k none err k none
    configured :
        {k : ℕ} {r : Io (Unit {0})} (sinks : List S)
        → Effect b k none r (cal_checksum env b) (some (new_inner b.dynamic sinks))
    reopened :
        {i : LoggerInner S} {r : Io (Unit {0})}
        → Effect b (cal_checksum env b) (some i) r (cal_checksum env b) (some i)
    refused : {k : ℕ} {i : LoggerInner S} → Effect b k (some i) err k (some i)
    replaced :
        {k : ℕ} {r : Io (Unit {0})} {old : List S} (new : List S)
        → b.dynamic ≡ true
        → Effect b k (some (dyn old)) r (cal_checksum env b) (some (dyn new))

  abbrev pub Conf : ℕ → Option (LoggerInner S) → Global S W → Type 0
  Conf k i g = (g.config_checksum ≡ k) × (g.inner ≡ i)

  module _ (k : ℕ) (i : Option (LoggerInner S)) where
    -- The method returns and leaves the configuration as it is.
    abbrev pub Keeps : {A : Type 0} → Method (Global S W) A → Type 0
    Keeps m = Runs (Conf k i) m (λ r. Conf k i)

    pub keep_pure : {A : Type 0} (a : A) → Keeps (pure a)
    keep_pure a g h = (ok a, g, refl, h)

    pub keep_fail : {A : Type 0} → Keeps (fail {A = A})
    keep_fail g h = (err, g, refl, h)

    pub keep_world : (f : W → Io (Unit {0}) × W) → Keeps (on_world f)
    keep_world f g h = ((f g.world).0, record g { world = (f g.world).1 }, refl, h)

    pub keep_update :
        (f : Global S W → Global S W)
        → ((g : Global S W) → Conf k i g → Conf k i (f g))
        → Keeps (update f)
    keep_update f p g h = (ok tt, f g, refl, p g h)

    pub keep_>>= :
        {A B : Type 0} (m : Method (Global S W) A) (f : A → Method (Global S W) B)
        → Keeps m
        → ((a : A) → Keeps (f a))
        → Keeps (m >>= f)
    keep_>>= m f first rest = >>=-Runs (λ r. Conf k i) m f first rest (λ g h. h)

    pub keep_level : (b : Builder C) → Keeps (reset_level env b)
    keep_level b = keep_update _ (λ g h. h)

    pub keep_if :
        {A : Type 0} (b : Bool) (m n : Method (Global S W) A)
        → Keeps m
        → Keeps n
        → Keeps (if b then m else n)
    keep_if true m n hm hn = hm
    keep_if false m n hm hn = hn

    keep_dispatch : Keeps (tracing_dispatch tt)
    unfolding tracing_dispatch
    keep_dispatch g h = elim (Bool-cases g.tracing_inited) [
      | inl e ↦ (err, g, rw e refl, h)
      | inr e ↦ (ok tt, g, rw e refl, h)
    ]

    pub keep_tracing : (b : Builder C) → Keeps (init_tracing env b)
    unfolding init_tracing_global
    keep_tracing b =
        keep_if b.tracing_global _ _
          (keep_>>= _ _ keep_dispatch (λ u.
            keep_>>= _ _ (keep_world env.set_global_default)
              (λ u. keep_update (λ g. record g { tracing_inited = true }) (λ g h. h))))
          (keep_pure tt)

    hook-Conf : (b : Builder C) (g : Global S W) → Conf k i g → Conf k i (hook env b g)
    hook-Conf b g h = (ground (arith, h.0), ground (arith, h.1))

    listen-Conf : (b : Builder C) (g : Global S W) → Conf k i g → Conf k i (listen env b g)
    listen-Conf b g h = (ground (arith, h.0), ground (arith, h.1))

    pub keep_install : (b : Builder C) → Keeps (install env b)
    keep_install b = keep_>>= _ _ (keep_world env.set_logger) (λ u.
        keep_>>= _ _ (keep_level b) (λ u.
          keep_>>= _ _ (keep_update (hook env b) (hook-Conf b))
            (λ u. keep_update (listen env b) (listen-Conf b))))

    pub keep_built :
        (b : Builder C) → RunsOr (SomePanics b.sinks) (Conf k i) (built env b) (λ r. Conf k i)
    keep_built b g h = elim (Option-cases (build_sinks env b.sinks g.world)) [
      | inl e ↦ inr (cc, build_sinks-SomePanics b.sinks g.world e)
      | inr ((r, w), e) ↦ inl (r, record g { world = w }, cc, h)
    ]

  -- After `init`: configured, or as before.
  abbrev pub Configured : Builder C → ℕ → Global S W → Type 0
  Configured b k g =
      (sinks : List S) × Conf (cal_checksum env b) (some (new_inner b.dynamic sinks)) g

  abbrev pub Started : {A : Type 0} → Builder C → ℕ → Io A → Global S W → Type 0
  Started b k (ok a) g = Configured b k g
  Started b k err g = Conf k none g ⊎ Configured b k g

  pub Effect-at :
      {b : Builder C} {k k' : ℕ} {i i' : Option (LoggerInner S)} {r : Io (Unit {0})}
      (g : Global S W)
      → Conf k' i' g
      → Effect b k i r k' i'
      → Effect b k i r g.config_checksum g.inner
  Effect-at {b} {k} {k'} {i} {i'} {r} g h e =
      subst (λ l. Effect b k i r l g.inner) (sym h.0) (subst (λ j. Effect b k i r k' j) (sym h.1) e)

  pub Started-Effect :
      {b : Builder C} {k : ℕ} (r : Io (Unit {0})) (g : Global S W)
      → Started b k r g
      → Effect b k none r g.config_checksum g.inner
  Started-Effect {b} {k} (ok u) g (sinks, h) = Effect-at g h (configured sinks)
  Started-Effect {b} {k} err g (inl h) = Effect-at g h unconfigured
  Started-Effect {b} {k} err g (inr (sinks, h)) = Effect-at g h (configured sinks)

  init-Started :
      (b : Builder C) (k : ℕ) → RunsOr (SomePanics b.sinks) (Conf k none) (init env b) (Started b k)
  unfolding init
  init-Started b k =
      >>=-RunsOr (λ r. Conf k none) _ _ (keep_built k none b)
        (λ sinks g h. inl (
          ok tt,
          record g {
            inner = some (new_inner b.dynamic sinks);
            config_checksum = cal_checksum env b;
          },
          assert-true (λ (g : Global S W). if is_some g.inner then false else true) _ g
              (ap (λ o. if is_some o then false else true) h.1),
          (sinks, (refl, refl)),
        ))
        (λ g h. inl h)

  Started-Configured :
      {A : Type 0} (b : Builder C) (k : ℕ) (r : Io A) (g : Global S W)
      → Configured b k g
      → Started b k r g
  Started-Configured b k (ok a) g h = h
  Started-Configured b k err g h = inr h

  pub keep_Started :
      {A : Type 0} (b : Builder C) (k : ℕ) (m : Method (Global S W) A)
      → ((sinks : List S) → Keeps (cal_checksum env b) (some (new_inner b.dynamic sinks)) m)
      → Runs (Configured b k) m (Started b k)
  keep_Started b k m keeps g (sinks, h) =
      let (r, g', e, h') = keeps sinks g h in (r, g', e, Started-Configured b k r g' (sinks, h'))

  pub setup_first-Started :
      (b : Builder C) (k : ℕ)
      → RunsOr (SomePanics b.sinks) (Conf k none) (setup_first env b) (Started b k)
  setup_first-Started b k =
      >>=-RunsOr (Started b k) _ _ (init-Started b k)
        (λ u. total (
          keep_Started b k _ (λ sinks. keep_>>= _ _ _ _ (keep_tracing _ _ b) (λ u.
            keep_>>= _ _ _ _ (keep_update _ _ (λ g. record g { inited = true }) (λ g h. h))
              (λ u. keep_pure _ _ true)))))
        (λ g h. h)
