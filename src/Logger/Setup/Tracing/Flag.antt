-- ===== src/Logger/Setup/Tracing/Flag.antt =====
-- The flag of tracing's global dispatcher in src/log_impl.rs, over any number of set-ups.
use captains_log.Base.{
  List, [], ◌∷◌, ◌≡◌, refl, ap, ◌∙◌, Option, Option-cases, none, some, Bool, true, false,
  Bool-cases, inl, inr, arith, Outcome, returned, panicked, out_of_fuel, ◌>>=◌ as ◌>>=ₒ◌,
  if◌then◌else◌,
}
use captains_log.Methods.{Io, ok, err, Method, pure, ◌>>=◌, assert, gets}
use captains_log.Logger.{
  Builder, Env, LoggerInner, once, dyn, Global, on_world, update, fail, set, cal_checksum,
  new_inner, build_sinks, open_sinks, on_inner,
}
use captains_log.Logger.Setup.Forever.{AllBuild, setups, setups_step}
use captains_log.Logger.Setup.Refine.{setup_log_returns}
use captains_log.Logger.Setup.{
  is_some, check_the_same, built, store_inner, reinit, init, tracing_layer, tracing_dispatch,
  init_tracing_global, init_tracing, hook, listen, reset_level, try_setup, install, setup_log,
}

module _ {C S L R W : Type 0} (env : Env C S L R W) where
  -- The flag of tracing is not cleared by what returns.
  abbrev Keeps : {A : Type 0} → Method (Global S W) A → Type 0
  Keeps {A} m =
      (g g' : Global S W) (r : Io A)
      → m g ≡ returned (r, g')
      → g.tracing_inited ≡ true
      → g'.tracing_inited ≡ true

  keep_>>= :
      {A B : Type 0} (m : Method (Global S W) A) (f : A → Method (Global S W) B)
      → Keeps m
      → ((a : A) → Keeps (f a))
      → Keeps (m >>= f)
  keep_>>= {A} {B} m f hm hf g g' r e h = go (m g) refl e
    where
      go :
          (o : Outcome (Io A × Global S W))
          → m g ≡ o
          → (elim o [
            | returned (ok a, s') ↦ f a s'
            | returned (err, s') ↦ returned (err, s')
            | panicked ↦ panicked
            | out_of_fuel ↦ out_of_fuel
          ])
            ≡ returned (r, g')
          → g'.tracing_inited ≡ true
      go (returned (ok a, s)) q e = hf a s g' r e (hm g s (ok a) q h)
      go (returned (err, s)) q e = let k = hm g s err q h in cc
      go panicked q e = cc
      go out_of_fuel q e = cc

  keep_update :
      (f : Global S W → Global S W)
      → ((g : Global S W) → g.tracing_inited ≡ true → (f g).tracing_inited ≡ true)
      → Keeps (update f)
  keep_update f k g g' r e h = let t = k g h in cc

  keep_world : (f : W → Io (Unit {0}) × W) → Keeps (on_world f)
  keep_world f g g' r e h = cc

  keep_pure : {A : Type 0} (a : A) → Keeps (pure a)
  keep_pure a g g' r e h = cc

  keep_gets : {A : Type 0} (f : Global S W → A) → Keeps (gets f)
  keep_gets f g g' r e h = cc

  keep_fail : {A : Type 0} → Keeps (fail {A = A})
  keep_fail g g' r e h = cc

  keep_if :
      {A : Type 0} (b : Bool) (m n : Method (Global S W) A)
      → Keeps m
      → Keeps n
      → Keeps (if b then m else n)
  keep_if true m n hm hn = hm
  keep_if false m n hm hn = hn

  keep_dispatch : Keeps (tracing_dispatch tt)
  unfolding tracing_dispatch
  keep_dispatch g g' r e h = cc

  keep_tracing : (b : Builder C) → Keeps (init_tracing env b)
  unfolding init_tracing_global
  keep_tracing b =
      keep_if b.tracing_global _ _
        (keep_>>= _ _ keep_dispatch (λ u.
          keep_>>= _ _ (keep_world env.set_global_default)
            (λ u. keep_update (λ g. record g { tracing_inited = true }) (λ g h. refl))))
        (keep_pure tt)

  keep_built : (b : Builder C) → Keeps (built env b)
  keep_built b g g' r e h = elim (Option-cases (build_sinks env b.sinks g.world)) [
    | inl n ↦ cc
    | inr ((made, w), n) ↦ cc
  ]

  keep_store : (i : Option (LoggerInner S)) (sinks : List S) → Keeps (store_inner env i sinks)
  unfolding set
  keep_store none sinks g g' r e h = cc
  keep_store (some (once old)) sinks g g' r e h = cc
  keep_store (some (dyn old)) sinks g g' r e h = cc

  keep_reinit : (b : Builder C) → Keeps (reinit env b)
  unfolding reinit
  keep_reinit b = keep_>>= _ _ (keep_built b) (λ sinks.
      keep_>>= _ _ (keep_gets (λ g. g.inner)) (λ i.
        keep_>>= _ _ (keep_store i sinks)
          (λ u. keep_update (λ g. record g { config_checksum = cal_checksum env b }) (λ g h. h))))

  unset : Global S W → Bool
  unset g = if is_some g.inner then false else true

  keep_assert : Keeps (assert unset)
  keep_assert g g' r e h = elim (Bool-cases (unset g)) [ inl b ↦ cc | inr b ↦ cc ]

  keep_init : (b : Builder C) → Keeps (init env b)
  unfolding init unset
  keep_init b = keep_>>= _ _ (keep_built b) (λ sinks. keep_>>= _ _ keep_assert (λ u.
      keep_update
        (λ g. record g {
          inner = some (new_inner b.dynamic sinks);
          config_checksum = cal_checksum env b;
        })
        (λ g h. h)))

  keep_level : (b : Builder C) → Keeps (reset_level env b)
  keep_level b = keep_update _ (λ g h. h)

  keep_try_setup : (b : Builder C) → Keeps (try_setup env b)
  unfolding try_setup open_sinks
  keep_try_setup b g g' r e h = go (check_the_same env b g) refl
    where
      go : (o : Option Bool) → check_the_same env b g ≡ o → g'.tracing_inited ≡ true
      go (some true) c =
          keep_>>= (open_sinks env) _ (λ g. keep_world (on_inner env env.sink_open g.inner) g)
            (λ u. keep_>>= _ _ (keep_level b) (λ u. keep_pure false)) g g' r (cc) h
      go (some false) c =
          keep_>>= _ _ (keep_if b.dynamic _ _ (keep_pure tt) keep_fail)
            (λ u. keep_>>= _ _ (keep_reinit b) (λ u.
              keep_>>= _ _ (keep_level b)
                (λ u. keep_>>= _ _ (keep_tracing b) (λ u. keep_pure false))))
            g g' r (cc) h
      go none c =
          keep_>>= _ _ (keep_init b)
            (λ u. keep_>>= _ _ (keep_tracing b) (λ u.
              keep_>>= _ _ (keep_update (λ g. record g { inited = true }) (λ g h. h))
                (λ u. keep_pure true)))
            g g' r (cc) h

  keep_install : (b : Builder C) → Keeps (install env b)
  keep_install b = keep_>>= _ _ (keep_world env.set_logger) (λ u. keep_>>= _ _ (keep_level b) (λ u.
      keep_>>= _ _ (keep_update (hook env b) (λ g h. ground (arith, h)))
        (λ u. keep_update (listen env b) (λ g h. ground (arith, h)))))

  keep_setup_log : (b : Builder C) → Keeps (setup_log env b)
  unfolding setup_log
  keep_setup_log b =
      keep_>>= _ _ (keep_try_setup b) (λ first. keep_if first _ _ (keep_install b) (keep_pure tt))

  -- Where no build of a sink panics, set-ups return, however many come one after the other, and if
  -- tracing's global dispatcher has been set up before them, every attempt to make a layer or a
  -- dispatcher after them is refused.
  pub tracing_refused_forever :
      {A : Type 0} (new : A) (bs : List (Builder C)) (g : Global S W)
      → AllBuild env bs
      → g.tracing_inited ≡ true
      → (rs : List (Io (Unit {0}))) × (g' : Global S W) × (setups env bs g ≡ returned (rs, g'))
        × (tracing_layer new g' ≡ returned (err, g'))
        × (tracing_dispatch new g' ≡ returned (err, g'))
  unfolding tracing_layer tracing_dispatch
  tracing_refused_forever new [] g safe h = ([], g, unfold setups in refl, cc, cc)
  tracing_refused_forever new (b ∷ bs) g safe h =
      let (r, g1, e, effect) = setup_log_returns env b g safe.0 in
      let (rs, g2, e2, l, d) =
        tracing_refused_forever new bs g1 safe.1 (keep_setup_log b g g1 r e h) in
      (
        r ∷ rs,
        g2,
        setups_step env b bs g g1 r e ∙ ap (λ o. ◌>>=ₒ◌ o (λ (rs, g2). returned (r ∷ rs, g2))) e2,
        l,
        d,
      )
