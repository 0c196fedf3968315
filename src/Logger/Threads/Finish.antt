-- ===== src/Logger/Threads/Finish.antt =====
-- Interleaved set-ups of src/log_impl.rs cannot lock each other out.
use captains_log.Base.{
  ℕ, List, ◌≡◌, ◌≢◌, refl, subst, ap, Bool, true, false, Bool-cases, ◌⊎◌, inl, inr, arith,
}
use captains_log.Methods.{Io, ok, err}
use captains_log.Logger.{Builder, Env, Global}
use captains_log.Logger.Threads.{
  Phase, idle, locking, locked, unlocking, setting_logger, setting_level, setting_hook, listening,
  done, unwinding, gone, panics, drop_guard, Action, Shared, after_setup, after_set_logger, Move,
  acquire, set_up, unlock, set_logger, store_level, set_hook, start_listener, Threads, move_to,
  at_start, Run, here, later,
}
use captains_log.Logger.Threads.Once.{holds}
use captains_log.Logger.Threads.Runs.{Goes, one_step, quiet_step, attempt, hand_over, stays}
use captains_log.Logger.Threads.Tried.{try_setup-Tried}
use captains_log.Logger.Setup.Effect.{SomePanics}

module _ {C S L R W : Type 0} (env : Env C S L R W) where
  abbrev Owned : Shared S W → (ℕ → Phase C) → Type 0
  Owned m f = m.lock ≡ true → (j : ℕ) × (holds (f j) ≡ true)

  Move-Owned :
      {p : Phase C} {m : Shared S W} {a : Action} {m' : Shared S W} {p' : Phase C} (f : ℕ → Phase C)
      (i : ℕ)
      → Move env m p a m' p'
      → f i ≡ p
      → Owned m f
      → Owned m' (move_to f i p')
  unfolding move_to
  Move-Owned f i (acquire q) e owned h = (i, ground arith)
  Move-Owned f i (set_up q) e owned h = (i, ground arith)
  Move-Owned f i (panics q) e owned h = (i, ground arith)
  Move-Owned f i drop_guard e owned h = ground arith
  Move-Owned f i unlock e owned h = ground arith
  Move-Owned f i mv e owned h = let (j, held) = owned h in (j, ground arith)

  lock-Owned :
      {g : Global S W} {acts : List Action} {t : Threads C S W}
      → Run env (at_start g) acts t
      → Owned t.shared t.phase
  lock-Owned here h = cc
  lock-Owned (later {t} i run move) h = Move-Owned t.phase i move refl (lock-Owned run) h

  abbrev Freed : Threads C S W → (ℕ → Phase C) → ℕ → Type 0
  Freed t f j =
      (g : Global S W) × (p : Phase C) × Goes env t 0 f j (record { lock = false; global = g }) p

  -- The set-up is done, or the build of one of its sinks has panicked.
  abbrev pub Ended : Builder C → Phase C → Type 0
  Ended b p = ((r : Io (Unit {0})) × (p ≡ done r)) ⊎ ((p ≡ gone) × SomePanics env b.sinks)

  abbrev Ends : Threads C S W → ℕ → Builder C → Type 0
  Ends t i b = (acts : List Action) × (u : Threads C S W) × Run env t acts u × Ended b (u.phase i)

  module _ {t : Threads C S W} where
    -- Who holds the lock can give it back.
    give_back :
        {f : ℕ → Phase C} {j : ℕ} {m : Shared S W} (p : Phase C)
        → holds p ≡ true
        → Goes env t 0 f j m p
        → Freed t f j
    give_back {m} (locked b) h goes = elim (try_setup-Tried env b m.global) [
      | inl (r, g, e, tried) ↦
          (g, after_setup b r, quiet_step env (quiet_step env goes (set_up e)) unlock)
      | inr (e, p) ↦ (
        m.global,
        gone,
        quiet_step env (quiet_step env goes (panics {w = m.global.world} e)) drop_guard,
      )
    ]
    give_back {m} unwinding h goes = (m.global, gone, quiet_step env goes drop_guard)
    give_back gone h goes = cc
    give_back {m} (unlocking b r) h goes = (m.global, after_setup b r, quiet_step env goes unlock)
    give_back idle h goes = cc
    give_back (locking b) h goes = cc
    give_back (setting_logger b) h goes = cc
    give_back (setting_level b) h goes = cc
    give_back (setting_hook b) h goes = cc
    give_back (listening b) h goes = cc
    give_back (done r) h goes = cc

    module _ {f : ℕ → Phase C} {i : ℕ} where
      ended :
          {n : ℕ} {m : Shared S W} {r : Io (Unit {0})} (b : Builder C)
          → Goes env t n f i m (done r)
          → Ends t i b
      ended {n} {m} {r} b goes = (goes.acts, goes.end, goes.run, inl (r, goes.at))

      installs :
          {n : ℕ} {m : Shared S W} (b : Builder C) (r : Io (Unit {0}))
          → Goes env t n f i m (after_set_logger b r)
          → Ends t i b
      unfolding after_set_logger
      installs b (ok u) goes =
          ended b
            (one_step env (one_step env (one_step env goes store_level) set_hook) start_listener)
      installs b err goes = ended b goes

      goes_on :
          {n : ℕ} {m : Shared S W} (b : Builder C) (r : Io Bool)
          → Goes env t n f i m (after_setup b r)
          → Ends t i b
      unfolding after_setup
      goes_on {n} {m} b (ok true) goes =
          installs b (env.set_logger m.global.world).0 (one_step env goes (set_logger refl))
      goes_on b (ok false) goes = ended b goes
      goes_on b err goes = ended b goes

      gets_lock :
          {n : ℕ} {g : Global S W} (b : Builder C)
          → Goes env t n f i (record { lock = false; global = g }) (locking b)
          → Ends t i b
      gets_lock {n} {g} b goes = elim (try_setup-Tried env b g) [
        | inl (r, g', e, tried) ↦ goes_on b r (attempt env goes e)
        | inr (e, p) ↦
            let ends =
              quiet_step env
                (quiet_step env (quiet_step env goes (acquire refl)) (panics {w = g.world} e))
                drop_guard in
            (ends.acts, ends.end, ends.run, inr (ends.at, p))
      ]

    start_free :
        (i : ℕ) (p : Phase C)
        → t.phase i ≡ p
        → t.shared.lock ≡ false
        → Goes env t 0 t.phase i (record { lock = false; global = t.shared.global }) p
    start_free i p e free =
        subst (λ l. Goes env t 0 t.phase i (record { lock = l; global = t.shared.global }) p) free
          (stays env t i p e)

  -- From every state that interleaved set-ups reach, a thread that waits for the lock can come to
  -- its end: neither the lock nor another thread's guard keeps it out for ever, also where the other
  -- thread's set-up panics. It is then done, or has panicked itself, and then the build of one of its
  -- sinks panics.
  pub set_up_can_finish :
      {g : Global S W} {acts : List Action} {t : Threads C S W} (i : ℕ) (b : Builder C)
      → Run env (at_start g) acts t
      → t.phase i ≡ locking b
      → (more : List Action) × (u : Threads C S W) × Run env t more u × Ended b (u.phase i)
  set_up_can_finish {t} i b run e = elim (Bool-cases t.shared.lock) [
    | inl taken ↦
        let (j, held) = lock-Owned run taken in
        let (g, p, goes) = give_back (t.phase j) held (stays env t j (t.phase j) refl) in
        let other : j ≢ i = λ same. let q = ap (λ l. holds (t.phase l)) same in cc in
        gets_lock b (
          subst (λ p. Goes env t 0 goes.end.phase i (record { lock = false; global = g }) p) e
            (hand_over env goes i other))
    | inr free ↦ gets_lock b (start_free i (locking b) e free)
  ]
