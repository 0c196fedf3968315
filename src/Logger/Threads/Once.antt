-- ===== src/Logger/Threads/Once.antt =====
-- Interleaved set-ups of src/log_impl.rs: the lock is exclusive, and what follows a first set-up
-- happens once.
use captains_log.Base.{
  ℕ, suc, ◌+◌, ◌≤◌, List, [], ◌∷◌, ◌≡◌, refl, subst, none, Bool, true, false, arith,
}
use captains_log.Methods.{ok, err}
use captains_log.Logger.{Env, Global}
use captains_log.Logger.Setup.{is_some}
use captains_log.Logger.Threads.{
  Phase, idle, locked, unlocking, unwinding, panics, drop_guard, setting_logger, setting_level,
  setting_hook, listening, Action, quiet, sets_logger, spawns_listener, Shared, after_setup,
  after_set_logger, listen_action, Move, acquire, set_up, unlock, set_logger, start_listener,
  Threads, move_to, at_start, Run, here, later,
}
use captains_log.Logger.Threads.Tried.{tried, stays_filled}

unfoldable pub count_set : List Action → ℕ
count_set [] = 0
count_set (sets_logger ∷ acts) = suc (count_set acts)
count_set (quiet ∷ acts) = count_set acts
count_set (spawns_listener ∷ acts) = count_set acts

unfoldable pub count_spawned : List Action → ℕ
count_spawned [] = 0
count_spawned (spawns_listener ∷ acts) = suc (count_spawned acts)
count_spawned (quiet ∷ acts) = count_spawned acts
count_spawned (sets_logger ∷ acts) = count_spawned acts

module _ {C : Type 0} where
  -- The thread holds the guard.
  abbrev pub holds : Phase C → Bool
  holds (locked b) = true
  holds (unlocking b r) = true
  holds unwinding = true
  holds _ = false

  -- Its set-up was the first, and it has not finished.
  abbrev pub first : Phase C → Bool
  first (unlocking b (ok true)) = true
  first (setting_logger b) = true
  first (setting_level b) = true
  first (setting_hook b) = true
  first (listening b) = true
  first _ = false

  -- Of these, `set_logger` is still to be called.
  abbrev pub unset : Phase C → Bool
  unset (unlocking b (ok true)) = true
  unset (setting_logger b) = true
  unset _ = false

  -- What holds of the numbers of calls so far.
  pub record Inv {S W : Type 0} (calls spawns : ℕ) (m : Shared S W) (f : ℕ → Phase C) : Type 0 where
    pub held : (i : ℕ) → holds (f i) ≡ true → m.lock ≡ true
    pub one_holder : (i j : ℕ) → holds (f i) ≡ true → holds (f j) ≡ true → i ≡ j
    pub one_first : (i j : ℕ) → first (f i) ≡ true → first (f j) ≡ true → i ≡ j
    pub first_filled : (i : ℕ) → first (f i) ≡ true → is_some m.global.inner ≡ true
    pub first_spawns : (i : ℕ) → first (f i) ≡ true → spawns ≡ 0
    pub unset_calls : (i : ℕ) → unset (f i) ≡ true → calls ≡ 0
    pub fresh : is_some m.global.inner ≡ false → (calls ≡ 0) × (spawns ≡ 0)
    pub few : (calls ≤ 1) × (spawns ≤ 1)

module _ {C S L R W : Type 0} (env : Env C S L R W) where
  module _ {n k : ℕ} {m : Shared S W} {f : ℕ → Phase C} (inv : Inv n k m f) (i : ℕ) where
    open inv use {held, one_holder, one_first, first_filled, first_spawns, unset_calls, fresh, few}

    Move-held :
        {p p' : Phase C} {a : Action} {m' : Shared S W}
        → Move env m p a m' p'
        → f i ≡ p
        → (j : ℕ) → holds (move_to f i p' j) ≡ true
        → m'.lock ≡ true
    unfolding move_to after_setup after_set_logger
    Move-held (acquire q) e j h = refl
    Move-held (set_up q) e j h = ground (arith, held i, held j)
    Move-held (panics q) e j h = ground (arith, held i, held j)
    Move-held unlock e j h = ground (arith, held j, one_holder i j)
    Move-held drop_guard e j h = ground (arith, held j, one_holder i j)
    Move-held mv e j h = ground (arith, held j)

    Move-one_holder :
        {p p' : Phase C} {a : Action} {m' : Shared S W}
        → Move env m p a m' p'
        → f i ≡ p
        → (j l : ℕ) → holds (move_to f i p' j) ≡ true
        → holds (move_to f i p' l) ≡ true
        → j ≡ l
    unfolding move_to after_setup after_set_logger
    Move-one_holder (acquire q) e j l hj hl = ground (arith, held j, held l, one_holder j l)
    Move-one_holder mv e j l hj hl = ground (arith, one_holder j l, one_holder i l, one_holder i j)

    Move-one_first :
        {p p' : Phase C} {a : Action} {m' : Shared S W}
        → Move env m p a m' p'
        → f i ≡ p
        → (j l : ℕ) → first (move_to f i p' j) ≡ true
        → first (move_to f i p' l) ≡ true
        → j ≡ l
    unfolding move_to after_setup after_set_logger
    Move-one_first (set_up {r = ok true} q) e j l hj hl =
        ground (arith, (tried env q).fresh refl, first_filled j, first_filled l)
    Move-one_first (set_up {r = ok false} q) e j l hj hl = ground (arith, one_first j l)
    Move-one_first (set_up {r = err} q) e j l hj hl = ground (arith, one_first j l)
    Move-one_first mv e j l hj hl = ground (arith, one_first j l, one_first i l, one_first i j)

    Move-first_filled :
        {p p' : Phase C} {a : Action} {m' : Shared S W}
        → Move env m p a m' p'
        → f i ≡ p
        → (j : ℕ) → first (move_to f i p' j) ≡ true
        → is_some m'.global.inner ≡ true
    unfolding move_to after_setup after_set_logger
    Move-first_filled (set_up {r = ok true} q) e j h = (tried env q).filled refl
    Move-first_filled (set_up {r = ok false} q) e j h =
        ground (arith, stays_filled env (tried env q), first_filled j)
    Move-first_filled (set_up {r = err} q) e j h =
        ground (arith, stays_filled env (tried env q), first_filled j)
    Move-first_filled mv e j h = ground (arith, first_filled j, first_filled i)

    Move-first_spawns :
        {p p' : Phase C} {a : Action} {m' : Shared S W}
        → Move env m p a m' p'
        → f i ≡ p
        → (j : ℕ) → first (move_to f i p' j) ≡ true
        → count_spawned (a ∷ []) + k ≡ 0
    unfolding move_to after_setup after_set_logger count_spawned
    Move-first_spawns (set_up {r = ok true} q) e j h =
        ground (arith, (tried env q).fresh refl, fresh, first_spawns j)
    Move-first_spawns (start_listener) e j h = ground (arith, first_spawns j, one_first i j)
    Move-first_spawns mv e j h = ground (arith, first_spawns j, first_spawns i)

    Move-unset_calls :
        {p p' : Phase C} {a : Action} {m' : Shared S W}
        → Move env m p a m' p'
        → f i ≡ p
        → (j : ℕ) → unset (move_to f i p' j) ≡ true
        → count_set (a ∷ []) + n ≡ 0
    unfolding move_to after_setup after_set_logger count_set listen_action
    Move-unset_calls (set_up {r = ok true} q) e j h =
        ground (arith, (tried env q).fresh refl, fresh, unset_calls j)
    Move-unset_calls (set_logger q) e j h = ground (arith, unset_calls j, one_first i j)
    Move-unset_calls mv e j h = ground (arith, unset_calls j, unset_calls i)

    Move-fresh :
        {p p' : Phase C} {a : Action} {m' : Shared S W}
        → Move env m p a m' p'
        → f i ≡ p
        → is_some m'.global.inner ≡ false
        → (count_set (a ∷ []) + n ≡ 0) × (count_spawned (a ∷ []) + k ≡ 0)
    unfolding count_set count_spawned listen_action
    Move-fresh (set_up q) e h = ground (arith, stays_filled env (tried env q), fresh)
    Move-fresh mv e h = ground (arith, first_filled i, fresh)

    Move-few :
        {p p' : Phase C} {a : Action} {m' : Shared S W}
        → Move env m p a m' p'
        → f i ≡ p
        → (count_set (a ∷ []) + n ≤ 1) × (count_spawned (a ∷ []) + k ≤ 1)
    unfolding count_set count_spawned listen_action
    Move-few (set_logger q) e = ground (arith, unset_calls i, few)
    Move-few start_listener e = ground (arith, first_spawns i, few)
    Move-few mv e = ground (arith, few)

    Move-Inv :
        {p p' : Phase C} {a : Action} {m' : Shared S W}
        → Move env m p a m' p'
        → f i ≡ p
        → Inv (count_set (a ∷ []) + n) (count_spawned (a ∷ []) + k) m' (move_to f i p')
    Move-Inv mv e = record {
      held = Move-held mv e;
      one_holder = Move-one_holder mv e;
      one_first = Move-one_first mv e;
      first_filled = Move-first_filled mv e;
      first_spawns = Move-first_spawns mv e;
      unset_calls = Move-unset_calls mv e;
      fresh = Move-fresh mv e;
      few = Move-few mv e;
    }

  start-Inv :
      (g : Global S W) → g.inner ≡ none → Inv {C = C} 0 0 (at_start {C = C} g).shared (λ _. idle)
  start-Inv g e = record {
    held = λ i h. cc;
    one_holder = λ i j h. cc;
    one_first = λ i j h. cc;
    first_filled = λ i h. cc;
    first_spawns = λ i h. refl;
    unset_calls = λ i h. refl;
    fresh = λ h. (refl, refl);
    few = (omega arith, omega arith);
  }

  pub count_lem :
      (a : Action) (acts : List Action)
      → (count_set (a ∷ []) + count_set acts ≡ count_set (a ∷ acts))
        × (count_spawned (a ∷ []) + count_spawned acts ≡ count_spawned (a ∷ acts))
  unfolding count_set count_spawned
  count_lem a acts = ground arith

  pub Run-Inv :
      {g : Global S W} {acts : List Action} {t : Threads C S W}
      → g.inner ≡ none
      → Run env (at_start g) acts t
      → Inv (count_set acts) (count_spawned acts) t.shared t.phase
  Run-Inv {g} e here = unfold count_set count_spawned in start-Inv g e
  Run-Inv {g} {acts} {t} e (later {acts = before} {a} {m} {p} i run move) =
      let (sets, spawns) = count_lem a before in
      let inv = Move-Inv (Run-Inv e run) i move refl in
      subst (λ n. Inv n (count_spawned acts) t.shared t.phase) sets
        (subst (λ k. Inv (count_set (a ∷ []) + count_set before) k t.shared t.phase) spawns inv)

  -- Whatever the threads do, at most one of them is between `lock` and the drop of its guard, and
  -- then the lock is taken.
  pub lock_exclusive :
      {g : Global S W} {acts : List Action} {t : Threads C S W} (i j : ℕ)
      → g.inner ≡ none
      → Run env (at_start g) acts t
      → holds (t.phase i) ≡ true
      → holds (t.phase j) ≡ true
      → (i ≡ j) × (t.shared.lock ≡ true)
  lock_exclusive i j e run hi hj =
      let inv = Run-Inv e run in (inv.one_holder i j hi hj, inv.held i hi)

  -- In any interleaving of any number of set-ups, `log::set_logger` is called at most once, and at
  -- most one signal listener is started.
  pub installed_once :
      {g : Global S W} {acts : List Action} {t : Threads C S W}
      → g.inner ≡ none
      → Run env (at_start g) acts t
      → (count_set acts ≤ 1) × (count_spawned acts ≤ 1)
  installed_once e run = (Run-Inv e run).few
