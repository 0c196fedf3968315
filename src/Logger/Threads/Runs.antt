-- ===== src/Logger/Threads/Runs.antt =====
-- Runs of set-ups of src/log_impl.rs, one thread's steps after another's.
use captains_log.Base.{
  ℕ, ◌+◌, List, [], ◌∷◌, ◌≡◌, ◌≢◌, refl, sym, subst, ◌∙◌, Bool, false, returned, arith,
}
use captains_log.Methods.{Io}
use captains_log.Logger.{Builder, Env, Global}
use captains_log.Logger.Setup.{try_setup}
use captains_log.Logger.Threads.{
  Phase, locking, Action, quiet, Shared, after_setup, Move, acquire, set_up, unlock, Threads,
  move_to, Run, here, later,
}
use captains_log.Logger.Threads.Once.{count_set, count_lem}

module _ {C : Type 0} where
  pub move_to-same : (f : ℕ → Phase C) (i : ℕ) (p : Phase C) → move_to f i p i ≡ p
  unfolding move_to
  move_to-same f i p = ground arith

  pub move_to-other :
      (f : ℕ → Phase C) (i : ℕ) (p : Phase C) (j : ℕ) → i ≢ j → move_to f i p j ≡ f j
  unfolding move_to
  move_to-other f i p j h = ground arith

module _ {C S L R W : Type 0} (env : Env C S L R W) where
  -- A run goes on with calls of the log crate that are counted, to where thread `i` stands at `p` over
  -- `m`, and the others stand where they stood.
  pub record Goes (s : Threads C S W) (n : ℕ) (f : ℕ → Phase C) (i : ℕ) (m : Shared S W)
      (p : Phase C) : Type 0 where
    pub acts : List Action
    pub end : Threads C S W
    pub run : Run env s acts end
    pub calls : count_set acts ≡ n
    pub over : end.shared ≡ m
    pub at : end.phase i ≡ p
    pub others : (j : ℕ) → i ≢ j → end.phase j ≡ f j

  module _ {s : Threads C S W} {n : ℕ} {f : ℕ → Phase C} {i : ℕ} where
    pub one_step :
        {m m' : Shared S W} {p p' : Phase C} {a : Action}
        → Goes s n f i m p
        → Move env m p a m' p'
        → Goes s (count_set (a ∷ []) + n) f i m' p'
    one_step {m} {m'} {p} {p'} {a} g move = record {
      acts = a ∷ g.acts;
      end = record { shared = m'; phase = move_to g.end.phase i p' };
      run = later i g.run (
          subst (λ m. Move env m (g.end.phase i) a m' p') (sym g.over)
            (subst (λ p. Move env m p a m' p') (sym g.at) move));
      calls = let c = (count_lem env a g.acts).0 in let e = g.calls in cc;
      over = refl;
      at = move_to-same g.end.phase i p';
      others = λ j h. move_to-other g.end.phase i p' j h ∙ g.others j h;
    }

    pub quiet_step :
        {m m' : Shared S W} {p p' : Phase C}
        → Goes s n f i m p
        → Move env m p quiet m' p'
        → Goes s n f i m' p'
    unfolding count_set
    quiet_step {m} {m'} {p} {p'} g move =
        subst (λ n. Goes s n f i m' p') (omega arith) (one_step g move)

    -- A thread alone gets the lock, does its set-up and drops the guard.
    pub attempt :
        {b : Builder C} {r : Io Bool} {g g' : Global S W}
        → Goes s n f i (record { lock = false; global = g }) (locking b)
        → try_setup env b g ≡ returned (r, g')
        → Goes s n f i (record { lock = false; global = g' }) (after_setup b r)
    attempt goes e = quiet_step (quiet_step (quiet_step goes (acquire refl)) (set_up e)) unlock

    pub hand_over :
        {m : Shared S W} {p : Phase C} (g : Goes s n f i m p) (j : ℕ)
        → i ≢ j
        → Goes s n g.end.phase j m (f j)
    hand_over g j h = record {
      acts = g.acts;
      end = g.end;
      run = g.run;
      calls = g.calls;
      over = g.over;
      at = g.others j h;
      others = λ l q. refl;
    }

  pub stays :
      (s : Threads C S W) (i : ℕ) (p : Phase C) → s.phase i ≡ p → Goes s 0 s.phase i s.shared p
  unfolding count_set
  stays s i p e = record {
    acts = [];
    end = s;
    run = here;
    calls = refl;
    over = refl;
    at = e;
    others = λ j h. refl;
  }
