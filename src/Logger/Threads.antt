-- ===== src/Logger/Threads.antt =====
-- Set-ups of src/log_impl.rs in several threads: the spin lock of `GlobalLoggerStatic`, its guard, and
-- the steps of `setup_log` after the guard is dropped. What `try_setup` does under the lock is one
-- step, as are the swap of `signal_listener` and the spawning of the listener.
pub mod Tried
pub mod Once
pub mod Runs
pub mod Effects
pub mod Early
pub mod Finish
mod Tests
use captains_log.Base.{
  ◌==◌, ℕ, List, [], ◌∷◌, ◌≡◌, none, Bool, true, false, returned, panicked, if◌then◌else◌,
}
use captains_log.Methods.{Io, ok, err}
use captains_log.Logger.{Builder, Env, Global, get_max_level}
use captains_log.Logger.Setup.{is_empty, try_setup, hook, listen}

-- Where a thread stands in `setup_log`.
pub data Phase (C : Type 0) : Type 0 where
  idle : Phase C
  locking : Builder C → Phase C  -- the loop of `lock`
  locked : Builder C → Phase C  -- with the guard, before `try_setup` does its work
  unlocking : Builder C → Io Bool → Phase C  -- before the guard is dropped
  unwinding : Phase C  -- after a panic under the lock, before the guard is dropped
  gone : Phase C  -- after the panic
  setting_logger : Builder C → Phase C
  setting_level : Builder C → Phase C
  setting_hook : Builder C → Phase C
  listening : Builder C → Phase C
  done : Io (Unit {0}) → Phase C

-- The calls of a step that the process must not see twice.
pub data Action : Type 0 where
  quiet sets_logger spawns_listener : Action

pub record Shared (S W : Type 0) : Type 0 where
  pub lock : Bool
  pub global : Global S W

module _ {C : Type 0} where
  -- `?` on the result of `try_setup`, and the branches after it.
  unfoldable pub after_setup : Builder C → Io Bool → Phase C
  after_setup b (ok true) = setting_logger b
  after_setup b (ok false) = done (ok tt)
  after_setup b err = done err

  unfoldable pub after_set_logger : Builder C → Io (Unit {0}) → Phase C
  after_set_logger b (ok u) = setting_level b
  after_set_logger b err = done err

  unfoldable pub listen_action : {S W : Type 0} → Builder C → Global S W → Action
  listen_action b g =
      if is_empty b.rotation_signals
      then quiet
      else if g.signal_listener
      then quiet
      else spawns_listener

module _ {C S L R W : Type 0} (env : Env C S L R W) where
  -- A step of one thread. `compare_exchange_weak` may fail on a lock that is free.
  pub data Move (m : Shared S W) : Phase C → Action → Shared S W → Phase C → Type 0 where
    call : {b : Builder C} → Move m idle quiet m (locking b)
    call_again : {b : Builder C} {r : Io (Unit {0})} → Move m (done r) quiet m (locking b)
    yield_now : {b : Builder C} → Move m (locking b) quiet m (locking b)
    acquire :
        {b : Builder C}
        → m.lock ≡ false
        → Move m (locking b) quiet (record m { lock = true }) (locked b)
    set_up :
        {b : Builder C} {r : Io Bool} {g : Global S W}
        → try_setup env b m.global ≡ returned (r, g)
        → Move m (locked b) quiet (record m { global = g }) (unlocking b r)
    -- A build of a sink panics; before that only the process outside has changed.
    panics :
        {b : Builder C} {w : W}
        → try_setup env b m.global ≡ panicked
        → Move m (locked b) quiet (record m { global = record m.global { world = w } }) unwinding
    drop_guard : Move m unwinding quiet (record m { lock = false }) gone
    unlock :
        {b : Builder C} {r : Io Bool}
        → Move m (unlocking b r) quiet (record m { lock = false }) (after_setup b r)
    set_logger :
        {b : Builder C} {r : Io (Unit {0})} {w : W}
        → env.set_logger m.global.world ≡ (r, w)
        → Move m
            (setting_logger b)
            sets_logger
            (record m { global = record m.global { world = w } })
            (after_set_logger b r)
    store_level :
        {b : Builder C}
        → Move m
            (setting_level b)
            quiet
            (record m {
              global = record m.global {
                world = env.set_max_level (get_max_level env b) m.global.world;
              };
            })
            (setting_hook b)
    set_hook :
        {b : Builder C}
        → Move m (setting_hook b) quiet (record m { global = hook env b m.global }) (listening b)
    start_listener :
        {b : Builder C}
        → Move m
            (listening b)
            (listen_action b m.global)
            (record m { global = listen env b m.global })
            (done (ok tt))

-- Any number of threads over the static.
pub record Threads (C S W : Type 0) : Type 0 where
  pub shared : Shared S W
  pub phase : ℕ → Phase C

unfoldable pub move_to : {C : Type 0} → (ℕ → Phase C) → ℕ → Phase C → ℕ → Phase C
move_to f i p j = if i == j then p else f j

abbrev pub at_start : {C S W : Type 0} → Global S W → Threads C S W
at_start g = record { shared = record { lock = false; global = g }; phase = λ _. idle }

module _ {C S L R W : Type 0} (env : Env C S L R W) where
  -- The actions of the steps between two states, the last one first.
  pub data Run (s : Threads C S W) : List Action → Threads C S W → Type 0 where
    here : Run s [] s
    later :
        {acts : List Action} {t : Threads C S W} {a : Action} {m : Shared S W} {p : Phase C} (i : ℕ)
        → Run s acts t
        → Move env t.shared (t.phase i) a m p
        → Run s (a ∷ acts) (record { shared = m; phase = move_to t.phase i p })
