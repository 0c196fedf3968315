-- ===== src/Logger/Threads/Effects.antt =====
-- What interleaved set-ups of src/log_impl.rs do to the sinks in use and their checksum.
use captains_log.Base.{ℕ, List, ◌≡◌, Option, some, Bool-cases, inl, inr}
use captains_log.Methods.{Io}
use captains_log.Logger.{Builder, Env, LoggerInner, once, Global}
use captains_log.Logger.Setup.{is_empty, hook, listen}
use captains_log.Logger.Setup.Effect.{Effect}
use captains_log.Logger.Setup.Forever.{Effect-once}
use captains_log.Logger.Threads.{
  Phase, Action, Shared, Move, set_up, set_hook, start_listener, Threads, Run, here, later,
}
use captains_log.Logger.Threads.Tried.{tried}

module _ {C S L R W : Type 0} (env : Env C S L R W) where
  -- The effects of set-ups that are made one after the other, with any results.
  pub data Effects (k : ℕ) (i : Option (LoggerInner S)) : ℕ → Option (LoggerInner S) → Type 0 where
    none_yet : Effects k i k i
    then :
        {l m : ℕ} {j o : Option (LoggerInner S)} (b : Builder C) (r : Io (Unit {0}))
        → Effects k i l j
        → Effect env b l j r m o
        → Effects k i m o

  module _ (k : ℕ) (i : Option (LoggerInner S)) where
    abbrev From : Shared S W → Type 0
    From m = Effects k i m.global.config_checksum m.global.inner

    hook-From :
        (b : Builder C) (g : Global S W)
        → Effects k i g.config_checksum g.inner
        → Effects k i (hook env b g).config_checksum (hook env b g).inner
    hook-From b g h = elim (Bool-cases b.panic_hook) [ inl e ↦ rw e h | inr e ↦ rw e h ]

    listen-From :
        (b : Builder C) (g : Global S W)
        → Effects k i g.config_checksum g.inner
        → Effects k i (listen env b g).config_checksum (listen env b g).inner
    listen-From b g h = elim (Bool-cases (is_empty b.rotation_signals)) [
      | inl e ↦ rw e h
      | inr e ↦ rw e (elim (Bool-cases g.signal_listener) [ inl f ↦ rw f h | inr f ↦ rw f h ])
    ]

    Move-From :
        {p p' : Phase C} {m : Shared S W} {a : Action} {m' : Shared S W}
        → Move env m p a m' p'
        → From m
        → From m'
    Move-From (set_up {b} {r} q) h = then b _ h (tried env q).effect
    Move-From {m} (set_hook {b}) h = hook-From b m.global h
    Move-From {m} (start_listener {b}) h = listen-From b m.global h
    Move-From mv h = h

  -- In any interleaving of set-ups the sinks in use and their checksum change as by set-ups that are
  -- made one after the other.
  pub run-Effects :
      {s t : Threads C S W} {acts : List Action}
      → Run env s acts t
      → Effects s.shared.global.config_checksum s.shared.global.inner
          t.shared.global.config_checksum t.shared.global.inner
  run-Effects here = none_yet
  run-Effects (later n run move) = Move-From _ _ move (run-Effects run)

  Effects-once :
      (sinks : List S) {k : ℕ} {i : Option (LoggerInner S)} {k' : ℕ} {i' : Option (LoggerInner S)}
      → Effects k i k' i'
      → i ≡ some (once sinks)
      → i' ≡ some (once sinks)
  Effects-once sinks none_yet e = e
  Effects-once sinks (then b r h effect) e = Effect-once env sinks effect (Effects-once sinks h e)

  -- Sinks that were not configured as dynamic stay in use in any interleaving of set-ups.
  pub once_kept :
      {s t : Threads C S W} {acts : List Action} (sinks : List S)
      → Run env s acts t
      → s.shared.global.inner ≡ some (once sinks)
      → t.shared.global.inner ≡ some (once sinks)
  once_kept sinks run e = Effects-once sinks (run-Effects run) e
