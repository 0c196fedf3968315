-- ===== src/Logger/Threads/Tests.antt =====
-- Two threads that set up the logger of Logger/Tests.
use captains_log.Base.{ℕ, ◌≤◌, ◌≡◌, refl, List, [], ◌∷◌, some, true, false, arith}
use captains_log.Methods.{ok, err}
use captains_log.Logger.{
  Builder, once, new_inner, cal_checksum, build_sinks, each_sink, open_sinks, set,
}
use captains_log.Logger.Setup.{reinit, init, check_the_same, try_setup}
use captains_log.Logger.Tests.{Process, process, two_sinks, at_start as unconfigured, in_use}
use captains_log.Logger.Threads.{
  Phase, locking, locked, setting_logger, done, Action, quiet, sets_logger, spawns_listener, call,
  acquire, set_up, unlock, set_logger, store_level, set_hook, start_listener, Threads, move_to,
  at_start, Run, here, later, after_setup, after_set_logger, listen_action,
}
use captains_log.Logger.Threads.Once.{count_set, count_spawned, lock_exclusive, installed_once}
use captains_log.Logger.Threads.Effects.{once_kept}
use captains_log.Logger.Threads.Early.{returns_before_logger}
use captains_log.Logger.Threads.Finish.{Ended, set_up_can_finish}

-- The second thread waits while the first one has the lock.
abbrev contended : Threads ℕ ℕ Process
contended = record {
  shared = record { lock = true; global = unconfigured false };
  phase =
      move_to (move_to (move_to (λ _. Phase.idle) 1 (locking two_sinks)) 0 (locking two_sinks)) 0
        (locked two_sinks);
}

abbrev to_contended :
    Run process (at_start (unconfigured false)) (quiet ∷ quiet ∷ quiet ∷ []) contended
unfolding move_to
to_contended = later 0 (later 0 (later 1 here call) call) (acquire refl)

lock_exclusive_example : (◌≡◌ {A = ℕ} 0 0) × (contended.shared.lock ≡ true)
unfolding move_to
lock_exclusive_example = lock_exclusive process 0 0 refl to_contended refl refl

set_up_can_finish_example :
    (more : List Action) × (u : Threads ℕ ℕ Process) × Run process contended more u
    × Ended process two_sinks (u.phase 1)
unfolding move_to
set_up_can_finish_example = set_up_can_finish process 1 two_sinks to_contended refl

returns_before_logger_example :
    (acts : List Action) × (t : Threads ℕ ℕ Process) × Run process
      (at_start (unconfigured false))
      acts
      t
    × (t.phase 0 ≡ setting_logger two_sinks)
    × (t.phase 1 ≡ done (ok tt))
    × (count_set acts ≡ 0)
returns_before_logger_example =
    returns_before_logger process 0 1 two_sinks (unconfigured false) (in_use false)
      (record (in_use false) {
        world = record (in_use false).world { opened = 3 ∷ 5 ∷ 3 ∷ 5 ∷ [] };
      })
      (omega arith) refl
      (unfold try_setup init cal_checksum check_the_same build_sinks new_inner in refl)
      (unfold open_sinks each_sink in refl)

-- A first set-up that is to listen for a signal, to its end.
abbrev signalled : Builder ℕ
signalled = record two_sinks { rotation_signals = 10 ∷ [] }

abbrev to_end :
    (t : Threads ℕ ℕ Process) × Run process
      (at_start (unconfigured false))
      (spawns_listener ∷ quiet ∷ quiet ∷ sets_logger ∷ quiet ∷ quiet ∷ quiet ∷ quiet ∷ [])
      t
unfolding move_to after_setup after_set_logger listen_action try_setup init cal_checksum
    check_the_same build_sinks new_inner
to_end = (
  _,
  later 0
      (later 0
        (later 0
          (later 0
            (later 0
              (later 0 (later 0 (later 0 here (call {b = signalled})) (acquire refl)) (set_up refl))
              unlock)
            (set_logger refl))
          store_level)
        set_hook)
      start_listener,
)

installed_once_example :
    (count_set (spawns_listener ∷ quiet ∷ quiet ∷ sets_logger ∷ quiet ∷ quiet ∷ quiet ∷ quiet ∷ [])
      ≤ 1)
    × (count_spawned
          (spawns_listener ∷ quiet ∷ quiet ∷ sets_logger ∷ quiet ∷ quiet ∷ quiet ∷ quiet ∷ [])
        ≤ 1)
installed_once_example = installed_once process refl to_end.1

-- Another set-up of a logger that is not dynamic, which fails under the lock.
abbrev refused :
    (t : Threads ℕ ℕ Process) × Run process
      (at_start (in_use false))
      (quiet ∷ quiet ∷ quiet ∷ quiet ∷ [])
      t
unfolding move_to after_setup try_setup check_the_same reinit set build_sinks cal_checksum
refused = (
  _,
  later 0
      (later 0
        (later 0 (later 0 here (call {b = record two_sinks { dynamic = true; sinks = 4 ∷ [] }}))
          (acquire refl))
        (set_up {r = err} refl))
      unlock,
)

once_kept_example : refused.0.shared.global.inner ≡ some (once (3 ∷ 5 ∷ []))
once_kept_example = once_kept process (3 ∷ 5 ∷ []) refused.1 refl
