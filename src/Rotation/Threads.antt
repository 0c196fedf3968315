-- ===== src/Rotation/Threads.antt =====
-- `LogRotate` of src/rotation.rs with the threads that it starts: the writer's thread calls `rotate` and
-- `wait`, each background thread runs `handle_old_files`. Both work on the backend, which no lock
-- guards.
mod Tests
pub mod Exclusive
use captains_log.Base.{◌==◌, ℕ, suc, ◌≡◌, Option, none, some, Bool, true, false, if◌then◌else◌}

-- Where the writer's thread stands. A rotation waits first; `goes_on` says whether one is due.
pub data WriterPhase : Type 0 where
  writing : WriterPhase
  taking : (goes_on : Bool) → WriterPhase  -- `wait`, before `take`
  joining : (goes_on : Bool) → ℕ → WriterPhase  -- `join` of that thread
  renaming : WriterPhase  -- `rename_files`
  spawning : WriterPhase
  storing : ℕ → WriterPhase  -- `replace`, with the handle of that thread

pub data WorkerPhase : Type 0 where
  not_started running finished : WorkerPhase

-- The handle that is stored, the writer's thread, the threads that it has started, and the number of
-- the next one.
pub record Rotating : Type 0 where
  pub th : Option ℕ
  pub writer : WriterPhase
  pub workers : ℕ → WorkerPhase
  pub next : ℕ

unfoldable pub after_wait : Bool → WriterPhase
after_wait goes_on = if goes_on then renaming else writing

unfoldable pub set_worker : (ℕ → WorkerPhase) → ℕ → WorkerPhase → ℕ → WorkerPhase
set_worker f i p j = if i == j then p else f j

-- One step of the writer's thread, or of a background thread.
pub data Step (s : Rotating) : Rotating → Type 0 where
  -- `rotate` where it is due, and `wait` of a flush.
  calls_wait : (goes_on : Bool) → s.writer ≡ writing → Step s (record s { writer = taking goes_on })
  takes_none :
      (goes_on : Bool)
      → s.writer ≡ taking goes_on
      → s.th ≡ none
      → Step s (record s { writer = after_wait goes_on })
  takes :
      (goes_on : Bool) (i : ℕ)
      → s.writer ≡ taking goes_on
      → s.th ≡ some i
      → Step s (record s { th = none; writer = joining goes_on i })
  joins :
      (goes_on : Bool) (i : ℕ)
      → s.writer ≡ joining goes_on i
      → s.workers i ≡ finished
      → Step s (record s { writer = after_wait goes_on })
  renames : s.writer ≡ renaming → Step s (record s { writer = spawning })
  spawns :
      s.writer ≡ spawning
      → Step s (record s {
        writer = storing s.next;
        workers = set_worker s.workers s.next running;
        next = suc s.next;
      })
  stores : (i : ℕ) → s.writer ≡ storing i → Step s (record s { th = some i; writer = writing })
  finishes :
      (i : ℕ)
      → s.workers i ≡ running
      → Step s (record s { workers = set_worker s.workers i finished })

-- `LogRotate` as `build` makes it.
abbrev pub built : Rotating
built = record { th = none; writer = writing; workers = λ _. not_started; next = 0 }

pub data Reached : Rotating → Type 0 where
  start : Reached built
  then : {s t : Rotating} → Reached s → Step s t → Reached t
