-- ===== src/Rotation/Threads/Exclusive.antt =====
-- The backend of src/rotation.rs is never used by two threads at a time.
use captains_log.Base.{ℕ, ◌≡◌, ◌≢◌, Option, none, some, arith}
use captains_log.Rotation.Threads.{
  WriterPhase, joining, renaming, spawning, storing, running, Rotating, after_wait, set_worker,
  Step, calls_wait, takes_none, takes, joins, renames, spawns, stores, finishes, Reached, start,
  then,
}

-- The thread that is still to be joined, by the handle that is stored or taken.
abbrev pub handle : Option ℕ → WriterPhase → Option ℕ
handle th (joining goes_on i) = some i
handle th (storing i) = some i
handle th renaming = none
handle th spawning = none
handle th _ = th

record Inv (s : Rotating) : Type 0 where
  known : (i : ℕ) → s.workers i ≡ running → handle s.th s.writer ≡ some i

Step-Inv : {s t : Rotating} → Step s t → Inv s → Inv t
unfolding after_wait set_worker
Step-Inv (calls_wait goes_on e) inv = record { known = λ i h. ground (arith, inv.known i h) }
Step-Inv (takes_none goes_on e n) inv = record { known = λ i h. ground (arith, inv.known i h) }
Step-Inv (takes goes_on j e n) inv = record { known = λ i h. ground (arith, inv.known i h) }
Step-Inv (joins goes_on j e d) inv = record { known = λ i h. ground (arith, inv.known i h) }
Step-Inv (renames e) inv = record { known = λ i h. ground (arith, inv.known i h) }
Step-Inv (spawns e) inv = record { known = λ i h. ground (arith, inv.known i) }
Step-Inv (stores j e) inv = record { known = λ i h. ground (arith, inv.known i h) }
Step-Inv (finishes j e) inv = record { known = λ i h. ground (arith, inv.known i) }

Reached-Inv : {s : Rotating} → Reached s → Inv s
Reached-Inv start = record { known = λ i h. cc }
Reached-Inv (then r step) = Step-Inv step (Reached-Inv r)

-- Whatever the writer's thread and the background threads do, at most one background thread is running,
-- never while the writer's thread renames files, and it is the one whose handle the writer's thread has
-- stored, waits for, or is about to store.
pub backend_exclusive :
    {s : Rotating} (i j : ℕ)
    → Reached s
    → s.workers i ≡ running
    → s.workers j ≡ running
    → (i ≡ j) × (s.writer ≢ renaming) × (handle s.th s.writer ≡ some i)
backend_exclusive {s} i j r hi hj =
    let inv = Reached-Inv r in
    let ki = inv.known i hi in let kj = inv.known j hj in (ground (arith, ki, kj), λ e. cc, ki)
