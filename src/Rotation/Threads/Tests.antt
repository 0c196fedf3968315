-- ===== src/Rotation/Threads/Tests.antt =====
-- Two rotations, with the background thread of the second one at work.
use captains_log.Base.{ℕ, ◌≡◌, ◌≢◌, refl, some, true}
use captains_log.Rotation.Threads.{
  renaming, Rotating, after_wait, set_worker, calls_wait, takes_none, takes, joins, renames, spawns,
  stores, finishes, Reached, start, then,
}
use captains_log.Rotation.Threads.Exclusive.{handle, backend_exclusive}

abbrev twice : (s : Rotating) × Reached s
unfolding after_wait set_worker
twice = (
  _,
  then
      (then
        (then
          (then
            (then
              (then
                (then
                  (then
                    (then
                      (then (then (then start (calls_wait true refl)) (takes_none true refl refl))
                        (renames refl))
                      (spawns refl))
                    (stores 0 refl))
                  (calls_wait true refl))
                (takes true 0 refl refl))
              (finishes 0 refl))
            (joins true 0 refl refl))
          (renames refl))
        (spawns refl))
      (stores 1 refl),
)

backend_exclusive_example :
    (◌≡◌ {A = ℕ} 1 1) × (twice.0.writer ≢ renaming) × (handle twice.0.th twice.0.writer ≡ some 1)
unfolding set_worker twice
backend_exclusive_example = backend_exclusive 1 1 twice.1 refl refl
