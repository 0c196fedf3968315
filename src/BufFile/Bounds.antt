-- ===== src/BufFile/Bounds.antt =====
-- The settings of a buffered log file, as `LogSinkBufFile::new` corrects them, and which loop they
-- make the thread run.
use captains_log.Base.{
  ℕ, zero, suc, ◌≤◌, ◌<◌, ◌≡◌, refl, ap, ◌∙◌, inl, inr, List, Option, some, returned, arith, ◌>>=◌,
  >>=-returned, Bool-cases, Option-cases,
}
use captains_log.System.{Os}
use captains_log.Rotation.Limits.{Archive, LogRotate, rotate}
use captains_log.BufFile.{Writer, BufFileInner, new_inner, sink_of, reopen, check_rotate}
use captains_log.BufFile.Worker.{Recv, timed_loop, loop_of, log_writer}

-- Whatever is configured, the interval is between 1 and 1000 milliseconds and the buffer has room.
pub new_inner_bounds :
    (flush_millis flush_size : ℕ) (rotation : Option LogRotate)
    → (0 < (new_inner flush_millis flush_size rotation).flush_millis)
      × ((new_inner flush_millis flush_size rotation).flush_millis ≤ 1000)
      × (0 < (new_inner flush_millis flush_size rotation).flush_size)
unfolding new_inner
new_inner_bounds flush_millis flush_size rotation = (ground arith, ground arith, ground arith)

module _ {W : Type 0} (os : Os W) (archive : Archive W) where
  reopen-millis :
      (s s' : Writer W) → reopen os archive s ≡ returned s' → s'.flush_millis ≡ s.flush_millis
  unfolding reopen
  reopen-millis s s' e = ground arith

  check_rotate-millis :
      (s s' : Writer W) → check_rotate os archive s ≡ returned s' → s'.flush_millis ≡ s.flush_millis
  unfolding check_rotate
  check_rotate-millis s s' e = elim (Option-cases s.rotation) [
    | inl r ↦ ground arith
    | inr (ro, r) ↦
        let run = rw (r, check_rotate) at e in
        let ((b, ro', w'), turned, rest) =
          >>=-returned (rotate archive ro (os.now s.world) (sink_of s.inner) s.world) _ run in
        elim (Bool-cases b) [
          | inl yea ↦
              reopen-millis
                (record s { inner = record s.inner { rotation = some ro' }; world = w' }) s'
                (ground arith)
          | inr nay ↦ ground arith
        ]
  ]

  loop_of-pos :
      (n : ℕ) (events : List Recv) (s : Writer W)
      → 0 < n
      → loop_of os archive n events s ≡ timed_loop os archive events s
  loop_of-pos zero events s h = elim h [ ]
  loop_of-pos (suc n) events s h = refl

  -- The thread of a writer made by `new_inner`, where opening the file and the first check for a
  -- rotation return, runs the loop that waits with a timeout, also where the configured interval
  -- is 0.
  pub log_writer_timed :
      (flush_millis flush_size : ℕ) (rotation : Option LogRotate)
      → (events : List Recv) (s s2 : Writer W)
      → s.inner ≡ new_inner flush_millis flush_size rotation
      → (reopen os archive s >>= check_rotate os archive) ≡ returned s2
      → log_writer os archive events s ≡ timed_loop os archive events s2
  unfolding log_writer
  log_writer_timed flush_millis flush_size rotation events s s2 e run =
      let (s1, run1, run2) = >>=-returned (reopen os archive s) _ run in
      let same : s2.flush_millis ≡ (new_inner flush_millis flush_size rotation).flush_millis =
        check_rotate-millis s1 s2 run2
        ∙ reopen-millis s s1 run1
        ∙ ap (λ (i : BufFileInner). i.flush_millis) e in
      rw run1 (
        rw run2 (
          loop_of-pos s2.flush_millis events s2
            (omega (arith, same, (new_inner_bounds flush_millis flush_size rotation).0))))
