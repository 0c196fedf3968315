-- ===== src/BufFile/Worker/Run.antt =====
-- Whole runs of the thread of a buffered log file: its two loops, its start and its end.
use captains_log.Base.{
  ℕ, zero, suc, ◌≡◌, refl, List, [], ◌∷◌, ◌++◌, some, Bool, true, false, Outcome, returned, arith,
}
use captains_log.System.{Os, open_file}
use captains_log.Rotation.Limits.{Archive}
use captains_log.BufFile.{Msg, Writer, answered}
use captains_log.BufFile.Steady.{Steady, IsReady, reopen-some, rotated_lem}
use captains_log.BufFile.Bytes.{logged}
use captains_log.BufFile.Worker.{
  Recv, received, timeout, disconnected, timed_loop, eager_loop, loop_of, log_writer,
}
use captains_log.BufFile.Worker.Delivery.{
  lines, requests, delivered, Served, Served-refl, Served-trans, flush-Served, process_all-Served,
  Served-Same,
}

module _ {W : Type 0} (os : Os W) (archive : Archive W) {appended : W → List ℕ}
    (steady : Steady os archive appended) where
  abbrev Serves : Writer W → List Msg → Outcome (Bool × Writer W) → Type 0
  Serves s ms r =
      (ended : Bool) × (s' : Writer W) × (r ≡ returned (ended, s'))
      × Served os archive steady s ms s'

  timed_loop-Served :
      (events : List Recv) (s : Writer W)
      → IsReady s
      → Serves s (delivered events) (timed_loop os archive events s)
  unfolding timed_loop
  timed_loop-Served [] s r = (false, s, refl, Served-refl os archive steady s r)
  timed_loop-Served (received m ms ∷ events) s r =
      let (s1, run1, p) = process_all-Served os archive steady (m ∷ ms) s r in
      let (ended, s2, run2, q) = timed_loop-Served events s1 p.ready in
      (
        ended,
        s2,
        rw (run1, run2),
        Served-trans os archive steady s (m ∷ ms) s1 (delivered events) s2 p q,
      )
  timed_loop-Served (timeout ∷ events) s r =
      let (s1, run1, p) = flush-Served os archive steady false s r in
      let (ended, s2, run2, q) = timed_loop-Served events s1 p.ready in
      (ended, s2, rw (run1, run2), Served-trans os archive steady s [] s1 (delivered events) s2 p q)
  timed_loop-Served (disconnected ∷ events) s r =
      let (s1, run1, p) = flush-Served os archive steady true s r in (true, s1, rw run1, p)

  eager_loop-Served :
      (events : List Recv) (s : Writer W)
      → IsReady s
      → Serves s (delivered events) (eager_loop os archive events s)
  unfolding eager_loop
  eager_loop-Served [] s r = (false, s, refl, Served-refl os archive steady s r)
  eager_loop-Served (received m ms ∷ events) s r =
      let (s1, run1, p) = process_all-Served os archive steady (m ∷ ms) s r in
      let (s2, run2, q) = flush-Served os archive steady false s1 p.ready in
      let (ended, s3, run3, t) = eager_loop-Served events s2 q.ready in
      (
        ended,
        s3,
        rw (run1, run2, run3),
        Served-trans os archive steady s (m ∷ ms) s1 (delivered events) s3 p
            (Served-trans os archive steady s1 [] s2 (delivered events) s3 q t),
      )
  eager_loop-Served (timeout ∷ events) s r = eager_loop-Served events s r
  eager_loop-Served (disconnected ∷ events) s r =
      let (s1, run1, p) = flush-Served os archive steady true s r in (true, s1, rw run1, p)

  loop-Served :
      (n : ℕ) (events : List Recv) (s : Writer W)
      → IsReady s
      → Serves s (delivered events) (loop_of os archive n events s)
  loop-Served zero = eager_loop-Served
  loop-Served (suc n) = timed_loop-Served

  -- Where the system calls and the archive behave (`Steady`) and the file opens at the start, the
  -- thread deals with every message that arrives before the channel is disconnected: it returns,
  -- without a panic, the bytes logged are those that were logged with the lines after them in
  -- order, and the flush requests are answered in order.
  pub log_writer-Served :
      (events : List Recv) (s : Writer W) (fd : ℕ) (w : W)
      → open_file os s.world ≡ (some fd, w)
      → (ended : Bool) × (s' : Writer W) × (log_writer os archive events s ≡ returned (ended, s'))
        × (logged appended s' ≡ logged appended s ++ lines (delivered events))
        × (answered s' ≡ answered s ++ requests (delivered events))
  unfolding log_writer
  log_writer-Served events s fd w e =
      let (t, s1, run1, p, f, c) = reopen-some os archive steady s fd w e in
      let (s2, run2, q) = rotated_lem os archive steady s1 t s1.rotation c refl in
      let (ended, s3, run3, v) = loop-Served s2.flush_millis events s2 q.ready in
      let all =
        Served-trans os archive steady s [] s2 (delivered events) s3
          (Served-trans os archive steady s [] s1 [] s2 (Served-Same os archive steady s s1 p)
            (Served-Same os archive steady s1 s2 q))
          v in
      (ended, s3, ground (arith, run1, run2, run3), all.bytes, all.answers)
