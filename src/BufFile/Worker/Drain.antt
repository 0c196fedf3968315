-- ===== src/BufFile/Worker/Drain.antt =====
-- Nothing stays in the buffer: when a flush request has been answered, and when the thread of a
-- buffered log file ends, every byte logged before is in the file.
use captains_log.Base.{
  map, ℕ, zero, suc, ◌≡◌, refl, sym, ap, ◌∙◌, inl, inr, List, [], ◌∷◌, ◌++◌, append-nil,
  append_assoc, some, Bool, true, false, Outcome, returned, arith, ◌>>=◌, >>=_assoc, >>=-congr,
}
use captains_log.System.{Os, open_file}
use captains_log.Rotation.Limits.{Archive}
use captains_log.BufFile.{Msg, flush_request, Answer, Writer, answered, flush}
use captains_log.BufFile.Steady.{Steady, IsReady, IsOpen, reopen-some, rotated_lem}
use captains_log.BufFile.Bytes.{logged, flush_lem}
use captains_log.BufFile.Worker.{
  Recv, received, timeout, disconnected, answer_flush, process, process_all, timed_loop, eager_loop,
  loop_of, log_writer,
}
use captains_log.BufFile.Worker.Delivery.{
  lines, lines-append, requests, delivered, Served, flush-Served, process_all-Served, Served-Same,
}

module _ {W : Type 0} (os : Os W) (archive : Archive W) {appended : W → List ℕ}
    (steady : Steady os archive appended) where
  still_open :
      (s : Writer W) (ms : List Msg) (s' : Writer W)
      → IsOpen s
      → Served os archive steady s ms s'
      → IsOpen s'
  still_open s ms s' o p = elim p.stays [ inl q ↦ q | inr e ↦ λ c. o (sym e ∙ c) ]

  process_all-append :
      (ms ns : List Msg) (s : Writer W)
      → process_all os archive (ms ++ ns) s
        ≡ (process_all os archive ms s >>= process_all os archive ns)
  unfolding process_all
  process_all-append [] ns s = refl
  process_all-append (m ∷ ms) ns s =
      >>=-congr (process os archive m s) (process_all-append ms ns)
      ∙ sym (
          >>=_assoc (process os archive m s) (process_all os archive ms)
            (process_all os archive ns))

  -- Where the system calls and the archive behave (`Steady`), with the file open and its creation
  -- time known, a batch that ends with a flush request is dealt with, and its last answer is to that
  -- request, after those to the requests before it. When that answer is given, all the lines before
  -- the request, after what the buffer held, are in the file, and nothing is pending in the buffer,
  -- as it still is at the end.
  pub flush_request_durable :
      (ms : List Msg) (id : ℕ) (s : Writer W)
      → IsOpen s
      → IsReady s
      → (s' : Writer W) × (process_all os archive (ms ++ flush_request id ∷ []) s ≡ returned s')
        × (appended s'.world ≡ logged appended s ++ lines ms)
        × (s'.buf ≡ [])
        × (before : List (Answer W)) × (last : Answer W) × (s'.answers ≡ before ++ last ∷ [])
        × (map (λ a. a.request) before ≡ answered s ++ requests ms)
        × (last.request ≡ id)
        × (appended last.found ≡ logged appended s ++ lines ms)
        × (last.pending ≡ [])
  flush_request_durable ms id s o r =
      let (s1, run1, p) = process_all-Served os archive steady ms s r in
      let (s2, run2, q) = flush_lem os archive steady true s1 (still_open s ms s1 o p) p.ready in
      (
        answer_flush os archive id s2,
        process_all-append ms (flush_request id ∷ []) s ∙ last s s1 s2 run1 run2,
        q.bytes ∙ p.bytes,
        q.buffer,
        s2.answers,
        record { request = id; found = s2.world; pending = s2.buf },
        refl,
        ap (map (λ a. a.request)) q.answers ∙ p.answers,
        refl,
        q.bytes ∙ p.bytes,
        q.buffer,
      )
    where
      last :
          (s s1 s2 : Writer W)
          → process_all os archive ms s ≡ returned s1
          → flush os archive true s1 ≡ returned s2
          → (process_all os archive ms s >>= process_all os archive (flush_request id ∷ []))
            ≡ returned (answer_flush os archive id s2)
      last s s1 s2 run1 run2 = rw run1 (unfold process_all process in rw run2)

  abbrev Drains : Writer W → List Msg → Outcome (Bool × Writer W) → Type 0
  Drains s ms r =
      (s' : Writer W) × (r ≡ returned (true, s'))
      × (appended s'.world ≡ logged appended s ++ lines ms)
      × (s'.buf ≡ [])

  -- The first part of a run, then a run that drains.
  Drains-after :
      (s : Writer W) (ms : List Msg) (s1 : Writer W) (ns : List Msg)
      → (r : Outcome (Bool × Writer W)) → Served os archive steady s ms s1
      → Drains s1 ns r
      → Drains s (ms ++ ns) r
  Drains-after s ms s1 ns r p (s2, run, bytes, buffer) = (
    s2,
    run,
    bytes
        ∙ ap (λ xs. xs ++ lines ns) p.bytes
        ∙ append_assoc (logged appended s) (lines ms) (lines ns)
        ∙ ap (◌++◌ (logged appended s)) (sym (lines-append ms ns)),
    buffer,
  )

  end_lem :
      (s : Writer W)
      → IsOpen s
      → IsReady s
      → Drains s [] (flush os archive true s >>= λ s'. returned (true, s'))
  end_lem s o r =
      let (s1, run1, q) = flush_lem os archive steady true s o r in
      (s1, rw run1, q.bytes ∙ sym (append-nil (logged appended s)), q.buffer)

  timed_loop-Drains :
      (events : List Recv) (s : Writer W)
      → IsOpen s
      → IsReady s
      → Drains s (delivered events) (timed_loop os archive (events ++ disconnected ∷ []) s)
  unfolding timed_loop
  timed_loop-Drains [] s o r = end_lem s o r
  timed_loop-Drains (received m ms ∷ events) s o r =
      let (s1, run1, p) = process_all-Served os archive steady (m ∷ ms) s r in
      rw run1 (
        Drains-after s (m ∷ ms) s1 (delivered events) _ p
          (timed_loop-Drains events s1 (still_open s (m ∷ ms) s1 o p) p.ready))
  timed_loop-Drains (timeout ∷ events) s o r =
      let (s1, run1, p) = flush-Served os archive steady false s r in
      rw run1 (
        Drains-after s [] s1 (delivered events) _ p
          (timed_loop-Drains events s1 (still_open s [] s1 o p) p.ready))
  timed_loop-Drains (disconnected ∷ events) s o r = end_lem s o r

  eager_loop-Drains :
      (events : List Recv) (s : Writer W)
      → IsOpen s
      → IsReady s
      → Drains s (delivered events) (eager_loop os archive (events ++ disconnected ∷ []) s)
  unfolding eager_loop
  eager_loop-Drains [] s o r = end_lem s o r
  eager_loop-Drains (received m ms ∷ events) s o r =
      let (s1, run1, p) = process_all-Served os archive steady (m ∷ ms) s r in
      let (s2, run2, q) = flush-Served os archive steady false s1 p.ready in
      let o1 = still_open s (m ∷ ms) s1 o p in
      rw (run1, run2)
        (Drains-after s (m ∷ ms) s1 (delivered events) _ p (
          Drains-after s1 [] s2 (delivered events) _ q
            (eager_loop-Drains events s2 (still_open s1 [] s2 o1 q) q.ready)))
  eager_loop-Drains (timeout ∷ events) s o r = eager_loop-Drains events s o r
  eager_loop-Drains (disconnected ∷ events) s o r = end_lem s o r

  loop-Drains :
      (n : ℕ) (events : List Recv) (s : Writer W)
      → IsOpen s
      → IsReady s
      → Drains s (delivered events) (loop_of os archive n (events ++ disconnected ∷ []) s)
  loop-Drains zero = eager_loop-Drains
  loop-Drains (suc n) = timed_loop-Drains

  -- Where the system calls and the archive behave (`Steady`), the file opens at the start and the
  -- channel is disconnected in the end, the thread ends with its buffer empty, and the file has
  -- received the old buffer and all the lines, in order.
  pub log_writer_drains :
      (events : List Recv) (s : Writer W) (fd : ℕ) (w : W)
      → open_file os s.world ≡ (some fd, w)
      → (s' : Writer W) × (log_writer os archive (events ++ disconnected ∷ []) s
          ≡ returned (true, s'))
        × (appended s'.world ≡ logged appended s ++ lines (delivered events))
        × (s'.buf ≡ [])
  unfolding log_writer
  log_writer_drains events s fd w e =
      let (t, s1, run1, p, f, c) = reopen-some os archive steady s fd w e in
      let (s2, run2, q) = rotated_lem os archive steady s1 t s1.rotation c refl in
      let o : IsOpen s2 = elim q.stays [ inl o ↦ o | inr same ↦ λ n. cc ] in
      let all = Drains-after s [] s1 (delivered events) _ (Served-Same os archive steady s s1 p) (
        Drains-after s1 [] s2 (delivered events) _ (Served-Same os archive steady s1 s2 q)
          (loop-Drains s2.flush_millis events s2 o q.ready)) in
      (all.0, ground (arith, run1, run2, all.1), all.2, all.3)
