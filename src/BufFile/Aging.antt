-- ===== src/BufFile/Aging.antt =====
-- What rotation by age does with the creation time of a buffered log file: the time is set once and
-- never again, and the thread cannot start without it.
use captains_log.Base.{
  ℕ, suc, ◌+◌, ◌<◌, ◌≡◌, refl, subst, ◌∙◌, List, [], ◌∷◌, none, some, Bool, true, false, returned,
  panicked, arith, length, Option-cases, >>=-returned, Bool-cases, inl, inr,
}
use captains_log.System.{Os, open_file, write_loop}
use captains_log.Rotation.Limits.{
  Archive, LogRotate, LimiterAge, FileSink, rotate, wait, age_reached,
}
use captains_log.BufFile.{
  Msg, line, reopen_file, flush_request, Writer, sink_of, reopen, check_rotate, flush_buf, flush,
  flush_if, is_full, wait_rotation, write,
}
use captains_log.BufFile.Worker.{Recv, answer_flush, process, process_all, log_writer}

module _ {W : Type 0} (os : Os W) (archive : Archive W) where
  -- If the file cannot be opened at the start and rotation by age is configured, the thread panics
  -- before it has read a message.
  pub log_writer_panics :
      (events : List Recv) (s : Writer W) (w : W) (ro : LogRotate) (l : LimiterAge)
      → open_file os s.world ≡ (none, w)
      → s.create_time ≡ none
      → s.rotation ≡ some ro
      → ro.age_limit ≡ some l
      → log_writer os archive events s ≡ panicked
  unfolding log_writer reopen check_rotate rotate
  log_writer_panics events s w ro l e c r a = ground arith

  -- The creation time is `t` and there is an age limit of `l`.
  pub record Aging (t l : ℕ) (s : Writer W) : Type 0 where
    pub created : s.create_time ≡ some t
    pub rotates :
        (ro : LogRotate) × (s.rotation ≡ some ro) × (ro.age_limit ≡ some (record { limit = l }))

  wait-age_limit : (ro : LogRotate) (w : W) → (wait archive ro w).0.age_limit ≡ ro.age_limit
  unfolding wait
  wait-age_limit ro w = ground arith

  rotate-age_limit :
      (ro : LogRotate) (now : ℕ) (sink : FileSink) (w : W) (b : Bool) (ro' : LogRotate) (w' : W)
      → rotate archive ro now sink w ≡ returned (b, ro', w')
      → ro'.age_limit ≡ ro.age_limit
  unfolding rotate
  rotate-age_limit ro now sink w b ro' w' e = ground (arith, wait-age_limit ro w)

  reopen-Aging :
      (t l : ℕ) (s s' : Writer W) → reopen os archive s ≡ returned s' → Aging t l s → Aging t l s'
  unfolding reopen
  reopen-Aging t l s s' e a = ground arith

  check_rotate-Aging :
      (t l : ℕ) (s s' : Writer W)
      → check_rotate os archive s ≡ returned s'
      → Aging t l s
      → Aging t l s'
  unfolding check_rotate
  check_rotate-Aging t l s s' e a =
      let (ro, r, age) = a.rotates in
      let run = rw (r, check_rotate) at e in
      let ((b, ro', w'), turned, rest) =
        >>=-returned (rotate archive ro (os.now s.world) (sink_of s.inner) s.world) _ run in
      let kept = rotate-age_limit ro (os.now s.world) (sink_of s.inner) s.world b ro' w' turned in
      let s1 : Writer W = record s { inner = record s.inner { rotation = some ro' }; world = w' } in
      let aged : Aging t l s1 = record { created = a.created; rotates = (ro', refl, kept ∙ age) } in
      elim (Bool-cases b) [
        | inl yea ↦ reopen-Aging t l s1 s' (ground arith) aged
        | inr nay ↦ subst (Aging t l) (ground arith) aged
      ]

  flush_buf-Aging :
      (t l : ℕ) (s s' : Writer W)
      → flush_buf os archive s ≡ returned s'
      → Aging t l s
      → Aging t l s'
  unfolding flush_buf
  flush_buf-Aging t l s s' e a = elim (Option-cases s.f) [
    | inl closed ↦ subst (Aging t l) (ground arith) a
    | inr (fd, open_fd) ↦
        let run = rw (open_fd, flush_buf) at e in
        let (w, wrote, rest) =
          >>=-returned (write_loop os (suc (length s.buf)) fd s.buf s.world) _ run in
        check_rotate-Aging t l _ s' rest (record { created = a.created; rotates = a.rotates })
  ]

  wait_rotation-Aging :
      (b : Bool) (t l : ℕ) (s : Writer W) → Aging t l s → Aging t l (wait_rotation os archive b s)
  unfolding wait_rotation
  wait_rotation-Aging false t l s a = a
  wait_rotation-Aging true t l s a =
      let (ro, r, age) = a.rotates in
      record {
        created = ground arith;
        rotates = ((wait archive ro s.world).0, ground arith, wait-age_limit ro s.world ∙ age);
      }

  flush-Aging :
      (b : Bool) (t l : ℕ) (s s' : Writer W)
      → flush os archive b s ≡ returned s'
      → Aging t l s
      → Aging t l s'
  unfolding flush
  flush-Aging b t l s s' e a =
      let (s1, run, rest) = >>=-returned (flush_buf os archive s) _ e in
      subst (Aging t l) (ground arith)
        (wait_rotation-Aging b t l s1 (flush_buf-Aging t l s s1 run a))

  flush_if-Aging :
      (b : Bool) (t l : ℕ) (s s' : Writer W)
      → flush_if os archive b s ≡ returned s'
      → Aging t l s
      → Aging t l s'
  flush_if-Aging false t l s s' e a = subst (Aging t l) (ground arith) a
  flush_if-Aging true t l s s' e a = flush-Aging false t l s s' e a

  process-Aging :
      (m : Msg) (t l : ℕ) (s s' : Writer W)
      → process os archive m s ≡ returned s'
      → Aging t l s
      → Aging t l s'
  unfolding process write
  process-Aging (line bytes) t l s s' e a =
      let (s1, run, rest) = >>=-returned (flush_if os archive (is_full s bytes) s) _ e in
      let b = flush_if-Aging (is_full s bytes) t l s s1 run a in
      flush_if-Aging _ t l _ s' rest (record { created = b.created; rotates = b.rotates })
  process-Aging reopen_file t l s s' e a = reopen-Aging t l s s' e a
  process-Aging (flush_request id) t l s s' e a =
      let (s1, run, rest) = >>=-returned (flush os archive true s) _ e in
      let b = flush-Aging true t l s s1 run a in
      subst (Aging t l) (ground arith) (
        let aged : Aging t l (answer_flush os archive id s1) = record {
          created = b.created;
          rotates = b.rotates;
        } in
        aged)

  process_all-Aging :
      (ms : List Msg) (t l : ℕ) (s s' : Writer W)
      → process_all os archive ms s ≡ returned s'
      → Aging t l s
      → Aging t l s'
  unfolding process_all
  process_all-Aging [] t l s s' e a = subst (Aging t l) (ground arith) a
  process_all-Aging (m ∷ ms) t l s s' e a =
      let (s1, run, rest) = >>=-returned (process os archive m s) _ e in
      process_all-Aging ms t l s1 s' rest (process-Aging m t l s s1 run a)

  -- The creation time is never renewed: after any messages that the thread deals with, among them
  -- any number of rotations, the age limit counts as reached at every time later than the limit
  -- after the first opening.
  pub age_due_forever :
      (ms : List Msg) (t l : ℕ) (s s' : Writer W)
      → Aging t l s
      → process_all os archive ms s ≡ returned s'
      → t + l < os.now s'.world
      → (ro : LogRotate) × (s'.rotation ≡ some ro)
        × (age_reached ro.age_limit (os.now s'.world) (sink_of s'.inner) ≡ returned true)
  unfolding age_reached
  age_due_forever ms t l s s' a e late =
      let b = process_all-Aging ms t l s s' e a in
      let (ro, r, age) = b.rotates in (ro, r, ground (arith, b.created))
