-- ===== src/BufFile/Bytes.antt =====
-- Where the system calls behave, each step of the writer of a buffered log file returns, and no
-- byte is lost, repeated or reordered between the buffer and the file.
use captains_log.Base.{
  ℕ, ◌≡◌, refl, sym, ap, ap₂, subst, ◌∙◌, ◌⊎◌, inl, inr, List, [], ◌++◌, append-nil, append_assoc,
  Option, none, some, Bool, true, false, returned, arith, length, leb, Option-cases, ◌+◌, ◌%◌, ◌^◌,
}
use captains_log.System.{Os}
use captains_log.System.WriteLoop.{write_loop_complete}
use captains_log.Rotation.Limits.{Archive, LogRotate}
use captains_log.Rotation.Limits.Total.{wait-appended}
use captains_log.BufFile.{Writer, flush_buf, flush_if, is_full, wait_rotation, flush, write}
use captains_log.BufFile.Steady.{Steady, IsReady, IsOpen, rotated_lem}

-- All that was logged: the bytes in the file, then those in the buffer.
abbrev pub logged : {W : Type 0} → (W → List ℕ) → Writer W → List ℕ
logged appended s = appended s.world ++ s.buf

module _ {W : Type 0} (os : Os W) (archive : Archive W) {appended : W → List ℕ}
    (steady : Steady os archive appended) where
  -- A flush: the buffer goes to the file.
  pub record Flushed (s s' : Writer W) : Type 0 where
    pub bytes : appended s'.world ≡ logged appended s
    pub buffer : s'.buf ≡ []
    pub ready : IsReady s'
    pub opened : IsOpen s'
    pub limit : s'.flush_size ≡ s.flush_size
    pub answers : s'.answers ≡ s.answers

  flush_buf_lem :
      (s : Writer W) (fd : ℕ)
      → s.f ≡ some fd
      → IsReady s
      → (s' : Writer W) × (flush_buf os archive s ≡ returned s') × Flushed s s'
  unfolding flush_buf
  flush_buf_lem s fd e (inl r) = cc
  flush_buf_lem s fd e (inr (t, r)) =
      let (w, run, bytes) =
        write_loop_complete os steady.os_laws fd s.buf s.world steady.never_fails in
      let s1 : Writer W = record s {
        inner = record s.inner { size = (s.size + length s.buf) % 2 ^ 64; buf = [] };
        world = w;
      } in
      let (s2, again, same) = rotated_lem os archive steady s1 t s1.rotation r refl in
      (
        s2,
        ground (arith, run, again),
        record {
          bytes = same.bytes ∙ bytes;
          buffer = same.buffer;
          ready = same.ready;
          opened = elim same.stays [ inl p ↦ p | inr p ↦ λ q. cc ];
          limit = same.limit;
          answers = same.answers;
        },
      )

  -- Waiting for the rotation changes only the rotation and the archived files.
  record Waited (s s' : Writer W) : Type 0 where
    bytes : appended s'.world ≡ appended s.world
    buffer : s'.buf ≡ s.buf
    file : s'.f ≡ s.f
    created : s'.create_time ≡ s.create_time
    limit : s'.flush_size ≡ s.flush_size
    answers : s'.answers ≡ s.answers

  wait_rotation_lem :
      (b : Bool) (s : Writer W) (o : Option LogRotate)
      → s.rotation ≡ o
      → Waited s (wait_rotation os archive b s)
  unfolding wait_rotation
  wait_rotation_lem false s o e = ground arith
  wait_rotation_lem true s none e = ground arith
  wait_rotation_lem true s (some ro) e =
      ground (arith, wait-appended archive steady.archive_laws ro s.world)

  waited : (b : Bool) (s : Writer W) → Waited s (wait_rotation os archive b s)
  waited b s = wait_rotation_lem b s s.rotation refl

  IsReady-moved :
      (s s' : Writer W) → s'.f ≡ s.f → s'.create_time ≡ s.create_time → IsReady s → IsReady s'
  IsReady-moved s s' f c (inl e) = inl (f ∙ e)
  IsReady-moved s s' f c (inr (t, e)) = inr (t, c ∙ e)

  -- A flush of an open file returns, with the whole buffer in the file.
  pub flush_lem :
      (b : Bool) (s : Writer W)
      → IsOpen s
      → IsReady s
      → (s' : Writer W) × (flush os archive b s ≡ returned s') × Flushed s s'
  unfolding flush
  flush_lem b s o r = elim (Option-cases s.f) [
    | inl e ↦ absurd (o e)
    | inr (fd, e) ↦
        let (s1, run, fl) = flush_buf_lem s fd e r in
        let w = waited b s1 in
        (
          wait_rotation os archive b s1,
          rw run,
          record {
            bytes = w.bytes ∙ fl.bytes;
            buffer = w.buffer ∙ fl.buffer;
            ready = IsReady-moved s1 (wait_rotation os archive b s1) w.file w.created fl.ready;
            opened = λ p. fl.opened (sym w.file ∙ p);
            limit = w.limit ∙ fl.limit;
            answers = w.answers ∙ fl.answers;
          },
        )
  ]

  -- One step of the writer that logs `extra`: the file may be closed, and what is open stays open.
  pub record Step (s : Writer W) (extra : List ℕ) (s' : Writer W) : Type 0 where
    pub bytes : logged appended s' ≡ logged appended s ++ extra
    pub ready : IsReady s'
    pub stays : IsOpen s' ⊎ (s'.f ≡ s.f)
    pub limit : s'.flush_size ≡ s.flush_size
    pub answers : s'.answers ≡ s.answers

  Step-refl : (s : Writer W) → IsReady s → Step s [] s
  Step-refl s r = record {
    bytes = sym (append-nil (logged appended s));
    ready = r;
    stays = inr refl;
    limit = refl;
    answers = refl;
  }

  pub flush-Step :
      (b : Bool) (s : Writer W)
      → IsReady s
      → (s' : Writer W) × (flush os archive b s ≡ returned s') × Step s [] s'
  unfolding flush flush_buf
  flush-Step b s r = elim (Option-cases s.f) [
    | inl e ↦
        let w = waited b s in
        (
          wait_rotation os archive b s,
          ground arith,
          record {
            bytes =
                ap₂ (λ (x y : List ℕ). x ++ y) w.bytes w.buffer
                ∙ sym (append-nil (logged appended s));
            ready = IsReady-moved s (wait_rotation os archive b s) w.file w.created r;
            stays = inr w.file;
            limit = w.limit;
            answers = w.answers;
          },
        )
    | inr (fd, e) ↦
        let (s1, run, fl) = flush_lem b s (λ p. cc) r in
        (
          s1,
          run,
          record {
            bytes = ap₂ (λ (x y : List ℕ). x ++ y) fl.bytes fl.buffer;
            ready = fl.ready;
            stays = inl fl.opened;
            limit = fl.limit;
            answers = fl.answers;
          },
        )
  ]

  Step-trans :
      (s : Writer W) (xs : List ℕ) (s1 : Writer W) (ys : List ℕ) (s2 : Writer W)
      → Step s xs s1
      → Step s1 ys s2
      → Step s (xs ++ ys) s2
  Step-trans s xs s1 ys s2 p q = record {
    bytes = q.bytes ∙ ap (λ zs. zs ++ ys) p.bytes ∙ append_assoc (logged appended s) xs ys;
    ready = q.ready;
    stays = elim q.stays [
      | inl o ↦ inl o
      | inr e ↦ elim p.stays [ inl o ↦ inl (λ c. o (sym e ∙ c)) | inr e' ↦ inr (e ∙ e') ]
    ];
    limit = q.limit ∙ p.limit;
    answers = q.answers ∙ p.answers;
  }

  flush_if-Step :
      (b : Bool) (s : Writer W)
      → IsReady s
      → (s' : Writer W) × (flush_if os archive b s ≡ returned s') × Step s [] s'
  flush_if-Step false s r = (s, refl, Step-refl s r)
  flush_if-Step true s r = flush-Step false s r

  append-Step :
      (s : Writer W) (bytes : List ℕ)
      → IsReady s
      → Step s bytes (record s { inner = record s.inner { buf = s.buf ++ bytes } })
  append-Step s bytes r = record {
    bytes = sym (append_assoc (appended s.world) s.buf bytes);
    ready = r;
    stays = inr refl;
    limit = refl;
    answers = refl;
  }

  -- A line that is written returns a writer with that line, whole, after all that was logged.
  pub write-Step :
      (bytes : List ℕ) (s : Writer W)
      → IsReady s
      → (s' : Writer W) × (write os archive bytes s ≡ returned s') × Step s bytes s'
  unfolding write
  write-Step bytes s r =
      let (s1, run1, p) = flush_if-Step (is_full s bytes) s r in
      let s2 : Writer W = record s1 { inner = record s1.inner { buf = s1.buf ++ bytes } } in
      let (s3, run3, q) = flush_if-Step (leb s2.flush_size (length s2.buf)) s2 p.ready in
      (
        s3,
        rw (run1, run3),
        subst (λ xs. Step s xs s3) (append-nil bytes)
            (Step-trans s bytes s2 [] s3
              (Step-trans s [] s1 bytes s2 p (append-Step s1 bytes p.ready)) q),
      )
