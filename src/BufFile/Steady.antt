-- ===== src/BufFile/Steady.antt =====
-- Opening and rotating the log file, where the system calls behave: both return, and neither
-- touches the buffer or the bytes that the file has received.
use captains_log.Base.{
  ℕ, ◌≡◌, refl, sym, ap, ◌∙◌, ◌≢◌, ◌⊎◌, inl, inr, List, Option, none, some, returned, arith,
  Bool-cases,
}
use captains_log.System.{Os, Metadata, open_file}
use captains_log.System.WriteLoop.{OsLaws, NeverFails}
use captains_log.Rotation.Limits.{Archive, LogRotate}
use captains_log.Rotation.Limits.Total.{ArchiveLaws, rotate_total}
use captains_log.BufFile.{Writer, set_create_time, reopen, check_rotate}

pub record Steady {W : Type 0} (os : Os W) (archive : Archive W) (appended : W → List ℕ)
    : Type 0 where
  pub os_laws : OsLaws os appended
  pub archive_laws : ArchiveLaws archive appended
  pub never_fails : NeverFails os
  pub metadata_known :
      (w : W)
      → (len : ℕ) × (t : ℕ) × (os.metadata w ≡ some (record { len = len; modified = some t }))

-- A writer whose file is open knows when it was created.
abbrev pub IsReady : {W : Type 0} → Writer W → Type 0
IsReady s = (s.f ≡ none) ⊎ ((t : ℕ) × (s.create_time ≡ some t))

abbrev pub IsOpen : {W : Type 0} → Writer W → Type 0
IsOpen s = s.f ≢ none

module _ {W : Type 0} (os : Os W) (archive : Archive W) {appended : W → List ℕ}
    (steady : Steady os archive appended) where
  created_lem :
      (c : Option ℕ) (mt : Metadata) (t : ℕ)
      → mt.modified ≡ some t
      → (t' : ℕ) × (set_create_time c mt ≡ returned (some t'))
  unfolding set_create_time
  created_lem none mt t e = (t, rw e)
  created_lem (some t') mt t e = (t', refl)

  -- What opening the file and rotating it leave alone.
  pub record Same (s s' : Writer W) : Type 0 where
    pub bytes : appended s'.world ≡ appended s.world
    pub buffer : s'.buf ≡ s.buf
    pub answers : s'.answers ≡ s.answers
    pub limit : s'.flush_size ≡ s.flush_size
    pub stays : IsOpen s' ⊎ (s'.f ≡ s.f)
    pub ready : IsReady s'

  -- Where the open succeeds, the writer has a file with a creation time.
  pub reopen-some :
      (s : Writer W) (fd : ℕ) (w : W)
      → open_file os s.world ≡ (some fd, w)
      → (t : ℕ) × (s' : Writer W) × (reopen os archive s ≡ returned s')
        × Same s s'
        × (s'.f ≡ some fd)
        × (s'.create_time ≡ some t)
  unfolding reopen
  reopen-some s fd w e =
      let (len, t, known) = steady.metadata_known w in
      let (t', created) =
        created_lem s.create_time (record { len = len; modified = some t }) t refl in
      (
        t',
        record s {
          inner = record s.inner { size = len; create_time = some t'; f = some fd };
          world = w;
        },
        ground (arith, known, created),
        record {
          bytes = sym (ap (λ p. appended p.1) e) ∙ steady.os_laws.open_keeps s.world;
          buffer = refl;
          answers = refl;
          limit = refl;
          stays = inl (λ p. cc);
          ready = inr (t', refl);
        },
        refl,
        refl,
      )

  opened_lem :
      (s : Writer W) (o : Option ℕ) (w : W)
      → open_file os s.world ≡ (o, w)
      → IsReady s
      → (s' : Writer W) × (reopen os archive s ≡ returned s') × Same s s'
  unfolding reopen
  opened_lem s none w e r = (
    record s { world = w },
    ground arith,
    record {
      bytes = sym (ap (λ p. appended p.1) e) ∙ steady.os_laws.open_keeps s.world;
      buffer = refl;
      answers = refl;
      limit = refl;
      stays = inr refl;
      ready = r;
    },
  )
  opened_lem s (some fd) w e r =
      let (t, s', run, same, f, c) = reopen-some s fd w e in (s', run, same)

  pub reopen_lem :
      (s : Writer W) → IsReady s → (s' : Writer W) × (reopen os archive s ≡ returned s') × Same s s'
  reopen_lem s = opened_lem s (open_file os s.world).0 (open_file os s.world).1 refl

  Same-refl : (s : Writer W) → IsReady s → Same s s
  Same-refl s r = record {
    bytes = refl;
    buffer = refl;
    answers = refl;
    limit = refl;
    stays = inr refl;
    ready = r;
  }

  -- From a writer whose fields these are, up to the rotation and the world.
  Same-moved :
      (s s1 s' : Writer W)
      → appended s1.world ≡ appended s.world
      → s1.buf ≡ s.buf
      → s1.answers ≡ s.answers
      → s1.flush_size ≡ s.flush_size
      → s1.f ≡ s.f
      → Same s1 s'
      → Same s s'
  Same-moved s s1 s' w b a l f m = record {
    bytes = m.bytes ∙ w;
    buffer = m.buffer ∙ b;
    answers = m.answers ∙ a;
    limit = m.limit ∙ l;
    stays = elim m.stays [ inl p ↦ inl p | inr p ↦ inr (p ∙ f) ];
    ready = m.ready;
  }

  pub rotated_lem :
      (s : Writer W) (t : ℕ) (o : Option LogRotate)
      → s.create_time ≡ some t
      → s.rotation ≡ o
      → (s' : Writer W) × (check_rotate os archive s ≡ returned s') × Same s s'
  unfolding check_rotate
  rotated_lem s t none h e = (s, ground arith, Same-refl s (inr (t, h)))
  rotated_lem s t (some ro) h e =
      let (b, ro', w', run, kept) =
        rotate_total archive steady.archive_laws ro (os.now s.world) t s.size s.world in
      let s1 : Writer W = record s { inner = record s.inner { rotation = some ro' }; world = w' } in
      let (s2, again, same) = reopen_lem s1 (inr (t, h)) in
      elim (Bool-cases b) [
        | inl yea ↦
            (s2, ground (arith, run, again), Same-moved s s1 s2 kept refl refl refl refl same)
        | inr nay ↦ (
          s1,
          ground (arith, run),
          Same-moved s s1 s1 kept refl refl refl refl (Same-refl s1 (inr (t, h))),
        )
      ]
