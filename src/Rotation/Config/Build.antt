-- ===== src/Rotation/Config/Build.antt =====
-- What a built rotation does: when it rotates, and what its clean-up keeps.
use mathlib.Core.List.{reverse}
use captains_log.Base.{
  All, drop, ℕ, ◌-◌, ◌≡◌, ◌≢◌, ◌⊎◌, refl, sym, ap, subst, ◌∙◌, arith, unwrap, take, Bool-cases, inl,
  inr, Option, none, some, Bool, true, false, ◌||◌, [], Outcome, returned, ◌>>=◌, >>=-returned, ltb,
  if◌then◌else◌,
}
use captains_log.Rotation.Limits.{
  Age, day, hour, limiter_age, FileSink, check_age, check_size, get_create_time, age_reached,
  size_reached, Archive, LogRotate, wait, rotate,
}
use captains_log.Rotation.Suffixes.{SuffixInfo}
use captains_log.Rotation.Files.{Io, remove_call, Platform, Fs, create_dir}
use captains_log.Rotation.Backend.{Upkeep, age, all, Scheme, Backend, info_path}
use captains_log.Rotation.Backend.Move.{ensure_dir}
use captains_log.Rotation.Backend.Clean.{upkeep_files}
use captains_log.Rotation.Backend.Clean.Removal.{
  Counts, IsAscending, removals, removals-Gone, All-unreverse, upkeep_keeps_newest,
}
use captains_log.Rotation.Config.{
  ByAge, Rotation, Schema, append_count, Dirs, schema, date_from, count_limit, new_backend,
  archive_dir_of, age_limit_of, size_limit_of, checks, limits, build,
}

-- An hour and a day, in nanoseconds.
unfoldable pub period : Age → ℕ
period hour = 3_600_000_000_000
period day = 86_400_000_000_000

-- A clock that went back behind the creation of the file counts as an age that is exceeded.
abbrev age_exceeded : Option ByAge → ℕ → ℕ → Bool
age_exceeded none now created = false
age_exceeded (some b) now created =
    if ltb now created then true else ltb (period b.age_type) (now - created)

abbrev size_exceeded : Option ℕ → ℕ → Bool
size_exceeded none size = false
size_exceeded (some n) size = ltb n size

-- An age or a size is configured and exceeded; a file of exactly that age or size does not exceed it.
unfoldable pub reached : {P : Type 0} → Rotation P → ℕ → ℕ → ℕ → Bool
reached r now created size = age_exceeded r.by_age now created || size_exceeded r.by_size size

Age-cases : (a : Age) → (a ≡ day) ⊎ (a ≡ hour)
Age-cases day = inl refl
Age-cases hour = inr refl

age_limit_lem :
    (a : Option ByAge) (now created : ℕ) (sink : FileSink)
    → sink.create_time ≡ some created
    → age_reached (age_limit_of a) now sink ≡ returned (age_exceeded a now created)
unfolding age_reached check_age get_create_time limiter_age period
age_limit_lem none now created sink c = refl
age_limit_lem (some b) now created sink c = elim (Age-cases b.age_type) [
  | inl e ↦ ground (arith, c, e)
  | inr e ↦ ground (arith, c, e)
]

size_limit_lem :
    (a : Option ℕ) (sink : FileSink)
    → size_reached (size_limit_of a) sink ≡ size_exceeded a sink.size
unfolding size_reached check_size
size_limit_lem none sink = refl
size_limit_lem (some n) sink = refl

module _ {R P : Type 0} (pf : Platform P) (paths : Dirs R P) where
  built : Rotation P → P → P → Fs P → Outcome (LogRotate × Schema × Backend R P)
  built r file dir fs =
      new_backend pf paths dir file r.upkeep r.compress_exclude
        (schema r.time_fmt r.upkeep (date_from r.by_age)) fs
      >>= λ b. returned (limits r, schema r.time_fmt r.upkeep (date_from r.by_age), b)

  build_inv :
      (r : Rotation P) (file : P) (fs : Fs P) (ro : LogRotate) (s : Schema) (b : Backend R P)
      → build pf paths r file fs ≡ returned (ro, s, b)
      → (dir : P) × (new_backend pf paths dir file r.upkeep r.compress_exclude
            (schema r.time_fmt r.upkeep (date_from r.by_age))
            fs
          ≡ returned b)
        × (schema r.time_fmt r.upkeep (date_from r.by_age) ≡ s)
        × (limits r ≡ ro)
  unfolding build built
  build_inv r file fs ro s b h =
      let (u, e0, h0) =
        >>=-returned (checks pf paths r)
          (λ u. archive_dir_of pf paths r.archive_dir file >>= λ dir. built r file dir fs) h in
      let (dir, e1, h1) =
        >>=-returned (archive_dir_of pf paths r.archive_dir file) (λ dir. built r file dir fs) h0 in
      let (b', e2, h2) =
        >>=-returned
          (new_backend pf paths dir file r.upkeep r.compress_exclude
            (schema r.time_fmt r.upkeep (date_from r.by_age)) fs)
          (λ b. returned (limits r, schema r.time_fmt r.upkeep (date_from r.by_age), b)) h1 in
      (dir, cc, cc, cc)

  limits_lem :
      {W : Type 0} (archive : Archive W) (r : Rotation P) (now created : ℕ) (sink : FileSink)
      (w : W)
      → sink.create_time ≡ some created
      → rotate archive (limits r) now sink w ≡ (
          if reached r now created sink.size
          then (archive.rename_files w >>= λ w'.
              returned (true, record (limits r) { th = true }, w'))
          else returned (false, limits r, w))
  unfolding rotate wait reached
  limits_lem archive r now created sink w c =
      rw (age_limit_lem r.by_age now created sink c, size_limit_lem r.by_size sink)

  -- A rotation that was built, on a log file with a creation time, rotates exactly where the file is
  -- larger than the configured size or older than the configured period, strictly in both cases, or
  -- an age is configured and the clock went back behind the creation: it then moves the files and
  -- starts a clean-up, and otherwise it does nothing. At the size itself it does not rotate.
  pub built_rotates :
      {W : Type 0} (archive : Archive W) (r : Rotation P) (file : P) (fs : Fs P) (ro : LogRotate)
      (s : Schema) (b : Backend R P) (now created : ℕ) (sink : FileSink) (w : W)
      → build pf paths r file fs ≡ returned (ro, s, b)
      → sink.create_time ≡ some created
      → rotate archive ro now sink w ≡ (
          if reached r now created sink.size
          then (archive.rename_files w >>= λ w'. returned (true, record ro { th = true }, w'))
          else returned (false, ro, w))
  built_rotates archive r file fs ro s b now created sink w h c =
      let (dir, e0, e1, e2) = build_inv r file fs ro s b h in
      subst
        (λ ro. rotate archive ro now sink w ≡ (
          if reached r now created sink.size
          then (archive.rename_files w >>= λ w'. returned (true, record ro { th = true }, w'))
          else returned (false, ro, w)))
        e2 (limits_lem archive r now created sink w c)

  ensure_dir_inv :
      (s s' : Backend R P)
      → ensure_dir pf s ≡ returned s'
      → (fs : Fs P) × (s' ≡ record s { fs = fs })
  unfolding ensure_dir create_dir
  ensure_dir_inv s s' h = elim (Bool-cases (s.fs.dirs s.archive_dir)) [
    | inl e ↦ (s.fs, ground (arith, e, h))
    | inr e ↦ (
      record s.fs { dirs = λ q. if pf.same s.archive_dir q then true else s.fs.dirs q },
      ground (arith, e, h),
    )
  ]

  scanned : Schema → Backend R P → Outcome (Backend R P)
  scanned s ready =
      returned (record ready { suffixes = paths.scan_suffixes s ready.base_path ready.fs })

  new_backend_inv :
      (dir file : P) (upkeep : Upkeep) (compress : Option ℕ) (s : Schema) (fs : Fs P)
      (b : Backend R P)
      → new_backend pf paths dir file upkeep compress s fs ≡ returned b
      → (fs' : Fs P) × (b.suffixes ≡ paths.scan_suffixes s b.base_path fs') × (b.upkeep ≡ upkeep)
  unfolding new_backend scanned
  new_backend_inv dir file upkeep compress s fs b h =
      let start : P → Backend R P = λ name. record {
        archive_dir = dir;
        base_path = paths.join dir name;
        log_path = file;
        compress = compress;
        suffixes = [];
        upkeep = upkeep;
        fs = fs;
      } in
      let (name, e0, h0) =
        >>=-returned (unwrap (paths.file_name file))
          (λ name. ensure_dir pf (start name) >>= scanned s) h in
      let (b1, e1, h1) = >>=-returned (ensure_dir pf (start name)) (scanned s) h0 in
      let (fs', e2) = ensure_dir_inv (start name) b1 e1 in (fs', cc, cc)

  built_backend :
      (r : Rotation P) (file : P) (fs : Fs P) (ro : LogRotate) (s : Schema) (b : Backend R P)
      → build pf paths r file fs ≡ returned (ro, s, b)
      → r.time_fmt ≡ none
      → (fs' : Fs P) × (b.suffixes ≡ paths.scan_suffixes s b.base_path fs')
        × (b.upkeep ≡ r.upkeep)
        × (append_count (count_limit r.upkeep) ≡ s)
  unfolding schema
  built_backend r file fs ro s b h t =
      let (dir, e0, e1, e2) = build_inv r file fs ro s b h in
      let (fs', e3, e4) = new_backend_inv dir file r.upkeep r.compress_exclude _ fs b e0 in
      (
        fs',
        subst (λ s. b.suffixes ≡ paths.scan_suffixes s b.base_path fs') e1 e3,
        e4,
        ap (λ f. schema f r.upkeep (date_from r.by_age)) (sym t) ∙ e1,
      )

  module _ (scheme_of : Schema → Scheme R P)
      (counts : (n : ℕ) → Counts (scheme_of (append_count n)) pf n)
      (irreflexive : (s : Schema) (r : R) → (scheme_of s).lt r r ≡ false)
      (scan-IsAscending : (s : Schema) (n : ℕ) (base : P) (fs : Fs P)
        → IsAscending (scheme_of s) pf n (paths.scan_suffixes s base fs)) where
    -- Where the crate's schemes count by the number they are built with, and what they scan is in
    -- order: without a time format, the clean-up after the start keeps the newest files, as many
    -- as `count_limit` gives, where the upkeep is not to keep all.
    built_keeps_newest :
        (r : Rotation P) (file : P) (fs : Fs P) (ro : LogRotate) (s : Schema) (b : Backend R P)
        → build pf paths r file fs ≡ returned (ro, s, b)
        → r.time_fmt ≡ none
        → r.upkeep ≢ all
        → let removed =
            removals
              (scheme_of s)
              pf
              (count_limit r.upkeep)
              b.base_path
              (reverse (drop (count_limit r.upkeep) b.suffixes))
              b.fs in
          upkeep_files (scheme_of s) pf b ≡ (
            removed.0,
            record b { suffixes = take (count_limit r.upkeep) b.suffixes; fs = removed.1 },
          )
    built_keeps_newest r file fs ro s b h t u =
        let (fs', e3, e4, e5) = built_backend r file fs ro s b h t in
        (upkeep_keeps_newest (scheme_of s) pf (count_limit r.upkeep) b
          (subst (λ s. Counts (scheme_of s) pf (count_limit r.upkeep)) e5
            (counts (count_limit r.upkeep)))
          (irreflexive s)
          (subst (IsAscending (scheme_of s) pf (count_limit r.upkeep)) (sym e3)
            (scan-IsAscending s (count_limit r.upkeep) b.base_path fs'))
          (λ e. u (sym e4 ∙ e)))

    -- Where the crate's schemes count by the number they are built with, and what they scan is in
    -- order: an upkeep by age without a time format is not ignored. After the clean-up that follows
    -- the start the list of archived files is empty, and every file that was listed at the start is
    -- gone, however young, unless the call that removes it fails.
    pub built_keeps_nothing :
        (r : Rotation P) (d : ℕ) (file : P) (fs : Fs P) (ro : LogRotate) (s : Schema)
        (b : Backend R P)
        → build pf paths r file fs ≡ returned (ro, s, b)
        → r.time_fmt ≡ none
        → r.upkeep ≡ age d
        → ((upkeep_files (scheme_of s) pf b).1.suffixes ≡ [])
          × All
              (λ (x : SuffixInfo R).
                pf.faulty (remove_call (info_path (scheme_of s) x b.base_path)) ≡ false
                → (upkeep_files (scheme_of s) pf b).1.fs.files
                    (info_path (scheme_of s) x b.base_path)
                  ≡ none)
              b.suffixes
    unfolding count_limit
    built_keeps_nothing r d file fs ro s b h t u =
        let kept = built_keeps_newest r file fs ro s b h t (λ e. cc) in
        let gone =
          removals-Gone (scheme_of s) pf (count_limit r.upkeep) b.base_path
            (reverse (drop (count_limit r.upkeep) b.suffixes)) b.fs in
        (
          ap (λ t. t.1.suffixes) kept ∙ ap (λ k. take (count_limit k) b.suffixes) u,
          subst
              (λ (t : Io (Unit {0}) × Backend R P).
                All
                  (λ (x : SuffixInfo R).
                    pf.faulty (remove_call (info_path (scheme_of s) x b.base_path)) ≡ false
                    → t.1.fs.files (info_path (scheme_of s) x b.base_path) ≡ none)
                  b.suffixes)
              (sym kept)
              (All-unreverse _ b.suffixes (
                subst
                  (λ k.
                    All
                      (λ (x : SuffixInfo R).
                        pf.faulty (remove_call (info_path (scheme_of s) x b.base_path)) ≡ false
                        → (removals (scheme_of s) pf (count_limit r.upkeep) b.base_path
                              (reverse (drop (count_limit r.upkeep) b.suffixes)) b.fs).1.files
                            (info_path (scheme_of s) x b.base_path)
                          ≡ none)
                      (reverse (drop (count_limit k) b.suffixes)))
                  u gone)),
        )
