-- ===== src/Rotation/Backend/Move/Cascade.antt =====
-- The renaming of archives that are numbered from 1: the whole chain moves up by one.
use captains_log.Base.{
  ℕ, zero, suc, ◌+◌, ◌≤◌, ◌<◌, ◌≡◌, ◌≢◌, sym, ap, subst, ◌∙◌, inl, inr, List, [], ◌∷◌, ◌++◌,
  append_assoc, Option, none, some, Bool, true, false, arith, returned, length, Bool-cases,
  if◌then◌else◌,
}
use captains_log.Rotation.Files.{ok, Platform, rename_call, create_dir, create_dir_call}
use captains_log.Rotation.Suffixes.{SuffixInfo, get, insert, replace}
use captains_log.Rotation.Backend.{Scheme, Backend, pure, ◌>>◌}
use captains_log.Rotation.Backend.Move.{
  source_path, was_compressed, suffix_of, move_file, move_file_with_suffix, ensure_dir,
  rename_files,
}
use captains_log.Rotation.Backend.Move.Numbered.{
  Counting, Archived, info, numbered, flag, at, Below, get_absent, get_present, replace_present,
  insert_last, Below-up, flag_refl, flag_apart,
}
use captains_log.Rotation.Backend.Move.Single.{
  path, IsDistinct, moved, move_file_lem, move_none, move_some, >>=-ok, moved_old, moved_other,
  placed,
}

module _ {P : Type 0} (scheme : Scheme ℕ P) (pf : Platform P) where
  -- What a move of the file at `p` to position `k` comes to, where `es` stood from `k` on.
  record Moved (s : Backend ℕ P) (k : ℕ) (old : Option (SuffixInfo ℕ)) (x : List ℕ)
      (es : List Archived) (pre : List (SuffixInfo ℕ)) (fuel : ℕ) : Type 0 where
    created : SuffixInfo ℕ
    suffixes : List (SuffixInfo ℕ)
    files : P → Option (List ℕ)
    runs :
        move_file_with_suffix scheme pf fuel old s
        ≡ returned
            (ok created, record s { suffixes = suffixes; fs = record s.fs { files = files } })
    inserted : insert scheme.lt created suffixes ≡ pre ++ numbered k ((was_compressed old, x) ∷ es)
    holds :
        (i : ℕ) (d : Bool)
        → files (path scheme pf s (k + i) d) ≡ at ((was_compressed old, x) ∷ es) i d
    left : files (source_path scheme pf old s) ≡ none
    frame :
        (q : P)
        → source_path scheme pf old s ≢ q
        → ((m : ℕ) (d : Bool) → k ≤ m → path scheme pf s m d ≢ q)
        → files q ≡ s.fs.files q

  -- The backend keeps these archived files, and no others under the names of archives.
  pub record Represents (s : Backend ℕ P) (es : List Archived) : Type 0 where
    pub suffixes_are : s.suffixes ≡ numbered 1 es
    pub holds : (i : ℕ) (d : Bool) → s.fs.files (path scheme pf s (1 + i) d) ≡ at es i d
    pub distinct : IsDistinct scheme pf s

  module _ (laws : Counting scheme)
      (no_faults : (p q : P) → pf.faulty (rename_call p q) ≡ false) where
    make_way : ℕ → Option (SuffixInfo ℕ) → Backend ℕ P → Backend ℕ P
    make_way k old s = record s {
      suffixes = replace scheme.lt (info k (was_compressed old)) s.suffixes;
    }

    -- Once what stood at position `k` has gone up, the file at hand takes its place.
    move_up :
        (es : List Archived) (fuel k : ℕ) (old : Option (SuffixInfo ℕ)) (s : Backend ℕ P)
        (x : List ℕ) (pre : List (SuffixInfo ℕ)) (c' : Bool) (x' : List ℕ)
        → IsDistinct scheme pf s
        → ((top : Option ℕ) → scheme.rotate_file top (suffix_of old) ≡ ok k)
        → s.fs.files (source_path scheme pf old s) ≡ some x
        → ((m : ℕ) (d : Bool) → k ≤ m → source_path scheme pf old s ≢ path scheme pf s m d)
        → get scheme.lt k s.suffixes ≡ some (info k c')
        → ((d : Bool) → s.fs.files (path scheme pf s k d) ≡ (if flag c' d then some x' else none))
        → Moved
            (make_way k old s)
            (suc k)
            (some (info k c'))
            x'
            es
            (pre ++ info k (was_compressed old) ∷ [])
            fuel
        → Moved s k old x ((c', x') ∷ es) pre (suc fuel)
    unfolding make_way numbered
    move_up es fuel k old s x pre c' x' distinct to_k here away present stood r =
        let p = source_path scheme pf old s in
        let c = was_compressed old in
        let s2 : Backend ℕ P = record s {
          suffixes = r.suffixes;
          fs = record s.fs { files = r.files };
        } in
        let free : (d : Bool) → r.files (path scheme pf s k d) ≡ none = λ d.
          elim (flag_apart c' d) [
            | inl e ↦ subst (λ d. r.files (path scheme pf s k d) ≡ none) e r.left
            | inr e ↦
                r.frame (path scheme pf s k d)
                  (λ q. let same_flag = (distinct.apart k k c' d q).1 in let t = flag_refl c' in cc)
                  (λ m b l q. omega (arith, (distinct.apart m k b d q).0))
                ∙ stood d
                ∙ ap (λ b. if b then some x' else none) e
          ] in
        let here2 : r.files p ≡ some x =
          r.frame p (λ q. away k c' (omega arith) (sym q))
            (λ m b l q. away m b (omega arith) (sym q))
          ∙ here in
        record {
          created = r.created;
          suffixes = r.suffixes;
          files = moved scheme pf r.files p (path scheme pf s k c) x;
          runs =
              move_some scheme pf fuel k old s (info k c') to_k present
              ∙ >>=-ok scheme pf (move_file_with_suffix scheme pf fuel (some (info k c')))
                  (λ n. move_file scheme pf (info k c) old >> pure n) (make_way k old s) s2
                  r.created r.runs
              ∙ >>=-ok scheme pf (move_file scheme pf (info k c) old) (λ u. pure r.created) s2 _ tt
                  (move_file_lem scheme pf (info k c) old s2 x here2 (free c) (no_faults _ _));
          inserted =
              r.inserted ∙ append_assoc pre (info k c ∷ []) (numbered (suc k) ((c', x') ∷ es));
          holds = placed scheme pf s k c x ((c', x') ∷ es) p r.files distinct away free r.holds;
          left =
              moved_old scheme pf r.files p (path scheme pf s k c) x
                (λ e. away k c (omega arith) (sym e));
          frame = λ q h j.
              moved_other scheme pf r.files p (path scheme pf s k c) x q (j k c (omega arith)) h
              ∙ r.frame q (j k c' (omega arith)) (λ m d l. j m d (omega arith));
        }

    moves :
        (es : List Archived) (fuel k : ℕ) (old : Option (SuffixInfo ℕ)) (s : Backend ℕ P)
        (x : List ℕ) (pre : List (SuffixInfo ℕ))
        → length es < fuel
        → IsDistinct scheme pf s
        → ((top : Option ℕ) → scheme.rotate_file top (suffix_of old) ≡ ok k)
        → s.fs.files (source_path scheme pf old s) ≡ some x
        → ((m : ℕ) (d : Bool) → k ≤ m → source_path scheme pf old s ≢ path scheme pf s m d)
        → s.suffixes ≡ pre ++ numbered k es
        → Below scheme laws k pre
        → ((i : ℕ) (d : Bool) → s.fs.files (path scheme pf s (k + i) d) ≡ at es i d)
        → Moved s k old x es pre fuel
    unfolding numbered at make_way
    moves es zero k old s x pre n distinct to_k here away set below above =
        absurd (omega (arith, n))
    moves [] (suc fuel) k old s x pre n distinct to_k here away set below above =
        let p = source_path scheme pf old s in
        let c = was_compressed old in
        let free : (d : Bool) → s.fs.files (path scheme pf s k d) ≡ none =
          λ d. ap (λ m. s.fs.files (path scheme pf s m d)) (omega arith) ∙ above 0 d in
        record {
          created = info k c;
          suffixes = s.suffixes;
          files = moved scheme pf s.fs.files p (path scheme pf s k c) x;
          runs =
              move_none scheme pf fuel k old s to_k
                (ap (get scheme.lt k) set ∙ get_absent scheme laws k pre below)
              ∙ >>=-ok scheme pf (move_file scheme pf (info k c) old) (λ u. pure (info k c)) s _ tt
                  (move_file_lem scheme pf (info k c) old s x here (free c) (no_faults _ _));
          inserted = ap (insert scheme.lt (info k c)) set ∙ insert_last scheme laws k c pre below;
          holds =
              placed scheme pf s k c x [] p s.fs.files distinct away free (λ i d.
                ap (λ m. s.fs.files (path scheme pf s m d)) (omega arith) ∙ above (suc i) d);
          left =
              moved_old scheme pf s.fs.files p (path scheme pf s k c) x
                (λ e. away k c (omega arith) (sym e));
          frame = λ q h j.
              moved_other scheme pf s.fs.files p (path scheme pf s k c) x q (j k c (omega arith)) h;
        }
    moves ((c', x') ∷ es) (suc fuel) k old s x pre n distinct to_k here away set below above =
        let c = was_compressed old in
        move_up es fuel k old s x pre c' x' distinct to_k here away
          (ap (get scheme.lt k) set ∙ get_present scheme laws k c' pre (numbered (suc k) es) below)
          (λ d. ap (λ m. s.fs.files (path scheme pf s m d)) (omega arith) ∙ above 0 d)
          (moves es fuel (suc k) (some (info k c')) (make_way k old s) x' (pre ++ info k c ∷ [])
            (omega arith) (record { apart = distinct.apart; not_log = distinct.not_log })
            (λ top. laws.next top k)
            (ap (λ m. s.fs.files (path scheme pf s m c')) (omega arith)
              ∙ above 0 c'
              ∙ ap (λ b. if b then some x' else none) (flag_refl c'))
            (λ m d l q. omega (arith, (distinct.apart k m c' d q).0))
            (ap (replace scheme.lt (info k c)) set
              ∙ replace_present scheme laws k c' c pre (numbered (suc k) es) below
              ∙ sym (append_assoc pre (info k c ∷ []) (numbered (suc k) es)))
            (Below-up scheme laws k c pre below)
            (λ i d. ap (λ m. s.fs.files (path scheme pf s m d)) (omega arith) ∙ above (suc i) d))

    ensure_dir_lem :
        (s : Backend ℕ P)
        → pf.faulty (create_dir_call s.archive_dir) ≡ false
        → (dirs : P → Bool) × (ensure_dir pf s
            ≡ returned (record s { fs = record s.fs { dirs = dirs } }))
    unfolding ensure_dir create_dir
    ensure_dir_lem s f = elim (Bool-cases (s.fs.dirs s.archive_dir)) [
      | inl e ↦ (s.fs.dirs, ground (arith, e))
      | inr e ↦ (λ q. if pf.same s.archive_dir q then true else s.fs.dirs q, ground (arith, e, f))
    ]

    rename_files_lem :
        (fuel : ℕ) (s s1 s2 : Backend ℕ P) (new : SuffixInfo ℕ)
        → ensure_dir pf s ≡ returned s1
        → move_file_with_suffix scheme pf fuel none s1 ≡ returned (ok new, s2)
        → rename_files scheme pf fuel s
          ≡ returned (record s2 { suffixes = insert scheme.lt new s2.suffixes })
    unfolding rename_files
    rename_files_lem fuel s s1 s2 new e m = cc

    -- With archives that are numbered (`Counting`), a log file that is there, more fuel than
    -- archives, and no failing calls, the archive is a queue: a rotation puts the log file, not
    -- compressed, before the archived files, which all keep their bytes and their compression, and
    -- the log file is gone. It does not panic.
    pub rename_files-Represents :
        (es : List Archived) (fuel : ℕ) (s : Backend ℕ P) (x : List ℕ)
        → Represents s es
        → length es < fuel
        → s.fs.files s.log_path ≡ some x
        → pf.faulty (create_dir_call s.archive_dir) ≡ false
        → (s' : Backend ℕ P) × (rename_files scheme pf fuel s ≡ returned s')
          × Represents s' ((false, x) ∷ es)
          × (s'.fs.files s.log_path ≡ none)
    rename_files-Represents es fuel s x rep n here f =
        let (dirs, e) = ensure_dir_lem s f in
        let s1 : Backend ℕ P = record s { fs = record s.fs { dirs = dirs } } in
        let r =
          moves es fuel 1 none s1 x [] n
            (record { apart = rep.distinct.apart; not_log = rep.distinct.not_log }) laws.first here
            (λ m d l. rep.distinct.not_log m d) rep.suffixes_are tt rep.holds in
        (
          record s1 {
            suffixes = insert scheme.lt r.created r.suffixes;
            fs = record s1.fs { files = r.files };
          },
          rename_files_lem fuel s s1 _ r.created e r.runs,
          record {
            suffixes_are = r.inserted;
            holds = r.holds;
            distinct = record { apart = rep.distinct.apart; not_log = rep.distinct.not_log };
          },
          r.left,
        )
