-- ===== src/Rotation/Backend/Clean/Removal.antt =====
-- Which archived files `handle_old_files` removes where the scheme counts them.
use mathlib.Core.List.{reverse, reverse-append, reverse-cons}
use captains_log.Base.{
  Bool-cases, Option-cases, All, All-append, ℕ, zero, suc, ◌+◌, ◌≤◌, ◌<◌, ◌≡◌, ◌≢◌, refl, sym, ap,
  subst, ◌∙◌, ◌⊎◌, inl, inr, List, [], ◌∷◌, ◌++◌, append-nil, Option, none, some, true, false,
  arith, length, take, drop, leb, take-append-drop,
}
use captains_log.Methods.{also}
use captains_log.Rotation.Files.{remove_call, err, Io, ok, Platform, Fs, remove_file}
use captains_log.Rotation.Suffixes.{SuffixInfo, split_off}
use captains_log.Rotation.Backend.{Upkeep, age, count, all, Scheme, Backend, info_path}
use captains_log.Rotation.Backend.Clean.{enumerate, sweep, drop_from, remove_old, upkeep_files}

infos_of : {R : Type 0} → List (ℕ × SuffixInfo R) → List (SuffixInfo R)
infos_of [] = []
infos_of ((i, x) ∷ xs) = x ∷ infos_of xs

abbrev last_of : {R : Type 0} → Option (SuffixInfo R) → List (SuffixInfo R) → Option (SuffixInfo R)
last_of o [] = o
last_of o (x ∷ xs) = last_of (some x) xs

infos_of-append :
    {R : Type 0} (xs ys : List (ℕ × SuffixInfo R))
    → infos_of (xs ++ ys) ≡ infos_of xs ++ infos_of ys
unfolding infos_of
infos_of-append [] ys = refl
infos_of-append ((i, x) ∷ xs) ys = ap (◌∷◌ x) (infos_of-append xs ys)

infos_of-enumerate :
    {R : Type 0} (i : ℕ) (xs : List (SuffixInfo R))
    → infos_of (reverse (enumerate i xs)) ≡ reverse xs
unfolding infos_of
infos_of-enumerate i [] = refl
infos_of-enumerate i (x ∷ xs) =
    ap infos_of (reverse-cons (i, x) (enumerate (suc i) xs))
    ∙ infos_of-append (reverse (enumerate (suc i) xs)) ((i, x) ∷ [])
    ∙ ap (λ ys. ys ++ x ∷ []) (infos_of-enumerate (suc i) xs)
    ∙ sym (reverse-cons x xs)

enumerate-append :
    {R : Type 0} (i j : ℕ) (xs ys : List (SuffixInfo R))
    → i + length xs ≡ j
    → enumerate i (xs ++ ys) ≡ enumerate i xs ++ enumerate j ys
enumerate-append i j [] ys e = ap (λ k. enumerate k ys) (omega arith)
enumerate-append i j (x ∷ xs) ys e =
    ap (◌∷◌ (i, x)) (enumerate-append (suc i) j xs ys (omega arith))

last_of-snoc :
    {R : Type 0} (o : Option (SuffixInfo R)) (xs : List (SuffixInfo R)) (x : SuffixInfo R)
    → last_of o (xs ++ x ∷ []) ≡ some x
last_of-snoc o [] x = refl
last_of-snoc o (y ∷ xs) x = last_of-snoc (some y) xs x

All-enumerate :
    {R : Type 0} (Q : ℕ → Type 0) (i : ℕ) (xs : List (SuffixInfo R))
    → ((k : ℕ) → i ≤ k → k < i + length xs → Q k)
    → All (λ (p : ℕ × SuffixInfo R). Q p.0) (reverse (enumerate i xs))
All-enumerate Q i [] h = tt
All-enumerate {R} Q i (x ∷ xs) h =
    subst (All (λ (p : ℕ × SuffixInfo R). Q p.0)) (sym (reverse-cons (i, x) (enumerate (suc i) xs)))
      (All-append (λ (p : ℕ × SuffixInfo R). Q p.0) (reverse (enumerate (suc i) xs)) ((i, x) ∷ [])
        (All-enumerate Q (suc i) xs (λ k p q. h k (omega arith) (omega arith)))
        (h i (omega arith) (omega arith), tt))

All-middle :
    {A : Type 0} (Q : A → Type 0) (xs : List A) (x : A) (ys : List A) → All Q (xs ++ x ∷ ys) → Q x
All-middle Q [] x ys h = h.0
All-middle Q (y ∷ xs) x ys h = All-middle Q xs x ys h.1

All-front : {A : Type 0} (Q : A → Type 0) (xs ys : List A) → All Q (xs ++ ys) → All Q xs
All-front Q [] ys h = tt
All-front Q (x ∷ xs) ys h = (h.0, All-front Q xs ys h.1)

pub All-unreverse : {A : Type 0} (Q : A → Type 0) (xs : List A) → All Q (reverse xs) → All Q xs
All-unreverse Q [] h = tt
All-unreverse Q (x ∷ xs) h =
    let h' = subst (All Q) (reverse-cons x xs) h in
    (All-middle Q (reverse xs) x [] h', All-unreverse Q xs (All-front Q (reverse xs) (x ∷ []) h'))

also-ok : (result : Io (Unit {0})) → also result (ok tt) ≡ result
also-ok (ok u) = refl
also-ok err = refl

also_lem :
    (result a b : Io (Unit {0}))
    → also (also result a) b ≡ also result (elim a [ ok u ↦ b | err ↦ err ])
also_lem (ok u) (ok v) b = refl
also_lem (ok u) err b = refl
also_lem err a b = refl

take-drop_cases :
    {A : Type 0} (n : ℕ) (xs : List A)
    → (length (take n xs) ≤ n) × ((drop n xs ≡ []) ⊎ (length (take n xs) ≡ n))
take-drop_cases zero xs = (omega arith, inr refl)
take-drop_cases (suc n) [] = (omega arith, inl refl)
take-drop_cases (suc n) (x ∷ xs) =
    let (small, split) = take-drop_cases n xs in
    (omega arith, elim split [ inl e ↦ inl e | inr e ↦ inr (ap suc e) ])

module _ {R P : Type 0} (scheme : Scheme R P) (pf : Platform P) (limit : ℕ) where
  -- `AppendCount` and `FileLimit::MaxFiles` of the file-rotate crate: by position.
  abbrev pub Counts : Type 0
  Counts = (r : R) (i : ℕ) → scheme.too_old r i ≡ leb limit i

  -- Each entry is below all the later ones.
  abbrev pub IsAscending : List (SuffixInfo R) → Type 0
  IsAscending [] = Unit
  IsAscending (x ∷ xs) =
      All (λ (y : SuffixInfo R). scheme.lt x.suffix y.suffix ≡ true) xs × IsAscending xs

  -- The files of these entries are removed, one after the other.
  unfoldable pub remove_files :
      P → List (SuffixInfo R) → Io (Unit {0}) → Fs P → Io (Unit {0}) × Fs P
  remove_files base [] result fs = (result, fs)
  remove_files base (x ∷ xs) result fs =
      let (removed, fs') = remove_file pf (info_path scheme x base) fs in
      remove_files base xs (also result removed) fs'

  -- The files of these entries are removed, whether or not removing one of them fails; the result is
  -- an error if one removal failed.
  unfoldable pub removals : P → List (SuffixInfo R) → Fs P → Io (Unit {0}) × Fs P
  removals base [] fs = (ok tt, fs)
  removals base (x ∷ xs) fs =
      let (removed, fs1) = remove_file pf (info_path scheme x base) fs in
      let (others, fs2) = removals base xs fs1 in (elim removed [ ok u ↦ others | err ↦ err ], fs2)

  remove_files-removals :
      (base : P) (xs : List (SuffixInfo R)) (result : Io (Unit {0})) (fs : Fs P)
      → remove_files base xs result fs
        ≡ (also result (removals base xs fs).0, (removals base xs fs).1)
  unfolding remove_files removals
  remove_files-removals base [] result fs = ap (λ r. (r, fs)) (sym (also-ok result))
  remove_files-removals base (x ∷ xs) result fs =
      let (removed, fs1) = remove_file pf (info_path scheme x base) fs in
      remove_files-removals base xs (also result removed) fs1
      ∙ ap (λ r. (r, (removals base xs fs1).1)) (also_lem result removed (removals base xs fs1).0)

  remove_file-none :
      (p q : P) (fs : Fs P) → fs.files p ≡ none → (remove_file pf q fs).1.files p ≡ none
  unfolding remove_file
  remove_file-none p q fs h = elim (Option-cases (fs.files q)) [
    | inl e ↦ ground (arith, e, h)
    | inr (c, e) ↦
        ground (arith, e, h, Bool-cases (pf.faulty (remove_call q)), Bool-cases (pf.same q p))
  ]

  remove_file-gone :
      (p : P) (fs : Fs P)
      → pf.faulty (remove_call p) ≡ false
      → (remove_file pf p fs).1.files p ≡ none
  unfolding remove_file
  remove_file-gone p fs h = elim (Option-cases (fs.files p)) [
    | inl e ↦ ground (arith, e, h)
    | inr (c, e) ↦ ground (arith, e, h, (pf.same_iff p p).1 refl)
  ]

  removals-none :
      (base : P) (xs : List (SuffixInfo R)) (p : P) (fs : Fs P)
      → fs.files p ≡ none
      → (removals base xs fs).1.files p ≡ none
  unfolding removals
  removals-none base [] p fs h = h
  removals-none base (x ∷ xs) p fs h =
      removals-none base xs p _ (remove_file-none p (info_path scheme x base) fs h)

  -- A file is gone unless its removal fails.
  pub removals-Gone :
      (base : P) (xs : List (SuffixInfo R)) (fs : Fs P)
      → All
          (λ (x : SuffixInfo R).
            pf.faulty (remove_call (info_path scheme x base)) ≡ false
            → (removals base xs fs).1.files (info_path scheme x base) ≡ none)
          xs
  unfolding removals
  removals-Gone base [] fs = tt
  removals-Gone base (x ∷ xs) fs =
      let p = info_path scheme x base in
      (
        λ h. removals-none base xs p (remove_file pf p fs).1 (remove_file-gone p fs h),
        removals-Gone base xs (remove_file pf p fs).1,
      )

  -- The sweep goes through entries that are all too old.
  sweep-AllOld :
      (counts : Counts) (base : P) (old rest : List (ℕ × SuffixInfo R)) (result : Io (Unit {0}))
      (youngest : Option (SuffixInfo R)) (fs : Fs P)
      → All (λ (p : ℕ × SuffixInfo R). limit ≤ p.0) old
      → sweep scheme pf base (old ++ rest) result youngest fs
        ≡ sweep scheme pf base rest
            (remove_files base (infos_of old) result fs).0
            (last_of youngest (infos_of old))
            (remove_files base (infos_of old) result fs).1
  unfolding sweep remove_files infos_of
  sweep-AllOld counts base [] rest result youngest fs h = refl
  sweep-AllOld counts base ((i, x) ∷ old) rest result youngest fs h = ground (
    arith,
    counts x.suffix i,
    sweep-AllOld counts base old rest (also result (remove_file pf (info_path scheme x base) fs).0)
        (some x) (remove_file pf (info_path scheme x base) fs).1 h.1,
  )

  -- The sweep stops at an entry that is not too old.
  sweep_stops :
      (counts : Counts) (base : P) (young : List (ℕ × SuffixInfo R)) (result : Io (Unit {0}))
      (youngest : Option (SuffixInfo R)) (fs : Fs P)
      → All (λ (p : ℕ × SuffixInfo R). p.0 < limit) young
      → sweep scheme pf base young result youngest fs ≡ (result, youngest, fs)
  unfolding sweep
  sweep_stops counts base [] result youngest fs h = refl
  sweep_stops counts base ((i, x) ∷ young) result youngest fs h =
      ground (arith, counts x.suffix i, h.0)

  sweep_lem :
      (counts : Counts) (base : P) (new old : List (SuffixInfo R)) (fs : Fs P)
      → length new ≤ limit
      → (old ≡ []) ⊎ (length new ≡ limit)
      → sweep scheme pf base (reverse (enumerate 0 (new ++ old))) (ok tt) none fs ≡ (
        (remove_files base (reverse old) (ok tt) fs).0,
        last_of none (reverse old),
        (remove_files base (reverse old) (ok tt) fs).1,
      )
  sweep_lem counts base new old fs h k =
      ap (λ l. sweep scheme pf base l (ok tt) none fs)
        (ap reverse (enumerate-append 0 (length new) new old (omega arith))
          ∙ reverse-append (enumerate 0 new) (enumerate (length new) old))
      ∙ sweep-AllOld counts base (reverse (enumerate (length new) old)) (reverse (enumerate 0 new))
          (ok tt) none fs
          (elim k [
            | inl e ↦
                subst
                  (λ l.
                    All (λ (p : ℕ × SuffixInfo R). limit ≤ p.0)
                      (reverse (enumerate (length new) l)))
                  (sym e) tt
            | inr e ↦ All-enumerate (λ m. limit ≤ m) (length new) old (λ m p q. omega arith)
          ])
      ∙ ap
          (λ l.
            sweep scheme pf base (reverse (enumerate 0 new)) (remove_files base l (ok tt) fs).0
              (last_of none l) (remove_files base l (ok tt) fs).1)
          (infos_of-enumerate (length new) old)
      ∙ sweep_stops counts base (reverse (enumerate 0 new)) _ _ _
          (All-enumerate (λ m. m < limit) 0 new (λ m p q. omega arith))

  split_off_lem :
      (new : List (SuffixInfo R)) (x : SuffixInfo R) (old : List (SuffixInfo R))
      → IsAscending (new ++ x ∷ old)
      → scheme.lt x.suffix x.suffix ≡ false
      → split_off scheme.lt x.suffix (new ++ x ∷ old) ≡ new
  unfolding split_off
  split_off_lem [] x old h irr = rw irr
  split_off_lem (y ∷ new) x old h irr =
      let below =
        All-middle (λ (z : SuffixInfo R). scheme.lt y.suffix z.suffix ≡ true) new x old h.0 in
      rw below (ap (◌∷◌ y) (split_off_lem new x old h.1 irr))

  drop_from_lem :
      (new old : List (SuffixInfo R))
      → IsAscending (new ++ old)
      → ((r : R) → scheme.lt r r ≡ false)
      → drop_from scheme pf (last_of none (reverse old)) (new ++ old) ≡ new
  drop_from_lem new [] h irr = append-nil new
  drop_from_lem new (x ∷ old) h irr =
      ap (λ o. drop_from scheme pf o (new ++ x ∷ old))
        (ap (last_of none) (reverse-cons x old) ∙ last_of-snoc none (reverse old) x)
      ∙ split_off_lem new x old h (irr x.suffix)

  remove_old_lem :
      (s : Backend R P)
      → Counts
      → ((r : R) → scheme.lt r r ≡ false)
      → IsAscending s.suffixes
      → let removed = remove_files s.base_path (reverse (drop limit s.suffixes)) (ok tt) s.fs in
        remove_old scheme pf s
        ≡ (removed.0, record s { suffixes = take limit s.suffixes; fs = removed.1 })
  unfolding remove_old
  remove_old_lem s counts irr asc =
      let new = take limit s.suffixes in
      let old = drop limit s.suffixes in
      let whole : new ++ old ≡ s.suffixes = take-append-drop limit s.suffixes in
      let (small, split) = take-drop_cases limit s.suffixes in
      ap (λ t. (t.0, record s { suffixes = drop_from scheme pf t.1 s.suffixes; fs = t.2 }))
        (subst
          (λ l. sweep scheme pf s.base_path (reverse (enumerate 0 l)) (ok tt) none s.fs ≡ (
            (remove_files s.base_path (reverse old) (ok tt) s.fs).0,
            last_of none (reverse old),
            (remove_files s.base_path (reverse old) (ok tt) s.fs).1,
          ))
          whole (sweep_lem counts s.base_path new old s.fs small split))
      ∙ ap
          (λ l. (
            (remove_files s.base_path (reverse old) (ok tt) s.fs).0,
            record s { suffixes = l; fs = (remove_files s.base_path (reverse old) (ok tt) s.fs).1 },
          ))
          (subst (λ l. drop_from scheme pf (last_of none (reverse old)) l ≡ new) whole
            (drop_from_lem new old (subst IsAscending (sym whole) asc) irr))

  upkeep_removes :
      (s : Backend R P) (k : Upkeep)
      → s.upkeep ≡ k
      → k ≢ all
      → upkeep_files scheme pf s ≡ remove_old scheme pf s
  unfolding upkeep_files
  upkeep_removes s all e h = absurd (h refl)
  upkeep_removes s (age n) e h = simp (e, upkeep_files)
  upkeep_removes s (count n) e h = simp (e, upkeep_files)

  -- Where the scheme counts the files, its order of suffixes is irreflexive, the suffixes are in
  -- order and the upkeep is not to keep all, what is left are the newest `limit` files; the others
  -- are removed, the oldest first, also after a removal that failed, and the result is an error
  -- exactly if one of the removals failed.
  pub upkeep_keeps_newest :
      (s : Backend R P)
      → Counts
      → ((r : R) → scheme.lt r r ≡ false)
      → IsAscending s.suffixes
      → s.upkeep ≢ all
      → let removed = removals s.base_path (reverse (drop limit s.suffixes)) s.fs in
        upkeep_files scheme pf s
        ≡ (removed.0, record s { suffixes = take limit s.suffixes; fs = removed.1 })
  upkeep_keeps_newest s counts irr asc u =
      upkeep_removes s s.upkeep refl u
      ∙ remove_old_lem s counts irr asc
      ∙ ap (λ t. (t.0, record s { suffixes = take limit s.suffixes; fs = t.1 }))
          (remove_files-removals s.base_path (reverse (drop limit s.suffixes)) (ok tt) s.fs)
