-- ===== src/Rotation/Backend/Move/Single.antt =====
-- One move of `_move_file_with_suffix` in src/rotation.rs, and where the files stand after it.
use captains_log.Base.{
  ℕ, zero, suc, ◌+◌, ◌≤◌, ◌≡◌, ◌≢◌, refl, sym, ap, subst, ◌∙◌, inl, inr, List, ◌∷◌, Option, none,
  some, Bool, true, false, not, arith, returned, Bool-cases, if◌then◌else◌,
}
use captains_log.Methods.Triples.{assert-true}
use captains_log.Rotation.Files.{Io, ok, Platform, Fs, rename, exists_file, is_some, rename_call}
use captains_log.Rotation.Suffixes.{SuffixInfo, get, replace}
use captains_log.Rotation.Backend.{Scheme, Backend, Method, pure, ◌>>=◌, ◌>>◌, info_path}
use captains_log.Rotation.Backend.Move.{
  source_path, was_compressed, suffix_of, newest, move_file, move_file_with_suffix,
}
use captains_log.Rotation.Backend.Move.Numbered.{Archived, info, flag, at, flag_refl, flag_apart}

module _ {P : Type 0} (scheme : Scheme ℕ P) (pf : Platform P) where
  abbrev pub path : Backend ℕ P → ℕ → Bool → P
  path s n c = info_path scheme (info n c) s.base_path

  -- The files of different archives have different names, and none has the name of the log.
  pub record IsDistinct (s : Backend ℕ P) : Type 0 where
    pub apart : (m n : ℕ) (c d : Bool) → path s m c ≡ path s n d → (m ≡ n) × (c ≡ d)
    pub not_log : (n : ℕ) (c : Bool) → s.log_path ≢ path s n c

  pub same_refl : (p : P) → pf.same p p ≡ true
  same_refl p = (pf.same_iff p p).1 refl

  pub same-apart : (p q : P) → p ≢ q → pf.same p q ≡ false
  same-apart p q h = elim (Bool-cases (pf.same p q)) [
    | inl e ↦ absurd (h ((pf.same_iff p q).0 e))
    | inr e ↦ e
  ]

  unfoldable pub moved : (P → Option (List ℕ)) → P → P → List ℕ → P → Option (List ℕ)
  moved files p q x r = if pf.same q r then some x else if pf.same p r then none else files r

  rename_lem :
      (p q : P) (fs : Fs P) (x : List ℕ)
      → fs.files p ≡ some x
      → pf.faulty (rename_call p q) ≡ false
      → rename pf p q fs ≡ (ok tt, record fs { files = moved fs.files p q x })
  unfolding rename moved
  rename_lem p q fs x h f = cc

  pub move_file_lem :
      (new : SuffixInfo ℕ) (old : Option (SuffixInfo ℕ)) (s : Backend ℕ P) (x : List ℕ)
      → s.fs.files (source_path scheme pf old s) ≡ some x
      → s.fs.files (info_path scheme new s.base_path) ≡ none
      → pf.faulty (rename_call (source_path scheme pf old s) (info_path scheme new s.base_path))
        ≡ false
      → move_file scheme pf new old s
        ≡ returned (
          ok tt,
          record s {
            fs = record s.fs {
              files =
                  moved s.fs.files
                    (source_path scheme pf old s)
                    (info_path scheme new s.base_path)
                    x;
            };
          },
        )
  unfolding move_file
  move_file_lem new old s x h k f =
      let p = source_path scheme pf old s in
      let q = info_path scheme new s.base_path in
      assert-true (λ s. exists_file (source_path scheme pf old s) s.fs) _ s (ap is_some h)
      ∙ assert-true (λ s. not (exists_file (info_path scheme new s.base_path) s.fs)) _ s
          (ap (λ o. not (is_some o)) k)
      ∙ ap (λ (t : Io (Unit {0}) × Fs P). returned (t.0, record s { fs = t.1 }))
          (rename_lem p q s.fs x h f)

  pub move_none :
      (fuel k : ℕ) (old : Option (SuffixInfo ℕ)) (s : Backend ℕ P)
      → ((top : Option ℕ) → scheme.rotate_file top (suffix_of old) ≡ ok k)
      → get scheme.lt k s.suffixes ≡ none
      → move_file_with_suffix scheme pf (suc fuel) old s
        ≡ (move_file scheme pf (info k (was_compressed old)) old
              >> pure (info k (was_compressed old)))
            s
  unfolding move_file_with_suffix
  move_none fuel k old s r g = rw (r (newest s.suffixes), g)

  pub move_some :
      (fuel k : ℕ) (old : Option (SuffixInfo ℕ)) (s : Backend ℕ P) (e : SuffixInfo ℕ)
      → ((top : Option ℕ) → scheme.rotate_file top (suffix_of old) ≡ ok k)
      → get scheme.lt k s.suffixes ≡ some e
      → move_file_with_suffix scheme pf (suc fuel) old s
        ≡ (move_file_with_suffix scheme pf fuel (some e) >>= λ n.
              move_file scheme pf (info k (was_compressed old)) old >> pure n)
            (record s { suffixes = replace scheme.lt (info k (was_compressed old)) s.suffixes })
  unfolding move_file_with_suffix
  move_some fuel k old s e r g = rw (r (newest s.suffixes), g) refl

  pub >>=-ok :
      {A B : Type 0} (m : Method (Backend ℕ P) A) (f : A → Method (Backend ℕ P) B)
      (s s' : Backend ℕ P) (a : A)
      → m s ≡ returned (ok a, s')
      → (m >>= f) s ≡ f a s'
  >>=-ok m f s s' a h = cc

  module _ (files : P → Option (List ℕ)) (p q : P) (x : List ℕ) where
    moved_new : moved files p q x q ≡ some x
    unfolding moved
    moved_new = rw (same_refl q) refl

    pub moved_old : q ≢ p → moved files p q x p ≡ none
    unfolding moved
    moved_old h = rw (same-apart q p h, same_refl p) refl

    pub moved_other : (r : P) → q ≢ r → p ≢ r → moved files p q x r ≡ files r
    unfolding moved
    moved_other r h k = rw (same-apart q r h, same-apart p r k) refl

  -- After the later entries have gone up, the one for position `k` is put there.
  pub placed :
      (s : Backend ℕ P) (k : ℕ) (c : Bool) (x : List ℕ) (es : List Archived) (p : P)
      (files : P → Option (List ℕ))
      → IsDistinct s
      → ((m : ℕ) (d : Bool) → k ≤ m → p ≢ path s m d)
      → ((d : Bool) → files (path s k d) ≡ none)
      → ((i : ℕ) (d : Bool) → files (path s (suc k + i) d) ≡ at es i d)
      → (i : ℕ) (d : Bool) → moved files p (path s k c) x (path s (k + i) d) ≡ at ((c, x) ∷ es) i d
  unfolding at
  placed s k c x es p files distinct away free above zero d = elim (flag_apart c d) [
    | inl e ↦
        ap (λ m. moved files p (path s k c) x (path s m d)) (omega arith)
        ∙ subst
            (λ d. moved files p (path s k c) x (path s k d) ≡ (if flag c d then some x else none)) e
            (moved_new files p (path s k c) x
              ∙ sym (ap (λ b. if b then some x else none) (flag_refl c)))
    | inr e ↦
        ap (λ m. moved files p (path s k c) x (path s m d)) (omega arith)
        ∙ moved_other files p (path s k c) x (path s k d)
            (λ r. let same_flag = (distinct.apart k k c d r).1 in let t = flag_refl c in cc)
            (away k d (omega arith))
        ∙ free d
        ∙ sym (ap (λ b. if b then some x else none) e)
  ]
  placed s k c x es p files distinct away free above (suc i) d =
      moved_other files p (path s k c) x (path s (k + suc i) d)
        (λ r. omega (arith, (distinct.apart k (k + suc i) c d r).0))
        (away (k + suc i) d (omega arith))
      ∙ ap (λ m. files (path s m d)) (omega arith)
      ∙ above i d
