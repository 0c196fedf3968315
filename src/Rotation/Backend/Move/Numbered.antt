-- ===== src/Rotation/Backend/Move/Numbered.antt =====
-- Archives that are numbered from 1, and the ordered set of their suffixes.
use captains_log.Base.{
  ℕ, zero, suc, ◌<◌, ◌≡◌, refl, ◌⊎◌, inl, inr, List, [], ◌∷◌, ◌++◌, Option, none, some, Bool, true,
  false, arith, ltb, All, if◌then◌else◌,
}
use captains_log.Rotation.Files.{ok}
use captains_log.Rotation.Suffixes.{SuffixInfo, get, insert, replace}
use captains_log.Rotation.Backend.{Scheme}

-- `AppendCount` of the file-rotate crate.
pub record Counting {P : Type 0} (scheme : Scheme ℕ P) : Type 0 where
  pub lt-ltb : (a b : ℕ) → scheme.lt a b ≡ ltb a b
  pub first : (top : Option ℕ) → scheme.rotate_file top none ≡ ok 1
  pub next : (top : Option ℕ) (n : ℕ) → scheme.rotate_file top (some n) ≡ ok (suc n)

-- An archived file: whether it is compressed, and its bytes; the newest comes first.
abbrev pub Archived : Type 0
Archived = Bool × List ℕ

abbrev pub info : ℕ → Bool → SuffixInfo ℕ
info n c = record { suffix = n; compressed = c }

unfoldable pub numbered : ℕ → List Archived → List (SuffixInfo ℕ)
numbered k [] = []
numbered k ((c, x) ∷ es) = info k c ∷ numbered (suc k) es

abbrev pub flag : Bool → Bool → Bool
flag true d = d
flag false true = false
flag false false = true

pub flag_refl : (c : Bool) → flag c c ≡ true
flag_refl true = refl
flag_refl false = refl

pub flag_apart : (c d : Bool) → (c ≡ d) ⊎ (flag c d ≡ false)
flag_apart true true = inl refl
flag_apart true false = inr refl
flag_apart false true = inr refl
flag_apart false false = inl refl

-- The file that stands at a position with a flag.
unfoldable pub at : List Archived → ℕ → Bool → Option (List ℕ)
at [] i d = none
at ((c, x) ∷ es) zero d = if flag c d then some x else none
at (e ∷ es) (suc i) d = at es i d

module _ {P : Type 0} (scheme : Scheme ℕ P) (laws : Counting scheme) where
  abbrev pub Below : ℕ → List (SuffixInfo ℕ) → Type 0
  Below k pre = All (λ (y : SuffixInfo ℕ). y.suffix < k) pre

  pub get_absent :
      (k : ℕ) (pre : List (SuffixInfo ℕ)) → Below k pre → get scheme.lt k (pre ++ []) ≡ none
  unfolding get
  get_absent k [] h = refl
  get_absent k (y ∷ pre) h = ground (arith, h.0, laws.lt-ltb y.suffix k, get_absent k pre h.1)

  pub get_present :
      (k : ℕ) (c : Bool) (pre rest : List (SuffixInfo ℕ))
      → Below k pre
      → get scheme.lt k (pre ++ info k c ∷ rest) ≡ some (info k c)
  unfolding get
  get_present k c [] rest h = ground (arith, laws.lt-ltb k k)
  get_present k c (y ∷ pre) rest h =
      ground (arith, h.0, laws.lt-ltb y.suffix k, get_present k c pre rest h.1)

  pub replace_present :
      (k : ℕ) (c d : Bool) (pre rest : List (SuffixInfo ℕ))
      → Below k pre
      → replace scheme.lt (info k d) (pre ++ info k c ∷ rest) ≡ pre ++ info k d ∷ rest
  unfolding replace
  replace_present k c d [] rest h = ground (arith, laws.lt-ltb k k)
  replace_present k c d (y ∷ pre) rest h =
      ground (arith, h.0, laws.lt-ltb y.suffix k, replace_present k c d pre rest h.1)

  pub insert_last :
      (k : ℕ) (c : Bool) (pre : List (SuffixInfo ℕ))
      → Below k pre
      → insert scheme.lt (info k c) (pre ++ []) ≡ pre ++ info k c ∷ []
  unfolding insert
  insert_last k c [] h = refl
  insert_last k c (y ∷ pre) h = ground (arith, h.0, laws.lt-ltb y.suffix k, insert_last k c pre h.1)

  pub Below-up :
      (k : ℕ) (c : Bool) (pre : List (SuffixInfo ℕ))
      → Below k pre
      → Below (suc k) (pre ++ info k c ∷ [])
  Below-up k c [] h = (omega arith, tt)
  Below-up k c (y ∷ pre) h = (omega (arith, h.0), Below-up k c pre h.1)
