-- ===== src/Rotation/Suffixes.antt =====
-- The ordered set of suffixes that src/rotation.rs keeps in a `BTreeSet`, as an ascending list. Two
-- entries are the same if their suffixes are; `lt` is the order of the suffixes.
use captains_log.Base.{List, [], ◌∷◌, Option, none, some, Bool, if◌then◌else◌}

-- The flag says whether the file name has .gz at its end.
pub record SuffixInfo (R : Type 0) : Type 0 where
  pub suffix : R
  pub compressed : Bool

module _ {R : Type 0} (lt : R → R → Bool) where
  unfoldable pub get : R → List (SuffixInfo R) → Option (SuffixInfo R)
  get k [] = none
  get k (x ∷ xs) = if lt x.suffix k then get k xs else if lt k x.suffix then none else some x

  -- `insert` keeps an entry that is there already.
  unfoldable pub insert : SuffixInfo R → List (SuffixInfo R) → List (SuffixInfo R)
  insert a [] = a ∷ []
  insert a (x ∷ xs) =
      if lt x.suffix a.suffix
      then x ∷ insert a xs
      else if lt a.suffix x.suffix
      then a ∷ x ∷ xs
      else x ∷ xs

  unfoldable pub replace : SuffixInfo R → List (SuffixInfo R) → List (SuffixInfo R)
  replace a [] = a ∷ []
  replace a (x ∷ xs) =
      if lt x.suffix a.suffix
      then x ∷ replace a xs
      else if lt a.suffix x.suffix
      then a ∷ x ∷ xs
      else a ∷ xs

  -- What `split_off` leaves in the set: the entries below `k`.
  unfoldable pub split_off : R → List (SuffixInfo R) → List (SuffixInfo R)
  split_off k [] = []
  split_off k (x ∷ xs) = if lt x.suffix k then x ∷ split_off k xs else []
