-- ===== src/Logger/Levels.antt =====
-- `Builder::get_max_level` of src/config.rs.
use captains_log.Base.{
  ◌≤◌, ◌≡◌, refl, ap, ◌⊎◌, inl, inr, List, [], ◌∷◌, ◌++◌, Bool-cases, All, arith, ltb,
  if◌then◌else◌,
}
use captains_log.Logger.{Builder, Env, get_max_level, max_level_from}

module _ {C S L R W : Type 0} (env : Env C S L R W) where
  higher : L → C → L
  higher top c = if ltb (env.rank top) (env.rank (env.get_level c)) then env.get_level c else top

  abbrev pub Below : List C → L → Type 0
  Below cs top = All (λ c. env.rank (env.get_level c) ≤ env.rank top) cs

  higher_lem :
      (top : L) (c : C)
      → (env.rank top ≤ env.rank (higher top c))
        × (env.rank (env.get_level c) ≤ env.rank (higher top c))
  unfolding higher
  higher_lem top c = (ground arith, ground arith)

  bounds :
      (top : L) (cs : List C)
      → (env.rank top ≤ env.rank (max_level_from env top cs)) × Below cs (max_level_from env top cs)
  unfolding max_level_from higher
  bounds top [] = (omega arith, tt)
  bounds top (c ∷ cs) =
      let (above_top, above_rest) = bounds (higher top c) cs in
      let (t, l) = higher_lem top c in
      (omega (arith, above_top, t), (omega (arith, above_top, l), above_rest))

  -- The level is one of a sink's.
  abbrev pub IsLevelOf : List C → L → Type 0
  IsLevelOf cs l =
      (before : List C) × (c : C) × (after : List C) × (cs ≡ before ++ c ∷ after)
      × (env.get_level c ≡ l)

  later : (c : C) (cs : List C) (l : L) → IsLevelOf cs l → IsLevelOf (c ∷ cs) l
  later c cs l (before, d, after, e, h) = (c ∷ before, d, after, ap (◌∷◌ c) e, h)

  attained :
      (top : L) (cs : List C)
      → (max_level_from env top cs ≡ top) ⊎ IsLevelOf cs (max_level_from env top cs)
  unfolding max_level_from higher
  attained top [] = inl refl
  attained top (c ∷ cs) = elim (attained (higher top c) cs) [
    | inr h ↦ inr (later c cs _ h)
    | inl e ↦ elim (Bool-cases (ltb (env.rank top) (env.rank (env.get_level c)))) [
      | inl b ↦ inr ([], c, cs, refl, ground (arith, e, b))
      | inr b ↦ inl (ground (arith, e, b))
    ]
  ]

  -- The level of the log crate is at least that of each sink and at least the error level, and it
  -- is the error level or a sink's.
  pub get_max_level_least :
      (b : Builder C)
      → (env.rank env.error_level ≤ env.rank (get_max_level env b))
        × Below b.sinks (get_max_level env b)
        × ((get_max_level env b ≡ env.error_level) ⊎ IsLevelOf b.sinks (get_max_level env b))
  unfolding get_max_level
  get_max_level_least b =
      let (t, h) = bounds env.error_level b.sinks in (t, h, attained env.error_level b.sinks)
