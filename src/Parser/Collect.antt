-- ===== src/Parser/Collect.antt =====
-- What the iterator of src/parser.rs yields.
use captains_log.Base.{
  ℕ, zero, suc, ◌<◌, ◌≡◌, refl, ap, ◌∙◌, List, [], ◌∷◌, Option, none, some, Option-cases, inl, inr,
  arith, length, returned, ◌>>=◌,
}
use captains_log.Methods.{Io, ok, err}
use captains_log.Parser.{Text, Groups, line_result, next, collect}

module _ (captures : Text → Option Groups) where
  -- Each line that fails to be read and each that matches, in order.
  unfoldable pub items_of : List (Io Text) → List (Io (List Text))
  items_of [] = []
  items_of (err ∷ lines) = err ∷ items_of lines
  items_of (ok line ∷ lines) =
      let rest = items_of lines in
      elim (captures line) [ none ↦ rest | some groups ↦ ok (line_result groups) ∷ rest ]

  fails :
      (fuel : ℕ) (lines : List (Io Text))
      → collect captures (suc fuel) (err ∷ lines)
        ≡ (collect captures fuel lines >>= λ items. returned (err ∷ items))
  unfolding collect next
  fails fuel lines = refl

  skips :
      (fuel : ℕ) (line : Text) (lines : List (Io Text))
      → captures line ≡ none
      → collect captures (suc fuel) (ok line ∷ lines) ≡ collect captures (suc fuel) lines
  unfolding collect next
  skips fuel line lines e = ground (arith, e)

  yields :
      (fuel : ℕ) (line : Text) (lines : List (Io Text)) (groups : Groups)
      → captures line ≡ some groups
      → collect captures (suc fuel) (ok line ∷ lines)
        ≡ (collect captures fuel lines >>= λ items. returned (ok (line_result groups) ∷ items))
  unfolding collect next
  yields fuel line lines groups e = ground (arith, e)

  -- With more fuel than lines, the iterator ends, and what it yielded is an error for each line that
  -- could not be read and the groups of each line that matches, in the order of the lines.
  pub collect-items_of :
      (lines : List (Io Text)) (fuel : ℕ)
      → length lines < fuel
      → collect captures fuel lines ≡ returned (items_of lines)
  unfolding items_of
  collect-items_of lines zero h = absurd (omega (arith, h))
  collect-items_of [] (suc fuel) h = unfold collect next in refl
  collect-items_of (err ∷ lines) (suc fuel) h =
      fails fuel lines
      ∙ ap (λ o. o >>= λ items. returned (err ∷ items))
          (collect-items_of lines fuel (omega (arith, h)))
  collect-items_of (ok line ∷ lines) (suc fuel) h = elim (Option-cases (captures line)) [
    | inl e ↦
        skips fuel line lines e
        ∙ collect-items_of lines (suc fuel) (omega (arith, h))
        ∙ ground (arith, e)
    | inr (groups, e) ↦
        yields fuel line lines groups e
        ∙ ap (λ o. o >>= λ items. returned (ok (line_result groups) ∷ items))
            (collect-items_of lines fuel (omega (arith, h)))
        ∙ ground (arith, e)
  ]
