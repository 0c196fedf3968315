-- ===== src/Parser.antt =====
-- src/parser.rs: the iterator over the lines of a log file that match a pattern. The regex crate enters
-- by `captures`, and reading a line may fail.
pub mod Collect
use captains_log.Base.{
  ℕ, zero, suc, List, [], ◌∷◌, Option, none, some, Outcome, returned, out_of_fuel, ◌>>=◌,
}
use captains_log.Methods.{Io, ok, err}

abbrev pub Text : Type 0
Text = List ℕ

-- The groups of a match; a group may have no part in it.
abbrev pub Groups : Type 0
Groups = List (Option Text)

-- A group without a part is empty.
unfoldable pub line_result : Groups → List Text
line_result [] = []
line_result (none ∷ groups) = [] ∷ line_result groups
line_result (some text ∷ groups) = text ∷ line_result groups

module _ (captures : Text → Option Groups) where
  -- `next`: the item, if there is one, and the lines that are left. Lines without a match are skipped.
  unfoldable pub next : List (Io Text) → Option (Io (List Text)) × List (Io Text)
  unfolding line_result
  next [] = (none, [])
  next (err ∷ lines) = (some err, lines)
  next (ok line ∷ lines) =
      let skipped = next lines in
      elim (captures line) [
        | none ↦ skipped
        | some groups ↦ (some (ok (line_result groups)), lines)
      ]

  -- The items until the iterator ends.
  unfoldable pub collect : ℕ → List (Io Text) → Outcome (List (Io (List Text)))
  unfolding next
  collect zero lines = out_of_fuel
  collect (suc fuel) lines =
      let (item, left) = next lines in
      let rest = collect fuel left in
      elim item [ none ↦ returned [] | some i ↦ (rest >>= λ items. returned (i ∷ items)) ]
