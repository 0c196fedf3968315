-- ===== src/Recipe/ReadBack.antt =====
-- What the iterator of src/parser.rs reads from a log in the debug format of src/recipe.rs.
use captains_log.Base.{
  ℕ, ◌≡◌, refl, ap, ◌∙◌, ◌⊎◌, ◌<◌, ◌==◌, some, List, [], ◌∷◌, ◌++◌, map, append_assoc, length,
  false, inl, inr, Bool-cases, All, All-append, arith, returned, Text, codes, decimal,
  if◌then◌else◌,
}
use captains_log.Methods.{Io, ok}
use captains_log.Sinks.{Records, FormatRecord, process, file, line_of}
use captains_log.Sinks.Text.{Logged, text}
use captains_log.Parser.{Groups, line_result, collect}
use captains_log.Parser.Collect.{items_of, collect-items_of}
use captains_log.Recipe.{Display, default_time, time, level, msg, debug_format_f, log_format_debug}
use captains_log.Recipe.Pattern.{
  Without, debug_pattern, debug_pattern_lem, debug_line, read_lines, read_lines_lem,
  decimal-Without,
}

-- A text on one line that does not have the character which ends it in the format.
abbrev pub IsPlain : ℕ → Text → Type 0
IsPlain c s = Without c s × Without 10 s × Without 13 s

module _ {L R : Type 0} (records : Records L R) (display : Display L R) where
  abbrev formatted : ℕ → R → FormatRecord R
  formatted now r = record { record_of = r; now = now; fmt_str = default_time }

  -- The time and the level have no closing bracket, the file name has no colon, and none of them, nor
  -- the message, has an end of line.
  pub record IsReadable (e : ℕ × R) : Type 0 where
    pub time_plain : IsPlain b']' (time records display (formatted e.0 e.1))
    pub level_plain : IsPlain b']' (display.level_name (records.level e.1))
    pub file_plain : IsPlain b':' (file records (formatted e.0 e.1))
    pub msg_plain : Without 10 (display.message e.1) × Without 13 (display.message e.1)

  abbrev line : ℕ → R → Text
  line now r =
      let f = formatted now r in
      debug_line (time records display f) (display.level_name (records.level r)) (file records f)
        (decimal (line_of records f)) (display.message r)

  -- The whole line, its time, level, file name, line number and message.
  abbrev pub fields : ℕ → R → List Text
  fields now r =
      let f = formatted now r in
      line now r
      ∷ time records display f
      ∷ display.level_name (records.level r)
      ∷ file records f
      ∷ decimal (line_of records f)
      ∷ display.message r
      ∷ []

  abbrev pub read_back : L → Logged R → List (Io (List Text))
  read_back max [] = []
  read_back max ((now, r) ∷ rs) =
      let rest = read_back max rs in
      if records.within (records.level r) max then ok (fields now r) ∷ rest else rest

  process_line :
      (now : ℕ) (r : R) → process (log_format_debug records display) now r ≡ line now r ++ 10 ∷ []
  unfolding process debug_format_f level msg
  process_line now r = simp append_assoc

  line_Without :
      (c now : ℕ) (r : R)
      → (c < 48) ⊎ (57 < c)
      → Without c (codes "[" ++ (codes "][" ++ (codes ":" ++ codes "] ")))
      → Without c (time records display (formatted now r))
      → Without c (display.level_name (records.level r))
      → Without c (file records (formatted now r))
      → Without c (display.message r)
      → Without c (line now r)
  line_Without c now r h (a, (b, (b', (d, e)))) t l f m =
      let P = λ (x : ℕ). (x == c) ≡ false in
      (
        a,
        All-append P _ _ t (
          b,
          (
            b',
            All-append P _ _ l (
              b,
              (
                b',
                All-append P _ _ f (d, All-append P _ _ (decimal-Without c _ h) (e.0, (e.1.0, m))),
              ),
            ),
          ),
        ),
      )

  line_read :
      (e : ℕ × R) → IsReadable e → debug_pattern (line e.0 e.1) ≡ some (map some (fields e.0 e.1))
  line_read e h =
      debug_pattern_lem _ _ _ _ _ h.time_plain.0 h.level_plain.0 h.file_plain.0
        (decimal-Without b']' _ (inr (omega arith)))

  line_split :
      (e : ℕ × R) (rest : Text)
      → IsReadable e
      → read_lines [] (process (log_format_debug records display) e.0 e.1 ++ rest)
        ≡ line e.0 e.1 ∷ read_lines [] rest
  line_split e rest h =
      let ends : Without 10 (line e.0 e.1) =
        line_Without 10 e.0 e.1 (inl (omega arith))
          (refl, (refl, (refl, (refl, (refl, (refl, tt)))))) h.time_plain.1 h.level_plain.1
          h.file_plain.1 h.msg_plain.0 in
      let returns : Without 13 (line e.0 e.1) =
        line_Without 13 e.0 e.1 (inl (omega arith))
          (refl, (refl, (refl, (refl, (refl, (refl, tt)))))) h.time_plain.2 h.level_plain.2
          h.file_plain.2 h.msg_plain.1 in
      ap (λ t. read_lines [] (t ++ rest)) (process_line e.0 e.1)
      ∙ ap (read_lines []) (append_assoc (line e.0 e.1) (10 ∷ []) rest)
      ∙ read_lines_lem (line e.0 e.1) rest ends returns

  item_first :
      (s : Text) {groups : Groups}
      → debug_pattern s ≡ some groups
      → (lines : List (Io Text))
      → items_of debug_pattern (ok s ∷ lines)
        ≡ ok (line_result groups) ∷ items_of debug_pattern lines
  unfolding items_of
  item_first s e lines = ground (arith, e)

  items_read :
      (max : L) (rs : Logged R)
      → All IsReadable rs
      → items_of debug_pattern
          (map ok (read_lines [] (text records max (log_format_debug records display) rs)))
        ≡ read_back max rs
  unfolding text items_of line_result
  items_read max [] h = refl
  items_read max ((now, r) ∷ rs) h = elim (Bool-cases (records.within (records.level r) max)) [
    | inl b ↦ rw b (
        ap (λ ls. items_of debug_pattern (map ok ls)) (line_split (now, r) _ h.0)
        ∙ item_first (line now r) (line_read (now, r) h.0) _
        ∙ ap (λ l. ok (fields now r) ∷ l) (items_read max rs h.1))
    | inr b ↦ rw b (items_read max rs h.1)
  ]

  -- The log that a raw file gets in the debug format, where the time and the level have no closing
  -- bracket, the file name no colon, and nothing an end of line: read back by the parser with the
  -- pattern of the format and more fuel than lines, it gives one item for each record up to the
  -- level, in order, with its time, level, file name, line number and message.
  pub collect-text :
      (max : L) (rs : Logged R) (fuel : ℕ)
      → All IsReadable rs
      → length (map ok (read_lines [] (text records max (log_format_debug records display) rs)))
        < fuel
      → collect debug_pattern fuel
          (map ok (read_lines [] (text records max (log_format_debug records display) rs)))
        ≡ returned (read_back max rs)
  collect-text max rs fuel h enough =
      collect-items_of debug_pattern _ fuel enough ∙ ap returned (items_read max rs h)
