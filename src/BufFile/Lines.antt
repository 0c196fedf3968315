-- ===== src/BufFile/Lines.antt =====
-- A specification of the buffer of src/buf_file_impl.rs at the level of whole lines: which lines go
-- into one flush. `Refine` shows that `write` on bytes implements it.
pub mod Refine
use captains_log.Base.{
  ℕ, zero, suc, ◌+◌, ◌≤◌, ◌<◌, ◌≡◌, refl, sym, ap, subst, ◌∙◌, ◌⊎◌, inl, inr, List, [], ◌∷◌, ◌++◌,
  map, append-nil, append_assoc, Option, none, some, Bool, true, false, not, ◌&&◌, Outcome,
  returned, arith, ◌>>=◌, length, length-append, concat, All, All-append, Bool-cases, ltb, leb,
  if◌then◌else◌,
}
use captains_log.BufFile.{is_empty}

abbrev pub Line : Type 0
Line = List ℕ

-- The groups of lines that are flushed together, and the lines that stay in the buffer.
pub record Plan : Type 0 where
  pub batches : List (List Line)
  pub pending : List Line

pub add_line : ℕ → List (List Line) → List Line → Plan
add_line limit flushed lines =
    if leb limit (length (concat lines))
    then record { batches = flushed ++ lines ∷ []; pending = [] }
    else record { batches = flushed; pending = lines }

-- The new line does not fit beside the pending ones.
abbrev pub overflows : ℕ → List Line → Line → Bool
overflows limit pending line =
    ltb limit (length (concat pending) + length line) && not (is_empty (concat pending))

-- A line that does not fit beside the pending ones makes those a batch; what has reached the limit
-- is a batch.
pub plan : ℕ → List Line → Line → Plan
unfolding add_line
plan limit pending line =
    if overflows limit pending line
    then add_line limit (pending ∷ []) (line ∷ [])
    else add_line limit [] (pending ++ line ∷ [])

-- A batch stays within the limit, or is one line with at most empty lines before it.
abbrev pub Fits : ℕ → List Line → Type 0
Fits limit lines =
    (length (concat lines) ≤ limit)
    ⊎ ((blank : List Line) × (line : Line) × (lines ≡ blank ++ line ∷ []) × (concat blank ≡ []))

concat-append : (xs ys : List Line) → concat (xs ++ ys) ≡ concat xs ++ concat ys
concat-append [] ys = refl
concat-append (x ∷ xs) ys =
    ap (◌++◌ x) (concat-append xs ys) ∙ sym (append_assoc x (concat xs) (concat ys))

pub concat-snoc : (xs : List Line) (line : Line) → concat (xs ++ line ∷ []) ≡ concat xs ++ line
concat-snoc xs line = concat-append xs (line ∷ []) ∙ ap (◌++◌ (concat xs)) (append-nil line)

length-concat-snoc :
    (xs : List Line) (line : Line)
    → length (concat (xs ++ line ∷ [])) ≡ length (concat xs) + length line
length-concat-snoc xs line = ap length (concat-snoc xs line) ∙ length-append (concat xs) line

add_line-Fits :
    (limit : ℕ) (flushed : List (List Line)) (lines : List Line)
    → 0 < limit
    → All (Fits limit) flushed
    → Fits limit lines
    → All (Fits limit) (add_line limit flushed lines).batches
      × (length (concat (add_line limit flushed lines).pending) < limit)
unfolding add_line
add_line-Fits limit flushed lines pos old new =
    elim (Bool-cases (leb limit (length (concat lines)))) [
      | inl yea ↦ rw yea (All-append (Fits limit) flushed (lines ∷ []) old (new, tt), pos)
      | inr nay ↦ rw nay (old, ground arith)
    ]

is_empty→nil : (xs : List ℕ) → not (is_empty xs) ≡ false → xs ≡ []
is_empty→nil [] h = refl
is_empty→nil (x ∷ xs) h = cc

-- Whatever the lines, every batch fits, and what stays is below the limit.
pub plan-Fits :
    (limit : ℕ) (pending : List Line) (line : Line)
    → 0 < limit
    → length (concat pending) < limit
    → All (Fits limit) (plan limit pending line).batches
      × (length (concat (plan limit pending line).pending) < limit)
unfolding plan
plan-Fits limit pending line pos small = elim (Bool-cases (overflows limit pending line)) [
  | inl full ↦ rw full (
      add_line-Fits limit (pending ∷ []) (line ∷ []) pos (inl (omega arith), tt)
        (inr ([], line, refl, refl)))
  | inr room ↦ rw room (
      add_line-Fits limit [] (pending ++ line ∷ []) pos tt
        (elim (Bool-cases (ltb limit (length (concat pending) + length line))) [
          | inl over ↦ inr (pending, line, refl, is_empty→nil (concat pending) (ground arith))
          | inr under ↦ inl (ground (arith, length-concat-snoc pending line))
        ]))
]

-- No line is lost or reordered: the batches with the pending lines are the old ones with the new.
pub plan_partition :
    (limit : ℕ) (pending : List Line) (line : Line)
    → concat (plan limit pending line).batches ++ (plan limit pending line).pending
      ≡ pending ++ line ∷ []
unfolding plan
plan_partition limit pending line =
    ground (arith, append-nil pending, append-nil (pending ++ line ∷ []))

pub plan_full :
    (limit : ℕ) (pending : List Line) (line : Line)
    → overflows limit pending line ≡ true
    → plan limit pending line ≡ record {
      batches = pending ∷ (add_line limit [] (line ∷ [])).batches;
      pending = (add_line limit [] (line ∷ [])).pending;
    }
unfolding plan
plan_full limit pending line full = ground arith

pub plan_room :
    (limit : ℕ) (pending : List Line) (line : Line)
    → overflows limit pending line ≡ false
    → plan limit pending line ≡ add_line limit [] (pending ++ line ∷ [])
unfolding plan
plan_room limit pending line room = rw room
