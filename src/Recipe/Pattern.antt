-- ===== src/Recipe/Pattern.antt =====
-- Reading a line of text by pieces that end in a character.
use captains_log.Base.{
  ℕ, ◌<◌, ◌≡◌, refl, ap, ◌∙◌, ◌⊎◌, List, [], ◌∷◌, ◌++◌, append-nil, append_assoc, Option, none,
  some, false, All, arith, Text, codes, is_empty, decimal, decimal-All, ◌==◌, if◌then◌else◌,
}
use mathlib.Core.Option
use captains_log.Parser.{Groups}

-- The characters before the first `c`, and those after it.
abbrev pub until : ℕ → Text → Option (Text × Text)
until c [] = none
until c (x ∷ xs) = if x == c then some ([], xs) else Option.map (λ (s, t). (x ∷ s, t)) (until c xs)

abbrev pub Without : ℕ → Text → Type 0
Without c = All (λ x. (x == c) ≡ false)

pub until-Without : (c : ℕ) (s t : Text) → Without c s → until c (s ++ c ∷ t) ≡ some (s, t)
until-Without c [] t h = ground arith
until-Without c (x ∷ xs) t h = ground (arith, h.0, until-Without c xs t h.1)

abbrev after : ℕ → Text → Option Text
after c [] = none
after c (x ∷ xs) = if x == c then some xs else none

infixl 5 ◌>>=◌
abbrev ◌>>=◌ {ℓ κ} : {A : Type ℓ} {B : Type κ} → Option A → (A → Option B) → Option B
none >>= f = none
some a >>= f = f a

-- The groups of the pattern for a debug line: [time][level][file:line] message. The first group is the
-- whole line; the time and the level have no closing bracket, the file has no colon.
pub debug_pattern : Text → Option Groups
debug_pattern text = do
  rest ← after b'[' text
  (time, rest) ← until b']' rest
  rest ← after b'[' rest
  (level, rest) ← until b']' rest
  rest ← after b'[' rest
  (file, rest) ← until b':' rest
  (number, rest) ← until b']' rest
  message ← after b' ' rest
  some (some text ∷ some time ∷ some level ∷ some file ∷ some number ∷ some message ∷ [])

abbrev pub debug_line : Text → Text → Text → Text → Text → Text
debug_line t l f n m =
    codes "["
    ++ (t ++ (codes "][" ++ (l ++ (codes "][" ++ (f ++ (codes ":" ++ (n ++ (codes "] " ++ m))))))))

pub debug_pattern_lem :
    (t l f n m : Text)
    → Without b']' t
    → Without b']' l
    → Without b':' f
    → Without b']' n
    → debug_pattern (debug_line t l f n m)
      ≡ some (some (debug_line t l f n m) ∷ some t ∷ some l ∷ some f ∷ some n ∷ some m ∷ [])
unfolding debug_pattern
debug_pattern_lem t l f n m ht hl hf hn = rw (
  until-Without b']' t _ ht,
  until-Without b']' l _ hl,
  until-Without b':' f _ hf,
  until-Without b']' n _ hn,
)

-- A carriage return before the end of a line goes with it.
abbrev strip_cr : Text → Text
strip_cr [] = []
strip_cr (x ∷ []) = if x == 13 then [] else x ∷ []
strip_cr (x ∷ y ∷ ys) = x ∷ strip_cr (y ∷ ys)

-- BufRead::lines
abbrev pub read_lines : Text → Text → List Text
read_lines line [] = if is_empty line then [] else line ∷ []
read_lines line (x ∷ xs) =
    let more = read_lines (line ++ x ∷ []) xs in
    let next = read_lines [] xs in if x == 10 then strip_cr line ∷ next else more

strip_cr_lem : (s : Text) → Without 13 s → strip_cr s ≡ s
strip_cr_lem [] h = refl
strip_cr_lem (x ∷ []) h = ground (arith, h.0)
strip_cr_lem (x ∷ y ∷ ys) h = ap (◌∷◌ x) (strip_cr_lem (y ∷ ys) h.1)

read_lines-newline :
    (line s t : Text)
    → Without 10 s
    → read_lines line (s ++ 10 ∷ t) ≡ strip_cr (line ++ s) ∷ read_lines [] t
read_lines-newline line [] t h = rw append-nil
read_lines-newline line (x ∷ xs) t h = rw h.0 (
    read_lines-newline (line ++ x ∷ []) xs t h.1
    ∙ ap (λ l. strip_cr l ∷ read_lines [] t) (append_assoc line (x ∷ []) xs))

pub read_lines_lem :
    (s t : Text) → Without 10 s → Without 13 s → read_lines [] (s ++ 10 ∷ t) ≡ s ∷ read_lines [] t
read_lines_lem s t h k =
    read_lines-newline [] s t h ∙ ap (λ l. l ∷ read_lines [] t) (strip_cr_lem s k)

pub decimal-Without : (c n : ℕ) → (c < 48) ⊎ (57 < c) → Without c (decimal n)
decimal-Without c n h = decimal-All (λ x. (x == c) ≡ false) (λ d k. ground (arith, h, k)) n
