-- ===== src/Base/Texts.antt =====
-- Texts as lists of code points: literals, equality, and numbers in decimal.
use Prim.Native.Nat.{ℕ, zero, suc, ◌+◌, ◌/◌, ◌%◌, ◌<◌}
use Prim.Native.Char.{code}
use Prim.Native.String.{String}
use mathlib.Core.Path.{◌≡◌, refl}
use mathlib.Core.Bool.{Bool, true, false, ◌&&◌}
use mathlib.Core.List.{List, [], ◌∷◌, ◌++◌}
use native.Mathlib.Omega.{arith}
use mathlib.Core.Logic.{inl, inr}
use captains_log.Base.Tests.{ltb, ltb→lt, Bool-cases, ◌==◌, if◌then◌else◌}
use captains_log.Base.Lists.{All, All-append}

abbrev pub Text : Type 0
Text = List ℕ

-- The code points of a literal.
abbrev pub codes : String → Text
codes String.[] = []
codes (String.◌∷◌ c s) = code c ∷ codes s

abbrev pub is_empty {ℓ} : {A : Type ℓ} → List A → Bool
is_empty [] = true
is_empty (x ∷ xs) = false

unfoldable pub text_eq : Text → Text → Bool
text_eq [] [] = true
text_eq [] (y ∷ ys) = false
text_eq (x ∷ xs) [] = false
text_eq (x ∷ xs) (y ∷ ys) = x == y && text_eq xs ys

pub text_eq_sound : (s t : Text) → text_eq s t ≡ true → s ≡ t
unfolding text_eq
text_eq_sound [] [] h = refl
text_eq_sound [] (y ∷ ys) h = cc
text_eq_sound (x ∷ xs) [] h = cc
text_eq_sound (x ∷ xs) (y ∷ ys) h = ground (arith, text_eq_sound xs ys)

pub text_eq_refl : (s : Text) → text_eq s s ≡ true
unfolding text_eq
text_eq_refl [] = refl
text_eq_refl (x ∷ xs) = ground (arith, text_eq_refl xs)

decimal_from : ℕ → ℕ → Text
decimal_from zero n = []
decimal_from (suc fuel) n =
    let rest = decimal_from fuel (n / 10) in
    if ltb n 10 then (48 + n) ∷ [] else rest ++ (48 + n % 10) ∷ []

-- A number as it is printed.
unfoldable pub decimal : ℕ → Text
unfolding decimal_from
decimal n = decimal_from (suc n) n

decimal_from-All :
    (P : ℕ → Type 0) → ((d : ℕ) → d < 10 → P (48 + d)) → (fuel n : ℕ) → All P (decimal_from fuel n)
unfolding decimal_from
decimal_from-All P h zero n = tt
decimal_from-All P h (suc fuel) n = elim (Bool-cases (ltb n 10)) [
  | inl e ↦ rw e (h n (ltb→lt n 10 e), tt)
  | inr e ↦
      rw e (All-append P _ _ (decimal_from-All P h fuel (n / 10)) (h (n % 10) (omega arith), tt))
]

-- All of its characters are digits.
pub decimal-All : (P : ℕ → Type 0) → ((d : ℕ) → d < 10 → P (48 + d)) → (n : ℕ) → All P (decimal n)
unfolding decimal
decimal-All P h n = decimal_from-All P h (suc n) n

decimal_test : decimal 1024 ≡ codes "1024"
unfolding decimal
decimal_test = refl
