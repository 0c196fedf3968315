-- ===== src/Base/Results.antt =====
-- What running a piece of the program comes to: a value, a Rust panic, or, where a loop is given
-- fuel, the fuel running out.
use mathlib.Core.Path.{◌≡◌, refl}
use mathlib.Core.Option.{Option, none, some}

pub data Outcome {ℓ} (A : Type ℓ) : Type ℓ where
  returned : A → Outcome A
  panicked : Outcome A
  out_of_fuel : Outcome A

infixl 5 ◌>>=◌
abbrev pub ◌>>=◌ {ℓ κ} : {A : Type ℓ} {B : Type κ} → Outcome A → (A → Outcome B) → Outcome B
returned a >>= f = f a
panicked >>= f = panicked
out_of_fuel >>= f = out_of_fuel

-- `unwrap` and `expect`
abbrev pub unwrap {ℓ} : {A : Type ℓ} → Option A → Outcome A
unwrap none = panicked
unwrap (some a) = returned a

-- Inversion of a bind that returned, for proofs where the parts stay shut.
pub >>=-returned {ℓ κ} :
    {A : Type ℓ} {B : Type κ} (m : Outcome A) (f : A → Outcome B) {b : B}
    → (m >>= f) ≡ returned b
    → (a : A) × (m ≡ returned a) × (f a ≡ returned b)
>>=-returned (returned a) f h = (a, refl, h)
>>=-returned panicked f h = cc
>>=-returned out_of_fuel f h = cc

pub >>=_assoc {ℓ} :
    {A B C : Type ℓ} (m : Outcome A) (f : A → Outcome B) (g : B → Outcome C)
    → (m >>= f >>= g) ≡ (m >>= λ a. f a >>= g)
>>=_assoc (returned a) f g = refl
>>=_assoc panicked f g = refl
>>=_assoc out_of_fuel f g = refl

pub >>=-congr {ℓ} :
    {A B : Type ℓ} (m : Outcome A) {f g : A → Outcome B}
    → ((a : A) → f a ≡ g a)
    → (m >>= f) ≡ (m >>= g)
>>=-congr (returned a) h = h a
>>=-congr panicked h = refl
>>=-congr out_of_fuel h = refl
