-- ===== src/Methods.antt =====
-- io::Result, and methods that change a state, may fail and may panic.
pub mod Triples
use captains_log.Base.{Bool, Outcome, returned, panicked, out_of_fuel, if◌then◌else◌}

-- io::Result
pub data Io {ℓ} (A : Type ℓ) : Type ℓ where
  ok : A → Io A
  err : Io A

-- Result::and: an error if one of the two is, and the later call has been made. Errors are not told
-- apart.
abbrev pub also : Io (Unit {0}) → Io (Unit {0}) → Io (Unit {0})
also (ok tt) later = later
also err later = err

-- A fallible method: it may panic, and what it wrote before an error stays written.
abbrev pub Method : Type 0 → Type 0 → Type 0
Method S A = S → Outcome (Io A × S)

module _ {S : Type 0} where
  abbrev pub pure : {A : Type 0} → A → Method S A
  pure a s = returned (ok a, s)

  infixl 5 ◌>>=◌ ◌>>◌
  abbrev pub ◌>>=◌ : {A B : Type 0} → Method S A → (A → Method S B) → Method S B
  ◌>>=◌ m f s = elim (m s) [
    | returned (ok a, s') ↦ f a s'
    | returned (err, s') ↦ returned (err, s')
    | panicked ↦ panicked
    | out_of_fuel ↦ out_of_fuel
  ]

  abbrev pub ◌>>◌ : {B : Type 0} → Method S (Unit {0}) → Method S B → Method S B
  m >> k = m >>= λ _. k

  abbrev pub gets : {A : Type 0} → (S → A) → Method S A
  gets f s = returned (ok (f s), s)

  abbrev pub assert : (S → Bool) → Method S (Unit {0})
  assert test s = if test s then returned (ok tt, s) else panicked

  -- `expect`
  abbrev pub expect : {A : Type 0} → Method S A → S → Outcome (A × S)
  expect m s = elim (m s) [
    | returned (ok a, s') ↦ returned (a, s')
    | returned (err, s') ↦ panicked
    | panicked ↦ panicked
    | out_of_fuel ↦ out_of_fuel
  ]
