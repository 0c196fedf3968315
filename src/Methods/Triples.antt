-- ===== src/Methods/Triples.antt =====
-- Total correctness of methods: from a state with `P`, the method returns, and what it returns and the
-- new state have `Q`.
use captains_log.Base.{◌≡◌, ◌∙◌, ◌⊎◌, inl, inr, subst, Bool, true, returned, panicked}
use captains_log.Methods.{Io, ok, err, Method, assert, ◌>>=◌, ◌>>◌}

module _ {S : Type 0} where
  abbrev pub Runs : {A : Type 0} → (S → Type 0) → Method S A → (Io A → S → Type 0) → Type 0
  Runs {A} P m Q = (s : S) → P s → (r : Io A) × (s' : S) × (m s ≡ returned (r, s')) × Q r s'

  -- Or, for the reason `X`, the method panics.
  abbrev pub RunsOr :
      {A : Type 0} → Type 0 → (S → Type 0) → Method S A → (Io A → S → Type 0) → Type 0
  RunsOr {A} X P m Q =
      (s : S)
      → P s
      → ((r : Io A) × (s' : S) × (m s ≡ returned (r, s')) × Q r s') ⊎ ((m s ≡ panicked) × X)

  pub total :
      {A X : Type 0} {P : S → Type 0} {Q : Io A → S → Type 0} {m : Method S A}
      → Runs P m Q
      → RunsOr X P m Q
  total h s p = inl (h s p)

  pub RunsOr-congr :
      {A X : Type 0} {P : S → Type 0} {Q : Io A → S → Type 0} (m n : Method S A)
      → ((s : S) → P s → m s ≡ n s)
      → RunsOr X P n Q
      → RunsOr X P m Q
  RunsOr-congr m n e h s p = elim (h s p) [
    | inl (r, s', e', q) ↦ inl (r, s', e s p ∙ e', q)
    | inr (e', x) ↦ inr (e s p ∙ e', x)
  ]

  -- What has returned has `Q`.
  pub RunsOr-returned :
      {A X : Type 0} {P : S → Type 0} {Q : Io A → S → Type 0} (m : Method S A)
      → RunsOr X P m Q
      → (s : S) → P s
      → (r : Io A) (s' : S) → m s ≡ returned (r, s')
      → Q r s'
  RunsOr-returned {Q = Q} m h s p r s' e = elim (h s p) [
    | inl (r1, s1, e1, q) ↦
        let same : r1 ≡ r = cc in
        let there : s1 ≡ s' = cc in subst (λ r. Q r s') same (subst (λ t. Q r1 t) there q)
    | inr (e1, x) ↦ cc
  ]

  pub assert-true :
      {B : Type 0} (test : S → Bool) (rest : Method S B) (s : S)
      → test s ≡ true
      → (assert test >> rest) s ≡ rest s
  assert-true test rest s h = cc

  pub Runs-congr :
      {A : Type 0} {P : S → Type 0} {Q : Io A → S → Type 0} (m n : Method S A)
      → ((s : S) → P s → m s ≡ n s)
      → Runs P n Q
      → Runs P m Q
  Runs-congr m n e h s p = let (r, s', e', q) = h s p in (r, s', e s p ∙ e', q)

  module _ {A B : Type 0} where
    pub ran :
        (m : Method S A) (f : A → Method S B) (a : A) (s s' : S)
        → m s ≡ returned (ok a, s')
        → (m >>= f) s ≡ f a s'
    ran m f a s s' e = cc

    run_bound :
        (M : Io A → S → Type 0) {Q : Io B → S → Type 0} (m : Method S A) (f : A → Method S B)
        (s : S) (r : Io A) (s' : S)
        → m s ≡ returned (r, s')
        → M r s'
        → ((a : A) → Runs (M (ok a)) (f a) Q)
        → ((s : S) → M err s → Q err s)
        → (t : Io B) × (s'' : S) × ((m >>= f) s ≡ returned (t, s'')) × Q t s''
    run_bound M m f s (ok a) s' e h rest failed =
        let (t, s'', e', q) = rest a s' h in (t, s'', cc, q)
    run_bound M m f s err s' e h rest failed = (err, s', cc, failed s' h)

    run_bound_or :
        {X : Type 0} (M : Io A → S → Type 0) {Q : Io B → S → Type 0} (m : Method S A)
        (f : A → Method S B) (s : S) (r : Io A) (s' : S)
        → m s ≡ returned (r, s')
        → M r s'
        → ((a : A) → RunsOr X (M (ok a)) (f a) Q)
        → ((s : S) → M err s → Q err s)
        → ((t : Io B) × (s'' : S) × ((m >>= f) s ≡ returned (t, s'')) × Q t s'')
          ⊎ (((m >>= f) s ≡ panicked) × X)
    run_bound_or M m f s (ok a) s' e h rest failed = elim (rest a s' h) [
      | inl (t, s'', e', q) ↦ inl (t, s'', cc, q)
      | inr (e', x) ↦ inr (cc, x)
    ]
    run_bound_or M m f s err s' e h rest failed = inl (err, s', cc, failed s' h)

    pub >>=-RunsOr :
        {X : Type 0} {P : S → Type 0} (M : Io A → S → Type 0) {Q : Io B → S → Type 0}
        (m : Method S A) (f : A → Method S B)
        → RunsOr X P m M
        → ((a : A) → RunsOr X (M (ok a)) (f a) Q)
        → ((s : S) → M err s → Q err s)
        → RunsOr X P (m >>= f) Q
    >>=-RunsOr M m f first rest failed s p = elim (first s p) [
      | inl (r, s', e, h) ↦ run_bound_or M m f s r s' e h rest failed
      | inr (e, x) ↦ inr (cc, x)
    ]

    pub >>=-Runs :
        {P : S → Type 0} (M : Io A → S → Type 0) {Q : Io B → S → Type 0} (m : Method S A)
        (f : A → Method S B)
        → Runs P m M
        → ((a : A) → Runs (M (ok a)) (f a) Q)
        → ((s : S) → M err s → Q err s)
        → Runs P (m >>= f) Q
    >>=-Runs M m f first rest failed s p =
        let (r, s', e, h) = first s p in run_bound M m f s r s' e h rest failed
