-- ===== src/Sinks/Basename.antt =====
-- `basename` of src/formatter.rs.
use captains_log.Base.{
  ℕ, ◌≡◌, ◌≢◌, refl, ap, sym, subst, ◌∙◌, List, [], ◌∷◌, ◌++◌, append-nil, append_assoc, All,
  All-append, arith, ltb, Bool-cases, inl, inr, ◌⊎◌,
}
use captains_log.Sinks.{basename, basename_from}

-- No character is a slash.
abbrev pub HasNoSlash : List ℕ → Type 0
HasNoSlash cs = All (λ c. c ≢ 47) cs

-- An end that is the whole, or that follows a slash.
abbrev pub IsEnd : List ℕ → List ℕ → Type 0
IsEnd whole end =
    (before : List ℕ) × (whole ≡ before ++ end)
    × ((before ≡ []) ⊎ ((b : List ℕ) × (before ≡ b ++ 47 ∷ [])))

slash_cases :
    (c : ℕ) (found cs : List ℕ)
    → ((c ≡ 47) × (basename_from found (c ∷ cs) ≡ basename_from cs cs))
      ⊎ ((c ≢ 47) × (basename_from found (c ∷ cs) ≡ basename_from found cs))
unfolding basename_from
slash_cases c found cs = elim (Bool-cases (ltb c 47)) [
  | inl a ↦ inr (λ e. ground (arith, a, e), ground (arith, a))
  | inr a ↦ elim (Bool-cases (ltb 47 c)) [
    | inl b ↦ inr (λ e. ground (arith, b, e), ground (arith, a, b))
    | inr b ↦ inl (ground (arith, a, b), ground (arith, a, b))
  ]
]

after_slash :
    (mid : List ℕ) (c : ℕ) (cs found end : List ℕ)
    → found ≡ mid ++ c ∷ cs
    → c ≡ 47
    → IsEnd cs end
    → IsEnd found end
after_slash mid c cs found end e s (before, q, last) = (
  mid ++ c ∷ before,
  e ∙ ap (λ l. mid ++ c ∷ l) q ∙ sym (append_assoc mid (c ∷ before) end),
  inr (elim last [
    | inl n ↦ (mid, ap (λ l. mid ++ c ∷ l) n ∙ ap (λ d. mid ++ d ∷ []) s)
    | inr (b, n) ↦
        (mid ++ c ∷ b, ap (λ l. mid ++ c ∷ l) n ∙ sym (append_assoc mid (c ∷ b) (47 ∷ [])))
  ]),
)

basename_from_lem :
    (cs mid found : List ℕ)
    → found ≡ mid ++ cs
    → HasNoSlash mid
    → IsEnd found (basename_from found cs) × HasNoSlash (basename_from found cs)
unfolding basename_from
basename_from_lem [] mid found e h =
    (([], refl, inl refl), subst HasNoSlash (sym (e ∙ append-nil mid)) h)
basename_from_lem (c ∷ cs) mid found e h = elim (slash_cases c found cs) [
  | inl (s, r) ↦
      let (end, none_in) = basename_from_lem cs [] cs refl tt in
      (
        subst (IsEnd found) (sym r) (after_slash mid c cs found _ e s end),
        subst HasNoSlash (sym r) none_in,
      )
  | inr (s, r) ↦
      let (end, none_in) =
        basename_from_lem cs (mid ++ c ∷ []) found (e ∙ sym (append_assoc mid (c ∷ []) cs))
          (All-append (λ c. c ≢ 47) mid (c ∷ []) h (s, tt)) in
      (subst (IsEnd found) (sym r) end, subst HasNoSlash (sym r) none_in)
]

-- The base name is an end of the path without a slash, and it is the whole path or follows a slash.
pub basename_lem : (path : List ℕ) → IsEnd path (basename path) × HasNoSlash (basename path)
unfolding basename
basename_lem path = basename_from_lem path [] path refl tt
