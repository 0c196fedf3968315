-- ===== src/Logfn/Level.antt =====
-- The level that the arguments of `logfn` in log_helper/src/lib.rs give.
use captains_log.Base.{
  ◌≡◌, refl, List, [], ◌∷◌, Option, none, some, Bool, true, false, arith, Text, if◌then◌else◌,
}
use captains_log.Methods.{ok, err}
use captains_log.Logfn.{Token, lit_str, ident, other_token, parse_tokens, check_level, parse}

-- Only literals and identifiers.
abbrev pub known : List Token → Bool
known [] = true
known (lit_str v ∷ tokens) = known tokens
known (ident v ∷ tokens) = known tokens
known (other_token ∷ tokens) = false

abbrev pub or_else : Option Text → Option Text → Option Text
or_else none b = b
or_else (some a) b = some a

abbrev pub last_literal : List Token → Option Text
last_literal [] = none
last_literal (lit_str v ∷ tokens) = or_else (last_literal tokens) (some v)
last_literal (ident v ∷ tokens) = last_literal tokens
last_literal (other_token ∷ tokens) = last_literal tokens

abbrev pub first_ident : List Token → Option Text
first_ident [] = none
first_ident (lit_str v ∷ tokens) = first_ident tokens
first_ident (ident v ∷ tokens) = some v
first_ident (other_token ∷ tokens) = first_ident tokens

abbrev chosen : List Token → Option Text → Option Text
chosen tokens level = or_else (last_literal tokens) (or_else level (first_ident tokens))

parse_tokens_lem :
    (tokens : List Token) (level : Option Text)
    → parse_tokens tokens level ≡ (if known tokens then ok (chosen tokens level) else err)
unfolding parse_tokens
parse_tokens_lem [] none = refl
parse_tokens_lem [] (some l) = refl
parse_tokens_lem (lit_str v ∷ tokens) level = ground (arith, parse_tokens_lem tokens (some v))
parse_tokens_lem (ident v ∷ tokens) none = ground (arith, parse_tokens_lem tokens (some v))
parse_tokens_lem (ident v ∷ tokens) (some l) = ground (arith, parse_tokens_lem tokens (some l))
parse_tokens_lem (other_token ∷ tokens) level = refl

-- The arguments are accepted exactly if they are literals and identifiers and the level that they
-- choose, if they choose one, is one of the five: the last literal, or the first identifier where
-- there is no literal.
pub parse_chosen :
    (tokens : List Token)
    → parse tokens ≡ (
        if known tokens
        then check_level (or_else (last_literal tokens) (first_ident tokens))
        else err)
unfolding parse
parse_chosen tokens = ground (arith, parse_tokens_lem tokens none)
