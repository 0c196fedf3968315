-- ===== src/Logfn.antt =====
-- log_helper/src/lib.rs: the attribute macro `logfn`, from the tokens of its arguments and the syntax
-- tree of a function to the body that it generates. A block of the syn crate is a value of `B`, and
-- what the macro reads of its statements is in `Syntax`.
pub mod Level
pub mod Boxed
mod Tests
use captains_log.Base.{
  ℕ, ◌-◌, List, [], ◌∷◌, ◌++◌, Option, none, some, Bool, true, false, ◌&&◌, ◌||◌, Outcome, returned,
  panicked, ◌>>=◌, Text, codes, is_empty, text_eq, length, drop, leb, if◌then◌else◌,
}
use captains_log.Methods.{Io, ok, err}

-- A token of the attribute's arguments: a string literal, an identifier, or another one.
pub data Token : Type 0 where
  lit_str ident : Text → Token
  other_token : Token

-- `Args::parse`, the loop.
unfoldable pub parse_tokens : List Token → Option Text → Io (Option Text)
parse_tokens [] level = ok level
parse_tokens (lit_str value ∷ tokens) level = parse_tokens tokens (some value)
parse_tokens (ident name ∷ tokens) level =
    parse_tokens tokens (elim level [ none ↦ some name | some l ↦ some l ])
parse_tokens (other_token ∷ tokens) level = err

unfoldable pub is_level : Text → Bool
is_level v =
    text_eq v (codes "trace")
    || (text_eq v (codes "debug")
        || (text_eq v (codes "info") || (text_eq v (codes "warn") || text_eq v (codes "error"))))

unfoldable pub check_level : Option Text → Io (Option Text)
unfolding is_level
check_level none = ok none
check_level (some v) = if is_level v then ok (some v) else err

unfoldable pub parse : List Token → Io (Option Text)
unfolding parse_tokens check_level
parse tokens = elim (parse_tokens tokens none) [ err ↦ err | ok level ↦ check_level level ]

-- A parameter: a plain name, another pattern, or the receiver.
pub data FnArg : Type 0 where
  named : Text → FnArg
  other_pattern receiver : FnArg

pub record Signature : Type 0 where
  pub name : Text
  pub inputs : List FnArg
  pub is_async : Bool

-- What one parameter adds.
unfoldable pub arg_text : FnArg → Text
arg_text (named name) = name ++ (codes " = {" ++ (name ++ codes ":?}"))
arg_text other_pattern = []
arg_text receiver = codes "self"

unfoldable pub more_args : List FnArg → Text
unfolding arg_text
more_args [] = []
more_args (a ∷ args) = codes ", " ++ (arg_text a ++ more_args args)

unfoldable pub gen_arg_list : List FnArg → Text
unfolding arg_text more_args
gen_arg_list [] = []
gen_arg_list (a ∷ args) = arg_text a ++ more_args args

pub record AsyncExpr (B : Type 0) : Type 0 where
  pub attrs : ℕ
  pub capture : Bool  -- the keyword `move`
  pub block : B

-- The first argument of a call.
pub data FirstArg (B : Type 0) : Type 0 where
  no_args other_arg : FirstArg B
  async_arg : AsyncExpr B → FirstArg B

-- A call of a path by its segments, another call, or another expression.
pub data Expr (B : Type 0) : Type 0 where
  path_call : List Text → FirstArg B → Expr B
  other_call other_expr : Expr B

-- A statement that is an expression, with or without a semicolon, or another one.
pub data Stmt (B : Type 0) : Type 0 where
  expr : Expr B → Stmt B
  other_stmt : Stmt B

pub record Syntax (B : Type 0) : Type 0 where
  pub stmts : B → List (Stmt B)

unfoldable pub path_to_string : List Text → Text
path_to_string [] = []
path_to_string (s ∷ []) = s
path_to_string (s ∷ t ∷ segments) = s ++ (codes "::" ++ path_to_string (t ∷ segments))

unfoldable pub ends_with : Text → Text → Bool
unfolding text_eq
ends_with s t = leb (length t) (length s) && text_eq (drop (length s - length t) s) t

module _ {B : Type 0} where
  -- The search from the end for a statement that is an expression.
  unfoldable pub last_expr : List (Stmt B) → Option (Expr B)
  last_expr [] = none
  last_expr (s ∷ stmts) =
      let later = last_expr stmts in
      elim later [ some e ↦ some e | none ↦ (elim s [ expr e ↦ some e | other_stmt ↦ none ]) ]

  -- The argument of a call; `unimplemented!` panics.
  unfoldable pub pinned : FirstArg B → Outcome (Option (AsyncExpr B))
  pinned no_args = returned none
  pinned other_arg = panicked
  pinned (async_arg a) = if a.capture then returned (some a) else returned none

  unfoldable pub pin_call : Expr B → Outcome (Option (AsyncExpr B))
  unfolding pinned
  pin_call (path_call segments arg) =
      if ends_with (path_to_string segments) (codes "Box::pin") then pinned arg else returned none
  pin_call other_call = returned none
  pin_call other_expr = returned none

  unfoldable pub process_async_trait : Syntax B → B → Bool → Outcome (Option (AsyncExpr B))
  process_async_trait syntax block is_async =
      if is_async
      then returned none
      else (elim (last_expr (syntax.stmts block)) [ none ↦ returned none | some e ↦ pin_call e ])

-- What is logged around a block.
pub record Around : Type 0 where
  pub level : Text
  pub fmt_begin : Text
  pub fmt_end : Text

-- The generated body: the block is called as a closure, or awaited as an async block, in an async
-- function or in an async block of its own, which stands in `Box::pin` with its attributes.
pub data Generated (B : Type 0) : Type 0 where
  called awaited : Around → B → Generated B
  boxed : ℕ → Around → B → Generated B

unfoldable pub around : Option Text → Signature → Around
unfolding gen_arg_list
around level sig = record {
  level = elim level [ none ↦ codes "info" | some l ↦ l ];
  fmt_begin =
      codes "<<< "
      ++ (sig.name ++ (codes " (" ++ (gen_arg_list sig.inputs ++ codes ") enter <<<")));
  fmt_end = codes ">>> " ++ (sig.name ++ codes " return {__ret_value:?} in {__dur:?} >>>");
}

module _ {B : Type 0} where
  -- `generate_function`, with the attributes that `logfn` puts around an async block.
  unfoldable pub generate_function : Option Text → B → Bool → Bool → ℕ → Signature → Generated B
  unfolding around
  generate_function level block async_context async_keyword attrs sig =
      if async_context
      then if async_keyword
        then awaited (around level sig) block
        else boxed attrs (around level sig) block
      else called (around level sig) block

  -- The function is generated, or the compiler reports the error of the arguments.
  unfoldable pub logfn : Syntax B → List Token → Signature → B → Outcome (Io (Generated B))
  unfolding generate_function
  logfn syntax attr sig block = elim (parse attr) [
    | err ↦ returned err
    | ok level ↦ process_async_trait syntax block sig.is_async >>= λ found. elim found [
      | some a ↦ returned (ok (generate_function level a.block true false a.attrs sig))
      | none ↦ returned (ok (generate_function level block sig.is_async sig.is_async 0 sig))
    ]
  ]
