-- ===== src/Logfn/Tests.antt =====
-- A function that makes something and then returns a boxed async block.
use captains_log.Base.{ℕ, ◌≡◌, refl, List, [], ◌∷◌, some, true, false, returned, codes, text_eq}
use captains_log.Methods.{ok, err}
use captains_log.Logfn.{
  ident, other_token, parse, parse_tokens, named, receiver, Signature, AsyncExpr, async_arg,
  path_call, Stmt, expr, other_stmt, Syntax, path_to_string, ends_with, boxed, around, gen_arg_list,
  logfn,
}
use captains_log.Logfn.Boxed.{boxed_loses_statements}

-- A comma between two levels is refused.
comma_test : parse (ident (codes "warn") ∷ other_token ∷ []) ≡ err
unfolding parse parse_tokens
comma_test = refl

args_test : gen_arg_list (receiver ∷ named (codes "a") ∷ []) ≡ codes "self, a = {a:?}"
unfolding gen_arg_list
args_test = refl

-- A block is its number; the block 1 has three statements, and the async block is 2.
abbrev move_block : AsyncExpr ℕ
move_block = record { attrs = 0; capture = true; block = 2 }

abbrev statements : List (Stmt ℕ)
statements =
    other_stmt
    ∷ other_stmt
    ∷ expr (path_call (codes "Box" ∷ codes "pin" ∷ []) (async_arg move_block))
    ∷ []

abbrev blocks : Syntax ℕ
blocks = record { stmts = λ b. statements }

abbrev foo : Signature
foo = record { name = codes "foo"; inputs = []; is_async = false }

boxed_loses_statements_example :
    logfn blocks (ident (codes "warn") ∷ []) foo 1
    ≡ returned (
        ok (
          boxed 0
            (record {
              level = codes "warn";
              fmt_begin = codes "<<< foo () enter <<<";
              fmt_end = codes ">>> foo return {__ret_value:?} in {__dur:?} >>>";
            })
            2))
unfolding around parse text_eq path_to_string ends_with
boxed_loses_statements_example =
    boxed_loses_statements blocks (ident (codes "warn") ∷ []) (some (codes "warn")) foo 1
      (other_stmt ∷ other_stmt ∷ []) [] (codes "Box" ∷ codes "pin" ∷ []) move_block refl refl refl
      tt refl refl
