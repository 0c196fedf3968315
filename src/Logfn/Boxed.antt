-- ===== src/Logfn/Boxed.antt =====
-- Functions that `logfn` of log_helper/src/lib.rs takes for methods of the async-trait crate.
use captains_log.Base.{
  ◌≡◌, refl, ap, ◌∙◌, List, [], ◌∷◌, ◌++◌, Option, none, some, true, false, All, arith, returned,
  Text, codes,
}
use captains_log.Methods.{ok}
use captains_log.Logfn.{
  Token, parse, Signature, AsyncExpr, async_arg, Expr, path_call, Stmt, expr, other_stmt, Syntax,
  path_to_string, ends_with, last_expr, pin_call, process_async_trait, boxed, around,
  generate_function, logfn,
}

module _ {B : Type 0} where
  abbrev pub IsOther : Stmt B → Type 0
  IsOther (expr e) = ⊥
  IsOther other_stmt = Unit

  last_expr-others : (after : List (Stmt B)) → All IsOther after → last_expr after ≡ none
  unfolding last_expr
  last_expr-others [] h = refl
  last_expr-others (expr e ∷ after) h = absurd h.0
  last_expr-others (other_stmt ∷ after) h = ground (arith, last_expr-others after h.1)

  last_expr_lem :
      (before after : List (Stmt B)) (e : Expr B)
      → All IsOther after
      → last_expr (before ++ expr e ∷ after) ≡ some e
  unfolding last_expr
  last_expr_lem [] after e h = ground (arith, last_expr-others after h)
  last_expr_lem (s ∷ before) after e h = ground (arith, last_expr_lem before after e h)

  pin_call_lem :
      (segments : List Text) (a : AsyncExpr B)
      → ends_with (path_to_string segments) (codes "Box::pin") ≡ true
      → a.capture ≡ true
      → pin_call (path_call segments (async_arg a)) ≡ returned (some a)
  unfolding pin_call
  pin_call_lem segments a h c = rw (h, c) refl

  -- In a function that is not async, where the last statement that is an expression is a call of a
  -- path that ends in `Box::pin` with an `async move` block, all of the other statements of the body
  -- are lost: what is generated has only that block, with the attributes and the logging around it.
  pub boxed_loses_statements :
      (syntax : Syntax B) (attr : List Token) (level : Option Text) (sig : Signature) (block : B)
      (before after : List (Stmt B)) (segments : List Text) (a : AsyncExpr B)
      → parse attr ≡ ok level
      → sig.is_async ≡ false
      → syntax.stmts block ≡ before ++ expr (path_call segments (async_arg a)) ∷ after
      → All IsOther after
      → ends_with (path_to_string segments) (codes "Box::pin") ≡ true
      → a.capture ≡ true
      → logfn syntax attr sig block ≡ returned (ok (boxed a.attrs (around level sig) a.block))
  unfolding logfn process_async_trait generate_function
  boxed_loses_statements syntax attr level sig block before after segments a ok_level sync body
        others ends move =
      let l =
        ap last_expr body ∙ last_expr_lem before after (path_call segments (async_arg a)) others in
      let found = pin_call_lem segments a ends move in
      rw (ok_level, sync, l, found, logfn, process_async_trait) refl
