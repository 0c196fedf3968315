-- ===== src/Logger/Panics.antt =====
-- The panic hooks and the body of the signal listener of src/log_impl.rs, where the log crate's logger
-- is the global one. What they print is left out.
use captains_log.Base.{ℕ, List, [], ◌∷◌, Option, Outcome, returned, ◌>>=◌}
use captains_log.Logger.{
  PanicHook, panic_hook_log, panic_hook_force_exit, Env, Global, log, flush, reopen,
}

-- `PanicHookInfo`: its text, and where the panic was, a file and a line.
pub record PanicHookInfo : Type 0 where
  pub text : List ℕ
  pub location : Option (List ℕ × ℕ)

-- A hook returns, or starts to unwind again with a text.
pub data HookEnd : Type 0 where
  hook_returned : HookEnd
  unwinding : List ℕ → HookEnd

-- `error_record` is the record that the log crate's builder makes at the level of errors, from a place
-- and a text, to which the backtrace is added.
module _ {C S L R W : Type 0} (env : Env C S L R W)
    (error_record : Option (List ℕ × ℕ) → List ℕ → R) where
  unfoldable pub log_panic : PanicHookInfo → Global S W → Global S W
  unfolding log
  log_panic info g = log env (error_record info.location info.text) g

  unfoldable pub run_hook : PanicHook → PanicHookInfo → Global S W → HookEnd × Global S W
  unfolding log_panic flush
  run_hook panic_hook_log info g = (hook_returned, flush env (log_panic info g))
  run_hook panic_hook_force_exit info g = (unwinding info.text, flush env (log_panic info g))

module _ {C S L R W : Type 0} (env : Env C S L R W) where
  -- One turn for each signal that arrives; errors are ignored.
  unfoldable pub listener_for_signal : List ℕ → Global S W → Outcome (Global S W)
  unfolding reopen
  listener_for_signal [] g = returned g
  listener_for_signal (signal ∷ signals) g =
      reopen env g >>= λ (r, g1). listener_for_signal signals g1
