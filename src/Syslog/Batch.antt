-- ===== src/Syslog/Batch.antt =====
-- The messages that the thread of src/syslog.rs takes without waiting.
use captains_log.Base.{
  ℕ, ◌≡◌, refl, ap, ◌∙◌, sym, List, [], ◌∷◌, ◌++◌, Bool, true, false, Outcome, returned, panicked,
  out_of_fuel, ◌>>=◌, >>=_assoc, >>=-congr, if◌then◌else◌,
}
use captains_log.Syslog.{
  Net, Backend, Msg, line, flush_request, lines, write, answer, flush, drain, turn,
}

module _ {T P A K W : Type 0} (net : Net T P A K W) where
  drain-append :
      (need : Bool) (ms ns : List Msg) (s : Backend T P K W)
      → drain net need (ms ++ ns) s ≡ (drain net need ms s >>= λ (n, s1). drain net n ns s1)
  unfolding drain
  drain-append need [] ns s = refl
  drain-append need (line msg ∷ ms) ns s =
      >>=-congr (write net msg s) (λ s1. drain-append need ms ns s1)
      ∙ sym
          (>>=_assoc (write net msg s) (λ s1. drain net need ms s1) (λ (n, s1). drain net n ns s1))
  drain-append need (flush_request id ∷ ms) ns s = drain-append false ms ns (answer net id s)

  abbrev ending : Bool × Backend T P K W → Outcome (Backend T P K W)
  ending (need, s) = returned (if need then flush net s else s)

  ends : (o : Outcome (Backend T P K W)) → ((o >>= λ s2. returned (false, s2)) >>= ending) ≡ o
  ends (returned s) = refl
  ends panicked = refl
  ends out_of_fuel = refl

  after_request :
      (need : Bool) (ms : List Msg) (id : ℕ) (msg : List ℕ) (s : Backend T P K W)
      → (drain net need (ms ++ flush_request id ∷ line msg ∷ []) s >>= ending)
        ≡ (drain net need (ms ++ flush_request id ∷ []) s >>= ending >>= write net msg)
  unfolding drain
  after_request need ms id msg s =
      let o = drain net need ms s in
      let last : Bool × Backend T P K W → Outcome (Backend T P K W) =
        λ (n, s1). write net msg (answer net id s1) in
      ap (λ o. o >>= ending) (drain-append need ms (flush_request id ∷ line msg ∷ []) s)
      ∙ >>=_assoc o (λ (n, s1). drain net n (flush_request id ∷ line msg ∷ []) s1) ending
      ∙ >>=-congr o (λ (n, s1). ends (write net msg (answer net id s1)))
      ∙ sym (>>=_assoc o (λ (n, s1). returned (answer net id s1)) (write net msg))
      ∙ ap (λ o. o >>= write net msg)
          (sym (>>=_assoc o (λ (n, s1). drain net n (flush_request id ∷ []) s1) ending)
            ∙ ap (λ o. o >>= ending) (sym (drain-append need ms (flush_request id ∷ []) s)))

  -- A line that is taken after a flush request without a wait, as the last of its turn, is written
  -- after all the flushes of the turn: the turn is the turn without that line, its flushes
  -- included, and then the write.
  pub line_after_request :
      (first : List ℕ) (ms : List Msg) (id : ℕ) (msg : List ℕ) (s : Backend T P K W)
      → turn net (lines first (ms ++ flush_request id ∷ line msg ∷ [])) s
        ≡ (turn net (lines first (ms ++ flush_request id ∷ [])) s >>= write net msg)
  unfolding turn
  line_after_request first ms id msg s =
      (>>=-congr (write net first s) (λ s1. after_request true ms id msg s1))
      ∙ sym (
          >>=_assoc (write net first s)
            (λ s1. drain net true (ms ++ flush_request id ∷ []) s1 >>= ending) (write net msg))
