-- ===== src/Syslog/Delivery.antt =====
-- The thread of src/syslog.rs on a connection that works.
use captains_log.Base.{
  ℕ, ◌≡◌, refl, ap, sym, subst, ◌∙◌, List, [], ◌∷◌, ◌++◌, append-nil, append_assoc, some, Bool,
  true, false, returned, ◌>>=◌, arith, if◌then◌else◌,
}
use captains_log.Methods.{ok}
use captains_log.Syslog.{
  Net, Backend, Msg, line, flush_request, Turn, lines, flush_first, try_write, write, flush, answer,
  drain, turn, run,
}

-- A connection on which nothing fails: `sent` is what was written to it, and `delivered` is the part
-- that has left the buffer.
pub record Works {T P A K W : Type 0} (net : Net T P A K W) (k : K) (sent delivered : W → List ℕ)
    : Type 0 where
  pub writes :
      (msg : List ℕ) (w : W)
      → (w' : W) × (net.write_all k msg w ≡ some (ok tt, w')) × (sent w' ≡ sent w ++ msg)
  pub flushes : (w : W) → (net.flush k w).0 ≡ ok tt
  pub same : (w : W) → sent (net.flush k w).1 ≡ sent w
  pub delivers : (w : W) → delivered (net.flush k w).1 ≡ sent w

-- The bytes of the lines, and the flush requests, in order.
unfoldable pub bytes_of : List Msg → List ℕ
bytes_of [] = []
bytes_of (line msg ∷ ms) = msg ++ bytes_of ms
bytes_of (flush_request id ∷ ms) = bytes_of ms

unfoldable pub requests_of : List Msg → List ℕ
requests_of [] = []
requests_of (line msg ∷ ms) = requests_of ms
requests_of (flush_request id ∷ ms) = id ∷ requests_of ms

unfoldable pub messages_of : Turn → List Msg
messages_of (lines msg ms) = line msg ∷ ms
messages_of (flush_first id) = flush_request id ∷ []

unfoldable pub messages : List Turn → List Msg
messages [] = []
messages (t ∷ turns) = messages_of t ++ messages turns

pub bytes_of-append : (ms ns : List Msg) → bytes_of (ms ++ ns) ≡ bytes_of ms ++ bytes_of ns
unfolding bytes_of
bytes_of-append [] ns = refl
bytes_of-append (line msg ∷ ms) ns =
    ap (◌++◌ msg) (bytes_of-append ms ns) ∙ sym (append_assoc msg (bytes_of ms) (bytes_of ns))
bytes_of-append (flush_request id ∷ ms) ns = bytes_of-append ms ns

pub requests_of-append :
    (ms ns : List Msg) → requests_of (ms ++ ns) ≡ requests_of ms ++ requests_of ns
unfolding requests_of
requests_of-append [] ns = refl
requests_of-append (line msg ∷ ms) ns = requests_of-append ms ns
requests_of-append (flush_request id ∷ ms) ns = ap (◌∷◌ id) (requests_of-append ms ns)

module _ {T P A K W : Type 0} (net : Net T P A K W) (k : K) (sent delivered : W → List ℕ)
    (works : Works net k sent delivered) where
  -- From one state to another, these bytes were sent and these requests answered.
  abbrev Sent : List ℕ → List ℕ → Backend T P K W → Backend T P K W → Type 0
  Sent bytes ids s s' =
      (s'.writer ≡ some k)
      × (sent s'.world ≡ sent s.world ++ bytes)
      × (s'.answered ≡ s.answered ++ ids)

  Sent-trans :
      (a b i j : List ℕ) (s s1 s2 : Backend T P K W)
      → Sent a i s s1
      → Sent b j s1 s2
      → Sent (a ++ b) (i ++ j) s s2
  Sent-trans a b i j s s1 s2 (w, e, f) (w', e', f') = (
    w',
    e' ∙ ap (λ l. l ++ b) e ∙ append_assoc (sent s.world) a b,
    f' ∙ ap (λ l. l ++ j) f ∙ append_assoc s.answered i j,
  )

  write-Sent :
      (msg : List ℕ) (s : Backend T P K W)
      → s.writer ≡ some k
      → (s' : Backend T P K W) × (write net msg s ≡ returned s') × Sent msg [] s s'
  unfolding write try_write
  write-Sent msg s h =
      let (w, e, all) = works.writes msg s.world in
      (record s { world = w }, ground (arith, h, e), (h, all, sym (append-nil s.answered)))

  flush_lem :
      (s : Backend T P K W)
      → s.writer ≡ some k
      → flush net s ≡ record s { world = (net.flush k s.world).1 }
  unfolding flush
  flush_lem s h = ground (arith, h, works.flushes s.world)

  answer-Sent :
      (id : ℕ) (s : Backend T P K W) → s.writer ≡ some k → Sent [] (id ∷ []) s (answer net id s)
  unfolding answer
  answer-Sent id s h =
      let e = flush_lem s h in
      (
        ap (λ t. t.writer) e ∙ h,
        ap (λ t. sent t.world) e ∙ works.same s.world ∙ sym (append-nil (sent s.world)),
        ap (λ t. t.answered ++ id ∷ []) e,
      )

  flush-Sent : (s : Backend T P K W) → s.writer ≡ some k → Sent [] [] s (flush net s)
  flush-Sent s h =
      let e = flush_lem s h in
      (
        ap (λ t. t.writer) e ∙ h,
        ap (λ t. sent t.world) e ∙ works.same s.world ∙ sym (append-nil (sent s.world)),
        ap (λ t. t.answered) e ∙ sym (append-nil s.answered),
      )

  drain-Sent :
      (need : Bool) (ms : List Msg) (s : Backend T P K W)
      → s.writer ≡ some k
      → (n : Bool) × (s' : Backend T P K W) × (drain net need ms s ≡ returned (n, s'))
        × Sent (bytes_of ms) (requests_of ms) s s'
  unfolding drain bytes_of requests_of
  drain-Sent need [] s h =
      (need, s, refl, (h, sym (append-nil (sent s.world)), sym (append-nil s.answered)))
  drain-Sent need (line msg ∷ ms) s h =
      let (s1, e1, h1) = write-Sent msg s h in
      let (n, s2, e2, h2) = drain-Sent need ms s1 h1.0 in
      (
        n,
        s2,
        ap (λ o. o >>= λ s1. drain net need ms s1) e1 ∙ e2,
        Sent-trans msg (bytes_of ms) [] (requests_of ms) s s1 s2 h1 h2,
      )
  drain-Sent need (flush_request id ∷ ms) s h =
      let h1 = answer-Sent id s h in
      let (n, s2, e2, h2) = drain-Sent false ms (answer net id s) h1.0 in
      (
        n,
        s2,
        e2,
        Sent-trans [] (bytes_of ms) (id ∷ []) (requests_of ms) s (answer net id s) s2 h1 h2,
      )

  end_flush-Sent :
      (need : Bool) (bytes ids : List ℕ) (s s' : Backend T P K W)
      → Sent bytes ids s s'
      → Sent bytes ids s (if need then flush net s' else s')
  end_flush-Sent true bytes ids s s' h =
      subst (λ l. Sent l ids s (flush net s')) (append-nil bytes)
        (subst (λ l. Sent (bytes ++ []) l s (flush net s')) (append-nil ids)
          (Sent-trans bytes [] ids [] s s' (flush net s') h (flush-Sent s' h.0)))
  end_flush-Sent false bytes ids s s' h = h

  turn-Sent :
      (t : Turn) (s : Backend T P K W)
      → s.writer ≡ some k
      → (s' : Backend T P K W) × (turn net t s ≡ returned s')
        × Sent (bytes_of (messages_of t)) (requests_of (messages_of t)) s s'
  unfolding turn bytes_of requests_of messages_of
  turn-Sent (lines msg ms) s h =
      let (s1, e1, h1) = write-Sent msg s h in
      let (n, s2, e2, h2) = drain-Sent true ms s1 h1.0 in
      (
        if n then flush net s2 else s2,
        ap
              (λ o. o >>= λ s1.
                drain net true ms s1 >>= λ (n, s2). returned (if n then flush net s2 else s2))
              e1
            ∙ ap (λ o. o >>= λ (n, s2). returned (if n then flush net s2 else s2)) e2,
        end_flush-Sent n (msg ++ bytes_of ms) (requests_of ms) s s2
            (Sent-trans msg (bytes_of ms) [] (requests_of ms) s s1 s2 h1 h2),
      )
  turn-Sent (flush_first id) s h = (answer net id s, refl, answer-Sent id s h)

  -- On a connection that works (`Works`), the thread ends when the channel is disconnected; until
  -- then it has written the lines, each once and in order, has answered the flush requests in
  -- order, and at the end all that was written has left the buffer.
  pub run_delivers :
      (turns : List Turn) (s : Backend T P K W)
      → s.writer ≡ some k
      → (s' : Backend T P K W) × (run net turns s ≡ returned s')
        × (sent s'.world ≡ sent s.world ++ bytes_of (messages turns))
        × (s'.answered ≡ s.answered ++ requests_of (messages turns))
        × (delivered s'.world ≡ sent s'.world)
  unfolding run messages bytes_of requests_of
  run_delivers [] s h =
      let (w, e, f) = flush-Sent s h in
      (
        flush net s,
        refl,
        e,
        f,
        ap (λ t. delivered t.world) (flush_lem s h)
            ∙ works.delivers s.world
            ∙ sym (works.same s.world)
            ∙ sym (ap (λ t. sent t.world) (flush_lem s h)),
      )
  run_delivers (t ∷ turns) s h =
      let (s1, e1, h1) = turn-Sent t s h in
      let (s2, e2, a, b, d) = run_delivers turns s1 h1.0 in
      (
        s2,
        ap (λ o. o >>= λ s1. run net turns s1) e1 ∙ e2,
        a
            ∙ ap (λ l. l ++ bytes_of (messages turns)) h1.1
            ∙ append_assoc (sent s.world) (bytes_of (messages_of t)) (bytes_of (messages turns))
            ∙ ap (◌++◌ (sent s.world)) (sym (bytes_of-append (messages_of t) (messages turns))),
        b
            ∙ ap (λ l. l ++ requests_of (messages turns)) h1.2
            ∙ append_assoc s.answered (requests_of (messages_of t)) (requests_of (messages turns))
            ∙ ap (◌++◌ s.answered) (sym (requests_of-append (messages_of t) (messages turns))),
        d,
      )
