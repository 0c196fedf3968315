-- ===== src/BufFile/Worker/Delivery.antt =====
-- What the thread of a buffered log file does with the messages on its channel, where the system
-- calls behave: every line is kept in order, and every flush request is answered after a flush.
use mathlib.Core.List.{map-append}
use captains_log.Base.{
  map, ℕ, ◌≡◌, refl, sym, ap, ap₂, ◌∙◌, ◌⊎◌, inl, inr, List, [], ◌∷◌, ◌++◌, append-nil,
  append_assoc, Bool, true, returned,
}
use captains_log.System.{Os}
use captains_log.Rotation.Limits.{Archive}
use captains_log.BufFile.{Msg, line, reopen_file, flush_request, Writer, answered, flush}
use captains_log.BufFile.Steady.{Steady, IsReady, IsOpen, Same, reopen_lem}
use captains_log.BufFile.Bytes.{logged, Step, flush-Step, write-Step}
use captains_log.BufFile.Worker.{
  Recv, received, timeout, disconnected, answer_flush, process, process_all,
}

-- The bytes of the lines among the messages, and the flush requests, in order.
abbrev pub lines : List Msg → List ℕ
lines [] = []
lines (line bytes ∷ ms) = bytes ++ lines ms
lines (reopen_file ∷ ms) = lines ms
lines (flush_request id ∷ ms) = lines ms

abbrev pub requests : List Msg → List ℕ
requests [] = []
requests (line bytes ∷ ms) = requests ms
requests (reopen_file ∷ ms) = requests ms
requests (flush_request id ∷ ms) = id ∷ requests ms

-- The messages that arrive before the channel is disconnected.
abbrev pub delivered : List Recv → List Msg
delivered [] = []
delivered (received m ms ∷ events) = (m ∷ ms) ++ delivered events
delivered (timeout ∷ events) = delivered events
delivered (disconnected ∷ events) = []

pub lines-append : (ms ns : List Msg) → lines (ms ++ ns) ≡ lines ms ++ lines ns
lines-append [] ns = refl
lines-append (line bytes ∷ ms) ns =
    ap (◌++◌ bytes) (lines-append ms ns) ∙ sym (append_assoc bytes (lines ms) (lines ns))
lines-append (reopen_file ∷ ms) ns = lines-append ms ns
lines-append (flush_request id ∷ ms) ns = lines-append ms ns

requests-append : (ms ns : List Msg) → requests (ms ++ ns) ≡ requests ms ++ requests ns
requests-append [] ns = refl
requests-append (line bytes ∷ ms) ns = requests-append ms ns
requests-append (reopen_file ∷ ms) ns = requests-append ms ns
requests-append (flush_request id ∷ ms) ns = ap (◌∷◌ id) (requests-append ms ns)

module _ {W : Type 0} (os : Os W) (archive : Archive W) {appended : W → List ℕ}
    (steady : Steady os archive appended) where
  -- The messages `ms` have been dealt with.
  pub record Served (s : Writer W) (ms : List Msg) (s' : Writer W) : Type 0 where
    pub bytes : logged appended s' ≡ logged appended s ++ lines ms
    pub answers : answered s' ≡ answered s ++ requests ms
    pub ready : IsReady s'
    pub stays : IsOpen s' ⊎ (s'.f ≡ s.f)

  pub Served-refl : (s : Writer W) → IsReady s → Served s [] s
  Served-refl s r = record {
    bytes = sym (append-nil (logged appended s));
    answers = sym (append-nil (answered s));
    ready = r;
    stays = inr refl;
  }

  pub Served-trans :
      (s : Writer W) (ms : List Msg) (s1 : Writer W) (ns : List Msg) (s2 : Writer W)
      → Served s ms s1
      → Served s1 ns s2
      → Served s (ms ++ ns) s2
  Served-trans s ms s1 ns s2 p q = record {
    bytes =
        q.bytes
        ∙ ap (λ xs. xs ++ lines ns) p.bytes
        ∙ append_assoc (logged appended s) (lines ms) (lines ns)
        ∙ ap (◌++◌ (logged appended s)) (sym (lines-append ms ns));
    answers =
        q.answers
        ∙ ap (λ xs. xs ++ requests ns) p.answers
        ∙ append_assoc (answered s) (requests ms) (requests ns)
        ∙ ap (◌++◌ (answered s)) (sym (requests-append ms ns));
    ready = q.ready;
    stays = elim q.stays [
      | inl o ↦ inl o
      | inr e ↦ elim p.stays [ inl o ↦ inl (λ c. o (sym e ∙ c)) | inr e' ↦ inr (e ∙ e') ]
    ];
  }

  Served-Step :
      (s : Writer W) (bytes : List ℕ) (s' : Writer W)
      → Step os archive steady s bytes s'
      → Served s (line bytes ∷ []) s'
  Served-Step s bytes s' p = record {
    bytes = p.bytes ∙ ap (◌++◌ (logged appended s)) (sym (append-nil bytes));
    answers = ap (map (λ a. a.request)) p.answers ∙ sym (append-nil (answered s));
    ready = p.ready;
    stays = p.stays;
  }

  pub flush-Served :
      (b : Bool) (s : Writer W)
      → IsReady s
      → (s' : Writer W) × (flush os archive b s ≡ returned s') × Served s [] s'
  flush-Served b s r =
      let (s', run, p) = flush-Step os archive steady b s r in
      (
        s',
        run,
        record {
          bytes = p.bytes;
          answers = ap (map (λ a. a.request)) p.answers ∙ sym (append-nil (answered s));
          ready = p.ready;
          stays = p.stays;
        },
      )

  process-Served :
      (m : Msg) (s : Writer W)
      → IsReady s
      → (s' : Writer W) × (process os archive m s ≡ returned s') × Served s (m ∷ []) s'
  unfolding process
  process-Served (line bytes) s r =
      let (s', run, p) = write-Step os archive steady bytes s r in
      (s', run, Served-Step s bytes s' p)
  process-Served reopen_file s r =
      let (s', run, p) = reopen_lem os archive steady s r in
      (
        s',
        run,
        record {
          bytes =
              ap₂ (λ (xs ys : List ℕ). xs ++ ys) p.bytes p.buffer
              ∙ sym (append-nil (logged appended s));
          answers = ap (map (λ a. a.request)) p.answers ∙ sym (append-nil (answered s));
          ready = p.ready;
          stays = p.stays;
        },
      )
  process-Served (flush_request id) s r =
      let (s', run, p) = flush-Served true s r in
      (
        answer_flush os archive id s',
        rw run,
        record {
          bytes = p.bytes;
          answers =
              map-append (λ a. a.request) s'.answers
                (record { request = id; found = s'.world; pending = s'.buf } ∷ [])
              ∙ ap (λ xs. xs ++ id ∷ []) (p.answers ∙ append-nil (answered s));
          ready = p.ready;
          stays = p.stays;
        },
      )

  -- A batch of messages is dealt with, whatever it holds.
  pub process_all-Served :
      (ms : List Msg) (s : Writer W)
      → IsReady s
      → (s' : Writer W) × (process_all os archive ms s ≡ returned s') × Served s ms s'
  unfolding process_all
  process_all-Served [] s r = (s, refl, Served-refl s r)
  process_all-Served (m ∷ ms) s r =
      let (s1, run1, p) = process-Served m s r in
      let (s2, run2, q) = process_all-Served ms s1 p.ready in
      (s2, rw (run1, run2), Served-trans s (m ∷ []) s1 ms s2 p q)

  pub Served-Same : (s s' : Writer W) → Same os archive steady s s' → Served s [] s'
  Served-Same s s' p = record {
    bytes =
        ap₂ (λ (xs ys : List ℕ). xs ++ ys) p.bytes p.buffer ∙ sym (append-nil (logged appended s));
    answers = ap (map (λ a. a.request)) p.answers ∙ sym (append-nil (answered s));
    ready = p.ready;
    stays = p.stays;
  }
