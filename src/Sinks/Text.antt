-- ===== src/Sinks/Text.antt =====
-- From the records that are logged to the bytes in the file, through the sinks of src/file_impl.rs and
-- src/buf_file_impl.rs.
use captains_log.Base.{
  map, ℕ, ◌≡◌, refl, ap, sym, ◌∙◌, List, [], ◌∷◌, ◌++◌, append-nil, append_assoc, some, true, false,
  Bool-cases, inl, inr, arith, Outcome, returned, ◌>>=◌, if◌then◌else◌,
}
use captains_log.System.{Os}
use captains_log.System.WriteLoop.{OsLaws, NeverFails, write_loop_complete}
use captains_log.Rotation.Limits.{Archive}
use captains_log.BufFile.{Msg, line, flush_request, Answer, Writer, answered}
use captains_log.BufFile.Steady.{Steady, IsOpen, IsReady}
use captains_log.BufFile.Bytes.{logged}
use captains_log.BufFile.Worker.{process_all}
use captains_log.BufFile.Worker.Delivery.{lines, requests}
use captains_log.BufFile.Worker.Drain.{flush_request_durable}
use captains_log.Sinks.{
  Records, LogFormat, process, LogSinkFile, file_log, LogSinkBufFile, buf_file_log, buf_file_flush,
}

-- Records with the times at which they are logged.
abbrev pub Logged : Type 0 → Type 0
Logged R = List (ℕ × R)

module _ {L R : Type 0} (records : Records L R) where
  -- The formatted records up to the level, one after the other.
  unfoldable pub text : L → LogFormat R → Logged R → List ℕ
  text max fmt [] = []
  text max fmt ((now, r) ∷ rs) =
      let rest = text max fmt rs in
      if records.within (records.level r) max then process fmt now r ++ rest else rest

  -- The records go to the sink, one after the other.
  unfoldable pub file_log_all : {W : Type 0} → Os W → LogSinkFile L R → Logged R → W → Outcome W
  unfolding file_log
  file_log_all os sink [] w = returned w
  file_log_all os sink ((now, r) ∷ rs) w =
      file_log records os sink now r w >>= file_log_all os sink rs

  module _ {W : Type 0} (os : Os W) (appended : W → List ℕ) (laws : OsLaws os appended)
      (never_fails : NeverFails os) where
    file_log_lem :
        (sink : LogSinkFile L R) (fd now : ℕ) (r : R) (w : W)
        → sink.f ≡ some fd
        → (w' : W) × (file_log records os sink now r w ≡ returned w')
          × (appended w' ≡ appended w ++ text sink.max_level sink.formatter ((now, r) ∷ []))
    unfolding file_log text
    file_log_lem sink fd now r w h =
        let (w', e, bytes) =
          write_loop_complete os laws fd (process sink.formatter now r) w never_fails in
        elim (Bool-cases (records.within (records.level r) sink.max_level)) [
          | inl b ↦ (
            w',
            ground (arith, b, h, e),
            bytes
                ∙ ap (◌++◌ (appended w))
                    (ground (arith, b, append-nil (process sink.formatter now r))),
          )
          | inr b ↦ (
            w,
            ground (arith, b),
            sym (ap (◌++◌ (appended w)) (ground (arith, b)) ∙ append-nil (appended w)),
          )
        ]

    text-cons :
        (max : L) (fmt : LogFormat R) (now : ℕ) (r : R) (rs : Logged R)
        → text max fmt ((now, r) ∷ []) ++ text max fmt rs ≡ text max fmt ((now, r) ∷ rs)
    unfolding text
    text-cons max fmt now r rs = elim (Bool-cases (records.within (records.level r) max)) [
      | inl b ↦ ground (arith, b, append-nil (process fmt now r))
      | inr b ↦ ground (arith, b)
    ]

    -- With the file open and no failing writes, a raw file gets the records up to its level, formatted,
    -- each once, whole and in order, and no others.
    pub file_log_all-text :
        (rs : Logged R) (sink : LogSinkFile L R) (fd : ℕ) (w : W)
        → sink.f ≡ some fd
        → (w' : W) × (file_log_all os sink rs w ≡ returned w')
          × (appended w' ≡ appended w ++ text sink.max_level sink.formatter rs)
    unfolding file_log_all text
    file_log_all-text [] sink fd w h = (w, refl, sym (append-nil (appended w)))
    file_log_all-text ((now, r) ∷ rs) sink fd w h =
        let (w1, e1, b1) = file_log_lem sink fd now r w h in
        let (w2, e2, b2) = file_log_all-text rs sink fd w1 h in
        (
          w2,
          ap (λ o. o >>= file_log_all os sink rs) e1 ∙ e2,
          b2
              ∙ ap (λ l. l ++ text sink.max_level sink.formatter rs) b1
              ∙ append_assoc (appended w) (text sink.max_level sink.formatter ((now, r) ∷ []))
                  (text sink.max_level sink.formatter rs)
              ∙ ap (◌++◌ (appended w)) (text-cons sink.max_level sink.formatter now r rs),
        )

  unfoldable pub buf_file_log_all : LogSinkBufFile L R → Logged R → LogSinkBufFile L R
  unfolding buf_file_log
  buf_file_log_all sink [] = sink
  buf_file_log_all sink ((now, r) ∷ rs) = buf_file_log_all (buf_file_log records sink now r) rs

  -- The messages of the records up to the level.
  text_lines : L → LogFormat R → Logged R → List Msg
  text_lines max fmt [] = []
  text_lines max fmt ((now, r) ∷ rs) =
      let rest = text_lines max fmt rs in
      if records.within (records.level r) max then line (process fmt now r) ∷ rest else rest

  lines-text_lines :
      (max : L) (fmt : LogFormat R) (rs : Logged R)
      → lines (text_lines max fmt rs) ≡ text max fmt rs
  unfolding text_lines text
  lines-text_lines max fmt [] = refl
  lines-text_lines max fmt ((now, r) ∷ rs) =
      ground (arith, lines-text_lines max fmt rs, Bool-cases (records.within (records.level r) max))

  requests-text_lines :
      (max : L) (fmt : LogFormat R) (rs : Logged R) → requests (text_lines max fmt rs) ≡ []
  unfolding text_lines
  requests-text_lines max fmt [] = refl
  requests-text_lines max fmt ((now, r) ∷ rs) =
      ground
        (arith, requests-text_lines max fmt rs, Bool-cases (records.within (records.level r) max))

  sends :
      (sink : LogSinkBufFile L R) (now : ℕ) (r : R)
      → records.within (records.level r) sink.max_level ≡ true
      → buf_file_log records sink now r
        ≡ record sink { sent = sink.sent ++ line (process sink.formatter now r) ∷ [] }
  unfolding buf_file_log
  sends sink now r b = ground (arith, b)

  skips :
      (sink : LogSinkBufFile L R) (now : ℕ) (r : R)
      → records.within (records.level r) sink.max_level ≡ false
      → buf_file_log records sink now r ≡ sink
  unfolding buf_file_log
  skips sink now r b = ground (arith, b)

  sent_lem :
      (rs : Logged R) (sink : LogSinkBufFile L R)
      → (buf_file_log_all sink rs).sent ≡ sink.sent ++ text_lines sink.max_level sink.formatter rs
  unfolding buf_file_log_all text_lines
  sent_lem [] sink = sym (append-nil sink.sent)
  sent_lem ((now, r) ∷ rs) sink =
      elim (Bool-cases (records.within (records.level r) sink.max_level)) [
        | inl b ↦
            let more : LogSinkBufFile L R = record sink {
              sent = sink.sent ++ line (process sink.formatter now r) ∷ [];
            } in
            ap (λ s. (buf_file_log_all s rs).sent) (sends sink now r b)
            ∙ sent_lem rs more
            ∙ append_assoc sink.sent (line (process sink.formatter now r) ∷ [])
                (text_lines sink.max_level sink.formatter rs)
            ∙ ap (◌++◌ sink.sent) (ground (arith, b))
        | inr b ↦
            ap (λ s. (buf_file_log_all s rs).sent) (skips sink now r b)
            ∙ sent_lem rs sink
            ∙ ap (◌++◌ sink.sent) (ground (arith, b))
      ]

  -- Records that are logged to a buffered file and a flush after them, where nothing was sent
  -- before, the system calls behave (`Steady`) and the writer's file is open with its creation
  -- time known: the flush is answered, and when its answer is given the file holds the records up to
  -- the sink's level, formatted, each once, whole and in order, after what the writer had before, and
  -- nothing is pending in the buffer. The same holds at the end.
  pub buf_file_flush-text :
      {W : Type 0} (os : Os W) (archive : Archive W) (appended : W → List ℕ)
      (steady : Steady os archive appended) (rs : Logged R) (sink : LogSinkBufFile L R) (id : ℕ)
      (s : Writer W)
      → sink.sent ≡ []
      → IsOpen s
      → IsReady s
      → (s' : Writer W) × (process_all os archive
            (buf_file_flush records id (buf_file_log_all sink rs)).sent
            s
          ≡ returned s')
        × (appended s'.world ≡ logged appended s ++ text sink.max_level sink.formatter rs)
        × (s'.buf ≡ [])
        × (before : List (Answer W)) × (last : Answer W) × (s'.answers ≡ before ++ last ∷ [])
        × (map (λ a. a.request) before ≡ answered s)
        × (last.request ≡ id)
        × (appended last.found ≡ logged appended s ++ text sink.max_level sink.formatter rs)
        × (last.pending ≡ [])
  unfolding buf_file_flush
  buf_file_flush-text os archive appended steady rs sink id s empty o r =
      let ms = text_lines sink.max_level sink.formatter rs in
      let (s', run, bytes, buffer, before, last, answers, earlier, same, found, pending) =
        flush_request_durable os archive steady ms id s o r in
      (
        s',
        ap (λ l. process_all os archive (l ++ flush_request id ∷ []) s)
              (sent_lem rs sink ∙ ap (λ l. l ++ ms) empty)
            ∙ run,
        bytes ∙ ap (◌++◌ (logged appended s)) (lines-text_lines sink.max_level sink.formatter rs),
        buffer,
        before,
        last,
        answers,
        earlier
            ∙ ap (◌++◌ (answered s)) (requests-text_lines sink.max_level sink.formatter rs)
            ∙ append-nil (answered s),
        same,
        found ∙ ap (◌++◌ (logged appended s)) (lines-text_lines sink.max_level sink.formatter rs),
        pending,
      )
