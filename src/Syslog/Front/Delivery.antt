-- ===== src/Syslog/Front/Delivery.antt =====
-- From the records that are logged to a syslog sink to what leaves for the server.
use captains_log.Base.{
  ℕ, ◌≡◌, refl, ap, sym, ◌∙◌, List, [], ◌∷◌, ◌++◌, append-nil, append_assoc, Option, none, some,
  Bool-cases, inl, inr, arith, Outcome, returned, ◌>>=◌, if◌then◌else◌,
}
use captains_log.Methods.{ok}
use captains_log.Sinks.{Records}
use captains_log.Syslog.{SyslogAddr, Net, Backend, Msg, line, flush_request, Turn, run, Syslog}
use captains_log.Syslog.Delivery.{
  Works, bytes_of, requests_of, messages, run_delivers, bytes_of-append, requests_of-append,
}
use captains_log.Syslog.Front.{
  Level, error_level, warn_level, info_level, debug_level, trace_level, Severity, log_err,
  log_warning, log_info, log_debug, severity, Formatter3164, SyslogFormat, LogSinkSyslog, new_sink,
  fill_format, syslog_log, syslog_flush,
}

-- The numbers that the syslog protocol has for the severities.
abbrev pub code_of : Severity → ℕ
code_of log_err = 3
code_of log_warning = 4
code_of log_info = 6
code_of log_debug = 7

-- The number that a level is sent with.
abbrev pub rfc_code : Level → ℕ
rfc_code error_level = 3
rfc_code warn_level = 4
rfc_code info_level = 6
rfc_code debug_level = 7
rfc_code trace_level = 7

severity-code : (l : Level) → code_of (severity l) ≡ rfc_code l
unfolding severity
severity-code error_level = refl
severity-code warn_level = refl
severity-code info_level = refl
severity-code debug_level = refl
severity-code trace_level = refl

module _ {T P : Type 0} where
  -- The host name that is sent: none to the local server, elsewhere the configured one, or the default.
  pub data HostName (server : Option (SyslogAddr T P)) (configured default : Option T)
      : Option T → Type 0 where
    local_host : server ≡ none → HostName server configured default none
    given_host :
        (a : SyslogAddr T P) (name : T)
        → server ≡ some a
        → configured ≡ some name
        → HostName server configured default (some name)
    default_host :
        (a : SyslogAddr T P)
        → server ≡ some a
        → configured ≡ none
        → HostName server configured default default

  hostname-Filled :
      (server : Option (SyslogAddr T P)) (configured default name : Option T)
      → HostName server configured default name
      → elim server [
        | none ↦ none
        | some a ↦ elim configured [ none ↦ default | some given ↦ some given ]
      ]
        ≡ name
  hostname-Filled server configured default _ (local_host e) = rw e refl
  hostname-Filled server configured default _ (given_host a name e h) = rw (e, h) refl
  hostname-Filled server configured default _ (default_host a e h) = rw (e, h) refl

module _ {T : Type 0} where
  -- The process name that is sent.
  pub data ProcessName (configured : Option T) (default : T) : T → Type 0 where
    given_process : (name : T) → configured ≡ some name → ProcessName configured default name
    default_process : configured ≡ none → ProcessName configured default default

  process-Filled :
      (configured : Option T) (default name : T)
      → ProcessName configured default name
      → elim configured [ none ↦ default | some given ↦ given ] ≡ name
  process-Filled configured default _ (given_process name e) = rw e refl
  process-Filled configured default _ (default_process e) = rw e refl

module _ {F T P : Type 0} where
  -- What a configuration makes of the default format.
  pub record IsFilled (config : Syslog F Level T P) (default f : Formatter3164 F T) : Type 0 where
    pub facility_is : f.facility ≡ config.facility
    pub hostname_is : HostName config.server config.hostname default.hostname f.hostname
    pub process_is : ProcessName config.process default.process f.process
    pub pid_is : f.pid ≡ default.pid

  fill_format-Filled :
      (config : Syslog F Level T P) (default f : Formatter3164 F T)
      → IsFilled config default f
      → fill_format config default ≡ f
  unfolding fill_format
  fill_format-Filled config default f d =
      let a =
        hostname-Filled config.server config.hostname default.hostname f.hostname d.hostname_is in
      let b = process-Filled config.process default.process f.process d.process_is in
      rw (a, b, sym d.facility_is, sym d.pid_is) refl

module _ {R F T : Type 0} (records : Records Level R) (crate : SyslogFormat R F T) where
  -- The records go to the sink, one after the other.
  unfoldable pub syslog_log_all : LogSinkSyslog F T → List R → Outcome (LogSinkSyslog F T)
  unfolding syslog_log
  syslog_log_all sink [] = returned sink
  syslog_log_all sink (r ∷ rs) = syslog_log records crate sink r >>= λ sink. syslog_log_all sink rs

  module _ (text : Formatter3164 F T → ℕ → List ℕ → List ℕ) where
    -- The messages of the records up to a level, as the crate formats them.
    unfoldable pub formatted : Formatter3164 F T → Level → List R → List ℕ
    formatted f max [] = []
    formatted f max (r ∷ rs) =
        let rest = formatted f max rs in
        if records.within (records.level r) max
        then text f (rfc_code (records.level r)) (crate.args r) ++ rest
        else rest

    -- Formatting does not fail, and `text` is what it gives for the number of a severity.
    abbrev pub Formats : Type 0
    Formats =
        (f : Formatter3164 F T) (level : Severity) (msg : List ℕ)
        → crate.format f level msg ≡ ok (text f (code_of level) msg)

    -- The lines that these records are sent as.
    unfoldable pub formatted_lines : Formatter3164 F T → Level → List R → List Msg
    formatted_lines f max [] = []
    formatted_lines f max (r ∷ rs) =
        let rest = formatted_lines f max rs in
        if records.within (records.level r) max
        then line (text f (rfc_code (records.level r)) (crate.args r)) ∷ rest
        else rest

    bytes-formatted_lines :
        (f : Formatter3164 F T) (max : Level) (rs : List R)
        → bytes_of (formatted_lines f max rs) ≡ formatted f max rs
    unfolding formatted_lines formatted bytes_of
    bytes-formatted_lines f max [] = refl
    bytes-formatted_lines f max (r ∷ rs) =
        ground
          (arith, bytes-formatted_lines f max rs, Bool-cases (records.within (records.level r) max))

    requests-formatted_lines :
        (f : Formatter3164 F T) (max : Level) (rs : List R)
        → requests_of (formatted_lines f max rs) ≡ []
    unfolding formatted_lines requests_of
    requests-formatted_lines f max [] = refl
    requests-formatted_lines f max (r ∷ rs) = ground (
      arith,
      requests-formatted_lines f max rs,
      Bool-cases (records.within (records.level r) max),
    )

    log_lem :
        Formats
        → (sink : LogSinkSyslog F T) (r : R)
        → syslog_log records crate sink r
          ≡ returned (record sink {
            sent = sink.sent ++ formatted_lines sink.format sink.max_level (r ∷ []);
          })
    unfolding syslog_log formatted_lines
    log_lem formats sink r = elim (Bool-cases (records.within (records.level r) sink.max_level)) [
      | inl b ↦
          let sent =
            formats sink.format (severity (records.level r)) (crate.args r)
            ∙ ap (λ n. ok (text sink.format n (crate.args r))) (severity-code (records.level r)) in
          ground (arith, b, sent)
      | inr b ↦ ground (arith, b, append-nil sink.sent)
    ]

    lines-cons :
        (f : Formatter3164 F T) (max : Level) (r : R) (rs : List R)
        → formatted_lines f max (r ∷ []) ++ formatted_lines f max rs
          ≡ formatted_lines f max (r ∷ rs)
    unfolding formatted_lines
    lines-cons f max r rs = ground (arith, Bool-cases (records.within (records.level r) max))

    log_all_lem :
        Formats
        → (rs : List R) (sink : LogSinkSyslog F T)
        → syslog_log_all sink rs
          ≡ returned
              (record sink { sent = sink.sent ++ formatted_lines sink.format sink.max_level rs })
    unfolding syslog_log_all
    log_all_lem formats [] sink =
        ap (λ l. returned (record sink { sent = l }))
          (unfold formatted_lines in sym (append-nil sink.sent))
    log_all_lem formats (r ∷ rs) sink =
        let one = formatted_lines sink.format sink.max_level (r ∷ []) in
        ap (λ o. o >>= λ sink. syslog_log_all sink rs) (log_lem formats sink r)
        ∙ log_all_lem formats rs (record sink { sent = sink.sent ++ one })
        ∙ ap (λ l. returned (record sink { sent = l }))
            (append_assoc sink.sent one (formatted_lines sink.format sink.max_level rs)
              ∙ ap (◌++◌ sink.sent) (lines-cons sink.format sink.max_level r rs))

    -- Records that are logged to a new syslog sink and a flush after them, where formatting does not fail
    -- and gives `text` for the number of a severity, and the connection works (`Works`): in whatever
    -- turns the thread takes the messages, when it ends the server has been given the records up to the
    -- sink's level, each once and in order, and the flush has been answered. Each is the text for the
    -- number that RFC 3164 has for its level (3, 4, 6, and 7 for debug and trace), with the configured
    -- facility, the configured process name or the default one, and no host name for the local server
    -- and else the configured or the default one (`IsFilled`).
    pub syslog_log_all-delivered :
        {P A K W : Type 0} (net : Net T P A K W) (k : K) (sent delivered : W → List ℕ)
        (formats : Formats) (works : Works net k sent delivered) (default : Formatter3164 F T)
        (config : Syslog F Level T P) (f : Formatter3164 F T) (rs : List R) (id : ℕ)
        (turns : List Turn) (s : Backend T P K W)
        → IsFilled config default f
        → s.writer ≡ some k
        → messages turns ≡ formatted_lines f config.level rs ++ flush_request id ∷ []
        → (sink : LogSinkSyslog F T) × (s' : Backend T P K W) × (syslog_log_all
              (new_sink default config)
              rs
            ≡ returned sink)
          × ((syslog_flush id sink).sent ≡ messages turns)
          × (run net turns s ≡ returned s')
          × (delivered s'.world ≡ sent s.world ++ formatted f config.level rs)
          × (s'.answered ≡ s.answered ++ id ∷ [])
    unfolding new_sink syslog_flush bytes_of requests_of
    syslog_log_all-delivered net k sent delivered formats works default config f rs id turns s d h
          m =
        let ms = formatted_lines f config.level rs in
        let filled = fill_format-Filled config default f d in
        let sink = new_sink default config in
        let (s', e, bytes, answers, all) = run_delivers net k sent delivered works turns s h in
        (
          record sink { sent = ms; format = f },
          s',
          log_all_lem formats rs sink
              ∙ ap
                  (λ g.
                    returned (record sink { sent = formatted_lines g config.level rs; format = g }))
                  filled,
          sym m,
          e,
          all
              ∙ bytes
              ∙ ap (◌++◌ (sent s.world)) (
                  ap bytes_of m
                  ∙ bytes_of-append ms (flush_request id ∷ [])
                  ∙ append-nil (bytes_of ms)
                  ∙ bytes-formatted_lines f config.level rs),
          answers
              ∙ ap (◌++◌ s.answered) (
                  ap requests_of m
                  ∙ requests_of-append ms (flush_request id ∷ [])
                  ∙ ap (λ l. l ++ id ∷ []) (requests-formatted_lines f config.level rs)),
        )
