-- ===== src/Syslog/Front.antt =====
-- The sink of src/syslog.rs, before the channel: its format, the severities of the levels, and what is
-- sent to the thread.
pub mod Delivery
use captains_log.Base.{
  ℕ, List, [], ◌∷◌, ◌++◌, Option, none, some, Outcome, returned, panicked, if◌then◌else◌,
}
use captains_log.Methods.{Io, ok, err}
use captains_log.Sinks.{Records}
use captains_log.Syslog.{Syslog, Msg, line, flush_request}

-- log::Level
pub data Level : Type 0 where
  error_level warn_level info_level debug_level trace_level : Level

-- `Severity` of the syslog crate, as far as the sink uses it.
pub data Severity : Type 0 where
  log_err log_warning log_info log_debug : Severity

unfoldable pub severity : Level → Severity
severity trace_level = log_debug
severity debug_level = log_debug
severity info_level = log_info
severity warn_level = log_warning
severity error_level = log_err

-- `Formatter3164` of the syslog crate, with its other field, the process's number.
pub record Formatter3164 (F T : Type 0) : Type 0 where
  pub facility : F
  pub hostname : Option T
  pub process : T
  pub pid : ℕ

-- `format` of the syslog crate, and the message of a record.
pub record SyslogFormat (R F T : Type 0) : Type 0 where
  pub format : Formatter3164 F T → Severity → List ℕ → Io (List ℕ)
  pub args : R → List ℕ

-- The channel is the list of the messages sent, the oldest first.
pub record LogSinkSyslog (F T : Type 0) : Type 0 where
  pub sent : List Msg
  pub format : Formatter3164 F T
  pub max_level : Level

module _ {F T P : Type 0} where
  -- Of a local server the host is not told.
  unfoldable pub fill_format : Syslog F Level T P → Formatter3164 F T → Formatter3164 F T
  fill_format config f = record f {
    facility = config.facility;
    hostname = elim config.server [
      | none ↦ none
      | some server ↦ elim config.hostname [ none ↦ f.hostname | some name ↦ some name ]
    ];
    process = elim config.process [ none ↦ f.process | some name ↦ name ];
  }

  -- The sink of `LogSinkSyslog::new`, given the default format; the thread's part is `new_backend`.
  unfoldable pub new_sink : Formatter3164 F T → Syslog F Level T P → LogSinkSyslog F T
  unfolding fill_format
  new_sink default config = record {
    sent = [];
    format = fill_format config default;
    max_level = config.level;
  }

module _ {F T : Type 0} where
  -- The caller waits until the request `id` is answered.
  unfoldable pub syslog_flush : ℕ → LogSinkSyslog F T → LogSinkSyslog F T
  syslog_flush id sink = record sink { sent = sink.sent ++ flush_request id ∷ [] }

module _ {R F T : Type 0} (records : Records Level R) (crate : SyslogFormat R F T) where
  unfoldable pub syslog_log : LogSinkSyslog F T → R → Outcome (LogSinkSyslog F T)
  unfolding severity
  syslog_log sink r =
      if records.within (records.level r) sink.max_level
      then (elim (crate.format sink.format (severity (records.level r)) (crate.args r)) [
        | ok buf ↦ returned (record sink { sent = sink.sent ++ line buf ∷ [] })
        | err ↦ panicked
      ])
      else returned sink
