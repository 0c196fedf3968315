-- ===== src/Sinks.antt =====
-- The sinks behind the global logger: `LogFormat::process` (src/config.rs), the records that a format
-- function sees (src/formatter.rs), and `open`, `reopen`, `log` and `flush` of the raw file
-- (src/file_impl.rs), of the front of the buffered file (src/buf_file_impl.rs), of the console
-- (src/console_impl.rs) and of the ring file (src/ringfile.rs).
pub mod Text
pub mod Basename
pub mod Config
pub mod Console
mod Tests
use captains_log.Base.{
  ℕ, zero, suc, List, [], ◌∷◌, ◌++◌, Option, none, some, Bool, true, false, Outcome, returned,
  panicked, length, ltb, if◌then◌else◌,
}
use captains_log.Methods.{Io, ok, err}
use captains_log.System.{Os, open_file, write_loop}
use captains_log.BufFile.{Msg, line, reopen_file, flush_request}

-- The log crate's records: their level, and what the format functions read.
pub record Records (L R : Type 0) : Type 0 where
  pub level : R → L
  -- `r.level() <= max_level`
  pub within : L → L → Bool
  pub file_name : R → Option (List ℕ)
  pub line_number : R → Option ℕ

-- `TimeFormatter` and `FormatRecord`; the time and its format are numbers.
pub record FormatRecord (R : Type 0) : Type 0 where
  pub record_of : R
  pub now : ℕ
  pub fmt_str : ℕ

pub record LogFormat (R : Type 0) : Type 0 where
  pub time_fmt : ℕ
  pub format_fn : FormatRecord R → List ℕ

unfoldable pub process : {R : Type 0} → LogFormat R → ℕ → R → List ℕ
process fmt now r = fmt.format_fn (record { record_of = r; now = now; fmt_str = fmt.time_fmt })

-- The text after the last slash, which is character 47.
unfoldable pub basename_from : List ℕ → List ℕ → List ℕ
basename_from found [] = found
basename_from found (c ∷ cs) =
    basename_from (if ltb c 47 then found else if ltb 47 c then found else cs) cs

unfoldable pub basename : List ℕ → List ℕ
unfolding basename_from
basename path = basename_from path path

-- The text is `<none>` where the record has no file.
abbrev no_file : List ℕ
no_file = 60 ∷ 110 ∷ 111 ∷ 110 ∷ 101 ∷ 62 ∷ []

module _ {L R : Type 0} (records : Records L R) where
  unfoldable pub file : FormatRecord R → List ℕ
  unfolding basename
  file r = basename (elim (records.file_name r.record_of) [ none ↦ no_file | some path ↦ path ])

  unfoldable pub line_of : FormatRecord R → ℕ
  line_of r = elim (records.line_number r.record_of) [ none ↦ 0 | some n ↦ n ]

pub record LogSinkFile (L R : Type 0) : Type 0 where
  pub max_level : L
  pub formatter : LogFormat R
  pub f : Option ℕ

pub record LogSinkConsole (L R : Type 0) : Type 0 where
  pub max_level : L
  pub formatter : LogFormat R
  pub target_fd : ℕ

-- The channel of a buffered file is the list of the messages sent, the oldest first.
pub record LogSinkBufFile (L R : Type 0) : Type 0 where
  pub max_level : L
  pub formatter : LogFormat R
  pub sent : List Msg

-- The ring-file crate.
pub record Ring (W : Type 0) : Type 0 where
  pub clear : W → W
  pub dump : W → Io (Unit {0}) × W
  pub write : List ℕ → W → W

pub record LogSinkRingFile (L R : Type 0) : Type 0 where
  pub max_level : L
  pub formatter : LogFormat R

-- The process has ended.
pub data Ended (W : Type 0) : Type 0 where
  exited : W → Ended W

module _ {L R : Type 0} (records : Records L R) where
  module _ {W : Type 0} (os : Os W) where
    -- `open` of the raw file is `reopen`. The old file stays in use where the new one does not open.
    unfoldable pub file_reopen : LogSinkFile L R → W → Io (Unit {0}) × LogSinkFile L R × W
    file_reopen sink w =
        let (opened, w') = open_file os w in
        elim opened [ some fd ↦ (ok tt, record sink { f = some fd }, w') | none ↦ (err, sink, w') ]

    unfoldable pub file_log : LogSinkFile L R → ℕ → R → W → Outcome W
    unfolding process
    file_log sink now r w =
        let buf = process sink.formatter now r in
        if records.within (records.level r) sink.max_level
        then (elim sink.f [
          | none ↦ returned w
          | some fd ↦ write_loop os (suc (length buf)) fd buf w
        ])
        else returned w

    -- One write, whatever its result.
    unfoldable pub console_log : LogSinkConsole L R → ℕ → R → W → W
    unfolding process
    console_log sink now r w =
        if records.within (records.level r) sink.max_level
        then (os.write sink.target_fd (process sink.formatter now r) w).1
        else w

  unfoldable pub buf_file_reopen : LogSinkBufFile L R → LogSinkBufFile L R
  buf_file_reopen sink = record sink { sent = sink.sent ++ reopen_file ∷ [] }

  unfoldable pub buf_file_log : LogSinkBufFile L R → ℕ → R → LogSinkBufFile L R
  unfolding process
  buf_file_log sink now r =
      if records.within (records.level r) sink.max_level
      then record sink { sent = sink.sent ++ line (process sink.formatter now r) ∷ [] }
      else sink

  -- The caller waits until the request `id` is answered.
  unfoldable pub buf_file_flush : ℕ → LogSinkBufFile L R → LogSinkBufFile L R
  buf_file_flush id sink = record sink { sent = sink.sent ++ flush_request id ∷ [] }

  module _ {W : Type 0} (ring : Ring W) where
    unfoldable pub ring_file_open : W → W
    ring_file_open w = ring.clear w

    unfoldable pub ring_file_reopen : W → Ended W
    ring_file_reopen w = exited (ring.dump w).1

    unfoldable pub ring_file_log : LogSinkRingFile L R → ℕ → R → W → W
    unfolding process
    ring_file_log sink now r w =
        if records.within (records.level r) sink.max_level
        then ring.write (process sink.formatter now r) w
        else w

    unfoldable pub ring_file_flush : W → W
    ring_file_flush w = (ring.dump w).1
