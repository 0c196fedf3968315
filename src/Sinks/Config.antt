-- ===== src/Sinks/Config.antt =====
-- The configurations of the sinks of src/file_impl.rs, src/buf_file_impl.rs, src/console_impl.rs and
-- src/ringfile.rs, and the sinks that are built from them.
use captains_log.Base.{
  ℕ, ◌≡◌, refl, ap, sym, arith, ◌∙◌, List, ◌++◌, Option, none, some, Bool, Outcome, returned,
  panicked, ltb, leb, ◌&&◌, ◌+◌, map, Text, codes, text_eq, if◌then◌else◌,
}
use captains_log.Methods.{Io, ok, err}
use captains_log.System.{Os, open_file}
use captains_log.System.WriteLoop.{OsLaws, NeverFails}
use captains_log.Rotation.Config.{Rotation}
use captains_log.BufFile.{flush_size_default}
use captains_log.Sinks.{
  Records, LogFormat, LogSinkFile, LogSinkConsole, LogSinkRingFile, file_reopen,
}
use captains_log.Sinks.Text.{Logged, text, file_log_all, file_log_all-text}

-- `exists`, `create_dir` and `join` of the standard library, and a new ring of the ring-file crate.
pub record Paths (P W : Type 0) : Type 0 where
  pub exists : P → W → Bool
  pub create_dir : P → W → Io (Unit {0}) × W
  pub join : P → P → P

pub record LogRawFile (L R P : Type 0) : Type 0 where
  pub level : L
  pub format : LogFormat R
  pub file_path : P

pub record LogBufFile (L R P : Type 0) : Type 0 where
  pub level : L
  pub format : LogFormat R
  pub file_path : P
  pub flush_millis : ℕ
  pub rotation : Option (Rotation P)
  pub flush_size : ℕ

pub data ConsoleTarget : Type 0 where
  stdout stderr : ConsoleTarget

pub record LogConsole (L R : Type 0) : Type 0 where
  pub target : ConsoleTarget
  pub level : L
  pub format : LogFormat R

pub record LogRingFile (L R P : Type 0) : Type 0 where
  pub file_path : P
  pub level : L
  pub format : LogFormat R
  pub buf_size : ℕ

module _ {P W : Type 0} (paths : Paths P W) where
  -- The directory is made where it is not there; where that fails, the program panics.
  unfoldable pub log_dir : P → W → Outcome W
  log_dir dir w =
      let (r, w') = paths.create_dir dir w in
      if paths.exists dir w then returned w else (elim r [ ok u ↦ returned w' | err ↦ panicked ])

  unfoldable pub raw_file :
      {L R : Type 0} → P → P → L → LogFormat R → W → Outcome (LogRawFile L R P × W)
  unfolding log_dir
  raw_file dir name level format w = elim (log_dir dir w) [
    | returned w' ↦
        returned (record { level = level; format = format; file_path = paths.join dir name }, w')
    | _ ↦ panicked
  ]

  unfoldable pub buf_file :
      {L R : Type 0} → P → P → L → LogFormat R → ℕ → W → Outcome (LogBufFile L R P × W)
  unfolding log_dir
  buf_file dir name level format flush_millis w = elim (log_dir dir w) [
    | returned w' ↦ returned (
      record {
        level = level;
        format = format;
        file_path = paths.join dir name;
        flush_millis = flush_millis;
        rotation = none;
        flush_size = flush_size_default;
      },
      w',
    )
    | _ ↦ panicked
  ]

unfoldable pub fd_of : ConsoleTarget → ℕ
fd_of stdout = 1
fd_of stderr = 2

-- A capital letter of ASCII as a small one. No other character has a small letter that stands in
-- the words below, so `to_lowercase` is followed exactly.
abbrev pub to_lowercase : Text → Text
to_lowercase = map (λ c. if leb 65 c && leb c 90 then c + 32 else c)

unfoldable pub from_str : Text → Option ConsoleTarget
unfolding text_eq
from_str s =
    let v = to_lowercase s in
    if text_eq v (codes "stdout")
    then some stdout
    else if text_eq v (codes "stderr")
    then some stderr
    else if text_eq v (codes "out")
    then some stdout
    else if text_eq v (codes "err")
    then some stderr
    else if text_eq v (codes "1")
    then some stdout
    else if text_eq v (codes "2")
    then some stderr
    else none

module _ {L R : Type 0} where
  unfoldable pub console : ConsoleTarget → L → LogFormat R → LogConsole L R
  console target level format = record { target = target; level = level; format = format }

  unfoldable pub sink_of_console : LogConsole L R → LogSinkConsole L R
  unfolding fd_of
  sink_of_console config = record {
    max_level = config.level;
    formatter = config.format;
    target_fd = fd_of config.target;
  }

module _ {L R P : Type 0} where
  unfoldable pub rotation : Rotation P → LogBufFile L R P → LogBufFile L R P
  rotation ro config = record config { rotation = some ro }

  -- The size is an i32 that has to be positive; a negative one is not modelled.
  unfoldable pub ring_file : P → ℕ → L → LogFormat R → Outcome (LogRingFile L R P)
  ring_file path buf_size level format =
      if ltb 0 buf_size
      then returned
          (record { file_path = path; level = level; format = format; buf_size = buf_size })
      else panicked

  unfoldable pub sink_of_raw_file : LogRawFile L R P → LogSinkFile L R
  sink_of_raw_file config = record { max_level = config.level; formatter = config.format; f = none }

  unfoldable pub sink_of_ring_file : LogRingFile L R P → LogSinkRingFile L R
  sink_of_ring_file config = record { max_level = config.level; formatter = config.format }

  -- A raw file that is built from its configuration and opened gets the records up to the level of the
  -- configuration, in its format, each once, whole and in order, where the file opens and writes do
  -- not fail.
  pub raw_file-text :
      {W : Type 0} (records : Records L R) (os : Os W) (appended : W → List ℕ)
      (laws : OsLaws os appended) (never_fails : NeverFails os) (config : LogRawFile L R P)
      (rs : Logged R) (fd : ℕ) (w w1 : W)
      → open_file os w ≡ (some fd, w1)
      → (sink : LogSinkFile L R) × (w' : W) × (file_reopen records os (sink_of_raw_file config) w
          ≡ (ok tt, sink, w1))
        × (file_log_all records os sink rs w1 ≡ returned w')
        × (appended w' ≡ appended w ++ text records config.level config.format rs)
  unfolding file_reopen sink_of_raw_file
  raw_file-text {W} records os appended laws never_fails config rs fd w w1 e =
      let sink : LogSinkFile L R = record {
        max_level = config.level;
        formatter = config.format;
        f = some fd;
      } in
      let (w', run, bytes) =
        file_log_all-text records os appended laws never_fails rs sink fd w1 refl in
      (
        sink,
        w',
        ground (arith, e),
        run,
        bytes
            ∙ ap (λ l. l ++ text records config.level config.format rs)
                (ap (λ (t : Option ℕ × W). appended t.1) (sym e) ∙ laws.open_keeps w),
      )
