-- ===== src/Checksum.antt =====
-- What `cal_checksum` of src/config.rs feeds to the hasher: the flags and signals of the builder, and
-- `write_hash` of each sink's configuration, in src/file_impl.rs, src/buf_file_impl.rs,
-- src/console_impl.rs, src/ringfile.rs and src/syslog.rs, with the derived `Hash` of what they hold.
pub mod PrefixFree
pub mod Determines
mod Tests
use captains_log.Base.{ℕ, List, [], ◌∷◌, ◌++◌, Option, none, some, Bool, Text, codes}
use captains_log.Rotation.Limits.{Age, day, hour}
use captains_log.Rotation.Backend.{Upkeep, age, count, all}
use captains_log.Rotation.Config.{ByAge, Rotation}
use captains_log.Syslog.{SyslogAddr, tcp_server, udp_server, unix_server, Syslog}
use captains_log.Sinks.{FormatRecord, LogFormat}
use captains_log.Sinks.Config.{
  LogRawFile, LogBufFile, ConsoleTarget, LogConsole, LogRingFile, fd_of,
}
use captains_log.Logger.{Builder}
use captains_log.Recipe.Builders.{
  SinkConfig, raw_config, buf_config, console_config, syslog_config, ring_config,
}

-- The bytes of a value, before those that are fed after it.
abbrev pub Feed : Type 0 → Type 0
Feed A = A → List ℕ → List ℕ

-- `Hash` of the standard library, of the log crate's levels and of the syslog crate's facilities. A
-- function is fed as its address.
pub record Hashes (L R P : Type 0) : Type 0 where
  pub bool : Feed Bool
  pub u8 : Feed ℕ
  pub u64 : Feed ℕ
  pub i32 : Feed ℕ
  pub usize : Feed ℕ
  pub discriminant : Feed ℕ
  pub signals : Feed (List ℕ)
  pub static_str : Feed ℕ
  pub address : (FormatRecord R → List ℕ) → ℕ
  pub level : Feed L
  pub path : Feed P
  pub text : Feed Text
  pub facility : Feed ℕ
  pub duration : Feed ℕ
  pub time_delta : Feed ℕ

module _ {L R P : Type 0} (h : Hashes L R P) where
  abbrev pub option : {A : Type 0} → Feed A → Feed (Option A)
  option f none rest = h.discriminant 0 rest
  option f (some a) rest = h.discriminant 1 (f a rest)

  unfoldable pub hash_format : Feed (LogFormat R)
  hash_format f rest = h.static_str f.time_fmt (h.usize (h.address f.format_fn) rest)

  unfoldable pub hash_age : Feed Age
  hash_age day rest = h.discriminant 0 rest
  hash_age hour rest = h.discriminant 1 rest

  unfoldable pub hash_by_age : Feed ByAge
  unfolding hash_age
  hash_by_age b rest = hash_age b.age_type (h.bool b.use_last_time rest)

  unfoldable pub hash_upkeep : Feed Upkeep
  hash_upkeep (age d) rest = h.discriminant 0 (h.time_delta d rest)
  hash_upkeep (count n) rest = h.discriminant 1 (h.usize n rest)
  hash_upkeep all rest = h.discriminant 2 rest

  unfoldable pub hash_rotation : Feed (Rotation P)
  unfolding hash_by_age hash_upkeep
  hash_rotation r rest = option hash_by_age r.by_age (
      option h.u64 r.by_size (
        option h.static_str r.time_fmt (
          hash_upkeep r.upkeep
            (option h.path r.archive_dir (option h.usize r.compress_exclude rest)))))

  unfoldable pub hash_addr : Feed (SyslogAddr Text P)
  hash_addr (tcp_server remote) rest = h.discriminant 0 (h.text remote rest)
  hash_addr (udp_server from remote) rest = h.discriminant 1 (h.text from (h.text remote rest))
  hash_addr (unix_server path) rest = h.discriminant 2 (h.path path rest)

  unfoldable pub hash_raw_file : Feed (LogRawFile L R P)
  unfolding hash_format
  hash_raw_file c rest = h.level c.level (hash_format c.format (h.path c.file_path rest))

  unfoldable pub hash_buf_file : Feed (LogBufFile L R P)
  unfolding hash_format hash_rotation
  hash_buf_file c rest = h.level c.level (
      hash_format c.format (
        h.path c.file_path
          (h.usize c.flush_millis (option hash_rotation c.rotation (h.usize c.flush_size rest)))))

  unfoldable pub hash_console : Feed (LogConsole L R)
  unfolding hash_format fd_of
  hash_console c rest = h.u8 (fd_of c.target) (h.level c.level (hash_format c.format rest))

  unfoldable pub hash_ring_file : Feed (LogRingFile L R P)
  unfolding hash_format
  hash_ring_file c rest =
      h.path c.file_path (h.level c.level (hash_format c.format (h.i32 c.buf_size rest)))

  -- An enum of one value, as the protocol, feeds nothing.
  unfoldable pub hash_syslog : Feed (Syslog ℕ L Text P)
  unfolding hash_addr
  hash_syslog s rest = h.facility s.facility (
      option h.text s.process (
        option h.text s.hostname
          (h.level s.level (h.duration s.timeout (option hash_addr s.server rest)))))

  unfoldable pub write_hash : Feed (SinkConfig L R P)
  unfolding hash_raw_file hash_buf_file hash_console hash_ring_file hash_syslog
  write_hash (raw_config c) rest = hash_raw_file c (codes "LogRawFile" ++ rest)
  write_hash (buf_config c) rest = hash_buf_file c (codes "LogBufFile" ++ rest)
  write_hash (console_config c) rest = hash_console c (codes "LogConsole" ++ rest)
  write_hash (ring_config c) rest = hash_ring_file c (codes "LogRingFile" ++ rest)
  write_hash (syslog_config c) rest = hash_syslog c (codes "Syslog" ++ rest)

  unfoldable pub write_hashes : List (SinkConfig L R P) → List ℕ
  unfolding write_hash
  write_hashes [] = []
  write_hashes (c ∷ cs) = write_hash c (write_hashes cs)

  -- All that is fed for a builder.
  unfoldable pub fed : Builder (SinkConfig L R P) → List ℕ
  unfolding write_hashes
  fed b = h.bool b.dynamic (
      h.signals b.rotation_signals
        (h.bool b.panic_hook (h.bool b.force_abort_on_panic (write_hashes b.sinks))))
