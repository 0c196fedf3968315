-- ===== src/Checksum/Determines.antt =====
-- What is fed to the hasher determines the configuration that is fed, field by field.
use captains_log.Base.{ℕ, List, [], ◌∷◌, ◌≡◌, refl, arith, map, codes, Text}
use captains_log.Syslog.{Syslog}
use captains_log.Sinks.{LogFormat}
use captains_log.Sinks.Config.{
  LogRawFile, LogBufFile, ConsoleTarget, stdout, stderr, LogConsole, LogRingFile, fd_of,
}
use captains_log.Logger.{Builder}
use captains_log.Recipe.Builders.{
  SinkConfig, raw_config, buf_config, console_config, syslog_config, ring_config,
}
use captains_log.Checksum.{
  Hashes, hash_format, hash_raw_file, hash_buf_file, hash_console, hash_ring_file, write_hash,
  write_hashes, fed,
}
use captains_log.Checksum.PrefixFree.{
  HashLaws, append_cancel, option_rotation-PrefixFree, hash_syslog-PrefixFree,
}

module _ {L R P : Type 0} where
  -- The kind of a sink.
  abbrev pub kind : SinkConfig L R P → ℕ
  kind (raw_config c) = 0
  kind (buf_config c) = 1
  kind (console_config c) = 2
  kind (ring_config c) = 3
  kind (syslog_config c) = 4

module _ {L R P : Type 0} (h : Hashes L R P) where
  -- Formats with the same time format and functions at the same address.
  abbrev pub SameFormat : LogFormat R → LogFormat R → Type 0
  SameFormat f g = (f.time_fmt ≡ g.time_fmt) × (h.address f.format_fn ≡ h.address g.format_fn)

  pub data Same : SinkConfig L R P → SinkConfig L R P → Type 0 where
    same_raw_file :
        {c d : LogRawFile L R P}
        → c.level ≡ d.level
        → SameFormat c.format d.format
        → c.file_path ≡ d.file_path
        → Same (raw_config c) (raw_config d)
    same_buf_file :
        {c d : LogBufFile L R P}
        → c.level ≡ d.level
        → SameFormat c.format d.format
        → c.file_path ≡ d.file_path
        → c.flush_millis ≡ d.flush_millis
        → c.rotation ≡ d.rotation
        → c.flush_size ≡ d.flush_size
        → Same (buf_config c) (buf_config d)
    same_console :
        {c d : LogConsole L R}
        → c.target ≡ d.target
        → c.level ≡ d.level
        → SameFormat c.format d.format
        → Same (console_config c) (console_config d)
    same_ring_file :
        {c d : LogRingFile L R P}
        → c.file_path ≡ d.file_path
        → c.level ≡ d.level
        → SameFormat c.format d.format
        → c.buf_size ≡ d.buf_size
        → Same (ring_config c) (ring_config d)
    same_syslog : {c d : Syslog ℕ L Text P} → c ≡ d → Same (syslog_config c) (syslog_config d)

  pub data AllSame : List (SinkConfig L R P) → List (SinkConfig L R P) → Type 0 where
    all_read : AllSame [] []
    and_then :
        {c d : SinkConfig L R P} {cs ds : List (SinkConfig L R P)}
        → Same c d
        → AllSame cs ds
        → AllSame (c ∷ cs) (d ∷ ds)

  module _ (laws : HashLaws h) where
    open laws use {
      u8_law, level_law, path_law, usize_law, i32_law, static_str_law, bool_law, signals_law,
    }

    hash_format-Same :
        (f g : LogFormat R) (xs ys : List ℕ)
        → hash_format h f xs ≡ hash_format h g ys
        → SameFormat f g × (xs ≡ ys)
    unfolding hash_format
    hash_format-Same f g xs ys e =
        let (q1, e1) = static_str_law _ _ _ _ e in
        let (q2, e2) = usize_law _ _ _ _ e1 in ((q1, q2), e2)

    fd_of_lem : (s t : ConsoleTarget) → fd_of s ≡ fd_of t → s ≡ t
    unfolding fd_of
    fd_of_lem stdout stdout e = refl
    fd_of_lem stderr stderr e = refl
    fd_of_lem stdout stderr e = absurd (omega (arith, e))
    fd_of_lem stderr stdout e = absurd (omega (arith, e))

    -- One sink is read off, where its kind is known.
    write_hash-Same :
        (c d : SinkConfig L R P) (xs ys : List ℕ)
        → kind c ≡ kind d
        → write_hash h c xs ≡ write_hash h d ys
        → Same c d × (xs ≡ ys)
    unfolding write_hash hash_raw_file hash_buf_file hash_console hash_ring_file
    write_hash-Same (raw_config c) (raw_config d) xs ys k e =
        let (q1, e1) = level_law _ _ _ _ e in
        let (q2, e2) = hash_format-Same _ _ _ _ e1 in
        let (q3, e3) = path_law _ _ _ _ e2 in
        (same_raw_file q1 q2 q3, append_cancel (codes "LogRawFile") _ _ e3)
    write_hash-Same (buf_config c) (buf_config d) xs ys k e =
        let (q1, e1) = level_law _ _ _ _ e in
        let (q2, e2) = hash_format-Same _ _ _ _ e1 in
        let (q3, e3) = path_law _ _ _ _ e2 in
        let (q4, e4) = usize_law _ _ _ _ e3 in
        let (q5, e5) = option_rotation-PrefixFree laws _ _ _ _ e4 in
        let (q6, e6) = usize_law _ _ _ _ e5 in
        (same_buf_file q1 q2 q3 q4 q5 q6, append_cancel (codes "LogBufFile") _ _ e6)
    write_hash-Same (console_config c) (console_config d) xs ys k e =
        let (q1, e1) = u8_law _ _ _ _ e in
        let (q2, e2) = level_law _ _ _ _ e1 in
        let (q3, e3) = hash_format-Same _ _ _ _ e2 in
        (same_console (fd_of_lem _ _ q1) q2 q3, append_cancel (codes "LogConsole") _ _ e3)
    write_hash-Same (ring_config c) (ring_config d) xs ys k e =
        let (q1, e1) = path_law _ _ _ _ e in
        let (q2, e2) = level_law _ _ _ _ e1 in
        let (q3, e3) = hash_format-Same _ _ _ _ e2 in
        let (q4, e4) = i32_law _ _ _ _ e3 in
        (same_ring_file q1 q2 q3 q4, append_cancel (codes "LogRingFile") _ _ e4)
    write_hash-Same (syslog_config c) (syslog_config d) xs ys k e =
        let (q, e1) = hash_syslog-PrefixFree laws _ _ _ _ e in
        (same_syslog q, append_cancel (codes "Syslog") _ _ e1)
    write_hash-Same c d xs ys k e = absurd (omega (arith, k))

    write_hashes-Same :
        (cs ds : List (SinkConfig L R P))
        → map kind cs ≡ map kind ds
        → write_hashes h cs ≡ write_hashes h ds
        → AllSame cs ds
    unfolding write_hashes
    write_hashes-Same [] [] k e = all_read
    write_hashes-Same (c ∷ cs) (d ∷ ds) k e =
        let (q, rest) = write_hash-Same c d _ _ (cc) e in
        and_then q (write_hashes-Same cs ds (cc) rest)
    write_hashes-Same [] (d ∷ ds) k e = cc
    write_hashes-Same (c ∷ cs) [] k e = cc

    -- Where the hashes of the standard library, of the levels and of the facilities are prefix-free
    -- (`HashLaws`): two builders with the same kinds of sinks in the same order for which the same is
    -- fed to the hasher agree on the flags but `tracing_global`, on the signals and on every field of
    -- the sinks, where of a format function its address counts.
    pub fed_determines :
        (b c : Builder (SinkConfig L R P))
        → map kind b.sinks ≡ map kind c.sinks
        → fed h b ≡ fed h c
        → (b.dynamic ≡ c.dynamic)
          × (b.rotation_signals ≡ c.rotation_signals)
          × (b.panic_hook ≡ c.panic_hook)
          × (b.force_abort_on_panic ≡ c.force_abort_on_panic)
          × AllSame b.sinks c.sinks
    unfolding fed
    fed_determines b c k e =
        let (q1, e1) = bool_law _ _ _ _ e in
        let (q2, e2) = signals_law _ _ _ _ e1 in
        let (q3, e3) = bool_law _ _ _ _ e2 in
        let (q4, e4) = bool_law _ _ _ _ e3 in
        (q1, q2, q3, q4, write_hashes-Same b.sinks c.sinks k e4)
