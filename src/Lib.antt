-- ===== src/Lib.antt =====
-- captains-log is a logger for the log crate. A program configures a `Builder` with sinks and calls
-- `setup_log`, which builds and opens the sinks and installs the global logger; the log crate hands
-- each record to the logger, which hands it to each sink. A raw file and the console write at once. A
-- buffered file and syslog send the formatted line over a channel to a thread of their own, which
-- keeps a buffer, writes it out, opens the file again on request and rotates it. A rotation moves the
-- log file into an archive and leaves the removal and the compression of old archives to a background
-- thread.
--
-- The files and the code they are about:
--   Base, Methods: lists over the native numbers, results that may panic, methods that may fail; and
--     total correctness for methods (Methods/Triples).
--   System: the calls that the file sinks make, with `open_file` of src/file_impl.rs and the write loop
--     that src/buf_file_impl.rs and src/file_impl.rs share (System/WriteLoop).
--   BufFile: `BufFileInner` of src/buf_file_impl.rs with `new`, `reopen`, `write`, `check_rotate` and
--     `flush`; BufFile/Worker is `log_writer`, its thread, on a list of the events of the channel. The
--     children have the proofs: what opening and rotating leave alone (Steady), the bytes of the
--     buffer and the file (Bytes), which lines are written together (Lines), the age (Aging), the
--     bounds of the configuration (Bounds), and runs of the thread (Worker/Delivery, Run, Drain).
--   Rotation: src/rotation.rs. Limits has `LimiterSize`, `LimiterAge` and `LogRotate`; Config has
--     `Rotation` and `build`; Backend has `_Backend`, with `_move_file_with_suffix` and `rename_files`
--     (Backend/Move) and `handle_old_files` with `compress` (Backend/Clean), on the store of files of
--     Rotation/Files and the ordered set of Rotation/Suffixes; Threads has the threads that clean up.
--   Logger: `Builder` of src/config.rs and the global logger of src/log_impl.rs; Logger/Setup is
--     `try_setup` and `setup_log`, and its children say what a set-up does to the configuration.
--     Logger/Threads has set-ups in several threads, with the lock, and Logger/Panics the panic hooks and
--     the signal listener. Checksum is what a configuration feeds to the hasher of its checksum.
--   Syslog: the configuration and the thread of src/syslog.rs; Syslog/Front is the sink before it.
--   Sinks: `LogFormat::process` of src/config.rs, `file`, `line` and `basename` of src/formatter.rs, and
--     the sinks of src/file_impl.rs, src/console_impl.rs, src/ringfile.rs and the front of
--     src/buf_file_impl.rs; Sinks/Config has their configurations.
--   Parser: the iterator of src/parser.rs.
--   Tracing: the layer of src/tracing_bridge.rs; Tracing/Visitor has `TracingText`, and Tracing/Layer
--     runs of the calls to the layer. `tracing_layer` and `tracing_dispatch` of src/log_impl.rs are in
--     Logger/Setup.
--   EnvVar: src/env.rs. Recipe: the format functions of src/recipe.rs, what the parser reads of a log in
--     the debug format (Recipe/ReadBack), and the ready-made builders (Recipe/Builders).
--   Macros: src/macros.rs. Logfn: the attribute macro of log_helper/src/lib.rs.
--   Filter: src/filter.rs, with the test of `do_log_filter` in src/macros.rs and `key` of
--     src/formatter.rs.
--
-- State is passed on explicitly. The writer thread's state is a record with the fields of
-- `BufFileInner`, the world outside the process and the answers to flush requests, each with what the
-- caller that it wakes finds; the backends of a rotation and of syslog are the same, and syslog's has
-- the numbers of the requests that were answered. `Outcome` tells a value, a panic and fuel that has
-- run out apart; a call to a syslog server that never comes back counts as the last. Times are numbers
-- of nanoseconds in a rotation and of milliseconds in syslog; the size of the log file is kept modulo
-- 2 ^ 64, and the number of files to compress wraps around as an i32 does in a release build. A set-up
-- panics where the build of one of its sinks does, as that of a buffered file does on a wrong
-- rotation; a thread then drops the guard of the lock and is gone.
--
-- Loops are structural, or have fuel. The write loop has one more than the bytes left, as each write
-- takes at least one. The retries of syslog have two more than the timeout in milliseconds, as each
-- sleeps for 500 of them. The cascade of renames needs more fuel than there are archives; its caller
-- gives it.
--
-- The operating system, the environment, the registry of tracing-subscriber, the syntax trees of syn,
-- the sockets, the clock, gzip, the file-rotate crate's suffix schemes, the ring-file crate, the log
-- crate's levels and records, `set_logger`, the standard library's `Hash` and tracing's global default
-- are parameters. What a theorem needs of them is in the records of laws beside it (`OsLaws`,
-- `Steady`, `ArchiveLaws`, `Counting`, `Clock`, `Responds`, `Works`, `RegistryLaws`, `HashLaws`).
--
-- A run of a writer is a sequence of what its channel delivers, in any order of the senders, and there
-- the background thread of a rotation does its work when it is joined; Rotation/Threads has the threads
-- of a rotation as a step relation. Set-ups are interleaved in Logger/Threads, as a step relation over
-- any number of threads; what `try_setup` does under the spin lock is one step there. Not modelled:
-- `output_stream` of log_helper/src/lib.rs, the hasher of the checksum, messages on the terminal, and
-- the memory orders of the atomics.
mod Base
pub mod Methods
pub mod System
pub mod Rotation
pub mod BufFile
pub mod Logger
pub mod Syslog
pub mod Sinks
pub mod Filter
pub mod Parser
pub mod Tracing
pub mod EnvVar
pub mod Macros
pub mod Logfn
pub mod Recipe
pub mod Checksum
