-- ===== src/BufFile/Tests.antt =====
-- A disk on which every system call behaves, and runs of the writer on it.
use Prim.Native.Nat.{min}
use captains_log.Base.{
  map, ℕ, ◌<◌, ◌≡◌, refl, inr, List, [], ◌∷◌, ◌++◌, none, some, Bool, true, false, returned,
  panicked, arith, length, take, concat, All, if◌then◌else◌,
}
use captains_log.System.{Os, WriteResult, wrote, open_file, write_loop}
use captains_log.System.WriteLoop.{OsLaws}
use captains_log.Rotation.Limits.{Archive, LogRotate, age_reached, rotate}
use captains_log.BufFile.{
  line, reopen_file, flush_request, Answer, Writer, answered, new_inner, sink_of, reopen, flush,
  write,
}
use captains_log.BufFile.Steady.{Steady}
use captains_log.BufFile.Bytes.{logged}
use captains_log.BufFile.Aging.{log_writer_panics, age_due_forever}
use captains_log.BufFile.Lines.{Line, Fits}
use captains_log.BufFile.Lines.Refine.{set_buf, run_batches, write-Fits}
use captains_log.BufFile.Worker.{
  Recv, received, timeout, disconnected, process, process_all, log_writer,
}
use captains_log.BufFile.Worker.Run.{log_writer-Served}
use captains_log.BufFile.Worker.Drain.{log_writer_drains, flush_request_durable}

pub record Disk : Type 0 where
  pub content : List ℕ
  pub clock : ℕ
  pub available : Bool

-- A write takes at most three bytes.
abbrev pub disk_write : ℕ → List ℕ → Disk → WriteResult × Disk
disk_write fd bytes d =
    let n = min 3 (length bytes) in (wrote n, record d { content = d.content ++ take n bytes })

abbrev pub disk : Os Disk
disk = record {
  write = disk_write;
  open_path = λ options d. (if d.available then some 3 else none, d);
  metadata = λ d. some (record { len = length d.content; modified = some d.clock });
  now = λ d. d.clock;
}

abbrev pub no_archive : Archive Disk
no_archive = record { rename_files = λ d. returned d; handle_old_files = λ d. d }

abbrev pub content_of : Disk → List ℕ
content_of d = d.content

pub disk-OsLaws : OsLaws disk content_of
unfolding open_file
disk-OsLaws = record {
  write_count = λ fd bytes w w' n e. ground arith;
  write_progress = λ fd bytes w w' n e p. ground arith;
  write_bytes = λ fd bytes w w' n e. ground arith;
  write_failed = λ fd bytes w w' e. cc;
  open_keeps = λ w. refl;
}

pub disk-Steady : Steady disk no_archive content_of
disk-Steady = record {
  os_laws = disk-OsLaws;
  archive_laws = record { renamed = λ w. (w, refl, refl); cleaned = λ w. refl };
  never_fails = λ fd bytes w e. cc;
  metadata_known = λ w. (length w.content, w.clock, refl);
}

abbrev pub empty_disk : Disk
empty_disk = record { content = []; clock = 100; available = true }

abbrev fresh : Writer Disk
fresh = record { inner = new_inner 0 8 none; world = empty_disk; answers = [] }

abbrev busy : List Recv
busy =
    received (line (1 ∷ 2 ∷ 3 ∷ 4 ∷ 5 ∷ [])) (line (6 ∷ 7 ∷ 8 ∷ 9 ∷ []) ∷ flush_request 7 ∷ [])
    ∷ timeout
    ∷ received (line (10 ∷ [])) (reopen_file ∷ [])
    ∷ []

log_writer-Served_example :
    (ended : Bool) × (s' : Writer Disk) × (log_writer disk no_archive busy fresh
      ≡ returned (ended, s'))
    × (logged content_of s' ≡ 1 ∷ 2 ∷ 3 ∷ 4 ∷ 5 ∷ 6 ∷ 7 ∷ 8 ∷ 9 ∷ 10 ∷ [])
    × (answered s' ≡ 7 ∷ [])
unfolding new_inner
log_writer-Served_example =
    log_writer-Served disk no_archive disk-Steady busy fresh 3 empty_disk (unfold open_file in refl)

log_writer_drains_example :
    (s' : Writer Disk) × (log_writer disk no_archive (busy ++ disconnected ∷ []) fresh
      ≡ returned (true, s'))
    × (content_of s'.world ≡ 1 ∷ 2 ∷ 3 ∷ 4 ∷ 5 ∷ 6 ∷ 7 ∷ 8 ∷ 9 ∷ 10 ∷ [])
    × (s'.buf ≡ [])
unfolding new_inner
log_writer_drains_example =
    log_writer_drains disk no_archive disk-Steady busy fresh 3 empty_disk (unfold open_file in refl)

-- A writer whose file was opened at time 100, with a line in its buffer.
abbrev pub opened : Writer Disk
opened = record {
  inner = record {
    size = 0;
    create_time = some 100;
    f = some 3;
    buf = 1 ∷ 2 ∷ [];
    flush_millis = 1000;
    rotation = none;
    flush_size = 4;
  };
  world = empty_disk;
  answers = [];
}

flush_request_durable_example :
    (s' : Writer Disk) × (process_all disk no_archive
        (line (3 ∷ 4 ∷ 5 ∷ []) ∷ flush_request 9 ∷ [])
        opened
      ≡ returned s')
    × (content_of s'.world ≡ 1 ∷ 2 ∷ 3 ∷ 4 ∷ 5 ∷ [])
    × (s'.buf ≡ [])
    × (before : List (Answer Disk)) × (last : Answer Disk) × (s'.answers ≡ before ++ last ∷ [])
    × (map (λ a. a.request) before ≡ [])
    × (last.request ≡ 9)
    × (content_of last.found ≡ 1 ∷ 2 ∷ 3 ∷ 4 ∷ 5 ∷ [])
    × (last.pending ≡ [])
flush_request_durable_example =
    flush_request_durable disk no_archive disk-Steady (line (3 ∷ 4 ∷ 5 ∷ []) ∷ []) 9 opened
      (λ e. cc) (inr (100, refl))

write-Fits_example :
    (groups : List (List Line)) × (left : List Line) × (s' : Writer Disk) × (run_batches disk
        no_archive groups opened
      ≡ returned s')
    × (write disk no_archive (3 ∷ 4 ∷ 5 ∷ []) opened ≡ returned (set_buf (concat left) s'))
    × (concat groups ++ left ≡ (1 ∷ 2 ∷ []) ∷ (3 ∷ 4 ∷ 5 ∷ []) ∷ [])
    × All (Fits 4) groups
    × (length (concat left) < 4)
write-Fits_example =
    write-Fits disk no_archive disk-Steady 4 ((1 ∷ 2 ∷ []) ∷ []) (3 ∷ 4 ∷ 5 ∷ []) opened
      (omega arith) (omega arith) refl refl (λ e. cc) (inr (100, refl))

abbrev hourly : LogRotate
hourly = record { size_limit = none; age_limit = some (record { limit = 3600 }); th = false }

abbrev unavailable : Writer Disk
unavailable = record {
  inner = new_inner 0 0 (some hourly);
  world = record { content = []; clock = 100; available = false };
  answers = [];
}

log_writer_panics_example : log_writer disk no_archive busy unavailable ≡ panicked
log_writer_panics_example =
    log_writer_panics disk no_archive busy unavailable unavailable.world hourly
      (record { limit = 3600 }) (unfold open_file in refl) (unfold new_inner in refl)
      (unfold new_inner in refl) refl

-- At time 4000 the file opened at time 100 has been rotated already.
abbrev late : Writer Disk
late = record opened {
  inner = record opened.inner { rotation = some (record hourly { th = true }) };
  world = record { content = []; clock = 4000; available = true };
}

abbrev late_flushed : Writer Disk
late_flushed = record late {
  inner = record late.inner { size = 2; buf = []; rotation = some hourly };
  world = record late.world { content = 1 ∷ 2 ∷ [] };
  answers =
      record { request = 5; found = record late.world { content = 1 ∷ 2 ∷ [] }; pending = [] } ∷ [];
}

age_due_forever_example :
    (ro : LogRotate) × (late_flushed.rotation ≡ some ro)
    × (age_reached ro.age_limit 4000 (sink_of late_flushed.inner) ≡ returned true)
age_due_forever_example =
    age_due_forever disk no_archive (flush_request 5 ∷ []) 100 3600 late late_flushed
      (record { created = refl; rotates = (record hourly { th = true }, refl, refl) })
      (unfold process_all process flush rotate open_file reopen write_loop in refl) (omega arith)
