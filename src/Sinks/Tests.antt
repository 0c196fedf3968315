-- ===== src/Sinks/Tests.antt =====
-- Records that are numbers, formatted as a line of two bytes.
use captains_log.Base.{ℕ, ◌≡◌, refl, inr, List, map, [], ◌∷◌, ◌++◌, none, some, returned, leb}
use captains_log.BufFile.{Answer, Writer}
use captains_log.BufFile.Worker.{process_all}
use captains_log.BufFile.Tests.{
  Disk, disk, no_archive, content_of, disk-OsLaws, disk-Steady, empty_disk, opened,
}
use captains_log.Sinks.{
  Records, LogFormat, process, LogSinkFile, LogSinkBufFile, file_reopen, buf_file_flush,
}
use captains_log.System.{open_file}
use captains_log.Methods.{ok}
use captains_log.Sinks.Config.{LogRawFile, sink_of_raw_file, raw_file-text}
use captains_log.Sinks.Text.{text, file_log_all, buf_file_log_all, buf_file_flush-text}

abbrev numbers : Records ℕ ℕ
numbers = record { level = λ r. r; within = leb; file_name = λ r. none; line_number = λ r. some r }

abbrev two_bytes : LogFormat ℕ
two_bytes = record { time_fmt = 0; format_fn = λ r. r.now ∷ r.record_of ∷ [] }

abbrev raw : LogSinkFile ℕ ℕ
raw = record { max_level = 3; formatter = two_bytes; f = some 3 }

abbrev three_records : List (ℕ × ℕ)
three_records = (50, 1) ∷ (51, 4) ∷ (52, 3) ∷ []

abbrev buffered : LogSinkBufFile ℕ ℕ
buffered = record { max_level = 3; formatter = two_bytes; sent = [] }

buf_file_flush-text_example :
    (s' : Writer Disk) × (process_all disk no_archive
        (buf_file_flush numbers 9 (buf_file_log_all numbers buffered three_records)).sent
        opened
      ≡ returned s')
    × (content_of s'.world ≡ 1 ∷ 2 ∷ 50 ∷ 1 ∷ 52 ∷ 3 ∷ [])
    × (s'.buf ≡ [])
    × (before : List (Answer Disk)) × (last : Answer Disk) × (s'.answers ≡ before ++ last ∷ [])
    × (map (λ a. a.request) before ≡ [])
    × (last.request ≡ 9)
    × (content_of last.found ≡ 1 ∷ 2 ∷ 50 ∷ 1 ∷ 52 ∷ 3 ∷ [])
    × (last.pending ≡ [])
unfolding text process
buf_file_flush-text_example =
    buf_file_flush-text numbers disk no_archive content_of disk-Steady three_records buffered 9
      opened refl (λ e. cc) (inr (100, refl))

-- The path a/b.

abbrev configured : LogRawFile ℕ ℕ ℕ
configured = record { level = 3; format = two_bytes; file_path = 0 }

raw_file-text_example :
    (sink : LogSinkFile ℕ ℕ) × (w' : Disk) × (file_reopen numbers disk
        (sink_of_raw_file configured)
        empty_disk
      ≡ (ok tt, sink, empty_disk))
    × (file_log_all numbers disk sink three_records empty_disk ≡ returned w')
    × (content_of w' ≡ 50 ∷ 1 ∷ 52 ∷ 3 ∷ [])
unfolding text process
raw_file-text_example =
    raw_file-text numbers disk content_of disk-OsLaws (λ fd bytes w e. cc) configured three_records
      3 empty_disk empty_disk (unfold open_file in refl)
