-- ===== src/Rotation/Config/Tests.antt =====
-- Rotations that are built, and what they do.
use captains_log.Base.{All, ℕ, ◌≡◌, refl, [], ◌∷◌, none, some, true, false, arith, returned}
use captains_log.Rotation.Suffixes.{SuffixInfo}
use captains_log.Rotation.Files.{remove_call, Fs, create_dir}
use captains_log.Rotation.Limits.{hour, limiter_age, FileSink, Archive, rotate}
use captains_log.Rotation.Backend.{age, Scheme, Backend, info_path}
use captains_log.Rotation.Backend.Move.{ensure_dir}
use captains_log.Rotation.Backend.Clean.{upkeep_files}
use captains_log.Rotation.Backend.Clean.Removal.{IsAscending}
use captains_log.Rotation.Tests.{numbers, counting, plain, two_files}
use captains_log.Rotation.Config.{
  Rotation, Schema, append_count, append_timestamp, unlimited, Dirs, by_size, by_age_and_size,
  count_limit, date_hour_ago, schema, limits, new_backend, build,
}
use captains_log.Rotation.Config.Build.{reached, period, built_rotates, built_keeps_nothing}

abbrev numbered_dirs : Dirs ℕ ℕ
numbered_dirs = record {
  parent = λ p. some 1;
  file_name = λ p. some p;
  join = λ dir name. 10;
  scan_suffixes = λ s base fs. plain 1 ∷ plain 2 ∷ [];
}

abbrev started : Rotation ℕ → Backend ℕ ℕ
started r = record {
  archive_dir = 1;
  base_path = 10;
  log_path = 0;
  compress = none;
  suffixes = plain 1 ∷ plain 2 ∷ [];
  upkeep = r.upkeep;
  fs = record { files = two_files.fs.files; dirs = λ p. true };
}

abbrev hourly_or_large : Rotation ℕ
hourly_or_large = by_age_and_size hour 100 true 7 none

abbrev no_files : Archive ℕ
no_files = record { rename_files = λ w. returned w; handle_old_files = λ w. w }

abbrev large : FileSink
large = record { create_time = some 1000; size = 101 }

built_rotates_example :
    rotate no_files (limits hourly_or_large) 2000 large 5
    ≡ returned (true, record (limits hourly_or_large) { th = true }, 5)
unfolding by_age_and_size reached period limiter_age
built_rotates_example =
    built_rotates numbers numbered_dirs no_files hourly_or_large 0 (started hourly_or_large).fs
      (limits hourly_or_large) (append_timestamp 7 unlimited date_hour_ago)
      (started hourly_or_large) 2000 1000 large 5 (unfold build in refl) refl

abbrev counted : Schema → Scheme ℕ ℕ
counted (append_count n) = counting n
counted (append_timestamp fmt limit from) = counting 0

counted-irreflexive : (s : Schema) (r : ℕ) → (counted s).lt r r ≡ false
counted-irreflexive (append_count n) r = ground arith
counted-irreflexive (append_timestamp fmt limit from) r = ground arith

counted-IsAscending :
    (s : Schema) (n base : ℕ) (fs : Fs ℕ)
    → IsAscending (counted s) numbers n (numbered_dirs.scan_suffixes s base fs)
counted-IsAscending (append_count m) n base fs = ((refl, tt), (tt, tt))
counted-IsAscending (append_timestamp fmt limit from) n base fs = ((refl, tt), (tt, tt))

abbrev keep_one : Rotation ℕ
keep_one = by_size 100 (some 1)

-- An hour, in a configuration without a time format.
abbrev keep_hour : Rotation ℕ
keep_hour = record (by_size 100 none) { upkeep = age 3600 }

built_keeps_nothing_example :
    ((upkeep_files (counting 0) numbers (started keep_hour)).1.suffixes ≡ [])
    × All
        (λ (x : SuffixInfo ℕ).
          numbers.faulty (remove_call (info_path (counting 0) x 10)) ≡ false
          → (upkeep_files (counting 0) numbers (started keep_hour)).1.fs.files
              (info_path (counting 0) x 10)
            ≡ none)
        (plain 1 ∷ plain 2 ∷ [])
unfolding by_size
built_keeps_nothing_example =
    built_keeps_nothing numbers numbered_dirs counted (λ n r i. refl) counted-irreflexive
      counted-IsAscending keep_hour 3600 0 (started keep_hour).fs (limits keep_hour)
      (append_count 0) (started keep_hour)
      (unfold build new_backend ensure_dir create_dir schema count_limit in refl) refl refl
