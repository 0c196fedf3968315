-- ===== src/Rotation/Config.antt =====
-- `ByAge`, `Rotation` and `Rotation::build` of src/rotation.rs: from the configuration to the limits
-- and the backend. The suffix schemes are the file-rotate crate's: `Schema` says which one is built and
-- with what; `Dirs` is the part of std::path and of that crate that `build` calls.
pub mod Build
mod Tests
use captains_log.Base.{
  ℕ, Option, none, some, Bool, true, false, ◌||◌, List, [], Outcome, returned, panicked, unwrap,
  ◌>>=◌, if◌then◌else◌,
}
use captains_log.Rotation.Limits.{Age, day, hour, LimiterSize, LimiterAge, limiter_age, LogRotate}
use captains_log.Rotation.Files.{Platform, Fs, is_some}
use captains_log.Rotation.Suffixes.{SuffixInfo}
use captains_log.Rotation.Backend.{Upkeep, age, count, all, Backend}
use captains_log.Rotation.Backend.Move.{ensure_dir}

pub record ByAge : Type 0 where
  pub age_type : Age
  pub use_last_time : Bool

-- A time format is a number.
pub record Rotation (P : Type 0) : Type 0 where
  pub by_age : Option ByAge
  pub by_size : Option ℕ
  pub time_fmt : Option ℕ
  pub upkeep : Upkeep
  pub archive_dir : Option P
  pub compress_exclude : Option ℕ

pub data FileLimit : Type 0 where
  limit_age max_files : ℕ → FileLimit
  unlimited : FileLimit

pub data DateFrom : Type 0 where
  date_now date_yesterday date_hour_ago : DateFrom

pub data Schema : Type 0 where
  append_timestamp : ℕ → FileLimit → DateFrom → Schema
  append_count : ℕ → Schema

pub record Dirs (R P : Type 0) : Type 0 where
  pub parent : P → Option P
  pub file_name : P → Option P
  pub join : P → P → P
  pub scan_suffixes : Schema → P → Fs P → List (SuffixInfo R)

abbrev max_files_upkeep : Option ℕ → Upkeep
max_files_upkeep none = all
max_files_upkeep (some n) = count n

abbrev max_time_upkeep : Option ℕ → Upkeep
max_time_upkeep none = all
max_time_upkeep (some d) = age d

module _ {P : Type 0} where
  unfoldable pub by_size : ℕ → Option ℕ → Rotation P
  by_size size_limit max_n = record {
    by_age = none;
    by_size = some size_limit;
    time_fmt = none;
    upkeep = max_files_upkeep max_n;
    archive_dir = none;
    compress_exclude = none;
  }

  unfoldable pub by_age : Age → Bool → ℕ → Option ℕ → Rotation P
  by_age age_type use_last_time fmt max_time = record {
    by_age = some (record { age_type = age_type; use_last_time = use_last_time });
    by_size = none;
    time_fmt = some fmt;
    upkeep = max_time_upkeep max_time;
    archive_dir = none;
    compress_exclude = none;
  }

  unfoldable pub by_age_and_size : Age → ℕ → Bool → ℕ → Option ℕ → Rotation P
  by_age_and_size age_type size_limit use_last_time fmt max_time = record {
    by_age = some (record { age_type = age_type; use_last_time = use_last_time });
    by_size = some size_limit;
    time_fmt = some fmt;
    upkeep = max_time_upkeep max_time;
    archive_dir = none;
    compress_exclude = none;
  }

  unfoldable pub compress_exclude : ℕ → Rotation P → Rotation P
  compress_exclude n r = record r { compress_exclude = some n }

  unfoldable pub archive_dir : P → Rotation P → Rotation P
  archive_dir dir r = record r { archive_dir = some dir }

unfoldable pub date_from : Option ByAge → DateFrom
date_from none = date_now
date_from (some b) = elim b.age_type [
  | hour ↦ if b.use_last_time then date_hour_ago else date_now
  | day ↦ if b.use_last_time then date_yesterday else date_now
]

abbrev age_limit_of : Option ByAge → Option LimiterAge
age_limit_of none = none
age_limit_of (some b) = some (limiter_age b.age_type)

abbrev size_limit_of : Option ℕ → Option LimiterSize
size_limit_of none = none
size_limit_of (some n) = some (record { limit = n })

-- `FileLimit` for a time format, and the number of files where there is none.
unfoldable pub file_limit : Upkeep → FileLimit
file_limit (age d) = limit_age d
file_limit (count c) = max_files c
file_limit all = unlimited

unfoldable pub count_limit : Upkeep → ℕ
count_limit (age d) = 0
count_limit (count c) = c
count_limit all = 0

unfoldable pub schema : Option ℕ → Upkeep → DateFrom → Schema
unfolding file_limit count_limit
schema none upkeep from = append_count (count_limit upkeep)
schema (some fmt) upkeep from = append_timestamp fmt (file_limit upkeep) from

abbrev pub limits : {P : Type 0} → Rotation P → LogRotate
limits r = record {
  size_limit = size_limit_of r.by_size;
  age_limit = age_limit_of r.by_age;
  th = false;
}

module _ {R P : Type 0} (pf : Platform P) (paths : Dirs R P) where
  -- `_Backend::new`
  unfoldable pub new_backend : P → P → Upkeep → Option ℕ → Schema → Fs P → Outcome (Backend R P)
  unfolding ensure_dir
  new_backend dir file upkeep compress s fs = do
    name ← unwrap (paths.file_name file)
    let backend : Backend R P = record {
      archive_dir = dir;
      base_path = paths.join dir name;
      log_path = file;
      compress = compress;
      suffixes = [];
      upkeep = upkeep;
      fs = fs;
    }
    ready ← ensure_dir pf backend
    returned (record ready { suffixes = paths.scan_suffixes s ready.base_path ready.fs })

  -- The assertion of `build`.
  abbrev pub checks : Rotation P → Outcome (Unit {0})
  checks r = if is_some r.by_age || is_some r.by_size then returned tt else panicked

  abbrev pub archive_dir_of : Option P → P → Outcome P
  archive_dir_of none file = unwrap (paths.parent file)
  archive_dir_of (some dir) file = returned dir

  unfoldable pub build : Rotation P → P → Fs P → Outcome (LogRotate × Schema × Backend R P)
  unfolding date_from schema new_backend
  build r file fs = do
    checked ← checks r
    dir ← archive_dir_of r.archive_dir file
    let s = schema r.time_fmt r.upkeep (date_from r.by_age)
    backend ← new_backend dir file r.upkeep r.compress_exclude s fs
    returned (limits r, s, backend)
