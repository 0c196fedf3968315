-- ===== src/Rotation/Limits.antt =====
-- `LimiterSize`, `LimiterAge` and `LogRotate` of src/rotation.rs. Times are in nanoseconds. What
-- moves and cleans up the archived files enters by the interface `Archive`, over the state of the
-- world; the background thread of `rotate` does its work when it is waited for.
pub mod Total
use captains_log.Base.{
  ℕ, ◌-◌, ◌*◌, Option, none, some, Bool, true, false, ◌||◌, Outcome, returned, unwrap, ◌>>=◌, ltb,
  if◌then◌else◌,
}

pub data Age : Type 0 where
  day hour : Age

pub record LimiterSize : Type 0 where
  pub limit : ℕ

pub record LimiterAge : Type 0 where
  pub limit : ℕ

-- `Duration::from_secs`
abbrev from_secs : ℕ → ℕ
from_secs n = n * 1_000_000_000

-- `LimiterAge::new`
unfoldable pub limiter_age : Age → LimiterAge
limiter_age hour = record { limit = from_secs (60 * 60) }
limiter_age day = record { limit = from_secs (24 * 60 * 60) }

-- `FileSinkTrait`: the creation time and the size of the log file. A sink may have no time yet.
pub record FileSink : Type 0 where
  pub create_time : Option ℕ
  pub size : ℕ

-- `get_create_time` unwraps the time.
unfoldable pub get_create_time : FileSink → Outcome ℕ
get_create_time sink = unwrap sink.create_time

unfoldable pub check_size : LimiterSize → FileSink → Bool
check_size l sink = ltb l.limit sink.size

-- `duration_since` fails where the clock went back behind the start.
unfoldable pub check_age : LimiterAge → ℕ → FileSink → Outcome Bool
unfolding get_create_time
check_age l now sink = do
  start_ts ← get_create_time sink
  returned (if ltb now start_ts then true else ltb l.limit (now - start_ts))

-- The backend of a rotation, as its callers see it.
pub record Archive (W : Type 0) : Type 0 where
  pub rename_files : W → Outcome W
  pub handle_old_files : W → W

-- `th` is true while a thread that runs `handle_old_files` has not been joined.
pub record LogRotate : Type 0 where
  pub size_limit : Option LimiterSize
  pub age_limit : Option LimiterAge
  pub th : Bool

unfoldable pub age_reached : Option LimiterAge → ℕ → FileSink → Outcome Bool
unfolding check_age
age_reached none now sink = returned false
age_reached (some age) now sink = check_age age now sink

unfoldable pub size_reached : Option LimiterSize → FileSink → Bool
unfolding check_size
size_reached none sink = false
size_reached (some size) sink = check_size size sink

module _ {W : Type 0} (archive : Archive W) where
  -- Joining the thread; whether it failed is ignored.
  unfoldable pub wait : LogRotate → W → LogRotate × W
  wait ro w = if ro.th then (record ro { th = false }, archive.handle_old_files w) else (ro, w)

  -- The previous cleanup is waited for before the files move, and the next one is started.
  due : LogRotate → W → Outcome (Bool × LogRotate × W)
  unfolding wait
  due ro w = do
    let (ro1, w1) = wait ro w
    w2 ← archive.rename_files w1
    returned (true, record ro1 { th = true }, w2)

  -- The decision, and the rotation where it is due; the result says whether it was.
  unfoldable pub rotate : LogRotate → ℕ → FileSink → W → Outcome (Bool × LogRotate × W)
  unfolding age_reached size_reached due
  rotate ro now sink w = do
    by_age ← age_reached ro.age_limit now sink
    if by_age || size_reached ro.size_limit sink then due ro w else returned (false, ro, w)
