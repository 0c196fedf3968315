-- ===== src/Rotation/Backend.antt =====
-- `_Backend` of src/rotation.rs: moving the log file into the archive, and removing and compressing
-- what is old. The suffix scheme is the file-rotate crate's; it enters as the record `Scheme`.
pub mod Move
pub mod Clean
pub use captains_log.Methods.{Method, pure, ◌>>=◌, ◌>>◌, gets, assert, expect}
use captains_log.Base.{
  ℕ, zero, suc, ◌+◌, ◌-◌, ◌%◌, ◌^◌, List, [], ◌∷◌, ◌++◌, map, Option, none, some, Bool, true, false,
  not, Outcome, returned, panicked, out_of_fuel, length, take, ltb, if◌then◌else◌,
}
use captains_log.Rotation.Files.{
  Io, ok, err, also, Platform, Fs, exists_file, open_call, create_call, copy_call, put, remove_file,
  rename, create_dir,
}
use captains_log.Rotation.Suffixes.{SuffixInfo, get, insert, replace, split_off}

-- The clean-up; an age is a number of seconds.
pub data Upkeep : Type 0 where
  age count : ℕ → Upkeep
  all : Upkeep

-- What the file-rotate crate does: the next suffix for a file, given the newest suffix in use and the
-- file's own; whether the `i`-th suffix is too old; the order of suffixes; the archive's file name.
pub record Scheme (R P : Type 0) : Type 0 where
  pub lt : R → R → Bool
  pub rotate_file : Option R → Option R → Io R
  pub too_old : R → ℕ → Bool
  pub to_path : R → P → P
  pub gz : P → P

-- `compress` is None, or the number of files that stay uncompressed.
pub record Backend (R P : Type 0) : Type 0 where
  pub archive_dir : P
  pub base_path : P
  pub log_path : P
  pub compress : Option ℕ
  pub suffixes : List (SuffixInfo R)
  pub upkeep : Upkeep
  pub fs : Fs P

module _ {R P : Type 0} (scheme : Scheme R P) where
  -- `SuffixInfo::to_path`
  abbrev pub info_path : SuffixInfo R → P → P
  info_path info base =
      let path = scheme.to_path info.suffix base in if info.compressed then scheme.gz path else path

module _ {R P : Type 0} where
  abbrev pub on_fs : {A : Type 0} → (Fs P → Io A × Fs P) → Method (Backend R P) A
  on_fs f s = let (r, fs') = f s.fs in returned (r, record s { fs = fs' })

  abbrev pub on_suffixes :
      (List (SuffixInfo R) → List (SuffixInfo R)) → Method (Backend R P) (Unit {0})
  on_suffixes f s = returned (ok tt, record s { suffixes = f s.suffixes })
