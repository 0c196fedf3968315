-- ===== src/Rotation/Backend/Move.antt =====
-- `_move_file_with_suffix` and `rename_files` of src/rotation.rs. The recursion is on fuel: each call
-- goes on to a file that is in the way.
pub mod Numbered
pub mod Single
pub mod Cascade
use captains_log.Base.{
  ℕ, zero, suc, List, [], ◌∷◌, Option, none, some, Bool, false, not, Outcome, returned, panicked,
  out_of_fuel, length, if◌then◌else◌,
}
use captains_log.Base as Base
use captains_log.Rotation.Files.{Io, ok, err, Platform, Fs, exists_file, rename, create_dir}
use captains_log.Rotation.Suffixes.{SuffixInfo, get, insert, replace}
use captains_log.Rotation.Backend.{
  Scheme, Backend, Method, pure, ◌>>=◌, ◌>>◌, gets, assert, expect, on_fs, on_suffixes, info_path,
}

abbrev pub newest : {R : Type 0} → List (SuffixInfo R) → Option R
newest [] = none
newest (x ∷ xs) = some x.suffix

abbrev pub suffix_of : {R : Type 0} → Option (SuffixInfo R) → Option R
suffix_of none = none
suffix_of (some info) = some info.suffix

abbrev pub was_compressed : {R : Type 0} → Option (SuffixInfo R) → Bool
was_compressed none = false
was_compressed (some info) = info.compressed

module _ {R P : Type 0} (pf : Platform P) where
  unfoldable pub ensure_dir : Backend R P → Outcome (Backend R P)
  ensure_dir s =
      if s.fs.dirs s.archive_dir
      then returned s
      else Base.◌>>=◌ (expect (on_fs (create_dir pf s.archive_dir)) s) (λ (u, s'). returned s')

module _ {R P : Type 0} (scheme : Scheme R P) (pf : Platform P) where
  abbrev pub next_suffix : Option (SuffixInfo R) → Method (Backend R P) R
  next_suffix old s = returned (scheme.rotate_file (newest s.suffixes) (suffix_of old), s)

  -- The current log file, or an archived one.
  abbrev path_of : Option (SuffixInfo R) → P → P → P
  path_of none log_path base_path = log_path
  path_of (some info) log_path base_path = info_path scheme info base_path

  abbrev pub source_path : Option (SuffixInfo R) → Backend R P → P
  source_path old s = path_of old s.log_path s.base_path

  unfoldable pub move_file : SuffixInfo R → Option (SuffixInfo R) → Method (Backend R P) (Unit {0})
  move_file new old s =
      (do
        assert (λ s. exists_file (source_path old s) s.fs)
        assert (λ s. not (exists_file (info_path scheme new s.base_path) s.fs))
        on_fs (rename pf (source_path old s) (info_path scheme new s.base_path)))
        s

  unfoldable pub move_file_with_suffix :
      ℕ → Option (SuffixInfo R) → Method (Backend R P) (SuffixInfo R)
  move_file_with_suffix zero old = λ s. out_of_fuel
  move_file_with_suffix (suc fuel) old = do
    suffix ← next_suffix old
    let new : SuffixInfo R = record { suffix = suffix; compressed = was_compressed old }
    existing ← gets (λ (s : Backend R P). get scheme.lt suffix s.suffixes)
    let displaced : Method (Backend R P) (SuffixInfo R) = elim existing [
      | none ↦ pure new
      | some info ↦ (do on_suffixes (replace scheme.lt new); move_file_with_suffix fuel (some info))
    ]
    newly_created ← displaced
    move_file new old
    pure newly_created

  unfoldable pub rename_files : ℕ → Backend R P → Outcome (Backend R P)
  unfolding ensure_dir
  rename_files fuel s = Base.◌>>=◌ (ensure_dir pf s) (λ s1.
      Base.◌>>=◌ (expect (move_file_with_suffix fuel none) s1)
        (λ (info, s2). returned (record s2 { suffixes = insert scheme.lt info s2.suffixes })))
