-- ===== src/Rotation/Backend/Clean.antt =====
-- `compress` and `handle_old_files` of src/rotation.rs.
pub mod Compress
pub mod Kept
pub mod Removal
use mathlib.Core.List.{reverse}
use captains_log.Base.{
  ℕ, zero, suc, ◌+◌, ◌-◌, ◌%◌, ◌^◌, List, [], ◌∷◌, Option, none, some, Bool, true, false, not,
  Outcome, returned, panicked, length, take, ltb, if◌then◌else◌,
}
use captains_log.Rotation.Files.{
  Io, ok, err, also, Platform, Fs, exists_file, open_call, create_call, copy_call, finish_call, put,
  remove_file,
}
use captains_log.Rotation.Suffixes.{SuffixInfo, replace, split_off}
use captains_log.Rotation.Backend.{
  Upkeep, age, count, all, Scheme, Backend, Method, pure, ◌>>=◌, ◌>>◌, gets, assert, on_fs,
  on_suffixes, info_path,
}

-- The entries with their positions, counted from the newest.
abbrev pub enumerate : {R : Type 0} → ℕ → List (SuffixInfo R) → List (ℕ × SuffixInfo R)
enumerate i [] = []
enumerate i (x ∷ xs) = (i, x) ∷ enumerate (suc i) xs

-- `(len as i32 - max_file_n as i32).max(0) as usize`, with the wrap-around of a release build.
unfoldable pub number_to_compress : ℕ → ℕ → ℕ
number_to_compress len max_file_n =
    let d = (len % 2 ^ 32 + 2 ^ 32 - max_file_n % 2 ^ 32) % 2 ^ 32 in
    if ltb d (2 ^ 31) then d else 0

abbrev pub uncompressed : {R : Type 0} → List (SuffixInfo R) → List (SuffixInfo R)
uncompressed [] = []
uncompressed (x ∷ xs) = let rest = uncompressed xs in if x.compressed then rest else x ∷ rest

unfoldable pub suffixes_to_compress : {R : Type 0} → ℕ → List (SuffixInfo R) → List (SuffixInfo R)
unfolding number_to_compress
suffixes_to_compress max_file_n infos =
    uncompressed (take (number_to_compress (length infos) max_file_n) (reverse infos))

module _ {R P : Type 0} (scheme : Scheme R P) (pf : Platform P) where
  unfoldable pub open_file : P → Fs P → Io (List ℕ) × Fs P
  open_file path fs = elim (fs.files path) [
    | none ↦ (err, fs)
    | some content ↦ if pf.faulty (open_call path) then (err, fs) else (ok content, fs)
  ]

  -- write, create, truncate
  unfoldable pub create_file : P → Fs P → Io (Unit {0}) × Fs P
  create_file path fs =
      if pf.faulty (create_call path) then (err, fs) else (ok tt, put pf path (some []) fs)

  -- A copy that fails leaves an empty file here.
  unfoldable pub copy_gzip : List ℕ → P → Fs P → Io (Unit {0}) × Fs P
  copy_gzip content dest fs =
      if pf.faulty (copy_call dest)
      then (err, fs)
      else (ok tt, put pf dest (some (pf.gzip_begun content)) fs)

  -- The encoder is dropped at the end, after the file has been removed: it then writes what it still
  -- holds, and an error of that is ignored.
  unfoldable pub remove_and_drop : List ℕ → P → P → Fs P → Io (Unit {0}) × Fs P
  unfolding remove_file
  remove_and_drop content dest path fs =
      let (r, fs1) = remove_file pf path fs in
      (r, if pf.faulty (finish_call dest) then fs1 else put pf dest (some (pf.gzip content)) fs1)

  unfoldable pub compress : P → Method (Backend R P) (Unit {0})
  unfolding open_file create_file copy_gzip remove_and_drop
  compress path = do
    let dest_path = scheme.gz path
    src ← on_fs (open_file path)
    on_fs (create_file dest_path)
    assert (λ s. exists_file path s.fs)
    assert (λ s. exists_file dest_path s.fs)
    on_fs (copy_gzip src dest_path)
    on_fs (remove_and_drop src dest_path path)

  -- From the oldest entry on, files are removed while they are too old. What a removal returns does
  -- not end the loop; the last entry that was too old comes back.
  unfoldable pub sweep :
      P
      → List (ℕ × SuffixInfo R)
      → Io (Unit {0})
      → Option (SuffixInfo R)
      → Fs P
      → Io (Unit {0}) × Option (SuffixInfo R) × Fs P
  sweep base [] result youngest fs = (result, youngest, fs)
  sweep base ((i, info) ∷ older) result youngest fs =
      let (removed, fs') = remove_file pf (info_path scheme info base) fs in
      let rest = sweep base older (also result removed) (some info) fs' in
      if scheme.too_old info.suffix i then rest else (result, youngest, fs)

  abbrev pub drop_from : Option (SuffixInfo R) → List (SuffixInfo R) → List (SuffixInfo R)
  drop_from none infos = infos
  drop_from (some info) infos = split_off scheme.lt info.suffix infos

  -- Removing what is too old; the result is kept for the end.
  unfoldable pub remove_old : Backend R P → Io (Unit {0}) × Backend R P
  unfolding sweep
  remove_old s =
      let (result, youngest, fs') =
        sweep s.base_path (reverse (enumerate 0 s.suffixes)) (ok tt) none s.fs in
      (result, record s { suffixes = drop_from youngest s.suffixes; fs = fs' })

  unfoldable pub upkeep_files : Backend R P → Io (Unit {0}) × Backend R P
  unfolding remove_old
  upkeep_files s = elim s.upkeep [ all ↦ (ok tt, s) | _ ↦ remove_old s ]

  unfoldable pub compress_each : List (SuffixInfo R) → Method (Backend R P) (Unit {0})
  unfolding compress
  compress_each [] = pure tt
  compress_each (info ∷ infos) = do
    base ← gets (λ (s : Backend R P). s.base_path)
    compress (scheme.to_path info.suffix base)
    on_suffixes (replace scheme.lt (record info { compressed = true }))
    compress_each infos

  unfoldable pub compress_old : Option ℕ → Method (Backend R P) (Unit {0})
  unfolding suffixes_to_compress compress_each
  compress_old none = pure tt
  compress_old (some max_file_n) = do
    infos ← gets (λ (s : Backend R P). s.suffixes)
    compress_each (suffixes_to_compress max_file_n infos)

  unfoldable pub handle_old_files : Method (Backend R P) (Unit {0})
  unfolding upkeep_files compress_old
  handle_old_files s =
      let (result, s1) = upkeep_files s in
      (do compress_old s1.compress; (λ s2. returned (result, s2))) s1
