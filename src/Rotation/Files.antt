-- ===== src/Rotation/Files.antt =====
-- The part of std::fs that src/rotation.rs uses, on a store of files by path. `faulty` says which
-- calls end in an I/O error although the files allow them; gzip is a foreign library.
pub use captains_log.Methods.{Io, ok, err, also}
use captains_log.Base.{ℕ, ◌≡◌, ◌↔◌, List, Option, none, some, Bool, true, false, if◌then◌else◌}

pub data Call (P : Type 0) : Type 0 where
  open_call create_call copy_call finish_call remove_call create_dir_call : P → Call P
  rename_call : P → P → Call P

-- Paths and the outside of the process.
pub record Platform (P : Type 0) : Type 0 where
  pub same : P → P → Bool
  pub same_iff : (p q : P) → (same p q ≡ true) ↔ (p ≡ q)
  pub faulty : Call P → Bool
  pub gzip : List ℕ → List ℕ
  -- the part that an encoder has written before it is finished
  pub gzip_begun : List ℕ → List ℕ

pub record Fs (P : Type 0) : Type 0 where
  pub files : P → Option (List ℕ)
  pub dirs : P → Bool

abbrev pub is_some {ℓ} : {A : Type ℓ} → Option A → Bool
is_some none = false
is_some (some a) = true

abbrev pub exists_file : {P : Type 0} → P → Fs P → Bool
exists_file p fs = is_some (fs.files p)

module _ {P : Type 0} (pf : Platform P) where
  abbrev pub put : P → Option (List ℕ) → Fs P → Fs P
  put p content fs = record fs { files = λ q. if pf.same p q then content else fs.files q }

  unfoldable pub remove_file : P → Fs P → Io (Unit {0}) × Fs P
  remove_file p fs = elim (fs.files p) [
    | none ↦ (err, fs)
    | some content ↦ if pf.faulty (remove_call p) then (err, fs) else (ok tt, put p none fs)
  ]

  unfoldable pub rename : P → P → Fs P → Io (Unit {0}) × Fs P
  rename p q fs = elim (fs.files p) [
    | none ↦ (err, fs)
    | some content ↦
        if pf.faulty (rename_call p q)
        then (err, fs)
        else (ok tt, put q (some content) (put p none fs))
  ]

  -- `create_dir_all`
  unfoldable pub create_dir : P → Fs P → Io (Unit {0}) × Fs P
  create_dir p fs =
      if pf.faulty (create_dir_call p)
      then (err, fs)
      else (ok tt, record fs { dirs = λ q. if pf.same p q then true else fs.dirs q })
