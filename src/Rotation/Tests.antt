-- ===== src/Rotation/Tests.antt =====
-- Archives with numbered files on a store whose paths are numbers, and runs on them.
use captains_log.Base.{
  ℕ, zero, suc, returned, ◌≢◌, ◌+◌, ◌-◌, ◌^◌, ◌≡◌, ◌↔◌, refl, List, [], ◌∷◌, Option, none, some,
  Bool, true, false, arith, length, ltb, leb, if◌then◌else◌,
}
use captains_log.Rotation.Files.{Io, ok, Platform, Call, finish_call, remove_file}
use captains_log.Rotation.Suffixes.{SuffixInfo}
use captains_log.Rotation.Backend.{count, Scheme, Backend}
use captains_log.Rotation.Backend.Move.{rename_files}
use captains_log.Rotation.Backend.Move.Numbered.{Counting, Archived, at, numbered}
use captains_log.Rotation.Backend.Move.Single.{path}
use captains_log.Rotation.Backend.Move.Cascade.{Represents, rename_files-Represents}
use captains_log.Rotation.Backend.Clean.{compress, suffixes_to_compress, upkeep_files}
use captains_log.Rotation.Backend.Clean.Kept.{Kept, compress-Kept, compress_loses_data}
use captains_log.Rotation.Backend.Clean.Compress.{compresses_all_on_wrap}
use captains_log.Rotation.Backend.Clean.Removal.{removals, upkeep_keeps_newest}

abbrev pub equal : ℕ → ℕ → Bool
equal a b = if ltb a b then false else if ltb b a then false else true

pub equal_iff : (a b : ℕ) → (equal a b ≡ true) ↔ (a ≡ b)
equal_iff a b = (λ e. ground arith, λ e. ground arith)

abbrev pub numbers : Platform ℕ
numbers = record {
  same = equal;
  same_iff = equal_iff;
  faulty = λ c. false;
  gzip = λ bytes. length bytes ∷ [];
  gzip_begun = λ bytes. [];
}

-- The archives of a file are numbered from 1.
abbrev pub count_up : Option ℕ → Option ℕ → Io ℕ
count_up top none = ok 1
count_up top (some n) = ok (suc n)

abbrev pub counting : ℕ → Scheme ℕ ℕ
counting limit = record {
  lt = ltb;
  rotate_file = count_up;
  too_old = λ r i. leb limit i;
  to_path = λ r base. base + r + r;
  gz = λ p. 1 + p;
}

abbrev pub plain : ℕ → SuffixInfo ℕ
plain n = record { suffix = n; compressed = false }

abbrev pub three_files : Backend ℕ ℕ
three_files = record {
  archive_dir = 1;
  base_path = 10;
  log_path = 0;
  compress = none;
  suffixes = plain 1 ∷ plain 2 ∷ plain 3 ∷ [];
  upkeep = count 1;
  fs = record { files = λ p. if leb 12 p then some (p ∷ []) else none; dirs = λ p. true };
}

abbrev removed_two : Io (Unit {0}) × Backend ℕ ℕ
removed_two = (
  ok tt,
  record three_files {
    suffixes = plain 1 ∷ [];
    fs = record three_files.fs {
      files = λ q. if equal 14 q then none else if equal 16 q then none else three_files.fs.files q;
    };
  },
)

upkeep_keeps_newest_example : upkeep_files (counting 1) numbers three_files ≡ removed_two
unfolding removals remove_file
upkeep_keeps_newest_example =
    upkeep_keeps_newest (counting 1) numbers 1 three_files (λ r i. refl) (λ r. ground arith)
      ((refl, (refl, tt)), ((refl, tt), (tt, tt))) (λ e. cc)

compresses_all_on_wrap_example :
    suffixes_to_compress (2 ^ 32 - 1) (plain 1 ∷ plain 2 ∷ []) ≡ plain 2 ∷ plain 1 ∷ []
compresses_all_on_wrap_example =
    compresses_all_on_wrap (2 ^ 32 - 1) (plain 1 ∷ plain 2 ∷ []) (omega arith) (omega arith)

-- The log, the first archive, and the second, which is compressed.
abbrev pub store : ℕ → Option (List ℕ)
store p =
    if equal p 0
    then some (9 ∷ [])
    else if equal p 12
    then some (8 ∷ [])
    else if equal p 15
    then some (7 ∷ [])
    else none

abbrev two_archived : List Archived
two_archived = (false, 8 ∷ []) ∷ (true, 7 ∷ []) ∷ []

abbrev pub two_files : Backend ℕ ℕ
two_files = record three_files {
  suffixes = plain 1 ∷ record { suffix = 2; compressed = true } ∷ [];
  fs = record { files = store; dirs = λ p. false };
}

two_files-apart :
    (m n : ℕ) (c d : Bool)
    → path (counting 1) numbers two_files m c ≡ path (counting 1) numbers two_files n d
    → (m ≡ n) × (c ≡ d)
two_files-apart m n true true e = (omega (arith, e), refl)
two_files-apart m n false false e = (omega (arith, e), refl)
two_files-apart m n true false e = absurd (omega (arith, e))
two_files-apart m n false true e = absurd (omega (arith, e))

two_files-not_log :
    (n : ℕ) (c : Bool) → two_files.log_path ≢ path (counting 1) numbers two_files n c
two_files-not_log n true = λ e. omega (arith, e)
two_files-not_log n false = λ e. omega (arith, e)

two_files-holds :
    (i : ℕ) (d : Bool) → store (path (counting 1) numbers two_files (1 + i) d) ≡ at two_archived i d
unfolding at
two_files-holds zero true = refl
two_files-holds zero false = refl
two_files-holds (suc zero) true = refl
two_files-holds (suc zero) false = refl
two_files-holds (suc (suc i)) true = ground arith
two_files-holds (suc (suc i)) false = ground arith

counting-Counting : Counting (counting 1)
counting-Counting = record { lt-ltb = λ a b. refl; first = λ top. refl; next = λ top n. refl }

rename_files-Represents_example :
    (s' : Backend ℕ ℕ) × (rename_files (counting 1) numbers 3 two_files ≡ returned s')
    × Represents (counting 1) numbers s' ((false, 9 ∷ []) ∷ two_archived)
    × (s'.fs.files 0 ≡ none)
rename_files-Represents_example =
    rename_files-Represents (counting 1) numbers counting-Counting (λ p q. refl) two_archived 3
      two_files (9 ∷ [])
      (record {
        suffixes_are = unfold numbered in refl;
        holds = two_files-holds;
        distinct = record { apart = two_files-apart; not_log = two_files-not_log };
      })
      (omega arith) refl refl

compress-Kept_example :
    (r : Io (Unit {0})) × (s' : Backend ℕ ℕ) × (compress (counting 1) numbers 12 two_files
      ≡ returned (r, s'))
    × Kept (counting 1) numbers 12 (8 ∷ []) s'.fs
    × (s'.fs.files 15 ≡ some (7 ∷ []))
compress-Kept_example =
    compress-Kept (counting 1) numbers 12 15 (8 ∷ []) two_files refl (omega arith) refl
      (omega arith) (omega arith)

-- A disk that is full when the encoder is finished.
abbrev full_at_end : Call ℕ → Bool
full_at_end (finish_call p) = true
full_at_end c = false

abbrev full_disk : Platform ℕ
full_disk = record numbers { faulty = full_at_end }

compress_loses_data_example :
    (s' : Backend ℕ ℕ) × (compress (counting 1) full_disk 12 two_files ≡ returned (ok tt, s'))
    × (s'.fs.files 12 ≡ none)
    × (s'.fs.files 13 ≡ some [])
compress_loses_data_example =
    compress_loses_data (counting 1) full_disk 12 (8 ∷ []) two_files refl (omega arith) refl refl
      refl refl refl
