-- ===== src/Rotation/Backend/Clean/Compress.antt =====
-- How many archived files `handle_old_files` compresses.
use mathlib.Core.List.{reverse}
use captains_log.Base.{
  ℕ, zero, suc, ◌+◌, ◌-◌, ◌%◌, ◌^◌, ◌≤◌, ◌<◌, ◌≡◌, refl, ap, List, [], ◌∷◌, arith, length, take,
  length-reverse,
}
use captains_log.Rotation.Suffixes.{SuffixInfo}
use captains_log.Rotation.Backend.Clean.{number_to_compress, suffixes_to_compress, uncompressed}

-- Below 2^31 archived files and 2^31 exclusions, all but the excluded number of files are compressed.
pub number_to_compress_lem :
    (len max_file_n : ℕ)
    → len < 2 ^ 31
    → max_file_n < 2 ^ 31
    → number_to_compress len max_file_n ≡ len - max_file_n
unfolding number_to_compress
number_to_compress_lem len max_file_n h k = ground arith

take-all {ℓ} : {A : Type ℓ} (n : ℕ) (xs : List A) → length xs ≤ n → take n xs ≡ xs
take-all zero [] h = refl
take-all zero (x ∷ xs) h = elim h [ ]
take-all (suc n) [] h = refl
take-all (suc n) (x ∷ xs) h = ap (◌∷◌ x) (take-all n xs (omega arith))

number_above :
    (len max_file_n : ℕ)
    → 2 ^ 31 ≤ max_file_n % 2 ^ 32
    → len + 2 ^ 32 < 2 ^ 31 + max_file_n % 2 ^ 32
    → len ≤ number_to_compress len max_file_n
unfolding number_to_compress
number_above len max_file_n h k = ground arith

-- Where the excluded number, as 32 bits, has the sign bit, and the archived files are so few that
-- the difference does not wrap again, every archived file is compressed that is not yet.
pub compresses_all_on_wrap :
    {R : Type 0} (max_file_n : ℕ) (infos : List (SuffixInfo R))
    → 2 ^ 31 ≤ max_file_n % 2 ^ 32
    → length infos + 2 ^ 32 < 2 ^ 31 + max_file_n % 2 ^ 32
    → suffixes_to_compress max_file_n infos ≡ uncompressed (reverse infos)
unfolding suffixes_to_compress
compresses_all_on_wrap max_file_n infos h k = ap uncompressed (
    take-all _ (reverse infos)
      (omega (arith, length-reverse infos, number_above (length infos) max_file_n h k)))
