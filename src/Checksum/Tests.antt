-- ===== src/Checksum/Tests.antt =====
-- Hashes that feed a number as itself, and two builders that differ in what is not fed.
use captains_log.Base.{
  ℕ, List, [], ◌∷◌, ◌++◌, ◌≡◌, refl, ap₂, arith, none, some, Bool, true, false, length, codes,
}
use captains_log.Rotation.Backend.{count}
use captains_log.Sinks.{LogFormat}
use captains_log.Sinks.Config.{stdout}
use captains_log.Logger.{Builder}
use captains_log.Checksum.{Feed, Hashes, fed}
use captains_log.Recipe.Builders.{SinkConfig, buf_config, console_config, syslog_config}
use captains_log.Checksum.PrefixFree.{PrefixFree, HashLaws}
use captains_log.Checksum.Determines.{AllSame, fed_determines}

abbrev number : Feed ℕ
number n rest = n ∷ rest

abbrev bit : Feed Bool
bit false rest = 0 ∷ rest
bit true rest = 1 ∷ rest

abbrev counted : Feed (List ℕ)
counted l rest = length l ∷ (l ++ rest)

abbrev plain : Hashes ℕ ℕ ℕ
plain = record {
  bool = bit;
  u8 = number;
  u64 = number;
  i32 = number;
  usize = number;
  discriminant = number;
  signals = counted;
  static_str = number;
  address = λ f. length (f (record { record_of = 0; now = 0; fmt_str = 0 }));
  level = number;
  path = number;
  text = counted;
  facility = number;
  duration = number;
  time_delta = number;
}

number-PrefixFree : PrefixFree number
number-PrefixFree a b xs ys e = (cc, cc)

bit-PrefixFree : PrefixFree bit
bit-PrefixFree false false xs ys e = (refl, cc)
bit-PrefixFree true true xs ys e = (refl, cc)
bit-PrefixFree false true xs ys e = cc
bit-PrefixFree true false xs ys e = cc

same_length :
    (cs bs xs ys : List ℕ) → length cs ≡ length bs → cs ++ xs ≡ bs ++ ys → (cs ≡ bs) × (xs ≡ ys)
same_length [] [] xs ys l e = (refl, e)
same_length [] (b ∷ bs) xs ys l e = absurd (omega (arith, l))
same_length (a ∷ more) [] xs ys l e = absurd (omega (arith, l))
same_length (a ∷ more) (b ∷ bs) xs ys l e =
    let (q, rest) = same_length more bs xs ys (omega (arith, l)) (cc) in (ap₂ ◌∷◌ (cc) q, rest)

counted-PrefixFree : PrefixFree counted
counted-PrefixFree a b xs ys e = same_length a b xs ys (cc) (cc)

plain-HashLaws : HashLaws plain
plain-HashLaws = record {
  bool_law = bit-PrefixFree;
  u8_law = number-PrefixFree;
  u64_law = number-PrefixFree;
  i32_law = number-PrefixFree;
  usize_law = number-PrefixFree;
  discriminant_law = number-PrefixFree;
  signals_law = counted-PrefixFree;
  static_str_law = number-PrefixFree;
  level_law = number-PrefixFree;
  path_law = number-PrefixFree;
  text_law = counted-PrefixFree;
  facility_law = number-PrefixFree;
  duration_law = number-PrefixFree;
  time_delta_law = number-PrefixFree;
}

abbrev two_bytes : LogFormat ℕ
two_bytes = record { time_fmt = 4; format_fn = λ r. r.now ∷ r.record_of ∷ [] }

abbrev three_sinks : Builder (SinkConfig ℕ ℕ ℕ)
three_sinks = record {
  dynamic = true;
  rotation_signals = 10 ∷ 12 ∷ [];
  panic_hook = true;
  force_abort_on_panic = false;
  sinks =
      buf_config (record {
        level = 3;
        format = two_bytes;
        file_path = 8;
        flush_millis = 100;
        rotation = some (record {
          by_age = none;
          by_size = some 1000;
          time_fmt = none;
          upkeep = count 5;
          archive_dir = none;
          compress_exclude = some 1;
        });
        flush_size = 4096;
      })
      ∷ console_config (record { target = stdout; level = 4; format = two_bytes })
      ∷ syslog_config (record {
        facility = 1;
        process = none;
        hostname = some (codes "here");
        level = 5;
        server = none;
        timeout = 5000;
      })
      ∷ [];
  tracing_global = false;
}

abbrev traced : Builder (SinkConfig ℕ ℕ ℕ)
traced = record three_sinks { tracing_global = true }

fed_determines_example :
    (true ≡ true)
    × (◌≡◌ {A = List ℕ} (10 ∷ 12 ∷ []) (10 ∷ 12 ∷ []))
    × (true ≡ true)
    × (false ≡ false)
    × AllSame plain three_sinks.sinks traced.sinks
fed_determines_example =
    fed_determines plain plain-HashLaws three_sinks traced refl (unfold fed in refl)
