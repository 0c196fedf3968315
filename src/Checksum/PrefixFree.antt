-- ===== src/Checksum/PrefixFree.antt =====
-- What the derived `Hash` of the parts of a configuration feeds is prefix-free, where it is for the
-- types that they are made of.
use captains_log.Base.{ℕ, List, [], ◌∷◌, ◌++◌, ◌≡◌, ◌≢◌, refl, ap, ap₂, none, some, arith, Text}
use captains_log.Rotation.Limits.{day, hour}
use captains_log.Rotation.Backend.{age, count, all}
use captains_log.Syslog.{tcp_server, udp_server, unix_server}
use captains_log.Checksum.{
  Feed, Hashes, option, hash_age, hash_by_age, hash_upkeep, hash_rotation, hash_addr, hash_syslog,
}

-- Nothing that is fed is the start of what is fed for another value, as the documentation of `Hash`
-- asks for.
abbrev pub PrefixFree : {A : Type 0} → Feed A → Type 0
PrefixFree {A} f = (a b : A) (xs ys : List ℕ) → f a xs ≡ f b ys → (a ≡ b) × (xs ≡ ys)

pub record HashLaws {L R P : Type 0} (h : Hashes L R P) : Type 0 where
  pub bool_law : PrefixFree h.bool
  pub u8_law : PrefixFree h.u8
  pub u64_law : PrefixFree h.u64
  pub i32_law : PrefixFree h.i32
  pub usize_law : PrefixFree h.usize
  pub discriminant_law : PrefixFree h.discriminant
  pub signals_law : PrefixFree h.signals
  pub static_str_law : PrefixFree h.static_str
  pub level_law : PrefixFree h.level
  pub path_law : PrefixFree h.path
  pub text_law : PrefixFree h.text
  pub facility_law : PrefixFree h.facility
  pub duration_law : PrefixFree h.duration
  pub time_delta_law : PrefixFree h.time_delta

pub append_cancel : (t : Text) (xs ys : List ℕ) → t ++ xs ≡ t ++ ys → xs ≡ ys
append_cancel [] xs ys e = e
append_cancel (c ∷ cs) xs ys e = append_cancel cs xs ys (cc)

module _ {L R P : Type 0} {h : Hashes L R P} (laws : HashLaws h) where
  open laws use {
    discriminant_law, bool_law, u64_law, static_str_law, usize_law, path_law, text_law, level_law,
  }

  other_discriminant :
      {A : Type 0} (i j : ℕ) (xs ys : List ℕ)
      → i ≢ j
      → h.discriminant i xs ≡ h.discriminant j ys
      → A
  other_discriminant i j xs ys d e = absurd (d (discriminant_law i j xs ys e).0)

  option-PrefixFree : {A : Type 0} (f : Feed A) → PrefixFree f → PrefixFree (option h f)
  option-PrefixFree f free none none xs ys e = (refl, (discriminant_law _ _ _ _ e).1)
  option-PrefixFree f free none (some b) xs ys e = other_discriminant 0 1 _ _ (omega arith) e
  option-PrefixFree f free (some a) none xs ys e = other_discriminant 1 0 _ _ (omega arith) e
  option-PrefixFree f free (some a) (some b) xs ys e =
      let (q, rest) = free a b xs ys (discriminant_law _ _ _ _ e).1 in (ap some q, rest)

  hash_age-PrefixFree : PrefixFree (hash_age h)
  unfolding hash_age
  hash_age-PrefixFree day day xs ys e = (refl, (discriminant_law _ _ _ _ e).1)
  hash_age-PrefixFree hour hour xs ys e = (refl, (discriminant_law _ _ _ _ e).1)
  hash_age-PrefixFree day hour xs ys e = other_discriminant 0 1 _ _ (omega arith) e
  hash_age-PrefixFree hour day xs ys e = other_discriminant 1 0 _ _ (omega arith) e

  hash_by_age-PrefixFree : PrefixFree (hash_by_age h)
  unfolding hash_by_age
  hash_by_age-PrefixFree a b xs ys e =
      let (t, e1) = hash_age-PrefixFree _ _ _ _ e in let (u, e2) = bool_law _ _ _ _ e1 in (cc, e2)

  hash_upkeep-PrefixFree : PrefixFree (hash_upkeep h)
  unfolding hash_upkeep
  hash_upkeep-PrefixFree (age c) (age d) xs ys e =
      let (q, rest) = laws.time_delta_law _ _ _ _ (discriminant_law _ _ _ _ e).1 in (ap age q, rest)
  hash_upkeep-PrefixFree (count m) (count n) xs ys e =
      let (q, rest) = usize_law _ _ _ _ (discriminant_law _ _ _ _ e).1 in (ap count q, rest)
  hash_upkeep-PrefixFree all all xs ys e = (refl, (discriminant_law _ _ _ _ e).1)
  hash_upkeep-PrefixFree (age c) (count n) xs ys e = other_discriminant 0 1 _ _ (omega arith) e
  hash_upkeep-PrefixFree (age c) all xs ys e = other_discriminant 0 2 _ _ (omega arith) e
  hash_upkeep-PrefixFree (count m) (age d) xs ys e = other_discriminant 1 0 _ _ (omega arith) e
  hash_upkeep-PrefixFree (count m) all xs ys e = other_discriminant 1 2 _ _ (omega arith) e
  hash_upkeep-PrefixFree all (age d) xs ys e = other_discriminant 2 0 _ _ (omega arith) e
  hash_upkeep-PrefixFree all (count n) xs ys e = other_discriminant 2 1 _ _ (omega arith) e

  pub hash_rotation-PrefixFree : PrefixFree (hash_rotation h)
  unfolding hash_rotation
  hash_rotation-PrefixFree a b xs ys e =
      let (q1, e1) = option-PrefixFree _ hash_by_age-PrefixFree _ _ _ _ e in
      let (q2, e2) = option-PrefixFree _ u64_law _ _ _ _ e1 in
      let (q3, e3) = option-PrefixFree _ static_str_law _ _ _ _ e2 in
      let (q4, e4) = hash_upkeep-PrefixFree _ _ _ _ e3 in
      let (q5, e5) = option-PrefixFree _ path_law _ _ _ _ e4 in
      let (q6, e6) = option-PrefixFree _ usize_law _ _ _ _ e5 in (cc, e6)

  hash_addr-PrefixFree : PrefixFree (hash_addr h)
  unfolding hash_addr
  hash_addr-PrefixFree (tcp_server s) (tcp_server t) xs ys e =
      let (q, rest) = text_law _ _ _ _ (discriminant_law _ _ _ _ e).1 in (ap tcp_server q, rest)
  hash_addr-PrefixFree (udp_server r s) (udp_server t u) xs ys e =
      let (q, e1) = text_law _ _ _ _ (discriminant_law _ _ _ _ e).1 in
      let (q1, rest) = text_law _ _ _ _ e1 in (ap₂ udp_server q q1, rest)
  hash_addr-PrefixFree (unix_server s) (unix_server t) xs ys e =
      let (q, rest) = path_law _ _ _ _ (discriminant_law _ _ _ _ e).1 in (ap unix_server q, rest)
  hash_addr-PrefixFree (tcp_server s) (udp_server t u) xs ys e =
      other_discriminant 0 1 _ _ (omega arith) e
  hash_addr-PrefixFree (tcp_server s) (unix_server t) xs ys e =
      other_discriminant 0 2 _ _ (omega arith) e
  hash_addr-PrefixFree (udp_server r s) (tcp_server t) xs ys e =
      other_discriminant 1 0 _ _ (omega arith) e
  hash_addr-PrefixFree (udp_server r s) (unix_server t) xs ys e =
      other_discriminant 1 2 _ _ (omega arith) e
  hash_addr-PrefixFree (unix_server s) (tcp_server t) xs ys e =
      other_discriminant 2 0 _ _ (omega arith) e
  hash_addr-PrefixFree (unix_server s) (udp_server t u) xs ys e =
      other_discriminant 2 1 _ _ (omega arith) e

  pub hash_syslog-PrefixFree : PrefixFree (hash_syslog h)
  unfolding hash_syslog
  hash_syslog-PrefixFree a b xs ys e =
      let (q1, e1) = laws.facility_law _ _ _ _ e in
      let (q2, e2) = option-PrefixFree _ text_law _ _ _ _ e1 in
      let (q3, e3) = option-PrefixFree _ text_law _ _ _ _ e2 in
      let (q4, e4) = level_law _ _ _ _ e3 in
      let (q5, e5) = laws.duration_law _ _ _ _ e4 in
      let (q6, e6) = option-PrefixFree _ hash_addr-PrefixFree _ _ _ _ e5 in (cc, e6)

  pub option_rotation-PrefixFree : PrefixFree (option h (hash_rotation h))
  option_rotation-PrefixFree = option-PrefixFree _ hash_rotation-PrefixFree
