-- ===== src/Filter/Keys.antt =====
-- The keys of the filters of src/filter.rs.
use captains_log.Base.{ℕ, ◌≡◌, refl, ap, none, some, true, arith, if◌then◌else◌}
use captains_log.Filter.{
  equal, Filter, key_filter, shared, Site, source_of, key_filter_source, default_api_log,
  key_filter_api_log, private_api_log, key_in,
}

equal_refl : (a : ℕ) → equal a a ≡ true
equal_refl a = ground arith

module _ {V : Type 0} where
  -- A record that is logged through a key filter has its key; through an `Arc` around the same filter,
  -- it has not, and neither has the record any other key.
  pub shared_key_lost :
      (f : Filter V) (key : ℕ) (value : V) (args level : ℕ) (site : Site) (k : ℕ)
      → (key_in (private_api_log (key_filter f key value) args level site).key_values key
          ≡ some value)
        × (key_in (private_api_log (shared (key_filter f key value)) args level site).key_values k
            ≡ none)
        × ((source_of (shared (key_filter f key value))).get key ≡ some value)
  unfolding key_in private_api_log default_api_log key_filter_api_log source_of key_filter_source
  shared_key_lost f key value args level site k =
      let e = equal_refl key in
      (ap (λ b. if b then some value else none) e, refl, ap (λ b. if b then some value else none) e)
