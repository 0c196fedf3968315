-- ===== src/Filter/Tests.antt =====
-- Filters on the cells 1 and 2.
use captains_log.Base.{ℕ, ◌≡◌, none, some}
use captains_log.Filter.{
  Filter, log_filter, key_filter, shared, Site, set_level, source_of, private_api_log,
  do_log_filter, key_in,
}
use captains_log.Filter.Levels.{do_log_filter-set_level, cell_of}
use captains_log.Filter.Keys.{shared_key_lost}

abbrev here : Site
here = record { target = 1; module_path = 1; file = 2; line = 3 }

abbrev keyed : Filter ℕ
keyed = key_filter (shared (log_filter 1)) 7 77

do_log_filter-set_level_example : do_log_filter 5 5 (set_level 1 3 (λ c. 5)) keyed 4 9 here ≡ none
unfolding cell_of
do_log_filter-set_level_example = do_log_filter-set_level keyed 1 3 5 5 4 9 here (λ c. 5)

shared_key_lost_example :
    (key_in (private_api_log keyed 9 4 here).key_values 7 ≡ some 77)
    × (key_in (private_api_log (shared keyed) 9 4 here).key_values 7 ≡ none)
    × ((source_of (shared keyed)).get 7 ≡ some 77)
shared_key_lost_example = shared_key_lost (shared (log_filter 1)) 7 77 9 4 here 7
