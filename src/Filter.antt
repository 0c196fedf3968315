-- ===== src/Filter.antt =====
-- src/filter.rs, and the test of `do_log_filter` in src/macros.rs: levels that are changed while the
-- program runs, and keys that go into the record. A level is its number in the log crate; the atomics
-- are cells of a store, and keys and texts are numbers.
pub mod Levels
pub mod Keys
mod Tests
use captains_log.Base.{
  ℕ, List, [], ◌∷◌, Option, none, some, Bool, true, false, ◌&&◌, ltb, leb, if◌then◌else◌,
}

-- The atomics, by their addresses.
abbrev pub Cells : Type 0
Cells = ℕ → ℕ

abbrev pub equal : ℕ → ℕ → Bool
equal a b = if ltb a b then false else if ltb b a then false else true

-- `LogFilter` and `GlobalFilter` both refer to a cell; `shared` is an `Arc` around a filter.
pub data Filter (V : Type 0) : Type 0 where
  log_filter global_filter : ℕ → Filter V
  dummy_filter : Filter V
  key_filter : Filter V → ℕ → V → Filter V
  shared : Filter V → Filter V

-- The number of the level `Trace`.
abbrev pub trace : ℕ
trace = 5

unfoldable pub set_level : ℕ → ℕ → Cells → Cells
set_level cell level cells = λ c. if equal cell c then level else cells c

-- `LogFilter::new` in a new cell.
unfoldable pub new_filter : {V : Type 0} → ℕ → Cells → Filter V × Cells
unfolding set_level
new_filter cell cells = (log_filter cell, set_level cell trace cells)

unfoldable pub get_level : ℕ → Cells → ℕ
get_level cell cells = cells cell

-- The target, the module, the file and the line.
pub record Site : Type 0 where
  pub target : ℕ
  pub module_path : ℕ
  pub file : ℕ
  pub line : ℕ

pub record Record (V : Type 0) : Type 0 where
  pub level : ℕ
  pub site : Site
  pub key_values : List (ℕ × V)
  pub args : ℕ

unfoldable pub log_filter_is_enabled : ℕ → ℕ → Cells → Bool
log_filter_is_enabled cell level cells = leb level (cells cell)

unfoldable pub global_filter_is_enabled : ℕ → ℕ → Cells → Bool
global_filter_is_enabled cell level cells = leb level (cells cell)

unfoldable pub dummy_filter_is_enabled : ℕ → Bool
dummy_filter_is_enabled level = true

-- `log::kv::Source`: what `visit` shows, `get` and `count`.
pub record Source (V : Type 0) : Type 0 where
  pub visit : List (ℕ × V)
  pub get : ℕ → Option V
  pub count : ℕ

module _ {V : Type 0} where
  unfoldable pub log_filter_source : Source V
  log_filter_source = record { visit = []; get = λ k. none; count = 0 }

  unfoldable pub global_filter_source : Source V
  global_filter_source = record { visit = []; get = λ k. none; count = 0 }

  unfoldable pub dummy_filter_source : Source V
  dummy_filter_source = record { visit = []; get = λ k. none; count = 0 }

  unfoldable pub key_filter_source : ℕ → V → Source V
  key_filter_source key value = record {
    visit = (key, value) ∷ [];
    get = λ k. if equal key k then some value else none;
    count = 1;
  }

  -- That of an `Arc` is the log crate's, and the inner one's.
  unfoldable pub source_of : Filter V → Source V
  unfolding log_filter_source global_filter_source dummy_filter_source key_filter_source
  source_of (log_filter cell) = log_filter_source
  source_of (global_filter cell) = global_filter_source
  source_of dummy_filter = dummy_filter_source
  source_of (key_filter inner key value) = key_filter_source key value
  source_of (shared inner) = source_of inner

  -- A key filter and an `Arc` ask the inner filter.
  unfoldable pub is_enabled : Filter V → ℕ → Cells → Bool
  unfolding log_filter_is_enabled global_filter_is_enabled dummy_filter_is_enabled
  is_enabled (log_filter cell) level cells = log_filter_is_enabled cell level cells
  is_enabled (global_filter cell) level cells = global_filter_is_enabled cell level cells
  is_enabled dummy_filter level cells = dummy_filter_is_enabled level
  is_enabled (key_filter inner key value) level cells = is_enabled inner level cells
  is_enabled (shared inner) level cells = is_enabled inner level cells

  -- The trait's `_private_api_log`.
  unfoldable pub default_api_log : ℕ → ℕ → Site → Record V
  default_api_log args level site = record {
    level = level;
    site = site;
    key_values = [];
    args = args;
  }

  -- That of a key filter adds what the filter shows.
  unfoldable pub key_filter_api_log : Source V → ℕ → ℕ → Site → Record V
  key_filter_api_log source args level site = record {
    level = level;
    site = site;
    key_values = source.visit;
    args = args;
  }

  -- Only a key filter has its own; an `Arc` around one has the trait's.
  unfoldable pub private_api_log : Filter V → ℕ → ℕ → Site → Record V
  unfolding default_api_log key_filter_api_log source_of
  private_api_log (log_filter cell) args level site = default_api_log args level site
  private_api_log (global_filter cell) args level site = default_api_log args level site
  private_api_log dummy_filter args level site = default_api_log args level site
  private_api_log (key_filter inner key value) args level site =
      key_filter_api_log (source_of (key_filter inner key value)) args level site
  private_api_log (shared inner) args level site = default_api_log args level site

  -- The record that the global logger gets, given the level that was compiled in and the log crate's.
  unfoldable pub do_log_filter : ℕ → ℕ → Cells → Filter V → ℕ → ℕ → Site → Option (Record V)
  unfolding is_enabled private_api_log
  do_log_filter static_max max_level cells filter level args site =
      if leb level static_max && (leb level max_level && is_enabled filter level cells)
      then some (private_api_log filter args level site)
      else none

  -- `FormatRecord::key` on a record: the value, or nothing.
  unfoldable pub key_in : List (ℕ × V) → ℕ → Option V
  key_in [] k = none
  key_in ((key, value) ∷ pairs) k =
      let rest = key_in pairs k in if equal key k then some value else rest
