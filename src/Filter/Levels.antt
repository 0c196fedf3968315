-- ===== src/Filter/Levels.antt =====
-- The levels of the filters of src/filter.rs.
use captains_log.Base.{ℕ, ◌≡◌, refl, ap, Option, none, some, Bool, true, ◌&&◌, leb, if◌then◌else◌}
use captains_log.Filter.{
  Cells, equal, Filter, log_filter, global_filter, dummy_filter, key_filter, shared, Site,
  set_level, is_enabled, log_filter_is_enabled, global_filter_is_enabled, dummy_filter_is_enabled,
  private_api_log, do_log_filter,
}

-- What a level allows.
abbrev pub allows : Option ℕ → ℕ → Bool
allows none level = true
allows (some max) level = leb level max

-- The level of the filter's cell: the new one, if it is the cell that was set.
abbrev pub level_after : Option ℕ → ℕ → ℕ → Cells → Option ℕ
level_after none cell max cells = none
level_after (some c) cell max cells = some (if equal cell c then max else cells c)

module _ {V : Type 0} where
  -- The cell that decides for a filter, if there is one, through all its wrappers.
  unfoldable pub cell_of : Filter V → Option ℕ
  cell_of (log_filter cell) = some cell
  cell_of (global_filter cell) = some cell
  cell_of dummy_filter = none
  cell_of (key_filter inner key value) = cell_of inner
  cell_of (shared inner) = cell_of inner

  is_enabled_after :
      (f : Filter V) (cell max level : ℕ) (cells : Cells)
      → is_enabled f level (set_level cell max cells)
        ≡ allows (level_after (cell_of f) cell max cells) level
  unfolding is_enabled log_filter_is_enabled global_filter_is_enabled dummy_filter_is_enabled
      set_level cell_of
  is_enabled_after (log_filter c) cell max level cells = refl
  is_enabled_after (global_filter c) cell max level cells = refl
  is_enabled_after dummy_filter cell max level cells = refl
  is_enabled_after (key_filter f key value) cell max level cells =
      is_enabled_after f cell max level cells
  is_enabled_after (shared f) cell max level cells = is_enabled_after f cell max level cells

  -- After the level of a cell is set, a record goes to the global logger exactly if its level is within
  -- the level compiled in, the log crate's and the filter's, which is the new one for every filter on
  -- that cell, however it is wrapped, and the old one for the others; a dummy filter has no level.
  pub do_log_filter-set_level :
      (f : Filter V) (cell max static_max max_level level args : ℕ) (site : Site) (cells : Cells)
      → do_log_filter static_max max_level (set_level cell max cells) f level args site ≡ (
          if leb level static_max
            && (leb level max_level && allows (level_after (cell_of f) cell max cells) level)
          then some (private_api_log f args level site)
          else none)
  unfolding do_log_filter
  do_log_filter-set_level f cell max static_max max_level level args site cells =
      ap
        (λ b.
          if leb level static_max && (leb level max_level && b)
          then some (private_api_log f args level site)
          else none)
        (is_enabled_after f cell max level cells)
