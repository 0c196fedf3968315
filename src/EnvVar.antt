-- ===== src/EnvVar.antt =====
-- src/env.rs: settings that are read from the environment, with a default.
use captains_log.Base.{ℕ, List, Option, none, some, Bool, Text, is_empty, if◌then◌else◌}

-- The value of a variable: Unicode, or other bytes.
pub data OsText : Type 0 where
  unicode : Text → OsText
  bytes : List ℕ → OsText

abbrev pub Environment : Type 0
Environment = Text → Option OsText

-- std::env::var; a value that is not Unicode is an error.
unfoldable pub var : Environment → Text → Option Text
var env name = elim (env name) [ none ↦ none | some (unicode s) ↦ some s | some (bytes b) ↦ none ]

pub record EnvVarDefault (A : Type 0) : Type 0 where
  pub name : Text
  pub default : A

unfoldable pub env_or : {A : Type 0} → Text → A → EnvVarDefault A
env_or name default = record { name = name; default = default }

unfoldable pub to_string : Environment → EnvVarDefault Text → Text
unfolding var
to_string env val = elim (var env val.name) [ none ↦ val.default | some v ↦ v ]

abbrev os_is_empty : OsText → Bool
os_is_empty (unicode s) = is_empty s
os_is_empty (bytes b) = is_empty b

-- An empty value is no path. `from_os` makes a path of a value.
unfoldable pub to_path : {P : Type 0} → (OsText → P) → Environment → EnvVarDefault P → P
to_path from_os env val = elim (env val.name) [
  | none ↦ val.default
  | some v ↦ if os_is_empty v then val.default else from_os v
]

-- `impl_from_env`, by the type's `from_str`.
unfoldable pub parsed : {A : Type 0} → (Text → Option A) → Environment → EnvVarDefault A → A
unfolding var
parsed from_str env val = elim (var env val.name) [
  | none ↦ val.default
  | some v ↦ elim (from_str v) [ none ↦ val.default | some r ↦ r ]
]
