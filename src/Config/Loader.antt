-- ===== src/Config/Loader.antt =====
-- The loading of the configuration (src/prow/config/loader.py).
pub mod Overrides
use prow_cti.Json.{Fields, Json, end, get, int, obj, put, str}
use prow_cti.Prelude.{
  Bool, List, Option, String, [], false, if◌then◌else◌, none, some, true, ◌==◌, ◌∷◌,
}
use prow_cti.Prelude.Int.{ℤ}

-- `_ENV_OVERRIDES`: the variable, the parts of the dotted path, and whether the cast is `int`.
pub record Override : Type 0 where
  pub env_name : String
  pub keys : List String
  pub is_int : Bool

abbrev pub override : String → List String → Bool → Override
override env_name keys is_int = record { env_name = env_name; keys = keys; is_int = is_int }

abbrev pub env_overrides : List Override
env_overrides =
    override "PROW_DATABASE_URL" ("database" ∷ "url" ∷ []) false
    ∷ override "PROW_DATABASE_POOL_SIZE" ("database" ∷ "pool_size" ∷ []) true
    ∷ override "PROW_API_HOST" ("api" ∷ "host" ∷ []) false
    ∷ override "PROW_API_PORT" ("api" ∷ "port" ∷ []) true
    ∷ override "PROW_LOG_LEVEL" ("log" ∷ "level" ∷ []) false
    ∷ []

-- A value that is no dictionary is replaced by an empty one.
abbrev pub nested_or_empty : Option Json → Fields
nested_or_empty (some (obj o)) = o
nested_or_empty _ = end

-- `_set_nested`
unfoldable pub set_nested : List String → Json → Fields → Fields
set_nested [] v o = o
set_nested (k ∷ []) v o = put k v o
set_nested (k ∷ l ∷ ks) v o = put k (obj (set_nested (l ∷ ks) v (nested_or_empty (get o k)))) o

-- What the process finds: its environment, which paths are files, what YAML makes of a file, and
-- Python's `int` on a text.
pub data Yaml : Type 0 where
  yaml_error yaml_empty yaml_other : Yaml
  yaml_mapping : Fields → Yaml

pub record System : Type 0 where
  pub environ : String → Option String
  pub is_file : String → Bool
  pub safe_load : String → Yaml
  pub int_of : String → Option ℤ

module _ (sys : System) where
  -- `cast(raw)`, none for a `ValueError`.
  abbrev pub cast : Bool → String → Option Json
  cast true raw = elim (sys.int_of raw) [ some n ↦ some (int n) | none ↦ none ]
  cast false raw = some (str raw)

  -- One round of the loop of `_apply_env_overrides`.
  unfoldable pub apply_override : Override → Fields → Option Fields
  apply_override ov o = elim (sys.environ ov.env_name) [
    | none ↦ some o
    | some raw ↦ elim (cast ov.is_int raw) [ none ↦ none | some v ↦ some (set_nested ov.keys v o) ]
  ]

  -- `_apply_env_overrides`, none where it raises.
  unfoldable pub apply_env_overrides : List Override → Fields → Option Fields
  apply_env_overrides [] o = some o
  apply_env_overrides (ov ∷ ovs) o = elim (apply_override ov o) [
    | none ↦ none
    | some p ↦ apply_env_overrides ovs p
  ]

  abbrev first_file : List String → Option String
  first_file [] = none
  first_file (f ∷ fs) = let rest = first_file fs in if sys.is_file f then some f else rest

  -- `_find_config_file`
  abbrev named_file : Option String → Option String
  named_file none = first_file ("prow.yml" ∷ "/etc/prow/prow.yml" ∷ [])
  named_file (some f) =
      let default_file = first_file ("prow.yml" ∷ "/etc/prow/prow.yml" ∷ []) in
      if f == "" then default_file else if sys.is_file f then some f else none

  unfoldable pub find_config_file : Option String
  find_config_file = named_file (sys.environ "PROW_CONFIG_FILE")

-- What `load_config` builds the configuration from, or raises.
pub data Loaded : Type 0 where
  builtin_defaults file_not_found value_error : Loaded
  from_mapping : Fields → Loaded

abbrev pub or_value_error : Option Fields → Loaded
or_value_error (some o) = from_mapping o
or_value_error none = value_error

abbrev pub parsed : System → Yaml → Loaded
parsed sys yaml_error = value_error
parsed sys yaml_other = value_error
parsed sys yaml_empty = or_value_error (apply_env_overrides sys env_overrides end)
parsed sys (yaml_mapping o) = or_value_error (apply_env_overrides sys env_overrides o)

abbrev load_file : System → String → Loaded
load_file sys f = if sys.is_file f then parsed sys (sys.safe_load f) else file_not_found

-- `load_config`
unfoldable pub load_config : System → Option String → Loaded
load_config sys (some path) = load_file sys path
load_config sys none = elim (find_config_file sys) [
  | none ↦ builtin_defaults
  | some f ↦ load_file sys f
]
