-- ===== src/Forward/Secrets.antt =====
-- The secret paths of a connector's configuration schema
-- (`collect_secret_field_paths` of src/prow/connector/entry_point_resolve.py).
use prow_cti.Json.{Fields, Json, bool, end, field, get, is_text, obj}
use prow_cti.Prelude.{
  Bool, List, Option, String, [], false, if◌then◌else◌, max, some, suc, true, zero, ℕ, ◌++◌, ◌==◌,
  ◌||◌, ◌∷◌,
}
use prow_cti.Prelude.Text.{concat}
pub mod Hidden
pub mod Complete

-- f"{prefix}.{key}" if prefix else key
unfoldable pub join_path : String → String → String
join_path prefix key = if prefix == "" then key else concat prefix (concat "." key)

-- `value is True`
abbrev pub is_true : Option Json → Bool
is_true (some (bool b)) = b
is_true _ = false

abbrev holds_any : Fields → Bool
holds_any end = false
holds_any (field k v fs) = true

-- `isinstance(nested_props, dict) and (sub_type == "object" or nested_props)`
abbrev nests : Option Json → Option Json → Bool
nests (some (obj props)) sub_type = is_text "object" sub_type || holds_any props
nests _ sub_type = false

-- What one property adds: its own path, and those that `deeper` finds under it.
unfoldable pub found_in : (String → Fields → List String) → String → String → Json → List String
found_in deeper prefix key (obj sub) =
    let path = join_path prefix key in
    (if is_true (get sub "secret") then path ∷ [] else [])
    ++ (if nests (get sub "properties") (get sub "type") then deeper path sub else [])
found_in deeper prefix key _ = []

-- The loop over `props.items()`.
unfoldable pub found_in_all : (String → Fields → List String) → String → Fields → List String
found_in_all deeper prefix end = []
found_in_all deeper prefix (field k v fs) =
    found_in deeper prefix k v ++ found_in_all deeper prefix fs

-- The recursion into nested schemas, on fuel: the depth of the schema is enough.
unfoldable pub collect : ℕ → String → Fields → List String
collect zero prefix schema = []
collect (suc fuel) prefix schema = elim (get schema "properties") [
  | some (obj props) ↦ found_in_all (collect fuel) prefix props
  | _ ↦ []
]

unfoldable mutual
  pub depth : Fields → ℕ
  depth end = 0
  depth (field k v fs) = max (depth_value v) (depth fs)

  pub depth_value : Json → ℕ
  depth_value (obj fs) = suc (depth fs)
  depth_value _ = 0

-- `collect_secret_field_paths`: the set, as a list.
unfoldable pub collect_secret_field_paths : Fields → List String
collect_secret_field_paths schema = collect (depth schema) "" schema
