-- ===== src/Config/Tests.antt =====
-- A concrete configuration file and environment (src/prow/config/loader.py).
use prow_cti.Config.Loader.{
  System, apply_env_overrides, apply_override, builtin_defaults, env_overrides, find_config_file,
  from_mapping, load_config, parsed, set_nested, yaml_empty, yaml_mapping,
}
use prow_cti.Config.Loader.Overrides.{overridden, parsed-setting, setting}
use prow_cti.Config.Schema.{ConnectorInstanceConfig, resolve_ids, validate_unique_instance_ids}
use prow_cti.Config.Schema.Unique.{
  are_distinct, ids_from, none_blank, validate_unique_instance_ids-lem, with_ids,
}
use prow_cti.Json.{Fields, end, field, get, int, obj, put, str}
use prow_cti.Prelude.{
  Bool, Option, String, [], eqb, false, if◌then◌else◌, none, refl, some, true, ℕ, ◌&&◌, ◌==◌, ◌∷◌,
  ◌≡◌,
}
use prow_cti.Prelude.Dict.{insert, lookup}
use prow_cti.Prelude.Int.{pos, ℤ}
use prow_cti.Prelude.Text.{decimal_from}

-- {"api": {"host": "0.0.0.0", "port": 80}, "log": "verbose"}
abbrev file_mapping : Fields
file_mapping =
    field "api" (obj (field "host" (str "0.0.0.0") (field "port" (int (pos 80)) end)))
      (field "log" (str "verbose") end)

abbrev environ : String → Option String
environ name =
    if name == "PROW_API_PORT"
    then some "8080"
    else if name == "PROW_LOG_LEVEL"
    then some "debug"
    else none

abbrev int_of : String → Option ℤ
int_of text = if text == "8080" then some (pos 8080) else none

abbrev system : System
system = record {
  environ = environ;
  is_file = λ path. path == "prow.yml";
  safe_load = λ path. yaml_mapping file_mapping;
  int_of = int_of;
}

-- The `log` that is no mapping gives way to one.
abbrev built_mapping : Fields
built_mapping =
    field "api" (obj (field "host" (str "0.0.0.0") (field "port" (int (pos 8080)) end)))
      (field "log" (obj (field "level" (str "debug") end)) end)

file_mapping-parsed : parsed system (yaml_mapping file_mapping) ≡ from_mapping built_mapping
unfolding apply_env_overrides apply_override set_nested put get
file_mapping-parsed = refl

parsed-setting_example :
    setting "api" "port" built_mapping
    ≡ overridden system env_overrides "api" "port" (setting "api" "port" file_mapping)
parsed-setting_example =
    parsed-setting system "api" "port" file_mapping built_mapping file_mapping-parsed

port_overridden :
    overridden system env_overrides "api" "port" (setting "api" "port" file_mapping)
    ≡ some (int (pos 8080))
unfolding get
port_overridden = refl

system-loads : load_config system none ≡ from_mapping built_mapping
unfolding load_config find_config_file apply_env_overrides apply_override set_nested put get
system-loads = refl

-- A file that is named and missing gives the defaults.
named_missing :
    load_config
      record {
        environ = λ name. if name == "PROW_CONFIG_FILE" then some "missing.yml" else environ name;
        is_file = λ path. path == "prow.yml";
        safe_load = λ path. yaml_mapping file_mapping;
        int_of = int_of;
      }
      none
    ≡ builtin_defaults
unfolding load_config find_config_file
named_missing = refl

-- A port that is no number is an error.
bad_port :
    apply_env_overrides
      record {
        environ = λ name. if name == "PROW_API_PORT" then some "http" else none;
        is_file = λ path. false;
        safe_load = λ path. yaml_empty;
        int_of = int_of;
      }
      env_overrides
      file_mapping
    ≡ none
unfolding apply_env_overrides apply_override
bad_port = refl

abbrev connector : String → Option String → ConnectorInstanceConfig
connector name id = record {
  name = name;
  id = id;
  enabled = true;
  schedule = "1h";
  allow_custom_types = false;
  config = end;
}

abbrev is_blank_code : ℕ → Bool
is_blank_code c = eqb c b' '

two_ids :
    validate_unique_instance_ids is_blank_code
      (connector "urlhaus" none ∷ connector "urlhaus" none ∷ [])
    ≡ some (connector "urlhaus" (some "urlhaus-0") ∷ connector "urlhaus" (some "urlhaus-1") ∷ [])
unfolding validate_unique_instance_ids resolve_ids lookup insert decimal_from
two_ids = refl

-- An id of one's own may take the derived id of another.
taken_id :
    validate_unique_instance_ids is_blank_code
      (connector "urlhaus" (some "urlhaus-1") ∷ connector "urlhaus" none ∷ [])
    ≡ none
unfolding validate_unique_instance_ids resolve_ids lookup insert decimal_from
taken_id = refl

blank_id : validate_unique_instance_ids is_blank_code (connector "urlhaus" (some "  ") ∷ []) ≡ none
unfolding validate_unique_instance_ids resolve_ids
blank_id = refl

validate_unique_instance_ids-lem_example :
    let cs = connector "kev" none ∷ connector "kev" (some "kev") ∷ [] in
    validate_unique_instance_ids is_blank_code cs ≡ (
      if none_blank is_blank_code cs && are_distinct (ids_from 0 cs)
      then some (with_ids 0 cs)
      else none)
validate_unique_instance_ids-lem_example =
    validate_unique_instance_ids-lem is_blank_code
      (connector "kev" none ∷ connector "kev" (some "kev") ∷ [])
