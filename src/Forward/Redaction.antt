-- ===== src/Forward/Redaction.antt =====
-- The redaction of secrets in forwarded log records (src/prow/connector/log_forwarder.py).
use prow_cti.Json.{Fields, Json, end, field, obj, put, str}
use prow_cti.Prelude.{List, Option, String, [], eqb, if◌then◌else◌, none, some, ◌==◌, ◌∷◌}
use prow_cti.Supervisor.Health.{exception}
pub mod Hides
use Prim.Native.Char.{Char, code}

-- `value.split(".")`
abbrev prepend : Char → List String → List String
prepend c [] = []
prepend c (k ∷ ks) = (String.◌∷◌ c k) ∷ ks

unfoldable pub split_dots : String → List String
split_dots String.[] = "" ∷ []
split_dots (String.◌∷◌ c s) =
    let rest = split_dots s in if eqb (code c) b'.' then "" ∷ rest else prepend c rest

abbrev pub redacted : Json
redacted = str "<redacted>"

-- The walk of `_redact_at_path` along the parts of a path: a missing key or a value that is no
-- dictionary ends it.
unfoldable mutual
  pub redact_parts : List String → Fields → Fields
  redact_parts ps end = end
  redact_parts [] (field j v fs) = field j v fs
  redact_parts (p ∷ ps) (field j v fs) =
      let rest = redact_parts (p ∷ ps) fs in
      let inner = redact_value ps v in if j == p then field j inner fs else field j v rest

  pub redact_value : List String → Json → Json
  redact_value [] v = redacted
  redact_value (p ∷ ps) (obj fs) = obj (redact_parts (p ∷ ps) fs)
  redact_value (p ∷ ps) v = v

-- `_redact_at_path`
unfoldable pub redact_at_path : Fields → String → Fields
redact_at_path root dotted_path = redact_parts (split_dots dotted_path) root

-- The loop over the secret paths, in whatever order the set gives them.
unfoldable pub redact_all : List String → Fields → Fields
redact_all [] fields = fields
redact_all (path ∷ paths) fields = redact_all paths (redact_at_path fields path)

-- `LogPayload`, with the ISO text of its timestamp.
pub record LogPayload : Type 0 where
  pub message : String
  pub timestamp : String
  pub fields : Fields
  pub exception : Option String

abbrev with_exception : Option String → Fields → Fields
with_exception none kwargs = kwargs
with_exception (some e) kwargs = put "exc_info" (str e) kwargs

-- `forward`: the keyword arguments that the logger is called with.
unfoldable pub forward : List String → LogPayload → Fields
forward secret_field_paths payload = with_exception payload.exception (
    put "connector_timestamp" (str payload.timestamp)
      (redact_all secret_field_paths payload.fields))
