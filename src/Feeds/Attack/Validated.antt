-- ===== src/Feeds/Attack/Validated.antt =====
-- The validation of the ATT&CK connector (src/prow/connectors/attack/connector.py).
use prow_cti.Feeds.Attack.{kept_object}
use prow_cti.Json.{Fields}
use prow_cti.Prelude.{Bool, [], arith, some, true, ◌≡◌}
use prow_cti.Stix.Validate.{Schema, validate_stix_object}

-- An object that the validation accepts with custom types allowed.
abbrev pub IsValid : Schema → Fields → Type 0
IsValid schema o = validate_stix_object schema true o ≡ []

pub kept_object-IsValid :
    (schema : Schema) (include : Bool) (item o : Fields)
    → kept_object schema include item ≡ some o
    → IsValid schema o
kept_object-IsValid schema include item o h = ground (arith)
