-- ===== src/Db/StixFields.antt =====
-- The columns of a STIX object (src/prow/db/stix_fields.py).
use prow_cti.Json.{Fields, Json, bool, get, int, is_text, non_empty, null, str}
use prow_cti.Prelude.{Bool, Option, String, false, if◌then◌else◌, none, some, ℕ}
use prow_cti.Prelude.Int.{pos, ℤ}

-- The exceptions that the code raises itself.
pub data PyError : Type 0 where
  value_error type_error : PyError

pub data Outcome {ℓ} (A : Type ℓ) : Type ℓ where
  returned : A → Outcome A
  raised_error : PyError → Outcome A

infixl 5 ◌>>=◌
abbrev pub ◌>>=◌ {ℓ κ} : {A : Type ℓ} {B : Type κ} → Outcome A → (A → Outcome B) → Outcome B
returned a >>= f = f a
raised_error e >>= f = raised_error e

-- A point in time: microseconds since `datetime.min`, in UTC.
abbrev pub Timestamp : Type 0
Timestamp = ℕ

-- `StixPersistenceFields`
pub record StixPersistenceFields : Type 0 where
  pub stix_id : String
  pub stix_type : String
  pub spec_version : String
  pub created : Option Timestamp
  pub modified : Option Timestamp
  pub created_by_ref : Option String
  pub revoked : Bool
  pub confidence : Option ℤ

abbrev or_value_error : Option String → Outcome String
or_value_error (some s) = returned s
or_value_error none = raised_error value_error

-- `isinstance(value, str)`
abbrev pub as_str : Option Json → Option String
as_str (some (str s)) = some s
as_str _ = none

abbrev as_revoked : Option Json → Outcome Bool
as_revoked none = returned false
as_revoked (some (bool b)) = returned b
as_revoked _ = raised_error type_error

-- A `bool` is an `int` in Python.
abbrev as_confidence : Option Json → Outcome (Option ℤ)
as_confidence none = returned none
as_confidence (some null) = returned none
as_confidence (some (int n)) = returned (some n)
as_confidence (some (bool b)) = returned (some (if b then pos 1 else pos 0))
as_confidence _ = raised_error type_error

abbrev or_default : Option String → String
or_default (some s) = s
or_default none = "2.1"

abbrev all_three : Option String → Option String → Option String → Option (String × String × String)
all_three (some s) (some r) (some t) = some (s, r, t)
all_three _ _ _ = none

-- `relationship_triple_key`
unfoldable pub relationship_triple_key : Fields → Option (String × String × String)
relationship_triple_key o =
    if is_text "relationship" (get o "type")
    then all_three (as_str (get o "source_ref")) (as_str (get o "relationship_type"))
        (as_str (get o "target_ref"))
    else none

-- `fromisoformat` is `datetime.fromisoformat(value.replace("Z", "+00:00"))`, none where it raises.
module _ (fromisoformat : String → Option Timestamp) where
  abbrev of_string : Option Timestamp → Outcome (Option Timestamp)
  of_string (some t) = returned (some t)
  of_string none = raised_error value_error

  -- `parse_stix_datetime`, with the test for None of its callers: JSON holds no `datetime`.
  unfoldable pub parse_stix_datetime : Option Json → Outcome (Option Timestamp)
  parse_stix_datetime none = returned none
  parse_stix_datetime (some null) = returned none
  parse_stix_datetime (some (str s)) = of_string (fromisoformat s)
  parse_stix_datetime _ = raised_error type_error

  -- `extract_stix_persistence_fields`
  unfoldable pub extract_stix_persistence_fields : Fields → Outcome StixPersistenceFields
  extract_stix_persistence_fields o = or_value_error (non_empty (get o "id")) >>= λ i.
      or_value_error (non_empty (get o "type")) >>= λ t.
      parse_stix_datetime (get o "created") >>= λ c. parse_stix_datetime (get o "modified") >>= λ m.
      as_revoked (get o "revoked") >>= λ r. as_confidence (get o "confidence") >>= λ n.
      returned (record {
        stix_id = i;
        stix_type = t;
        spec_version = or_default (non_empty (get o "spec_version"));
        created = c;
        modified = m;
        created_by_ref = as_str (get o "created_by_ref");
        revoked = r;
        confidence = n;
      })
