-- ===== src/Stix/Validate.antt =====
-- The validation of STIX objects (src/prow/stix/_validate.py). The result is the list of errors that
-- `StixValidationError` carries; the empty list is that nothing is raised.
pub mod Custom
pub mod Form
pub mod Identifier
use prow_cti.Json.{
  Fields, Items, Json, arr, cons, end, field, get, is_text, nil, non_empty, obj, str, type_name,
}
use prow_cti.Prelude.{
  Bool, List, Option, String, [], drop, eqb, false, if◌then◌else◌, leb, length, map, none, not,
  some, suc, take, true, zero, ℕ, ◌&&◌, ◌++◌, ◌-◌, ◌==◌, ◌||◌, ◌∷◌,
}
use prow_cti.Prelude.Text.{codes}
pub mod Accepts
use Prim.Native.Char.{code}

-- jsonschema's validators, with their errors as `_format_error` renders them; Python's character
-- classes; and the texts of the messages that name a value.
pub record Schema : Type 0 where
  pub bundle_errors : Fields → List String
  pub validators : String → Option (Fields → List String)
  pub is_space : ℕ → Bool
  pub is_word : ℕ → Bool
  pub unknown_type : String → String
  pub invalid_identifier : String → String
  pub wrong_prefix : String → String
  pub expected_object : ℕ → String → String
  pub at_index : ℕ → String → String

abbrev pub all_of : (ℕ → Bool) → List ℕ → Bool
all_of test [] = true
all_of test (c ∷ cs) = test c && all_of test cs

abbrev pub is_hex : ℕ → Bool
is_hex c = (leb b'0' c && leb c b'9') || ((leb b'a' c && leb c b'f') || (leb b'A' c && leb c b'F'))

abbrev pub is_dash : ℕ → Bool
is_dash c = eqb c b'-'

abbrev pub is_version : ℕ → Bool
is_version c = leb b'1' c && leb c b'5'

abbrev pub is_variant : ℕ → Bool
is_variant c =
    eqb c b'8' || (eqb c b'9' || (eqb c b'a' || (eqb c b'b' || (eqb c b'A' || eqb c b'B'))))

abbrev pub hexes : ℕ → List (ℕ → Bool) → List (ℕ → Bool)
hexes zero classes = classes
hexes (suc n) classes = is_hex ∷ hexes n classes

-- `--`, and a UUID: one class for each character.
abbrev pub uuid_classes : List (ℕ → Bool)
uuid_classes =
    is_dash
    ∷ is_dash
    ∷ hexes 8 (
        is_dash
        ∷ hexes 4 (
            is_dash
            ∷ is_version
            ∷ hexes 3 (is_dash ∷ is_variant ∷ hexes 3 (is_dash ∷ hexes 12 []))))

abbrev pub fits_classes : List (ℕ → Bool) → List ℕ → Bool
fits_classes [] [] = true
fits_classes (test ∷ classes) (c ∷ cs) = test c && fits_classes classes cs
fits_classes _ _ = false

-- `startswith`
unfoldable pub starts_with : List ℕ → List ℕ → Bool
starts_with [] s = true
starts_with (c ∷ p) [] = false
starts_with (c ∷ p) (d ∷ s) = let rest = starts_with p s in eqb c d && rest

-- The text without a line break at its end, before which `$` matches as well.
abbrev pub chomped : List ℕ → List ℕ
chomped [] = []
chomped (c ∷ []) = if eqb c 10 then [] else c ∷ []
chomped (c ∷ d ∷ s) = c ∷ chomped (d ∷ s)

module _ (sc : Schema) where
  abbrev pub in_prefix : ℕ → Bool
  in_prefix c = sc.is_word c || (eqb c b'.' || is_dash c)

  abbrev pub has_form : List ℕ → Bool
  has_form s =
      let n = length s - 38 in
      leb 39 (length s) && (all_of in_prefix (take n s) && fits_classes uuid_classes (drop n s))

  -- `_STIX_ID_RE.match`
  unfoldable pub is_stix_id : String → Bool
  is_stix_id id = has_form (codes id) || has_form (chomped (codes id))

  -- `not value.strip()`
  abbrev pub is_blank_text : String → Bool
  is_blank_text s = all_of sc.is_space (codes s)

  abbrev pub not_blank : Option Json → Option String
  not_blank (some (str s)) = if is_blank_text s then none else some s
  not_blank _ = none

  abbrev pub check_identifier : String → Option String → List String
  check_identifier stix_type none = "object is missing a non-empty 'id' field" ∷ []
  check_identifier stix_type (some id) =
      if not (is_stix_id id)
      then sc.invalid_identifier id ∷ []
      else if starts_with (codes stix_type ++ b'-' ∷ b'-' ∷ []) (codes id)
      then []
      else sc.wrong_prefix stix_type ∷ []

  abbrev pub check_spec : Option Json → List String
  check_spec v = if is_text "2.1" v then [] else "spec_version must be '2.1'" ∷ []

  abbrev pub check_custom : Fields → Option String → List String
  check_custom o none = "object is missing a non-empty 'type' field" ∷ []
  check_custom o (some stix_type) =
      check_identifier stix_type (not_blank (get o "id")) ++ check_spec (get o "spec_version")

  -- `_validate_custom_type_minimal`
  unfoldable pub custom_type_minimal : Fields → List String
  custom_type_minimal o = check_custom o (not_blank (get o "type"))

  -- `_resolve_validator` and what follows it.
  abbrev pub by_type : Bool → Fields → Option String → List String
  by_type allow o none = "object is missing a non-empty 'type' field" ∷ []
  by_type allow o (some stix_type) = elim (sc.validators stix_type) [
    | some validator ↦ validator o
    | none ↦ if allow then custom_type_minimal o else sc.unknown_type stix_type ∷ []
  ]

  -- One object, given the errors of the objects in it.
  unfoldable pub verdict : Bool → Fields → List String → List String
  verdict allow o sub_errors =
      if is_text "bundle" (get o "type")
      then sc.bundle_errors o ++ sub_errors
      else by_type allow o (non_empty (get o "type"))

  -- The loop of `_validate_bundle` over `objects`, with the recursion into each object.
  unfoldable mutual
    pub objects_errors : Bool → Fields → List String
    objects_errors allow end = []
    objects_errors allow (field k v fs) =
        let rest = objects_errors allow fs in
        let here = value_errors allow v in if k == "objects" then here else rest

    pub value_errors : Bool → Json → List String
    value_errors allow (arr is) = items_errors allow 0 is
    value_errors allow _ = []

    pub items_errors : Bool → ℕ → Items → List String
    items_errors allow index nil = []
    items_errors allow index (cons (obj o) is) =
        map (sc.at_index index) (verdict allow o (objects_errors allow o))
        ++ items_errors allow (suc index) is
    items_errors allow index (cons j is) =
        sc.expected_object index (type_name j) ∷ items_errors allow (suc index) is

  -- `validate_stix_object`
  unfoldable pub validate_stix_object : Bool → Fields → List String
  validate_stix_object allow o = verdict allow o (objects_errors allow o)
