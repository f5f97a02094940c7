-- ===== src/Stix/Tests.antt =====
-- Concrete STIX objects (src/prow/stix/_validate.py).
use prow_cti.Json.{Fields, Items, arr, cons, elements, end, field, get, is_text, nil, obj, str}
use prow_cti.Prelude.{
  String, [], arith, eqb, false, if◌then◌else◌, leb, none, refl, some, true, ◌&&◌, ◌==◌, ◌↔◌, ◌≡◌,
}
use prow_cti.Stix.Validate.{
  Schema, custom_type_minimal, is_stix_id, starts_with, validate_stix_object, verdict,
}
use prow_cti.Stix.Validate.Custom.{IsCustom, validate_stix_object-IsCustom}
use prow_cti.Stix.Validate.Accepts.{accepts_item, every, is_accepted, validate_stix_object-bundle}
use mathlib.Core.Path.{subst}

abbrev schema : Schema
schema = record {
  bundle_errors = λ o. [];
  validators = λ t. if t == "indicator" then some (λ o. []) else none;
  is_space = λ c. eqb c b' ';
  is_word = λ c. leb b'0' c;
  unknown_type = λ t. t;
  invalid_identifier = λ t. t;
  wrong_prefix = λ t. t;
  expected_object = λ i t. t;
  at_index = λ i t. t;
}

abbrev custom_id : String
custom_id = "x-note--01234567-89ab-4cde-8f01-23456789abcd"

abbrev custom_object : Fields
custom_object =
    field "type" (str "x-note") (field "id" (str custom_id) (field "spec_version" (str "2.1") end))

abbrev items : Items
items = cons (obj (field "type" (str "indicator") end)) (cons (obj custom_object) nil)

abbrev bundle : Fields
bundle = field "type" (str "bundle") (field "objects" (arr items) end)

bundle_parts :
    (is_text "bundle" (get bundle "type") ≡ true) × (get bundle "objects" ≡ some (arr items))
unfolding get
bundle_parts = (refl, refl)

validate_stix_object-bundle_example :
    is_accepted (validate_stix_object schema true bundle)
    ≡ (true && every (accepts_item schema true) (elements items))
validate_stix_object-bundle_example =
    validate_stix_object-bundle schema true bundle items bundle_parts.0 bundle_parts.1

custom_is_unknown :
    (stix_type : String)
    → get custom_object "type" ≡ some (str stix_type)
    → schema.validators stix_type ≡ none
unfolding get
custom_is_unknown stix_type h =
    let same : "x-note" ≡ stix_type = ground arith in
    subst (λ t. schema.validators t ≡ none) same refl

custom_is_no_bundle : is_text "bundle" (get custom_object "type") ≡ false
unfolding get
custom_is_no_bundle = refl

validate_stix_object-IsCustom_example :
    is_accepted (validate_stix_object schema true custom_object) ≡ true
    ↔ ((true ≡ true) × IsCustom schema custom_object)
validate_stix_object-IsCustom_example =
    validate_stix_object-IsCustom schema true custom_object custom_is_no_bundle custom_is_unknown

-- The identifier of the custom object is one, and so it is accepted.
custom_id-stix_id : is_stix_id schema custom_id ≡ true
unfolding is_stix_id
custom_id-stix_id = refl

custom_object-accepted : is_accepted (validate_stix_object schema true custom_object) ≡ true
unfolding validate_stix_object verdict custom_type_minimal is_stix_id starts_with get
custom_object-accepted = refl

custom_object-refused : is_accepted (validate_stix_object schema false custom_object) ≡ false
unfolding validate_stix_object verdict get
custom_object-refused = refl
