-- ===== src/Db/Ingest.antt =====
-- The validation and persistence of a bundle (src/prow/db/ingest.py).
use prow_cti.Db.Repository.{Database, bulk_insert_dedupe}
use prow_cti.Db.StixFields.{Outcome, Timestamp, returned, ◌>>=◌}
use prow_cti.Json.{Fields, Json, arr, elements, get, is_text, non_empty, obj, type_name}
use prow_cti.Prelude.{
  Bool, List, Option, String, [], if◌then◌else◌, map, none, some, suc, ℕ, ◌++◌, ◌∷◌,
}
use prow_cti.Protocol.Messages.{EmitAckPayload, ValidationFailure, error}
use prow_cti.Stix.Validate.{validate_stix_object}
pub mod Stored
pub mod Partition
pub mod Account

-- What the code takes from elsewhere: Python's `str`, the message of an item that is no object (from its
-- index and its type's name), and `validate_stix_object`, which gives the errors that it raises, or none.
pub record Validation : Type 0 where
  pub python_str : Json → String
  pub expected_object : ℕ → String → String
  pub validate_stix_object : Bool → Fields → List String

abbrev pub failure : String → String → ValidationFailure
failure object_id message = record { object_id = object_id; error = message }

abbrev or_else : Option String → String → String
or_else (some s) d = s
or_else none d = d

abbrev pub cons_accepted : Option Fields → List Fields → List Fields
cons_accepted (some o) os = o ∷ os
cons_accepted none os = os

module _ (va : Validation) where
  abbrev str_of : Option Json → String
  str_of (some j) = va.python_str j
  str_of none = "unknown"

  -- `stix_validation_error_to_failures`
  unfoldable pub stix_validation_error_to_failures : Fields → List String → List ValidationFailure
  stix_validation_error_to_failures source errors =
      map (failure (or_else (non_empty (get source "id")) "unknown")) errors

  -- One item of the bundle: accepted, or its failures.
  abbrev pub check_item : Bool → String → ℕ → Json → Option Fields × List ValidationFailure
  check_item allow bundle_id index (obj o) = elim (va.validate_stix_object allow o) [
    | [] ↦ (some o, [])
    | (e ∷ es) ↦ (none, map (failure (or_else (non_empty (get o "id")) bundle_id)) (e ∷ es))
  ]
  check_item allow bundle_id index item =
      (none, failure bundle_id (va.expected_object index (type_name item)) ∷ [])

  -- The loop over `enumerate(raw_objects)`.
  unfoldable pub check_items : Bool → String → ℕ → List Json → List Fields × List ValidationFailure
  check_items allow bundle_id index [] = ([], [])
  check_items allow bundle_id index (item ∷ items) =
      let one = check_item allow bundle_id index item in
      let rest = check_items allow bundle_id (suc index) items in
      (cons_accepted one.0 rest.0, one.1 ++ rest.1)

  abbrev check_objects : Bool → String → Option Json → List Fields × List ValidationFailure
  check_objects allow bundle_id (some (arr items)) = check_items allow bundle_id 0 (elements items)
  check_objects allow bundle_id _ = ([], failure bundle_id "bundle 'objects' must be an array" ∷ [])

  abbrev check_id : Bool → Fields → Option String → List Fields × List ValidationFailure
  check_id allow bundle (some bundle_id) = check_objects allow bundle_id (get bundle "objects")
  check_id allow bundle none = ([], failure "unknown" "bundle is missing a non-empty 'id'" ∷ [])

  -- `validate_and_partition_bundle`
  unfoldable pub validate_and_partition_bundle : Bool → Json → List Fields × List ValidationFailure
  validate_and_partition_bundle allow (obj bundle) =
      if is_text "bundle" (get bundle "type")
      then check_id allow bundle (non_empty (get bundle "id"))
      else ([], failure (str_of (get bundle "id")) "bundle 'type' must be 'bundle'" ∷ [])
  validate_and_partition_bundle allow _ =
      ([], failure "unknown" "bundle must be a JSON object" ∷ [])

  module _ {T : Type 0} (db : Database T) (fromisoformat : String → Option Timestamp) where
    abbrev pub acknowledge : List ValidationFailure → T × ℕ × ℕ → T × EmitAckPayload
    acknowledge failures (t, accepted, duplicates) =
        (t, record { accepted = accepted; duplicates = duplicates; validation_failures = failures })

    abbrev pub insert_valid :
        String
        → ℕ
        → List ValidationFailure
        → List Fields
        → T
        → Outcome (Option (T × EmitAckPayload))
    insert_valid source size failures [] t = returned (some (acknowledge failures (t, 0, 0)))
    insert_valid source size failures (o ∷ os) t =
        bulk_insert_dedupe db fromisoformat source size (o ∷ os) t >>= λ r.
        returned (elim r [ none ↦ none | some s ↦ some (acknowledge failures s) ])

    -- `ingest_stix_bundle`: the transaction is rolled back where it raises.
    unfoldable pub ingest_stix_bundle :
        Bool → String → ℕ → Json → T → Outcome (Option (T × EmitAckPayload))
    ingest_stix_bundle allow source size bundle t =
        let checked = validate_and_partition_bundle allow bundle in
        insert_valid source size checked.1 checked.0 t
