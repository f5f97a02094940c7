-- ===== src/Db/Tests.antt =====
-- Concrete inputs for the persistence (src/prow/db).
use prow_cti.Db.Ingest.{Validation, check_items, ingest_stix_bundle, validate_and_partition_bundle}
use prow_cti.Db.Ingest.Account.{ingest_stix_bundle-account, ingest_stix_bundle-again}
use prow_cti.Db.Ingest.Stored.{AllValid, ingest_stix_bundle-AllValid}
use prow_cti.Db.Repository.{
  Database, Index, Row, bulk_insert_dedupe, bulk_insert_rows, epoch, insert_batches, is_versioned,
  row_dict, row_dicts, sco_index, versioned_index,
}
use prow_cti.Db.Repository.Dedupe.{IsPostgres, bulk_insert_rows-lem, clashes, insert_each}
use prow_cti.Db.StixFields.{extract_stix_persistence_fields, parse_stix_datetime, returned}
use prow_cti.Json.{
  Fields, Items, arr, cons, elements, end, field, get, nil, non_empty, null, obj, str,
}
use prow_cti.Prelude.{
  List, Option, String, [], arith, false, filter, length, length-append, none, not, refl, some, ℕ,
  ◌++◌, ◌+◌, ◌-◌, ◌∷◌, ◌≡◌, ◌≤◌,
}
use prow_cti.Protocol.Messages.{EmitAckPayload}

-- A database that is its list of rows.
abbrev pub list_db : Database (List Row)
list_db = record {
  rows = λ t. t;
  insert_do_nothing = λ i rs t. (insert_each i rs t, length (insert_each i rs t) - length t);
}

length-insert_each-ge :
    (i : Index) (rs table : List Row) → length table ≤ length (insert_each i rs table)
unfolding insert_each
length-insert_each-ge i [] table = omega arith
length-insert_each-ge i (r ∷ rs) table = ground (
  arith,
  length-insert_each-ge i rs table,
  length-insert_each-ge i rs (table ++ (r ∷ [])),
  length-append table (r ∷ []),
)

pub list_db-IsPostgres : IsPostgres list_db
list_db-IsPostgres = record {
  inserted = λ i rs t. refl;
  counted = λ i rs t. omega (arith, length-insert_each-ge i rs t);
}

-- Every text is the same point in time.
abbrev pub one_time : String → Option ℕ
one_time s = some 7

abbrev pub indicator : String → Fields
indicator id =
    field "type" (str "indicator")
      (field "id" (str id) (field "modified" (str "2026-01-01T00:00:00Z") end))

abbrev pub address : Fields
address = field "type" (str "ipv4-addr") (field "id" (str "ipv4-addr-1") end)

-- Objects without a type are refused.
abbrev pub validation : Validation
validation = record {
  python_str = λ j. "?";
  expected_object = λ index name. name;
  validate_stix_object = λ allow o. elim (non_empty (get o "type")) [
    | some t ↦ []
    | none ↦ "<root>: 'type' is required" ∷ []
  ];
}

abbrev pub items : Items
items =
    cons (obj (indicator "indicator-1"))
      (cons (obj address) (cons (obj (field "id" (str "x") end)) (cons null nil)))

abbrev pub bundle_fields : Fields
bundle_fields =
    field "type" (str "bundle") (field "id" (str "bundle-1") (field "objects" (arr items) end))

bundle_parts :
    (get bundle_fields "type" ≡ some (str "bundle"))
    × (non_empty (get bundle_fields "id") ≡ some "bundle-1")
    × (get bundle_fields "objects" ≡ some (arr items))
unfolding get
bundle_parts = (refl, refl, refl)

-- Three rows: an indicator twice and an address.
abbrev pub row : String → Option ℕ → Fields → Row
row id modified raw = record {
  id = id;
  type_name = "indicator";
  spec_version = "2.1";
  created = epoch;
  modified = modified;
  created_by_ref = none;
  revoked = false;
  confidence = none;
  source_connector_instance_id = "mitre";
  raw = raw;
}

abbrev three_rows : List Row
three_rows =
    row "indicator-1" (some 7) end ∷ row "address-1" none end ∷ row "indicator-1" (some 7) end ∷ []

bulk_insert_rows-lem_example :
    (t' : List Row) × (accepted : ℕ) × (duplicates : ℕ) × (bulk_insert_rows list_db 2 three_rows []
      ≡ some (t', accepted, duplicates))
    × (t'
        ≡ insert_each sco_index
            (filter (λ r. not (is_versioned r)) three_rows)
            (insert_each versioned_index (filter is_versioned three_rows) []))
    × (accepted + 0 ≡ length t')
    × (accepted + duplicates ≡ length three_rows)
bulk_insert_rows-lem_example =
    bulk_insert_rows-lem list_db list_db-IsPostgres 2 three_rows [] (omega arith)

abbrev two_rows : List Row
two_rows = row "indicator-1" (some 7) end ∷ row "address-1" none end ∷ []

three-inserted : bulk_insert_rows list_db 2 three_rows [] ≡ some (two_rows, 2, 1)
unfolding bulk_insert_rows insert_batches insert_each clashes filter
three-inserted = refl

abbrev pub bundle_rows : List Row
bundle_rows =
    row "indicator-1" (some 7) (indicator "indicator-1")
    ∷ record (row "ipv4-addr-1" none address) { type_name = "ipv4-addr" }
    ∷ []

bundle-row_dicts :
    row_dicts one_time "mitre"
      (validate_and_partition_bundle validation false (obj bundle_fields)).0
    ≡ returned bundle_rows
unfolding row_dicts row_dict extract_stix_persistence_fields parse_stix_datetime
    validate_and_partition_bundle check_items get elements
bundle-row_dicts = refl

ingest_stix_bundle-account_example :
    (t' : List Row) × (told : EmitAckPayload) × (ingest_stix_bundle validation list_db one_time
        false "mitre" 500
        (obj bundle_fields)
        []
      ≡ returned (some (t', told)))
    × (told.accepted + 0 ≡ length t')
    × (told.accepted + told.duplicates
        ≡ length (validate_and_partition_bundle validation false (obj bundle_fields)).0)
    × (told.validation_failures
        ≡ (validate_and_partition_bundle validation false (obj bundle_fields)).1)
ingest_stix_bundle-account_example =
    ingest_stix_bundle-account validation list_db list_db-IsPostgres one_time false "mitre" 500
      (obj bundle_fields) bundle_rows [] (omega arith) bundle-row_dicts

abbrev pub told_first : EmitAckPayload
told_first = record {
  accepted = 2;
  duplicates = 0;
  validation_failures =
      record { object_id = "x"; error = "<root>: 'type' is required" }
      ∷ record { object_id = "bundle-1"; error = "NoneType" }
      ∷ [];
}

pub bundle-ingested :
    ingest_stix_bundle validation list_db one_time false "mitre" 500 (obj bundle_fields) []
    ≡ returned (some (bundle_rows, told_first))
unfolding ingest_stix_bundle bulk_insert_dedupe bulk_insert_rows insert_batches insert_each clashes
    filter row_dicts row_dict extract_stix_persistence_fields parse_stix_datetime
    validate_and_partition_bundle check_items get elements
bundle-ingested = refl

ingest_stix_bundle-again_example :
    (t'' : List Row) × (told' : EmitAckPayload) × (ingest_stix_bundle validation list_db one_time
        false "mitre" 1
        (obj bundle_fields)
        bundle_rows
      ≡ returned (some (t'', told')))
    × (told'.accepted ≡ 0)
    × (told'.duplicates
        ≡ length (validate_and_partition_bundle validation false (obj bundle_fields)).0)
    × (t'' ≡ bundle_rows)
ingest_stix_bundle-again_example =
    ingest_stix_bundle-again validation list_db list_db-IsPostgres one_time false "mitre" 500 1
      (obj bundle_fields) bundle_rows [] bundle_rows told_first (omega arith) (omega arith)
      bundle-row_dicts bundle-ingested

ingest_stix_bundle-AllValid_example : AllValid validation false bundle_rows
ingest_stix_bundle-AllValid_example =
    ingest_stix_bundle-AllValid validation false one_time "mitre" list_db list_db-IsPostgres 500
      (obj bundle_fields) bundle_rows [] bundle_rows told_first (omega arith) bundle-row_dicts
      bundle-ingested tt
