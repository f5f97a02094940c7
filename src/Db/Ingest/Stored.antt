-- ===== src/Db/Ingest/Stored.antt =====
-- That only validated objects are stored (src/prow/db/ingest.py).
use prow_cti.Db.Ingest.{
  Validation, check_id, check_item, check_items, check_objects, cons_accepted, ingest_stix_bundle,
  insert_valid, validate_and_partition_bundle,
}
use prow_cti.Db.Ingest.Account.{insert_valid-some}
use prow_cti.Db.Repository.{
  Database, Index, Row, is_versioned, row_dict, row_dicts, sco_index, versioned_index,
}
use prow_cti.Db.Repository.Dedupe.{IsPostgres, bulk_insert_rows-lem, clashes, insert_each}
use prow_cti.Db.StixFields.{
  Outcome, StixPersistenceFields, Timestamp, extract_stix_persistence_fields, raised_error,
  returned,
}
use prow_cti.Json.{
  Fields, Json, arr, bool, elements, float, get, int, is_text, non_empty, null, obj, str,
}
use prow_cti.Prelude.{
  All, Bool, Bool-cases, List, Option, String, [], arith, false, filter, inl, inr, none, not, refl,
  some, suc, sym, true, ℕ, ◌++◌, ◌∷◌, ◌≡◌, ◌≤◌,
}
use prow_cti.Protocol.Messages.{EmitAckPayload, ValidationFailure}
use mathlib.Core.Path.{subst}

abbrev no_errors : List String → Bool
no_errors [] = true
no_errors (e ∷ es) = false

-- The validation accepts the object.
abbrev pub is_valid : Validation → Bool → Fields → Bool
is_valid va allow o = no_errors (va.validate_stix_object allow o)

-- Every row holds a valid object.
abbrev pub AllValid : Validation → Bool → List Row → Type 0
AllValid va allow rows = All (λ r. is_valid va allow r.raw ≡ true) rows

module _ (va : Validation) (allow : Bool) where
  AllValid-append :
      (xs ys : List Row)
      → AllValid va allow xs
      → AllValid va allow ys
      → AllValid va allow (xs ++ ys)
  AllValid-append [] ys a b = b
  AllValid-append (x ∷ xs) ys (h, a) b = (h, AllValid-append xs ys a b)

  AllValid-filter :
      (keep : Row → Bool) (rs : List Row)
      → AllValid va allow rs
      → AllValid va allow (filter keep rs)
  unfolding filter
  AllValid-filter keep [] a = tt
  AllValid-filter keep (r ∷ rs) (h, a) = elim (Bool-cases (keep r)) [
    | inl yes' ↦ rw yes' (h, AllValid-filter keep rs a)
    | inr no' ↦ rw no' (AllValid-filter keep rs a)
  ]

  AllValid-insert_each :
      (i : Index) (rs table : List Row)
      → AllValid va allow rs
      → AllValid va allow table
      → AllValid va allow (insert_each i rs table)
  unfolding insert_each
  AllValid-insert_each i [] table a b = b
  AllValid-insert_each i (r ∷ rs) table (h, a) b = elim (Bool-cases (clashes i r table)) [
    | inl old ↦ rw old (AllValid-insert_each i rs table a b)
    | inr new ↦
        rw new (
          AllValid-insert_each i rs (table ++ (r ∷ [])) a
            (AllValid-append table (r ∷ []) b (h, tt)))
  ]

  check_item-valid :
      (bundle_id : String) (index : ℕ) (item : Json) (o : Fields)
      → (check_item va allow bundle_id index item).0 ≡ some o
      → is_valid va allow o ≡ true
  check_item-valid bundle_id index (obj x) o h = by_errors (va.validate_stix_object allow x) refl
    where
      by_errors :
          (es : List String) → va.validate_stix_object allow x ≡ es → is_valid va allow o ≡ true
      by_errors [] e =
          let same : x ≡ o = ground (arith, e, h) in
          subst (λ y. is_valid va allow y ≡ true) same (rw e refl)
      by_errors (y ∷ es) e = ground (arith, e, h)
  check_item-valid bundle_id index null o h = cc
  check_item-valid bundle_id index (bool b) o h = cc
  check_item-valid bundle_id index (int n) o h = cc
  check_item-valid bundle_id index (float f) o h = cc
  check_item-valid bundle_id index (str s) o h = cc
  check_item-valid bundle_id index (arr is) o h = cc

  cons_accepted-valid :
      (m : Option Fields) (os : List Fields)
      → ((o : Fields) → m ≡ some o → is_valid va allow o ≡ true)
      → All (λ o. is_valid va allow o ≡ true) os
      → All (λ o. is_valid va allow o ≡ true) (cons_accepted m os)
  cons_accepted-valid none os h a = a
  cons_accepted-valid (some o) os h a = (h o refl, a)

  check_items-valid :
      (bundle_id : String) (index : ℕ) (items : List Json)
      → All (λ o. is_valid va allow o ≡ true) (check_items va allow bundle_id index items).0
  unfolding check_items
  check_items-valid bundle_id index [] = tt
  check_items-valid bundle_id index (item ∷ items) =
      cons_accepted-valid (check_item va allow bundle_id index item).0
        (check_items va allow bundle_id (suc index) items).0 (check_item-valid bundle_id index item)
        (check_items-valid bundle_id (suc index) items)

  check_objects-valid :
      (bundle_id : String) (objects : Option Json)
      → All (λ o. is_valid va allow o ≡ true) (check_objects va allow bundle_id objects).0
  check_objects-valid bundle_id (some (arr items)) = check_items-valid bundle_id 0 (elements items)
  check_objects-valid bundle_id none = tt
  check_objects-valid bundle_id (some null) = tt
  check_objects-valid bundle_id (some (bool b)) = tt
  check_objects-valid bundle_id (some (int n)) = tt
  check_objects-valid bundle_id (some (float f)) = tt
  check_objects-valid bundle_id (some (str s)) = tt
  check_objects-valid bundle_id (some (obj o)) = tt

  check_id-valid :
      (bundle : Fields) (id : Option String)
      → All (λ o. is_valid va allow o ≡ true) (check_id va allow bundle id).0
  check_id-valid bundle (some id) = check_objects-valid id (get bundle "objects")
  check_id-valid bundle none = tt

  partition-valid :
      (bundle : Json)
      → All (λ o. is_valid va allow o ≡ true) (validate_and_partition_bundle va allow bundle).0
  unfolding validate_and_partition_bundle
  partition-valid (obj bundle) = elim (Bool-cases (is_text "bundle" (get bundle "type"))) [
    | inl right ↦
        let same : validate_and_partition_bundle va allow (obj bundle)
            ≡ check_id va allow bundle (non_empty (get bundle "id")) =
          ground (arith, right) in
        subst (λ c. All (λ o. is_valid va allow o ≡ true) c.0) (sym same)
          (check_id-valid bundle (non_empty (get bundle "id")))
    | inr wrong ↦
        let same : (validate_and_partition_bundle va allow (obj bundle)).0 ≡ [] =
          ground (arith, wrong) in
        subst (All (λ o. is_valid va allow o ≡ true)) (sym same) tt
  ]
  partition-valid null = tt
  partition-valid (bool b) = tt
  partition-valid (int n) = tt
  partition-valid (float f) = tt
  partition-valid (str s) = tt
  partition-valid (arr is) = tt

module _ (va : Validation) (allow : Bool) (fromisoformat : String → Option Timestamp)
    (source : String) where
  row_dict-raw : (o : Fields) (r : Row) → row_dict fromisoformat source o ≡ returned r → r.raw ≡ o
  unfolding row_dict
  row_dict-raw o r e = by_fields (extract_stix_persistence_fields fromisoformat o) refl
    where
      by_fields :
          (x : Outcome StixPersistenceFields)
          → extract_stix_persistence_fields fromisoformat o ≡ x
          → r.raw ≡ o
      by_fields (returned f) g = ground (arith, e, g)
      by_fields (raised_error x) g = ground (arith, e, g)

  row_dicts-valid :
      (os : List Fields) (rs : List Row)
      → row_dicts fromisoformat source os ≡ returned rs
      → All (λ o. is_valid va allow o ≡ true) os
      → AllValid va allow rs
  unfolding row_dicts
  row_dicts-valid [] rs e a =
      let none_made : [] ≡ rs = ground (arith, e) in subst (AllValid va allow) none_made tt
  row_dicts-valid (o ∷ os) rs e (h, a) =
      by_rest (row_dict fromisoformat source o) (row_dicts fromisoformat source os) refl refl
        (λ ss f. row_dicts-valid os ss f a)
    where
      by_rest :
          (x : Outcome Row) (y : Outcome (List Row))
          → row_dict fromisoformat source o ≡ x
          → row_dicts fromisoformat source os ≡ y
          → ((ss : List Row)
              → row_dicts fromisoformat source os ≡ returned ss
              → AllValid va allow ss)
          → AllValid va allow rs
      by_rest (returned r) (returned ss) f g k =
          let same : r ∷ ss ≡ rs = ground (arith, e, f, g) in
          subst (AllValid va allow) same
            (subst (λ x. is_valid va allow x ≡ true) (sym (row_dict-raw o r f)) h, k ss g)
      by_rest (returned r) (raised_error x) f g k =
          let no : ⊥ = ground (arith, e, f, g) in elim no [ ]
      by_rest (raised_error x) y f g k = let no : ⊥ = ground (arith, e, f) in elim no [ ]

  module _ {T : Type 0} (db : Database T) (pg : IsPostgres db) where
    insert_valid-stored :
        (size : ℕ) (failures : List ValidationFailure) (valid : List Fields) (rs : List Row)
        (t t' : T) (told : EmitAckPayload)
        → 1 ≤ size
        → row_dicts fromisoformat source valid ≡ returned rs
        → insert_valid va db fromisoformat source size failures valid t ≡ returned (some (t', told))
        → AllValid va allow rs
        → AllValid va allow (db.rows t)
        → AllValid va allow (db.rows t')
    insert_valid-stored size failures [] rs t t' told h e f a b =
        let same : t ≡ t' = ground (arith, f) in subst (λ u. AllValid va allow (db.rows u)) same b
    insert_valid-stored size failures (o ∷ os) rs t t' told h e f a b =
        let (u, n, d, g, all', grown, sum) = bulk_insert_rows-lem db pg size rs t h in
        let here : u ≡ t' = ground (
          arith,
          f,
          insert_valid-some va db pg fromisoformat allow source size failures o os rs t u n d h e g,
        ) in
        subst (λ w. AllValid va allow (db.rows w)) here
          (subst (AllValid va allow) (sym all') (
            AllValid-insert_each va allow sco_index (filter (λ r. not (is_versioned r)) rs)
              (insert_each versioned_index (filter is_versioned rs) (db.rows t))
              (AllValid-filter va allow (λ r. not (is_versioned r)) rs a)
              (AllValid-insert_each va allow versioned_index (filter is_versioned rs) (db.rows t)
                (AllValid-filter va allow is_versioned rs a) b)))

    -- Ingestion keeps the table valid: if every stored row holds an object that the validation accepts,
    -- then so does every row after any bundle is ingested, whatever the bundle holds.
    pub ingest_stix_bundle-AllValid :
        (size : ℕ) (bundle : Json) (rs : List Row) (t t' : T) (told : EmitAckPayload)
        → 1 ≤ size
        → row_dicts fromisoformat source (validate_and_partition_bundle va allow bundle).0
          ≡ returned rs
        → ingest_stix_bundle va db fromisoformat allow source size bundle t
          ≡ returned (some (t', told))
        → AllValid va allow (db.rows t)
        → AllValid va allow (db.rows t')
    unfolding ingest_stix_bundle
    ingest_stix_bundle-AllValid size bundle rs t t' told h e f b =
        let checked = validate_and_partition_bundle va allow bundle in
        insert_valid-stored size checked.1 checked.0 rs t t' told h e f
          (row_dicts-valid checked.0 rs e (partition-valid va allow bundle)) b
