-- ===== src/Db/Repository.antt =====
-- The repositories over PostgreSQL (src/prow/db/repositories.py).
use prow_cti.Db.StixFields.{
  Outcome, Timestamp, extract_stix_persistence_fields, raised_error, returned, value_error, ◌>>=◌,
}
use prow_cti.Json.{Fields, type_name}
use prow_cti.Prelude.{
  Bool, List, Option, String, [], drop, false, filter, if◌then◌else◌, length, ltb, none, not, some,
  suc, take, true, zero, ℕ, ◌*◌, ◌+◌, ◌-◌, ◌^◌, ◌∷◌,
}
use prow_cti.Prelude.Int.{ℤ}
pub mod Repeat
pub mod Dedupe

-- A row of `stix_objects`, as `_row_dict` makes it.
pub record Row : Type 0 where
  pub id : String
  pub type_name : String
  pub spec_version : String
  pub created : Timestamp
  pub modified : Option Timestamp
  pub created_by_ref : Option String
  pub revoked : Bool
  pub confidence : Option ℤ
  pub source_connector_instance_id : String
  pub raw : Fields

-- `datetime(1970, 1, 1, tzinfo=UTC)`
abbrev pub epoch : Timestamp
epoch = 719162 * 86400 * 10 ^ 6

abbrev or_epoch : Option Timestamp → Timestamp
or_epoch (some t) = t
or_epoch none = epoch

-- The two partial unique indexes.
pub data Index : Type 0 where
  versioned_index sco_index : Index

-- What the repository uses of the database: the insertion of one statement with `ON CONFLICT DO NOTHING
-- … RETURNING`, which gives the number of rows returned.
pub record Database (T : Type 0) : Type 0 where
  pub rows : T → List Row
  pub insert_do_nothing : Index → List Row → T → T × ℕ

module _ (fromisoformat : String → Option Timestamp) (source : String) where
  -- `_row_dict`
  unfoldable pub row_dict : Fields → Outcome Row
  row_dict o = extract_stix_persistence_fields fromisoformat o >>= λ f. returned (record {
    id = f.stix_id;
    type_name = f.stix_type;
    spec_version = f.spec_version;
    created = or_epoch f.created;
    modified = f.modified;
    created_by_ref = f.created_by_ref;
    revoked = f.revoked;
    confidence = f.confidence;
    source_connector_instance_id = source;
    raw = o;
  })

  -- The rows of the objects, in their order.
  unfoldable pub row_dicts : List Fields → Outcome (List Row)
  row_dicts [] = returned []
  row_dicts (o ∷ os) = row_dict o >>= λ r. row_dicts os >>= λ rs. returned (r ∷ rs)

abbrev pub is_versioned : Row → Bool
is_versioned r = elim r.modified [ some m ↦ true | none ↦ false ]

module _ {T : Type 0} (db : Database T) where
  -- `_insert_batches`, with its loop on fuel: none is no fuel left.
  unfoldable pub insert_batches : ℕ → ℕ → Index → List Row → T → Option (T × ℕ)
  insert_batches fuel size index [] t = some (t, 0)
  insert_batches zero size index (r ∷ rs) t = none
  insert_batches (suc fuel) size index (r ∷ rs) t =
      let (t', n) = db.insert_do_nothing index (take size (r ∷ rs)) t in
      elim (insert_batches fuel size index (drop size (r ∷ rs)) t') [
        | none ↦ none
        | some (t'', more) ↦ some (t'', n + more)
      ]

  abbrev insert_both : ℕ → List Row → List Row → T → Option (T × ℕ × ℕ)
  insert_both size versioned scos t =
      elim (insert_batches (length versioned) size versioned_index versioned t) [
        | none ↦ none
        | some (t', v) ↦ elim (insert_batches (length scos) size sco_index scos t') [
          | none ↦ none
          | some (t'', s) ↦ some (t'', v + s, (length versioned - v) + (length scos - s))
        ]
      ]

  -- `bulk_insert_dedupe` for a `batch_size` of at least 1, after the rows are made: the database, and the
  -- numbers of accepted objects and of duplicates.
  unfoldable pub bulk_insert_rows : ℕ → List Row → T → Option (T × ℕ × ℕ)
  bulk_insert_rows size rs t =
      insert_both size (filter is_versioned rs) (filter (λ r. not (is_versioned r)) rs) t

  -- `bulk_insert_dedupe`
  unfoldable pub bulk_insert_dedupe :
      (String → Option Timestamp) → String → ℕ → List Fields → T → Outcome (Option (T × ℕ × ℕ))
  bulk_insert_dedupe fromisoformat source size objects t =
      if ltb size 1
      then raised_error value_error
      else row_dicts fromisoformat source objects >>= λ rs. returned (bulk_insert_rows size rs t)
