-- ===== src/Db/Queries.antt =====
-- The read queries over the stored objects (src/prow/db/repositories.py).
pub mod Tests
pub mod Public
pub mod Newest
pub mod Ties
pub mod Pages
pub mod Ranked
use prow_cti.Db.Repository.{Row}
use prow_cti.Db.StixFields.{Timestamp}
use prow_cti.Json.{Fields, Json, bool, get, int, put, str}
use prow_cti.Prelude.{
  Bool, List, Option, String, [], eqb, false, filter, if◌then◌else◌, leb, length, map, none, some,
  take, true, ℕ, ◌&&◌, ◌==◌, ◌||◌, ◌∷◌,
}
use prow_cti.Prelude.Int.{eqb_ℤ, leb_ℤ, ℤ}
use prow_cti.Prelude.Text.{concat}
use mathlib.Core.Option

-- A stored row: the columns that the insertion writes, and those that the database adds.
pub record StixObjectRow : Type 0 where
  pub row_id : ℕ
  pub ingested_at : Timestamp
  pub columns : Row

-- What the queries sort by.
pub data Order : Type 0 where
  confidence_desc created_desc ingested_at_desc newest_version : Order

-- `desc()` on two values, and then by `next` where they are equal.
abbrev desc : ℕ → ℕ → Bool → Bool
desc a b then_by = if eqb a b then then_by else leb b a

abbrev desc_ℤ : ℤ → ℤ → Bool → Bool
desc_ℤ a b then_by = if eqb_ℤ a b then then_by else leb_ℤ b a

-- `desc().nulls_last()`
abbrev desc_nulls_last : Option ℕ → Option ℕ → Bool → Bool
desc_nulls_last none none then_by = then_by
desc_nulls_last none (some b) then_by = false
desc_nulls_last (some a) none then_by = true
desc_nulls_last (some a) (some b) then_by = desc a b then_by

abbrev desc_ℤ_nulls_last : Option ℤ → Option ℤ → Bool → Bool
desc_ℤ_nulls_last none none then_by = then_by
desc_ℤ_nulls_last none (some b) then_by = false
desc_ℤ_nulls_last (some a) none then_by = true
desc_ℤ_nulls_last (some a) (some b) then_by = desc_ℤ a b then_by

-- The row `a` may stand before the row `b`: it comes first, or is tied with it.
unfoldable pub before : Order → StixObjectRow → StixObjectRow → Bool
before confidence_desc a b =
    desc_ℤ_nulls_last a.columns.confidence b.columns.confidence
      (desc a.ingested_at b.ingested_at true)
before created_desc a b = desc a.columns.created b.columns.created true
before ingested_at_desc a b = desc a.ingested_at b.ingested_at true
before newest_version a b =
    desc_nulls_last a.columns.modified b.columns.modified (desc a.row_id b.row_id true)

-- What the repository uses of the database: its rows, and a `SELECT` with a condition, an order, a limit
-- (none is no limit) and an offset.
pub record Selects (T : Type 0) : Type 0 where
  pub stored : T → List StixObjectRow
  pub select : (StixObjectRow → Bool) → Order → Option ℕ → ℕ → T → List StixObjectRow

-- `LIMIT`
abbrev pub limited {ℓ} : {A : Type ℓ} → Option ℕ → List A → List A
limited none xs = xs
limited (some n) xs = take n xs

-- How the values of the rows are written: a `datetime` in the dictionary of an object, and `isoformat`.
pub record Rendering : Type 0 where
  pub datetime_value : Timestamp → Json
  pub isoformat : Timestamp → String

abbrev pub put_some : String → Option Json → Fields → Fields
put_some k none o = o
put_some k (some v) o = put k v o

module _ (rendering : Rendering) where
  -- `_stix_row_to_public_dict`
  unfoldable pub stix_row_to_public_dict : StixObjectRow → Fields
  stix_row_to_public_dict r =
      let c = r.columns in
      put "ingested_at" (str (rendering.isoformat r.ingested_at)) (
        put "source_connector_instance_id" (str c.source_connector_instance_id) (
          put_some "confidence" (Option.map int c.confidence) (
            put_some "created_by_ref" (Option.map str c.created_by_ref) (
              put "revoked" (bool c.revoked) (
                put_some "modified" (Option.map rendering.datetime_value c.modified) (
                  put "created" (rendering.datetime_value c.created) (
                    put "spec_version" (str c.spec_version)
                      (put "type" (str c.type_name) (put "id" (str c.id) c.raw)))))))))

-- `sort`
abbrev pub order_of : String → Order
order_of sort =
    if sort == "confidence_desc"
    then confidence_desc
    else if sort == "created_desc"
    then created_desc
    else ingested_at_desc

-- `type == stix_type`, where a type is given
abbrev pub of_type : Option String → StixObjectRow → Bool
of_type none r = true
of_type (some ty) r = r.columns.type_name == ty

abbrev pub has_id : String → StixObjectRow → Bool
has_id stix_id r = r.columns.id == stix_id

-- PostgreSQL on text and JSON: `ILIKE`, `->>` on a value (none is `NULL`), and the text of an object.
pub record TextSearch : Type 0 where
  pub ilike : String → String → Bool
  pub as_string : Json → Option String
  pub object_text : Fields → String

module _ (ts : TextSearch) where
  abbrev field_text : String → StixObjectRow → Option String
  field_text k r = elim (get r.columns.raw k) [ none ↦ none | some v ↦ ts.as_string v ]

  abbrev is_like : String → Option String → Bool
  is_like pattern none = false
  is_like pattern (some text) = ts.ilike text pattern

  abbrev pub text_is : String → Option String → Bool
  text_is q none = false
  text_is q (some text) = text == q

  -- `f"%{q}%"`
  abbrev pub containing : String → String
  containing q = concat "%" (concat q "%")

  -- The clauses of `search_by_observable`, each where its type is asked for or none is.
  abbrev pub asks_for : Option String → String → Bool
  asks_for none ty = true
  asks_for (some asked) ty = asked == ty

  unfoldable pub matches_observable : String → Option String → StixObjectRow → Bool
  matches_observable q asked r =
      (asks_for asked "indicator"
        && (r.columns.type_name == "indicator")
        && is_like (containing q) (field_text "pattern" r))
      || (asks_for asked "vulnerability"
          && (r.columns.type_name == "vulnerability")
          && is_like (containing q) (field_text "name" r))
      || (asks_for asked "ipv4-addr"
          && (r.columns.type_name == "ipv4-addr")
          && text_is q (field_text "value" r))

  -- The condition of `full_text_search`.
  unfoldable pub matches_text : String → Option String → StixObjectRow → Bool
  matches_text q asked r = ts.ilike (ts.object_text r.columns.raw) (containing q) && of_type asked r

  -- A relationship with the object at one of its ends.
  unfoldable pub relates : String → StixObjectRow → Bool
  relates stix_id r =
      (r.columns.type_name == "relationship")
      && (text_is stix_id (field_text "source_ref" r)
          || text_is stix_id (field_text "target_ref" r))

module _ {T : Type 0} (db : Selects T) (rendering : Rendering) where
  -- `list_objects`, whose total is `SELECT count(*)`.
  unfoldable pub list_objects : Option String → ℕ → ℕ → String → T → List Fields × ℕ
  list_objects stix_type limit offset sort t = (
    map (stix_row_to_public_dict rendering)
        (db.select (of_type stix_type) (order_of sort) (some limit) offset t),
    length (filter (of_type stix_type) (db.stored t)),
  )

  abbrev pub first_public : List StixObjectRow → Option Fields
  first_public [] = none
  first_public (r ∷ rs) = some (stix_row_to_public_dict rendering r)

  -- `get_object`
  unfoldable pub get_object : String → T → Option Fields
  get_object stix_id t = first_public (db.select (has_id stix_id) newest_version (some 1) 0 t)

  abbrev found : List StixObjectRow → List Fields × ℕ
  found rows = (map (stix_row_to_public_dict rendering) rows, length rows)

  -- `search_by_observable`
  unfoldable pub search_by_observable :
      TextSearch → String → Option String → ℕ → T → List Fields × ℕ
  search_by_observable ts q stix_type limit t =
      if asks_for ts stix_type "indicator"
        || asks_for ts stix_type "vulnerability"
        || asks_for ts stix_type "ipv4-addr"
      then found (db.select (matches_observable ts q stix_type) ingested_at_desc (some limit) 0 t)
      else ([], 0)

  -- `full_text_search`
  unfoldable pub full_text_search : TextSearch → String → Option String → ℕ → T → List Fields × ℕ
  full_text_search ts q stix_type limit t =
      found (db.select (matches_text ts q stix_type) ingested_at_desc (some limit) 0 t)

  -- `get_relationships`
  unfoldable pub get_relationships : TextSearch → String → T → List Fields
  get_relationships ts stix_id t =
      map (stix_row_to_public_dict rendering)
        (db.select (relates ts stix_id) ingested_at_desc none 0 t)
