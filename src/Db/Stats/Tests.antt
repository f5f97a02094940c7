-- ===== src/Db/Stats/Tests.antt =====
-- Concrete statistics (src/prow/db/repositories.py).
use prow_cti.Db.Queries.{StixObjectRow}
use prow_cti.Db.Stats.{
  Aggregates, counted, date_of, days_error, get_ingest_timeseries, or_zero, series, series_from,
}
use prow_cti.Db.Stats.Timeseries.{
  IsGrouped, days_from, get_ingest_timeseries-days, none_if_zero, on_day,
}
use prow_cti.Db.Stats.Total.{IsCounted, bump, has_type, is_distinct, tally}
use prow_cti.Db.StixFields.{Timestamp}
use prow_cti.Json.{end, type_name}
use prow_cti.Prelude.{
  Bool, Bool-cases, List, String, [], arith, eq_iff, eqb, false, filter, if◌then◌else◌, inl, inr,
  length, none, refl, some, suc, true, ℕ, ◌&&◌, ◌*◌, ◌++◌, ◌+◌, ◌==◌, ◌||◌, ◌∙◌, ◌∷◌, ◌≡◌,
}
use mathlib.Core.Path.{ap₂}
use mathlib.Core.List.Perm

abbrev stored_row : String → Timestamp → StixObjectRow
stored_row type_name at = record {
  row_id = 1;
  ingested_at = at;
  columns = record {
    id = "x";
    type_name = type_name;
    spec_version = "2.1";
    created = 0;
    modified = none;
    created_by_ref = none;
    revoked = false;
    confidence = none;
    source_connector_instance_id = "mitre";
    raw = end;
  };
}

-- Two indicators on the second day and a vulnerability on the third.
abbrev three_stored : List StixObjectRow
three_stored =
    stored_row "indicator" 86400000001
    ∷ stored_row "vulnerability" (2 * 86400000000 + 5)
    ∷ stored_row "indicator" 86400000002
    ∷ []

-- A database that counts its list of rows.
unfoldable count_row : StixObjectRow → List (ℕ × String × ℕ) → List (ℕ × String × ℕ)
count_row r groups =
    groups
    ++ ((
      date_of r.ingested_at,
      r.columns.type_name,
      suc (or_zero (counted (date_of r.ingested_at) r.columns.type_name groups)),
    )
        ∷ [])

unfoldable count_rows : List StixObjectRow → List (ℕ × String × ℕ)
count_rows [] = []
count_rows (r ∷ rows) = count_row r (count_rows rows)

abbrev counting : Aggregates (List StixObjectRow)
counting = record {
  all_rows = λ t. t;
  group_by_type = tally;
  group_by_day = λ keep t. count_rows (filter keep t);
  max_ingested_at = λ t. none;
}

counted-append :
    (d : ℕ) (ty : String) (groups : List (ℕ × String × ℕ)) (e n : ℕ) (other : String)
    → counted d ty (groups ++ (e, other, n) ∷ [])
      ≡ (if eqb e d && other == ty then some n else counted d ty groups)
unfolding counted
counted-append d ty [] e n other = refl
counted-append d ty ((f, o, m) ∷ groups) e n other =
    ground (arith, counted-append d ty groups e n other)

counted-count_row :
    (d : ℕ) (ty : String) (r : StixObjectRow) (groups : List (ℕ × String × ℕ))
    → counted d ty (count_row r groups)
      ≡ (if on_day d ty r then some (suc (or_zero (counted d ty groups))) else counted d ty groups)
unfolding count_row
counted-count_row d ty r groups =
    counted-append d ty groups (date_of r.ingested_at)
      (suc (or_zero (counted (date_of r.ingested_at) r.columns.type_name groups)))
      r.columns.type_name
    ∙ elim (Bool-cases (on_day d ty r)) [
      | inl same ↦
          let day : date_of r.ingested_at ≡ d = ground (arith, same) in
          let kind : r.columns.type_name ≡ ty =
            (eq_iff r.columns.type_name ty).0 (ground (arith, same)) in
          rw same (ap₂ (λ x y. some (suc (or_zero (counted x y groups)))) day kind)
      | inr other ↦ rw other refl
    ]

count_rows-counted :
    (keep : StixObjectRow → Bool) (d : ℕ) (ty : String) (rows : List StixObjectRow)
    → counted d ty (count_rows (filter keep rows))
      ≡ none_if_zero (length (filter (λ r. keep r && on_day d ty r) rows))
unfolding filter count_rows counted
count_rows-counted keep d ty [] = refl
count_rows-counted keep d ty (r ∷ rows) =
    let rec = count_rows-counted keep d ty rows in
    elim (Bool-cases (keep r)) [
      | inl kept ↦
          rw kept (counted-count_row d ty r (count_rows (filter keep rows)) ∙ rw rec (ground arith))
      | inr dropped ↦ rw dropped rec
    ]

counting-IsGrouped : IsGrouped counting
counting-IsGrouped = record { grouped = λ keep d ty t. count_rows-counted keep d ty t }

get_ingest_timeseries-days_example :
    get_ingest_timeseries counting 2 2 three_stored
    ≡ series (some (days_from counting three_stored 1 2))
get_ingest_timeseries-days_example =
    get_ingest_timeseries-days counting 2 2 three_stored counting-IsGrouped (omega arith)
      (omega arith)

timeseries_run :
    get_ingest_timeseries counting 2 2 three_stored
    ≡ series (
        some (
          record { date = 1; indicator = 2; vulnerability = 0 }
          ∷ record { date = 2; indicator = 0; vulnerability = 1 }
          ∷ []))
unfolding get_ingest_timeseries series_from counted count_rows count_row filter
timeseries_run = refl

no_days : get_ingest_timeseries counting 0 2 three_stored ≡ days_error
unfolding get_ingest_timeseries
no_days = refl

has_type-bump :
    (ty k : String) (groups : List (String × ℕ))
    → has_type k (bump ty groups) ≡ (ty == k || has_type k groups)
unfolding has_type bump
has_type-bump ty k [] = ground arith
has_type-bump ty k ((other, n) ∷ groups) =
    ground (arith, has_type-bump ty k groups, eq_iff other ty, eq_iff other k, eq_iff ty k)

bump-is_distinct :
    (ty : String) (groups : List (String × ℕ))
    → is_distinct groups ≡ true
    → is_distinct (bump ty groups) ≡ true
unfolding is_distinct bump has_type
bump-is_distinct ty [] h = refl
bump-is_distinct ty ((other, n) ∷ groups) h = ground (
  arith,
  bump-is_distinct ty groups,
  has_type-bump ty other groups,
  eq_iff other ty,
  eq_iff ty other,
)

tally-is_distinct : (rows : List StixObjectRow) → is_distinct (tally rows) ≡ true
unfolding tally is_distinct
tally-is_distinct [] = refl
tally-is_distinct (r ∷ rows) =
    bump-is_distinct r.columns.type_name (tally rows) (tally-is_distinct rows)

counting-IsCounted : IsCounted counting
counting-IsCounted = record { by_type = λ t. Perm.refl (tally t); distinct = tally-is_distinct }
