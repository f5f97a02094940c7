-- ===== src/Db/Stats.antt =====
-- The statistics of what was ingested (src/prow/db/repositories.py: `get_ingest_stats` and
-- `get_ingest_timeseries`).
pub mod Tests
pub mod Total
use prow_cti.Db.Queries.{StixObjectRow}
use prow_cti.Db.StixFields.{Timestamp}
use prow_cti.Prelude.{
  Bool, List, Option, String, [], eqb, if◌then◌else◌, leb, ltb, none, some, suc, zero, ℕ, ◌&&◌, ◌*◌,
  ◌+◌, ◌-◌, ◌/◌, ◌==◌, ◌||◌, ◌∷◌,
}
use prow_cti.Prelude.Dict.{Dict, insert}
pub mod Timeseries

-- The microseconds of a day: a `date` is a number of days since `date.min`.
abbrev pub day_length : ℕ
day_length = 86400000000

abbrev pub date_of : Timestamp → ℕ
date_of at = at / day_length

-- What the statistics use of the database: `SELECT type, count(*) … GROUP BY type`, the same of a day and
-- a type under a condition, and `max(ingested_at)`.
pub record Aggregates (T : Type 0) : Type 0 where
  pub all_rows : T → List StixObjectRow
  pub group_by_type : T → List (String × ℕ)
  pub group_by_day : (StixObjectRow → Bool) → T → List (ℕ × String × ℕ)
  pub max_ingested_at : T → Option Timestamp

pub record IngestStats : Type 0 where
  pub total_objects : ℕ
  pub by_type : Dict ℕ
  pub last_ingested_at : Option Timestamp

-- `{t: int(c) for t, c in …}`
unfoldable pub dict_of : List (String × ℕ) → Dict ℕ → Dict ℕ
dict_of [] d = d
dict_of ((ty, n) ∷ groups) d = dict_of groups (insert ty n d)

-- `sum(by_type.values())`
abbrev pub sum_values : Dict ℕ → ℕ
sum_values [] = 0
sum_values ((ty, n) ∷ d) = n + sum_values d

-- One entry of the series.
pub record Point : Type 0 where
  pub date : ℕ
  pub indicator : ℕ
  pub vulnerability : ℕ

-- `counts[(d, type)]` after the loop over the groups: the last group with the key.
unfoldable pub counted : ℕ → String → List (ℕ × String × ℕ) → Option ℕ
counted d ty [] = none
counted d ty ((e, other, n) ∷ groups) = elim (counted d ty groups) [
  | some m ↦ some m
  | none ↦ if eqb e d && other == ty then some n else none
]

abbrev pub or_zero : Option ℕ → ℕ
or_zero (some n) = n
or_zero none = 0

abbrev pub point : List (ℕ × String × ℕ) → ℕ → Point
point groups cur = record {
  date = cur;
  indicator = or_zero (counted cur "indicator" groups);
  vulnerability = or_zero (counted cur "vulnerability" groups);
}

abbrev cons_point : Point → Option (List Point) → Option (List Point)
cons_point p none = none
cons_point p (some ps) = some (p ∷ ps)

-- `while cur <= end_date`, with the rounds left: none is no rounds left.
unfoldable pub series_from : List (ℕ × String × ℕ) → ℕ → ℕ → ℕ → Option (List Point)
series_from groups zero cur end_date = if leb cur end_date then none else some []
series_from groups (suc fuel) cur end_date =
    let rest = cons_point (point groups cur) (series_from groups fuel (suc cur) end_date) in
    if leb cur end_date then rest else some []

-- `days must be >= 1`, and `end_date - timedelta(...)` before `date.min`.
pub data TimeseriesResult : Type 0 where
  days_error overflow_error : TimeseriesResult
  series : Option (List Point) → TimeseriesResult

-- The rows from `start_dt` on of the two types.
abbrev pub in_series : ℕ → StixObjectRow → Bool
in_series start_date r =
    leb (start_date * day_length) r.ingested_at
    && (r.columns.type_name == "indicator" || r.columns.type_name == "vulnerability")

module _ {T : Type 0} (db : Aggregates T) where
  -- `get_ingest_stats`
  unfoldable pub get_ingest_stats : T → IngestStats
  get_ingest_stats t =
      let by_type = dict_of (db.group_by_type t) [] in
      record {
        total_objects = sum_values by_type;
        by_type = by_type;
        last_ingested_at = db.max_ingested_at t;
      }

  -- `get_ingest_timeseries` on the date `end_date`.
  unfoldable pub get_ingest_timeseries : ℕ → ℕ → T → TimeseriesResult
  get_ingest_timeseries days end_date t =
      if ltb days 1
      then days_error
      else if ltb end_date (days - 1)
      then overflow_error
      else let start_date = end_date - (days - 1) in
        series (series_from (db.group_by_day (in_series start_date) t) days start_date end_date)
