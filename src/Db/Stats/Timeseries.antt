-- ===== src/Db/Stats/Timeseries.antt =====
-- That the series has an entry for each day with what was ingested on it
-- (src/prow/db/repositories.py).
use prow_cti.Db.Queries.{StixObjectRow}
use prow_cti.Db.Stats.{
  Aggregates, Point, counted, date_of, day_length, get_ingest_timeseries, in_series, or_zero,
  series, series_from,
}
use prow_cti.Prelude.{
  Bool, List, Option, String, [], ap, arith, eq_iff, eqb, false, filter, fun_ext, if◌then◌else◌,
  inl, inr, leb, length, le→leb, ltb, none, refl, some, suc, true, zero, ℕ, ◌&&◌, ◌*◌, ◌+◌, ◌-◌,
  ◌==◌, ◌∙◌, ◌∷◌, ◌≡◌, ◌≤◌, ◌⊎◌,
}

-- The rows of a type that were ingested on a day.
abbrev pub on_day : ℕ → String → StixObjectRow → Bool
on_day d ty r = eqb (date_of r.ingested_at) d && r.columns.type_name == ty

abbrev pub none_if_zero : ℕ → Option ℕ
none_if_zero n = if eqb n 0 then none else some n

-- `GROUP BY`: each day and type that has rows has its group, with their number, and no other.
pub record IsGrouped {T : Type 0} (db : Aggregates T) : Type 0 where
  pub grouped :
      (keep : StixObjectRow → Bool) (d : ℕ) (ty : String) (t : T)
      → counted d ty (db.group_by_day keep t)
        ≡ none_if_zero (length (filter (λ r. keep r && on_day d ty r) (db.all_rows t)))

or_zero-none_if_zero : (n : ℕ) → or_zero (none_if_zero n) ≡ n
or_zero-none_if_zero n = ground arith

from_start : (d at : ℕ) → d ≤ date_of at → d * day_length ≤ at
from_start d at h = omega arith

filter_ext :
    (f g : StixObjectRow → Bool) (rows : List StixObjectRow)
    → ((r : StixObjectRow) → f r ≡ g r)
    → filter f rows ≡ filter g rows
filter_ext f g rows h = rw (fun_ext h) refl

module _ {T : Type 0} (db : Aggregates T) where
  -- The number of objects of the type that were ingested on the day.
  abbrev pub ingested_on : ℕ → String → T → ℕ
  ingested_on d ty t = length (filter (on_day d ty) (db.all_rows t))

  -- So many days from one on, each with what was ingested on it.
  abbrev pub days_from : T → ℕ → ℕ → List Point
  days_from t d zero = []
  days_from t d (suc n) =
      record {
        date = d;
        indicator = ingested_on d "indicator" t;
        vulnerability = ingested_on d "vulnerability" t;
      }
      ∷ days_from t (suc d) n

  module _ (lawful : IsGrouped db) (t : T) (start_date : ℕ) where
    kept :
        (d : ℕ) (ty : String)
        → start_date ≤ d
        → (ty ≡ "indicator") ⊎ (ty ≡ "vulnerability")
        → (r : StixObjectRow) → (in_series start_date r && on_day d ty r) ≡ on_day d ty r
    kept d ty le (inl e) r = ground (
      arith,
      from_start start_date r.ingested_at,
      eq_iff r.columns.type_name ty,
      eq_iff r.columns.type_name "indicator",
    )
    kept d ty le (inr e) r = ground (
      arith,
      from_start start_date r.ingested_at,
      eq_iff r.columns.type_name ty,
      eq_iff r.columns.type_name "vulnerability",
    )

    counted_on :
        (d : ℕ) (ty : String)
        → start_date ≤ d
        → (ty ≡ "indicator") ⊎ (ty ≡ "vulnerability")
        → or_zero (counted d ty (db.group_by_day (in_series start_date) t)) ≡ ingested_on d ty t
    counted_on d ty le which =
        ap or_zero (lawful.grouped (in_series start_date) d ty t)
        ∙ rw (filter_ext _ _ (db.all_rows t) (kept d ty le which))
            (or_zero-none_if_zero (ingested_on d ty t))

    series_from-days :
        (fuel cur end_date : ℕ)
        → start_date ≤ cur
        → fuel + cur ≡ suc end_date
        → series_from (db.group_by_day (in_series start_date) t) fuel cur end_date
          ≡ some (days_from t cur fuel)
    unfolding series_from
    series_from-days zero cur end_date le e = ground arith
    series_from-days (suc fuel) cur end_date le e =
        let before_end : leb cur end_date ≡ true = le→leb cur end_date (omega arith) in
        rw before_end (
          rw (series_from-days fuel (suc cur) end_date (omega arith) (omega arith)) (
            rw
              (
                counted_on cur "indicator" le (inl refl),
                counted_on cur "vulnerability" le (inr refl),
              )
              refl))

  -- For a positive number of days that does not reach before the first date, the series has an entry
  -- for each of the days up to today, in their order and with none left out, and the entry of a day
  -- holds the numbers of indicators and of vulnerabilities that were ingested on it.
  pub get_ingest_timeseries-days :
      (days end_date : ℕ) (t : T)
      → IsGrouped db
      → 1 ≤ days
      → days ≤ suc end_date
      → get_ingest_timeseries db days end_date t
        ≡ series (some (days_from t (suc end_date - days) days))
  unfolding get_ingest_timeseries
  get_ingest_timeseries-days days end_date t lawful h g =
      let start_date = end_date - (days - 1) in
      let same : start_date ≡ suc end_date - days = omega arith in
      let enough : ltb days 1 ≡ false = ground arith in
      let reached : ltb end_date (days - 1) ≡ false = ground arith in
      rw (enough, reached)
        (ap series (
          series_from-days lawful t start_date days start_date end_date (omega arith) (omega arith)
          ∙ ap (λ d. some (days_from t d days)) same))
