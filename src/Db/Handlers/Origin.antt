-- ===== src/Db/Handlers/Origin.antt =====
-- Where the rows of a table come from after an insertion (src/prow/db/ingest.py and repositories.py).
use prow_cti.Db.Queries.{StixObjectRow, has_id}
use prow_cti.Db.Queries.Ranked.{StixObjectRow-discrete}
use prow_cti.Db.Repository.{
  Index, Row, is_versioned, row_dict, row_dicts, sco_index, versioned_index,
}
use prow_cti.Db.Repository.Dedupe.{clashes, insert_each}
use prow_cti.Db.StixFields.{Outcome, Timestamp, raised_error, returned}
use prow_cti.Json.{Fields}
use prow_cti.Prelude.{
  All, All-map, Bool, Bool-cases, List, Option, String, [], arith, eq_iff, filter, inl, inr, map,
  not, refl, sym, ◌++◌, ◌∷◌, ◌≡◌, ◌⊎◌,
}
use mathlib.Core.Logic.Or
use mathlib.Core.List.{Mem, Mem-prop, mem-cons, mem-cons_self, mem-cons_of_mem, not-mem-nil}
use mathlib.Core.Path.{subst}

module _ (P : Row → Type 0) where
  All-append : (xs ys : List Row) → All P xs → All P ys → All P (xs ++ ys)
  All-append [] ys a b = b
  All-append (x ∷ xs) ys (h, a) b = (h, All-append xs ys a b)

  All-kept : (keep : Row → Bool) (rs : List Row) → All P rs → All P (filter keep rs)
  unfolding filter
  All-kept keep [] a = tt
  All-kept keep (r ∷ rs) (h, a) = elim (Bool-cases (keep r)) [
    | inl e ↦ rw e (h, All-kept keep rs a)
    | inr e ↦ rw e (All-kept keep rs a)
  ]

  All-insert_each :
      (i : Index) (rs table : List Row) → All P rs → All P table → All P (insert_each i rs table)
  unfolding insert_each
  All-insert_each i [] table a b = b
  All-insert_each i (r ∷ rs) table (h, a) b = elim (Bool-cases (clashes i r table)) [
    | inl old ↦ rw old (All-insert_each i rs table a b)
    | inr new ↦
        rw new (All-insert_each i rs (table ++ r ∷ []) a (All-append table (r ∷ []) b (h, tt)))
  ]

All-Mem {ℓ} : {A : Type ℓ} (xs : List A) → All (λ x. Mem x xs) xs
All-Mem [] = tt
All-Mem (x ∷ xs) = (mem-cons_self, All-map xs (λ y m. mem-cons_of_mem x m) (All-Mem xs))

-- What holds of all elements holds of one of them.
All-at {ℓ} :
    {A : Type 0} (P : A → Type ℓ) (same : Discrete A) (xs : List A) (a : A)
    → Mem a xs
    → All P xs
    → P a
All-at P same [] a m h = absurd (not-mem-nil m)
All-at P same (x ∷ xs) a m (p, h) = elim (same a x) [
  | yes e ↦ subst P (sym e) p
  | no e ↦ All-at P same xs a (Or.elim Mem-prop (mem-cons.0 m) (λ s. absurd (e s)) (λ n. n)) h
]

module _ (fromisoformat : String → Option Timestamp) (source : String) where
  -- The row was stored before, or it is that of one of the objects.
  abbrev pub Origin : List Row → List Fields → Row → Type 0
  Origin table valid r =
      Mem r table ⊎ ((o : Fields) × Mem o valid × (row_dict fromisoformat source o ≡ returned r))

  -- The rows of objects are each that of one of them.
  row_dicts-made :
      (os : List Fields) (rs : List Row)
      → row_dicts fromisoformat source os ≡ returned rs
      → All (λ r. (o : Fields) × Mem o os × (row_dict fromisoformat source o ≡ returned r)) rs
  unfolding row_dicts
  row_dicts-made [] rs h =
      let none_made : [] ≡ rs = ground (arith, h) in
      subst (All (λ r. (o : Fields) × Mem o [] × (row_dict fromisoformat source o ≡ returned r)))
        none_made tt
  row_dicts-made (o ∷ os) rs h =
      by_parts (row_dict fromisoformat source o) (row_dicts fromisoformat source os) refl refl
        (row_dicts-made os)
    where
      by_parts :
          (x : Outcome Row) (y : Outcome (List Row))
          → row_dict fromisoformat source o ≡ x
          → row_dicts fromisoformat source os ≡ y
          → ((ss : List Row)
              → row_dicts fromisoformat source os ≡ returned ss
              → All
                  (λ r. (p : Fields) × Mem p os × (row_dict fromisoformat source p ≡ returned r))
                  ss)
          → All
              (λ r. (p : Fields) × Mem p (o ∷ os) × (row_dict fromisoformat source p ≡ returned r))
              rs
      by_parts (returned r) (returned ss) f g k =
          let same : r ∷ ss ≡ rs = ground (arith, h, f, g) in
          subst
            (All (λ r'.
              (p : Fields) × Mem p (o ∷ os) × (row_dict fromisoformat source p ≡ returned r')))
            same
            (
              (o, mem-cons_self, f),
              All-map ss (λ r' (p, m, e). (p, mem-cons_of_mem o m, e)) (k ss g),
            )
      by_parts (returned r) (raised_error x) f g k =
          let no : ⊥ = ground (arith, h, f, g) in elim no [ ]
      by_parts (raised_error x) y f g k = let no : ⊥ = ground (arith, h, f) in elim no [ ]

  -- So each row of the table that the insertion of objects leaves has an origin.
  pub both_inserted-Origin :
      (valid : List Fields) (rs table : List Row)
      → row_dicts fromisoformat source valid ≡ returned rs
      → All (Origin table valid) (
          insert_each sco_index
            (filter (λ r. not (is_versioned r)) rs)
            (insert_each versioned_index (filter is_versioned rs) table))
  both_inserted-Origin valid rs table h =
      let origin = Origin table valid in
      let made : All (Origin table valid) rs =
        All-map rs (λ r o. inr o) (row_dicts-made valid rs h) in
      All-insert_each origin sco_index (filter (λ r. not (is_versioned r)) rs)
        (insert_each versioned_index (filter is_versioned rs) table)
        (All-kept origin (λ r. not (is_versioned r)) rs made)
        (All-insert_each origin versioned_index (filter is_versioned rs) table
          (All-kept origin is_versioned rs made) (All-map table (λ r m. inl m) (All-Mem table)))

module _ (id : String) (P : Row → Type 0) where
  chosen_with_id :
      (rows : List StixObjectRow)
      → All P (map (λ r. r.columns) rows)
      → All (λ r. (r.columns.id ≡ id) × P r.columns) (filter (has_id id) rows)
  unfolding filter
  chosen_with_id [] h = tt
  chosen_with_id (r ∷ rows) (p, h) = elim (Bool-cases (has_id id r)) [
    | inl e ↦ rw e (((eq_iff r.columns.id id).0 e, p), chosen_with_id rows h)
    | inr e ↦ rw e (chosen_with_id rows h)
  ]

  -- A row that a query by the id finds has it, and what all rows of the table have.
  pub row_with_id :
      (rows : List StixObjectRow) (r : StixObjectRow)
      → All P (map (λ s. s.columns) rows)
      → Mem r (filter (has_id id) rows)
      → (r.columns.id ≡ id) × P r.columns
  row_with_id rows r h m =
      All-at (λ s. (s.columns.id ≡ id) × P s.columns) StixObjectRow-discrete
        (filter (has_id id) rows) r m (chosen_with_id rows h)
