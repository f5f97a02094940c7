-- ===== src/Db/Handlers/Found.antt =====
-- That what a connector emitted can be read back (src/prow/db/emit_handler.py, ingest.py and
-- repositories.py together).
use prow_cti.Db.Handlers.{allows_custom, default_insert_batch_size, emit_handler}
use prow_cti.Db.Ingest.{Validation, ingest_stix_bundle, insert_valid, validate_and_partition_bundle}
use prow_cti.Db.Ingest.Account.{insert_valid-some}
use prow_cti.Db.Handlers.Origin.{Origin, both_inserted-Origin, row_with_id}
use prow_cti.Db.Queries.{
  Rendering, Selects, StixObjectRow, get_object, has_id, stix_row_to_public_dict,
}
use prow_cti.Db.Queries.Newest.{get_object-Newest}
use prow_cti.Db.Queries.Public.{IsOther, row_dict-Taken, row_dict-public}
use prow_cti.Db.Queries.Ranked.{IsSelect}
use prow_cti.Db.Repository.{
  Database, Index, Row, bulk_insert_dedupe, is_versioned, row_dict, row_dicts, sco_index,
  versioned_index,
}
use prow_cti.Db.Repository.Dedupe.{IsPostgres, bulk_insert_rows-lem, clashes, insert_each}
use prow_cti.Db.StixFields.{Outcome, Timestamp, raised_error, returned, ◌>>=◌}
use prow_cti.Json.{Fields, get, obj, str}
use prow_cti.Prelude.{
  All, All-filter-not, All-map, Bool, List, Option, String, [], ap, arith, eq_iff, eq_refl, false,
  filter, if◌then◌else◌, inl, inr, map, not, refl, some, sym, true, ℕ, ◌++◌, ◌==◌, ◌||◌, ◌∙◌, ◌∷◌,
  ◌≡◌, ◌≤◌, ◌⊎◌,
}
use prow_cti.Prelude.Dict.{Dict}
use prow_cti.Protocol.Messages.{EmitAckPayload, ValidationFailure}
use mathlib.Core.List.{Mem}
use mathlib.Core.Path.{subst}

-- Some row has the id.
unfoldable pub any_id : String → List Row → Bool
any_id id [] = false
any_id id (r ∷ rs) = r.id == id || any_id id rs

any_id-append :
    (id : String) (rows : List Row) (r : Row)
    → any_id id (rows ++ r ∷ []) ≡ (any_id id rows || r.id == id)
unfolding any_id
any_id-append id [] r = ground arith
any_id-append id (s ∷ rows) r = ground (arith, any_id-append id rows r)

clashes-any_id :
    (i : Index) (r : Row) (rows : List Row) → clashes i r rows ≡ true → any_id r.id rows ≡ true
unfolding clashes any_id
clashes-any_id i r [] h = cc
clashes-any_id versioned_index r (s ∷ rows) h =
    ground (arith, clashes-any_id versioned_index r rows, eq_iff r.id s.id, eq_iff s.id r.id)
clashes-any_id sco_index r (s ∷ rows) h =
    ground (arith, clashes-any_id sco_index r rows, eq_iff r.id s.id, eq_iff s.id r.id)

insert_each-keeps :
    (i : Index) (id : String) (rs table : List Row)
    → any_id id table ≡ true
    → any_id id (insert_each i rs table) ≡ true
unfolding insert_each
insert_each-keeps i id [] table h = h
insert_each-keeps i id (r ∷ rs) table h =
    insert_each-keeps i id rs (if clashes i r table then table else table ++ r ∷ [])
      (ground (arith, any_id-append id table r))

insert_each-any_id :
    (i : Index) (rs table : List Row) → All (λ r. any_id r.id (insert_each i rs table) ≡ true) rs
unfolding insert_each
insert_each-any_id i [] table = tt
insert_each-any_id i (r ∷ rs) table = (
  insert_each-keeps i r.id rs (if clashes i r table then table else table ++ r ∷ [])
      (ground (arith, any_id-append r.id table r, clashes-any_id i r table, eq_refl r.id)),
  insert_each-any_id i rs (if clashes i r table then table else table ++ r ∷ []),
)

-- After the insertion every row's id is in the table.
both_inserted :
    (rs table : List Row)
    → All
        (λ r.
          any_id r.id (
            insert_each sco_index
              (filter (λ r. not (is_versioned r)) rs)
              (insert_each versioned_index (filter is_versioned rs) table))
          ≡ true)
        rs
both_inserted rs table =
    All-filter-not _ is_versioned rs
      (All-map (filter is_versioned rs) (λ r. insert_each-keeps sco_index r.id _ _)
        (insert_each-any_id versioned_index (filter is_versioned rs) table))
      (insert_each-any_id sco_index (filter (λ r. not (is_versioned r)) rs)
        (insert_each versioned_index (filter is_versioned rs) table))

-- What is read under an id: an object that was in the table before, or one of the valid objects, with
-- what that object had under every key that is not rendered anew.
abbrev pub IsRead : Rendering → List Row → List Fields → String → Option Fields → Type 0
IsRead rendering table valid id found =
    ((r : StixObjectRow) × (r.columns.id ≡ id)
      × Mem r.columns table
      × (found ≡ some (stix_row_to_public_dict rendering r)))
    ⊎ ((o p : Fields) × Mem o valid
        × (get o "id" ≡ some (str id))
        × (found ≡ some p)
        × ((k : String) → IsOther k → get p k ≡ get o k))

-- The object has an id, and that is how it is read.
abbrev pub IsReadBack :
    {T : Type 0} → Selects T → Rendering → List Row → List Fields → T → Fields → Type 0
IsReadBack reads rendering table valid t o =
    (id : String) × (get o "id" ≡ some (str id))
    × IsRead rendering table valid id (get_object reads rendering id t)

module _ {T : Type 0} (va : Validation) (db : Database T) (pg : IsPostgres db)
    (fromisoformat : String → Option Timestamp) (reads : Selects T) (rendering : Rendering)
    (lawful : IsSelect reads) where
  no_rows :
      (id : String) (rows : List StixObjectRow)
      → filter (has_id id) rows ≡ []
      → any_id id (map (λ r. r.columns) rows) ≡ false
  unfolding any_id filter
  no_rows id [] h = refl
  no_rows id (r ∷ rows) h = ground (arith, no_rows id rows, h)

  module _ (source : String) (table : List Row) (valid : List Fields) where
    Origin-IsRead :
        (id : String) (r : StixObjectRow) (found : Option Fields)
        → found ≡ some (stix_row_to_public_dict rendering r)
        → r.columns.id ≡ id
        → Origin fromisoformat source table valid r.columns
        → IsRead rendering table valid id found
    Origin-IsRead id r found some' e (inl earlier) = inl (r, e, earlier, some')
    Origin-IsRead id r found some' e (inr (o, m, made)) =
        let taken = row_dict-Taken fromisoformat source o r.columns made in
        inr (
          o,
          stix_row_to_public_dict rendering r,
          m,
          taken.1 ∙ ap (λ i. some (str i)) e,
          some',
          λ k. row_dict-public rendering fromisoformat source o r k made,
        )

    get_object-IsRead :
        (id : String) (t : T)
        → map (λ r. r.columns) (reads.stored t) ≡ db.rows t
        → All (Origin fromisoformat source table valid) (db.rows t)
        → any_id id (db.rows t) ≡ true
        → IsRead rendering table valid id (get_object reads rendering id t)
    get_object-IsRead id t same origins h = elim (get_object-Newest reads rendering id t lawful) [
      | inl (none', empty) ↦ absurd (cc (no_rows id (reads.stored t) empty, ap (any_id id) same, h))
      | inr (r, some', in_rows, first_row) ↦
          let origin = Origin fromisoformat source table valid in
          let (e, from) =
            row_with_id id origin (reads.stored t) r (subst (All origin) (sym same) origins)
              in_rows in
          Origin-IsRead id r (get_object reads rendering id t) some' e from
    ]

    abbrev RowRead : T → Row → Type 0
    RowRead t r = IsRead rendering table valid r.id (get_object reads rendering r.id t)

    rows_read :
        (t : T) (os : List Fields) (rs : List Row)
        → row_dicts fromisoformat source os ≡ returned rs
        → All (RowRead t) rs
        → All (IsReadBack reads rendering table valid t) os
    unfolding row_dicts
    rows_read t [] rs h f = tt
    rows_read t (o ∷ os) rs h f =
        by_parts (row_dict fromisoformat source o) (row_dicts fromisoformat source os) refl refl h
          (rows_read t os)
      where
        by_parts :
            (x : Outcome Row) (y : Outcome (List Row))
            → row_dict fromisoformat source o ≡ x
            → row_dicts fromisoformat source os ≡ y
            → (x >>= λ r. y >>= λ ss. returned (r ∷ ss)) ≡ returned rs
            → ((ss : List Row)
                → row_dicts fromisoformat source os ≡ returned ss
                → All (RowRead t) ss
                → All (IsReadBack reads rendering table valid t) os)
            → All (IsReadBack reads rendering table valid t) (o ∷ os)
        by_parts (raised_error e) y p q g rec = absurd (cc g)
        by_parts (returned r) (raised_error e) p q g rec = absurd (cc g)
        by_parts (returned r) (returned ss) p q g rec =
            let same : rs ≡ r ∷ ss = ground (arith, g) in
            let (first', others) = subst (All (RowRead t)) same f in
            ((r.id, (row_dict-Taken fromisoformat source o r p).1, first'), rec ss q others)

  valid_read :
      (source : String) (size : ℕ) (failures : List ValidationFailure) (valid : List Fields)
      (t t' : T) (told : EmitAckPayload)
      → 1 ≤ size
      → map (λ r. r.columns) (reads.stored t') ≡ db.rows t'
      → insert_valid va db fromisoformat source size failures valid t ≡ returned (some (t', told))
      → All (IsReadBack reads rendering (db.rows t) valid t') valid
  unfolding bulk_insert_dedupe
  valid_read source size failures [] t t' told h same e = tt
  valid_read source size failures (o ∷ os) t t' told h same e =
      by_rows (row_dicts fromisoformat source (o ∷ os)) refl
    where
      by_rows :
          (x : Outcome (List Row))
          → row_dicts fromisoformat source (o ∷ os) ≡ x
          → All (IsReadBack reads rendering (db.rows t) (o ∷ os) t') (o ∷ os)
      by_rows (raised_error y) f = let no : ⊥ = ground (arith, e, f) in elim no [ ]
      by_rows (returned rs) f =
          let (u, n, d, g, all', grown, sum) = bulk_insert_rows-lem db pg size rs t h in
          let here : u ≡ t' = ground (
            arith,
            e,
            insert_valid-some va db pg fromisoformat false source size failures o os rs t u n d h f
                g,
          ) in
          let now = sym all' ∙ ap db.rows here in
          let present =
            subst (λ w. All (λ r. any_id r.id w ≡ true) rs) now (both_inserted rs (db.rows t)) in
          let origins =
            subst (All (Origin fromisoformat source (db.rows t) (o ∷ os))) now
              (both_inserted-Origin fromisoformat source (o ∷ os) rs (db.rows t) f) in
          rows_read source (db.rows t) (o ∷ os) t' (o ∷ os) rs f (
            All-map rs (λ r. get_object-IsRead source (db.rows t) (o ∷ os) r.id t' same origins)
              present)

  -- Whatever a bundle holds, once the emit handler has acknowledged it every object that passed the
  -- validation has an id and can be read by it, if the queries see the rows that the insertion made.
  -- What is read is an object that was already stored under that id, or one of the valid objects of
  -- the bundle with that id, and then with all that it had under every key, the database's own
  -- columns (creation, modification, revocation, confidence, version, source, ingestion) excepted.
  pub emit_handler-found :
      (allowed : Dict Bool) (instance_id : String) (bundle : Fields) (t t' : T)
      (told : EmitAckPayload)
      → map (λ r. r.columns) (reads.stored t') ≡ db.rows t'
      → emit_handler va db fromisoformat allowed instance_id bundle t ≡ returned (some (t', told))
      → let valid =
          (validate_and_partition_bundle va (allows_custom instance_id allowed) (obj bundle)).0 in
        All (IsReadBack reads rendering (db.rows t) valid t') valid
  unfolding emit_handler ingest_stix_bundle
  emit_handler-found allowed instance_id bundle t t' told same e =
      let checked =
        validate_and_partition_bundle va (allows_custom instance_id allowed) (obj bundle) in
      valid_read instance_id default_insert_batch_size checked.1 checked.0 t t' told (omega arith)
        same e
