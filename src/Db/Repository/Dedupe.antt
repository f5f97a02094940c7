-- ===== src/Db/Repository/Dedupe.antt =====
-- That the batched insertion is the insertion of the rows one by one
-- (src/prow/db/repositories.py).
use prow_cti.Db.Repository.{
  Database, Index, Row, bulk_insert_rows, insert_batches, insert_both, is_versioned, sco_index,
  versioned_index,
}
use prow_cti.Db.StixFields.{Timestamp}
use prow_cti.Prelude.{
  Bool, List, Option, [], ap, arith, drop, eqb, false, filter, if◌then◌else◌, length, length-append,
  length-drop-le, length-filter-not, not, refl, some, suc, sym, take, take-drop, zero, ℕ, ◌&&◌,
  ◌++◌, ◌+◌, ◌-◌, ◌==◌, ◌||◌, ◌∙◌, ◌∷◌, ◌≡◌, ◌≤◌,
}
use prow_cti.Supervisor.Policy.{second}

abbrev same_modified : Option Timestamp → Option Timestamp → Bool
same_modified (some a) (some b) = eqb a b
same_modified _ _ = false

-- Two rows that a unique index forbids together.
abbrev pub clash : Index → Row → Row → Bool
clash versioned_index r s = r.id == s.id && same_modified r.modified s.modified
clash sco_index r s = r.id == s.id && (not (is_versioned r) && not (is_versioned s))

unfoldable pub clashes : Index → Row → List Row → Bool
clashes i r [] = false
clashes i r (s ∷ ss) = clash i r s || clashes i r ss

-- `ON CONFLICT DO NOTHING`, one row at a time: a new row comes last.
unfoldable pub insert_each : Index → List Row → List Row → List Row
insert_each i [] table = table
insert_each i (r ∷ rs) table =
    insert_each i rs (if clashes i r table then table else table ++ (r ∷ []))

-- Documented behaviour of PostgreSQL: the rows of a statement are inserted one by one, a row that
-- clashes with one in the table is left out, and the statement returns what it inserted.
pub record IsPostgres {T : Type 0} (db : Database T) : Type 0 where
  pub inserted :
      (i : Index) (rs : List Row) (t : T)
      → db.rows (db.insert_do_nothing i rs t).0 ≡ insert_each i rs (db.rows t)
  pub counted :
      (i : Index) (rs : List Row) (t : T)
      → (db.insert_do_nothing i rs t).1 + length (db.rows t)
        ≡ length (db.rows (db.insert_do_nothing i rs t).0)

insert_each-append :
    (i : Index) (rs ss table : List Row)
    → insert_each i (rs ++ ss) table ≡ insert_each i ss (insert_each i rs table)
unfolding insert_each
insert_each-append i [] ss table = refl
insert_each-append i (r ∷ rs) ss table = insert_each-append i rs ss _

length-insert_each-le :
    (i : Index) (rs table : List Row) → length (insert_each i rs table) ≤ length rs + length table
unfolding insert_each
length-insert_each-le i [] table = omega arith
length-insert_each-le i (r ∷ rs) table = ground (
  arith,
  length-insert_each-le i rs table,
  length-insert_each-le i rs (table ++ (r ∷ [])),
  length-append table (r ∷ []),
)

module _ {T : Type 0} (db : Database T) (pg : IsPostgres db) where
  -- What a run of batches is to give.
  record IsInserted (i : Index) (rs : List Row) (t t' : T) (n : ℕ) : Type 0 where
    pub inserted : db.rows t' ≡ insert_each i rs (db.rows t)
    pub counted : n + length (db.rows t) ≡ length (db.rows t')

  insert_batches-cons :
      (fuel size : ℕ) (i : Index) (r : Row) (rs : List Row) (t t' : T) (n : ℕ)
      → insert_batches db fuel size i
          (drop size (r ∷ rs))
          (db.insert_do_nothing i (take size (r ∷ rs)) t).0
        ≡ some (t', n)
      → insert_batches db (suc fuel) size i (r ∷ rs) t
        ≡ some (t', (db.insert_do_nothing i (take size (r ∷ rs)) t).1 + n)
  unfolding insert_batches
  insert_batches-cons fuel size i r rs t t' n e = ground (arith, e)

  insert_batches-IsInserted :
      (fuel size : ℕ) (i : Index) (rs : List Row) (t : T)
      → length rs ≤ fuel
      → (t' : T) × (n : ℕ) × (insert_batches db fuel (suc size) i rs t ≡ some (t', n))
        × IsInserted i rs t t' n
  unfolding insert_batches insert_each
  insert_batches-IsInserted fuel size i [] t h =
      (t, 0, refl, record { inserted = refl; counted = omega arith })
  insert_batches-IsInserted zero size i (r ∷ rs) t h = let no : ⊥ = omega (arith, h) in elim no [ ]
  insert_batches-IsInserted (suc fuel) size i (r ∷ rs) t h =
      let chunk = take (suc size) (r ∷ rs) in
      let first = db.insert_do_nothing i chunk t in
      let (t', n, e, more) =
        insert_batches-IsInserted fuel size i (drop size rs) first.0
          (omega (arith, h, length-drop-le size rs)) in
      (
        t',
        first.1 + n,
        insert_batches-cons fuel (suc size) i r rs t t' n e,
        record {
          inserted =
              more.inserted
              ∙ ap (λ l. insert_each i (drop size rs) l) (pg.inserted i chunk t)
              ∙ sym (insert_each-append i chunk (drop size rs) (db.rows t))
              ∙ ap (λ l. insert_each i l (db.rows t)) (take-drop (suc size) (r ∷ rs));
          counted = omega (arith, more.counted, pg.counted i chunk t);
        },
      )

  IsInserted-le :
      {i : Index} {rs : List Row} {t t' : T} {n : ℕ} → IsInserted i rs t t' n → n ≤ length rs
  IsInserted-le {i} {rs} {t} d =
      omega (arith, d.counted, ap length d.inserted, length-insert_each-le i rs (db.rows t))

  insert_both-lem :
      (size : ℕ) (vs ss : List Row) (t t1 t2 : T) (v s : ℕ)
      → insert_batches db (length vs) size versioned_index vs t ≡ some (t1, v)
      → insert_batches db (length ss) size sco_index ss t1 ≡ some (t2, s)
      → insert_both db size vs ss t ≡ some (t2, v + s, (length vs - v) + (length ss - s))
  insert_both-lem size vs ss t t1 t2 v s e f = ground (arith, e, f)

  -- Whatever the batch size, the insertion gives the table that inserting the versioned objects one by
  -- one and then the others gives; accepted is the number of new rows, and accepted and duplicates add
  -- up to the number of objects.
  pub bulk_insert_rows-lem :
      (size : ℕ) (rs : List Row) (t : T)
      → 1 ≤ size
      → (t' : T) × (accepted : ℕ) × (duplicates : ℕ) × (bulk_insert_rows db size rs t
          ≡ some (t', accepted, duplicates))
        × (db.rows t'
            ≡ insert_each sco_index
                (filter (λ r. not (is_versioned r)) rs)
                (insert_each versioned_index (filter is_versioned rs) (db.rows t)))
        × (accepted + length (db.rows t) ≡ length (db.rows t'))
        × (accepted + duplicates ≡ length rs)
  unfolding bulk_insert_rows
  bulk_insert_rows-lem zero rs t h = let no : ⊥ = omega (arith, h) in elim no [ ]
  bulk_insert_rows-lem (suc size) rs t h =
      let vs = filter is_versioned rs in
      let ss = filter (λ r. not (is_versioned r)) rs in
      let (t1, v, e, first) =
        insert_batches-IsInserted (length vs) size versioned_index vs t (omega arith) in
      let (t2, s, f, second) =
        insert_batches-IsInserted (length ss) size sco_index ss t1 (omega arith) in
      (
        t2,
        v + s,
        (length vs - v) + (length ss - s),
        insert_both-lem (suc size) vs ss t t1 t2 v s e f,
        second.inserted ∙ ap (insert_each sco_index ss) first.inserted,
        omega (arith, first.counted, second.counted),
        omega (arith, IsInserted-le first, IsInserted-le second, length-filter-not is_versioned rs),
      )
