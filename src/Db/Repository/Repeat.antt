-- ===== src/Db/Repository/Repeat.antt =====
-- That inserting the same objects again changes nothing (src/prow/db/repositories.py).
use prow_cti.Db.Repository.{
  Database, Index, Row, bulk_insert_rows, is_versioned, sco_index, versioned_index,
}
use prow_cti.Db.Repository.Dedupe.{IsPostgres, bulk_insert_rows-lem, clash, clashes, insert_each}
use prow_cti.Prelude.{
  All, All-filter, Bool, List, Option, [], ap, arith, eq_refl, filter, if◌then◌else◌, length, not,
  refl, some, sym, true, ℕ, ◌++◌, ◌||◌, ◌∙◌, ◌∷◌, ◌≡◌, ◌≤◌,
}
use mathlib.Core.Bool.{or_assoc}

clashes-append :
    (i : Index) (r : Row) (xs ys : List Row)
    → clashes i r (xs ++ ys) ≡ (clashes i r xs || clashes i r ys)
unfolding clashes
clashes-append i r [] ys = refl
clashes-append i r (x ∷ xs) ys =
    ap (λ b. clash i r x || b) (clashes-append i r xs ys)
    ∙ sym (or_assoc (clash i r x) (clashes i r xs) (clashes i r ys))

-- A row that clashes with a table clashes with every later one.
clashes-insert_each :
    (i k : Index) (r : Row) (rs table : List Row)
    → clashes i r table ≡ true
    → clashes i r (insert_each k rs table) ≡ true
unfolding insert_each
clashes-insert_each i k r [] table h = h
clashes-insert_each i k r (s ∷ rs) table h =
    clashes-insert_each i k r rs (if clashes k s table then table else table ++ (s ∷ []))
      (ground (arith, h, clashes-append i r table (s ∷ [])))

-- The rows that an index is about.
abbrev fits : Index → Row → Bool
fits versioned_index r = is_versioned r
fits sco_index r = not (is_versioned r)

clash_self : (i : Index) (r : Row) → fits i r ≡ true → clash i r r ≡ true
clash_self versioned_index r h = ground (arith, h, eq_refl r.id)
clash_self sco_index r h = ground (arith, h, eq_refl r.id)

clashes-inserted :
    (i : Index) (r : Row) (table : List Row)
    → fits i r ≡ true
    → clashes i r (if clashes i r table then table else table ++ (r ∷ [])) ≡ true
unfolding clashes
clashes-inserted i r table h = ground (arith, clash_self i r h, clashes-append i r table (r ∷ []))

insert_each-clashes :
    (i k : Index) (rs ss table : List Row)
    → All (λ r. fits i r ≡ true) rs
    → All (λ r. clashes i r (insert_each k ss (insert_each i rs table)) ≡ true) rs
unfolding insert_each
insert_each-clashes i k [] ss table h = tt
insert_each-clashes i k (r ∷ rs) ss table (h, hs) =
    let first = if clashes i r table then table else table ++ (r ∷ []) in
    (
      clashes-insert_each i k r ss (insert_each i rs first)
          (clashes-insert_each i i r rs first (clashes-inserted i r table h)),
      insert_each-clashes i k rs ss first hs,
    )

insert_each-present :
    (i : Index) (rs table : List Row)
    → All (λ r. clashes i r table ≡ true) rs
    → insert_each i rs table ≡ table
unfolding insert_each
insert_each-present i [] table h = refl
insert_each-present i (r ∷ rs) table (h, hs) = rw (h) (insert_each-present i rs table hs)

-- The table after all the rows.
abbrev insert_rows : List Row → List Row → List Row
insert_rows rs table =
    insert_each sco_index (filter (λ r. not (is_versioned r)) rs)
      (insert_each versioned_index (filter is_versioned rs) table)

insert_each-again :
    (rs table : List Row) → insert_rows rs (insert_rows rs table) ≡ insert_rows rs table
unfolding insert_each
insert_each-again rs table =
    let vs = filter is_versioned rs in
    let ss = filter (λ r. not (is_versioned r)) rs in
    let once = insert_each versioned_index vs table in
    ap (insert_each sco_index ss) (
      insert_each-present versioned_index vs (insert_each sco_index ss once)
        (insert_each-clashes versioned_index sco_index vs ss table (All-filter is_versioned rs)))
    ∙ insert_each-present sco_index ss (insert_each sco_index ss once) (
        insert_each-clashes sco_index sco_index ss [] once
          (All-filter (λ r. not (is_versioned r)) rs))

module _ {T : Type 0} (db : Database T) (pg : IsPostgres db) where
  one_database :
      (o : Option (T × ℕ × ℕ)) (t u : T) (a b c d : ℕ)
      → o ≡ some (t, a, c)
      → o ≡ some (u, b, d)
      → t ≡ u
  one_database o t u a b c d e f = cc

  -- Inserting the same objects again, in batches of any size, accepts none of them, counts every one as
  -- a duplicate and leaves the table as it is.
  pub bulk_insert_rows-again :
      (size again : ℕ) (rs : List Row) (t t' : T) (accepted duplicates : ℕ)
      → 1 ≤ size
      → 1 ≤ again
      → bulk_insert_rows db size rs t ≡ some (t', accepted, duplicates)
      → (t'' : T) × (bulk_insert_rows db again rs t' ≡ some (t'', 0, length rs))
        × (db.rows t'' ≡ db.rows t')
  bulk_insert_rows-again size again rs t t' accepted duplicates h k e =
      let first = bulk_insert_rows-lem db pg size rs t h in
      let second = bulk_insert_rows-lem db pg again rs t' k in
      let here : db.rows t' ≡ insert_rows rs (db.rows t) =
        ap db.rows (one_database _ t' first.0 accepted first.1 duplicates first.2 e first.3)
        ∙ first.4 in
      let same : db.rows second.0 ≡ db.rows t' =
        second.4 ∙ ap (insert_rows rs) here ∙ insert_each-again rs (db.rows t) ∙ sym here in
      let none_new : second.1 ≡ 0 = omega (arith, ap length same, second.5) in
      let all_known : second.2 ≡ length rs = omega (arith, none_new, second.6) in
      (
        second.0,
        second.3
            ∙ ap (λ n. some (second.0, n, second.2)) none_new
            ∙ ap (λ n. some (second.0, 0, n)) all_known,
        same,
      )
