-- ===== src/Db/Queries/Ties.antt =====
-- Paging over tied rows (src/prow/db/repositories.py): rows that one transaction inserts have the same
-- `ingested_at`, and `list_objects` sorts by nothing that tells them apart.
use prow_cti.Db.Queries.{
  Order, Rendering, Selects, StixObjectRow, before, limited, list_objects, order_of,
  stix_row_to_public_dict,
}
use prow_cti.Db.Queries.Pages.{pages}
use prow_cti.Db.Queries.Ranked.{IsRanked, IsSelect, before_total, before_trans}
use prow_cti.Prelude.{
  Bool-cases, List, String, [], drop, false, filter, if◌then◌else◌, inl, inr, none, refl, suc, true,
  zero, ℕ, ◌∷◌, ◌≡◌,
}
use mathlib.Core.Bool.{Bool-set}
use mathlib.Core.List.{Mem, Pairwise, Pairwise-singleton, Perm, mem-cons, reverse, reverse_perm}
use mathlib.Core.List.Perm
use mathlib.Core.Logic.{◌∨₁◌}
use mathlib.Core.Logic.Or

-- A sort that keeps tied rows in their order.
unfoldable pub place : Order → StixObjectRow → List StixObjectRow → List StixObjectRow
place o a [] = a ∷ []
place o a (b ∷ l) = let rest = place o a l in if before o a b then a ∷ b ∷ l else b ∷ rest

unfoldable pub rank : Order → List StixObjectRow → List StixObjectRow
rank o [] = []
rank o (a ∷ l) = place o a (rank o l)

place-perm : (o : Order) (a : StixObjectRow) (l : List StixObjectRow) → Perm (place o a l) (a ∷ l)
unfolding place
place-perm o a [] = Perm.refl (a ∷ [])
place-perm o a (b ∷ l) = elim (Bool-cases (before o a b)) [
  | inl first ↦ rw first (Perm.refl (a ∷ b ∷ l))
  | inr after ↦ rw after (Perm.trans (Perm.cons b (place-perm o a l)) (Perm.swap a b l))
]

pub rank-perm : (o : Order) (l : List StixObjectRow) → Perm (rank o l) l
unfolding rank
rank-perm o [] = Perm.refl []
rank-perm o (a ∷ l) = Perm.trans (place-perm o a (rank o l)) (Perm.cons a (rank-perm o l))

place-IsRanked :
    (o : Order) (a : StixObjectRow) (l : List StixObjectRow)
    → IsRanked o l
    → IsRanked o (place o a l)
unfolding place
place-IsRanked o a [] s = Pairwise-singleton _ a
place-IsRanked o a (b ∷ l) (Pairwise.cons h s) = elim (Bool-cases (before o a b)) [
  | inl first ↦
      rw first (Pairwise.cons (λ x m. by_place first x (mem-cons.0 m)) (Pairwise.cons h s))
  | inr after ↦ rw after (
      Pairwise.cons (λ x m. behind after x ((Perm.mem_iff (place-perm o a l)).0 m))
        (place-IsRanked o a l s))
]
  where
    by_place : before o a b ≡ true → (x : StixObjectRow) → (x ≡ b) ∨₁ Mem x l → before o a x ≡ true
    by_place first x m =
        Or.elim (Bool-set _ _) m (λ e. rw e first) (λ n. before_trans o a b x first (h x n))

    behind : before o a b ≡ false → (x : StixObjectRow) → Mem x (a ∷ l) → before o b x ≡ true
    behind after x m =
        Or.elim (Bool-set _ _) (mem-cons.0 m) (λ e. rw e (before_total o a b after)) (h x)

pub rank-IsRanked : (o : Order) (l : List StixObjectRow) → IsRanked o (rank o l)
unfolding rank
rank-IsRanked o [] = Pairwise.nil
rank-IsRanked o (a ∷ l) = place-IsRanked o a (rank o l) (rank-IsRanked o l)

-- A database that is its list of rows, and that reads it backwards behind an offset.
abbrev scanned : ℕ → List StixObjectRow → List StixObjectRow
scanned zero l = l
scanned (suc offset) l = reverse l

abbrev pub scanning : Selects (List StixObjectRow)
scanning = record {
  stored = λ t. t;
  select = λ keep o limit offset t.
      limited limit (drop offset (rank o (scanned offset (filter keep t))));
}

scanned-perm : (offset : ℕ) (l : List StixObjectRow) → Perm (scanned offset l) l
scanned-perm zero l = Perm.refl l
scanned-perm (suc offset) l = reverse_perm l

pub scanning-IsSelect : IsSelect scanning
scanning-IsSelect = record {
  ranking = λ keep o limit offset t. record {
    ranked = rank o (scanned offset (filter keep t));
    same_rows =
        Perm.trans (rank-perm o (scanned offset (filter keep t)))
          (scanned-perm offset (filter keep t));
    is_ranked = rank-IsRanked o (scanned offset (filter keep t));
    cut = refl;
  };
}

-- Where two objects are tied in the order that was asked for, a database that keeps to its contract
-- may show one of them on both pages of size one and the other on none, with nothing changed
-- between the two calls.
pub list_objects-tied :
    (rendering : Rendering) (sort : String) (x y : StixObjectRow)
    → before (order_of sort) x y ≡ true
    → before (order_of sort) y x ≡ true
    → (db : Selects (List StixObjectRow)) × IsSelect db
      × (db.stored (x ∷ y ∷ []) ≡ x ∷ y ∷ [])
      × (pages db rendering none sort (x ∷ y ∷ []) 1 0 2
          ≡ stix_row_to_public_dict rendering x ∷ stix_row_to_public_dict rendering x ∷ [])
unfolding list_objects filter rank place
list_objects-tied rendering sort x y h g = (scanning, scanning-IsSelect, refl, rw (h, g) refl)
