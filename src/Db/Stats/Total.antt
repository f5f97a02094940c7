-- ===== src/Db/Stats/Total.antt =====
-- That the statistics count every stored object (src/prow/db/repositories.py).
use prow_cti.Db.Queries.{StixObjectRow}
use prow_cti.Db.Stats.{Aggregates, dict_of, get_ingest_stats, sum_values}
use prow_cti.Prelude.{
  All, Bool, List, String, [], ap, arith, eq_iff, false, if◌then◌else◌, length, not, refl, suc,
  true, ℕ, ◌&&◌, ◌+◌, ◌==◌, ◌||◌, ◌∙◌, ◌∷◌, ◌≡◌,
}
use prow_cti.Prelude.Dict.{Dict, insert}
use prow_cti.Supervisor.Instance.History.Steps.{fresh}
use mathlib.Core.List.{Perm, Permᴰ}
use mathlib.Core.Path.{ap₂}
use mathlib.Core.Logic.{∥∥₁_elim}
use native.Mathlib.Nat.{ℕ_set}

-- One more of a type.
unfoldable pub bump : String → List (String × ℕ) → List (String × ℕ)
bump ty [] = (ty, 1) ∷ []
bump ty ((other, n) ∷ groups) =
    let rest = bump ty groups in if other == ty then (other, n + 1) ∷ groups else (other, n) ∷ rest

-- The rows counted by their type.
unfoldable pub tally : List StixObjectRow → List (String × ℕ)
tally [] = []
tally (r ∷ rows) = bump r.columns.type_name (tally rows)

-- Some group is of the type.
unfoldable pub has_type : String → List (String × ℕ) → Bool
has_type ty [] = false
has_type ty ((other, n) ∷ groups) = other == ty || has_type ty groups

unfoldable pub is_distinct : List (String × ℕ) → Bool
is_distinct [] = true
is_distinct ((ty, n) ∷ groups) = not (has_type ty groups) && is_distinct groups

-- `GROUP BY type`: the groups, in any order, no type with two of them.
pub record IsCounted {T : Type 0} (db : Aggregates T) : Type 0 where
  pub by_type : (t : T) → Perm (db.group_by_type t) (tally (db.all_rows t))
  pub distinct : (t : T) → is_distinct (db.group_by_type t) ≡ true

sum-bump :
    (ty : String) (groups : List (String × ℕ))
    → sum_values (bump ty groups) ≡ suc (sum_values groups)
unfolding bump
sum-bump ty [] = omega arith
sum-bump ty ((other, n) ∷ groups) = ground (arith, sum-bump ty groups)

sum-tally : (rows : List StixObjectRow) → sum_values (tally rows) ≡ length rows
unfolding tally
sum-tally [] = refl
sum-tally (r ∷ rows) = omega (arith, sum-bump r.columns.type_name (tally rows), sum-tally rows)

Permᴰ-sum_values : {xs ys : List (String × ℕ)} → Permᴰ xs ys → sum_values xs ≡ sum_values ys
Permᴰ-sum_values Permᴰ.nil = refl
Permᴰ-sum_values (Permᴰ.cons e p) = ap₂ (λ x m. x.1 + m) e (Permᴰ-sum_values p)
Permᴰ-sum_values (Permᴰ.swap e f) = omega (arith, ap (λ x. x.1) e, ap (λ x. x.1) f)
Permᴰ-sum_values (Permᴰ.trans p q) = Permᴰ-sum_values p ∙ Permᴰ-sum_values q

sum-insert :
    (ty : String) (n : ℕ) (d : Dict ℕ)
    → has_type ty d ≡ false
    → sum_values (insert ty n d) ≡ n + sum_values d
unfolding has_type insert
sum-insert ty n [] h = refl
sum-insert ty n ((other, m) ∷ d) h = ground (arith, sum-insert ty n d)

has_type-insert :
    (ty k : String) (n : ℕ) (d : Dict ℕ) → has_type k (insert ty n d) ≡ (ty == k || has_type k d)
unfolding has_type insert
has_type-insert ty k n [] = ground arith
has_type-insert ty k n ((other, m) ∷ d) =
    ground (arith, has_type-insert ty k n d, eq_iff other ty, eq_iff other k, eq_iff ty k)

-- The groups are all of types that the dictionary does not have.
abbrev Fresh : List (String × ℕ) → Dict ℕ → Type 0
Fresh groups d = All (λ g. has_type g.0 d ≡ false) groups

Fresh-insert :
    (ty : String) (n : ℕ) (groups : List (String × ℕ)) (d : Dict ℕ)
    → has_type ty groups ≡ false
    → Fresh groups d
    → Fresh groups (insert ty n d)
unfolding has_type
Fresh-insert ty n [] d h f = tt
Fresh-insert ty n ((other, m) ∷ groups) d h (fresh, others) = (
  ground (arith, has_type-insert ty other n d, eq_iff other ty, eq_iff ty other),
  Fresh-insert ty n groups d (ground arith) others,
)

sum-dict_of :
    (groups : List (String × ℕ)) (d : Dict ℕ)
    → is_distinct groups ≡ true
    → Fresh groups d
    → sum_values (dict_of groups d) ≡ sum_values groups + sum_values d
unfolding dict_of is_distinct
sum-dict_of [] d h f = omega arith
sum-dict_of ((ty, n) ∷ groups) d h (fresh, others) = omega (
  arith,
  sum-dict_of groups (insert ty n d) (ground arith)
      (Fresh-insert ty n groups d (ground arith) others),
  sum-insert ty n d fresh,
)

Fresh-nil : (groups : List (String × ℕ)) → Fresh groups []
unfolding has_type
Fresh-nil [] = tt
Fresh-nil (g ∷ groups) = (refl, Fresh-nil groups)

-- The total that the statistics tell is the number of stored objects.
get_ingest_stats-total :
    {T : Type 0} (db : Aggregates T) (t : T)
    → IsCounted db
    → (get_ingest_stats db t).total_objects ≡ length (db.all_rows t)
unfolding get_ingest_stats
get_ingest_stats-total db t lawful = omega (
  arith,
  sum-dict_of (db.group_by_type t) [] (lawful.distinct t) (Fresh-nil (db.group_by_type t)),
  ∥∥₁_elim (lawful.by_type t) (ℕ_set _ _) Permᴰ-sum_values,
  sum-tally (db.all_rows t),
)
