-- ===== src/Db/Queries/Ranked.antt =====
-- The orders of the queries, and what the database promises of a `SELECT`
-- (src/prow/db/repositories.py).
use prow_cti.Db.Queries.{
  Order, Selects, StixObjectRow, before, confidence_desc, created_desc, ingested_at_desc, limited,
  newest_version,
}
use prow_cti.Json.{String-discrete}
use prow_cti.Prelude.{Bool, List, Option, [], arith, drop, false, filter, true, ℕ, ◌&&◌, ◌∷◌, ◌≡◌}
use mathlib.Core.Logic.Or
use mathlib.Core.List.{Mem, Pairwise, Perm, mem-cons, mem-cons_self}
use mathlib.Core.Bool.{Bool-set}
use mathlib.Core.List.Pairwise
use mathlib.Core.List.Perm
use native.Mathlib.Decide.{ℕ_discrete}
use mathlib.Core.HLevel.{hedberg}
use mathlib.Core.Path.{ap₂}

pub before_refl : (o : Order) (a : StixObjectRow) → before o a a ≡ true
unfolding before
before_refl confidence_desc a = ground arith
before_refl created_desc a = ground arith
before_refl ingested_at_desc a = ground arith
before_refl newest_version a = ground arith

pub before_total : (o : Order) (a b : StixObjectRow) → before o a b ≡ false → before o b a ≡ true
unfolding before
before_total confidence_desc a b h = ground arith
before_total created_desc a b h = ground arith
before_total ingested_at_desc a b h = ground arith
before_total newest_version a b h = ground arith

pub before_trans :
    (o : Order) (a b c : StixObjectRow)
    → before o a b ≡ true
    → before o b c ≡ true
    → before o a c ≡ true
unfolding before
before_trans confidence_desc a b c h g = ground arith
before_trans created_desc a b c h g = ground arith
before_trans ingested_at_desc a b c h g = ground arith
before_trans newest_version a b c h g = ground arith

abbrev pub IsRanked : Order → List StixObjectRow → Type 0
IsRanked o = Pairwise (λ a b. before o a b ≡ true)

-- A `SELECT` ranks the rows that meet its condition in some way that agrees with its order, and cuts the
-- limit out of them behind the offset. Ties may be ranked otherwise in every statement.
pub record Ranking (rows : List StixObjectRow) (o : Order) (limit : Option ℕ) (offset : ℕ)
    (chosen : List StixObjectRow) : Type 0 where
  pub ranked : List StixObjectRow
  pub same_rows : Perm ranked rows
  pub is_ranked : IsRanked o ranked
  pub cut : chosen ≡ limited limit (drop offset ranked)

pub record IsSelect {T : Type 0} (db : Selects T) : Type 0 where
  pub ranking :
      (keep : StixObjectRow → Bool) (o : Order) (limit : Option ℕ) (offset : ℕ) (t : T)
      → Ranking (filter keep (db.stored t)) o limit offset (db.select keep o limit offset t)

pub StixObjectRow-discrete : Discrete StixObjectRow
StixObjectRow-discrete = hlevel (ℕ_discrete, String-discrete)

-- No two of the rows are tied.
abbrev AreUntied : Order → StixObjectRow → StixObjectRow → Type 0
AreUntied o a b = (before o a b && before o b a) ≡ false

abbrev pub Untied : Order → List StixObjectRow → Type 0
Untied o = Pairwise (AreUntied o)

untied_sym : (o : Order) (a b : StixObjectRow) → AreUntied o a b → AreUntied o b a
untied_sym o a b h = ground arith

pub Untied-perm : (o : Order) {l r : List StixObjectRow} → Perm l r → Untied o l → Untied o r
Untied-perm o p u = Perm.pairwise (λ a b. Bool-set _ _) (untied_sym o) p u

module _ (o : Order) where
  pub Mem-before :
      {a : StixObjectRow} (b : StixObjectRow) (l : List StixObjectRow)
      → IsRanked o (a ∷ l)
      → Mem b (a ∷ l)
      → before o a b ≡ true
  Mem-before {a} b l (Pairwise.cons h s) m =
      Or.elim (Bool-set _ _) (mem-cons.0 m) (λ e. rw e (before_refl o a)) (h b)

  -- Rows without ties are ranked in one way only.
  pub IsRanked-unique :
      {l r : List StixObjectRow} → Untied o r → IsRanked o l → IsRanked o r → Perm l r → l ≡ r
  IsRanked-unique {l = []} u _ _ p = Perm.nil-eq p
  IsRanked-unique {l = a ∷ l} {r = []} u _ _ p = Perm.eq-nil p
  IsRanked-unique {l = a ∷ l} {r = b ∷ r} (Pairwise.cons u us) sl sr p =
      let mine = (Perm.mem_iff p).0 mem-cons_self in
      let theirs = (Perm.mem_iff (Perm.symm p)).0 mem-cons_self in
      let heads : a ≡ b =
        Or.elim (hedberg StixObjectRow-discrete a b) (mem-cons.0 mine) (λ e. e)
          (λ m. absurd (cc (u a m, Mem-before a r sr mine, Mem-before b l sl theirs))) in
      let tails = Perm.cons_inv (Perm.trans p (Perm.symm (Perm.cons' heads Perm.rfl))) in
      ap₂ ◌∷◌ heads (IsRanked-unique {l = l} us (Pairwise.of_cons sl) (Pairwise.of_cons sr) tails)
