-- ===== src/Db/Queries/Pages.antt =====
-- Reading the objects page by page with `list_objects` (src/prow/db/repositories.py).
use prow_cti.Db.Queries.{
  Rendering, Selects, StixObjectRow, list_objects, of_type, order_of, stix_row_to_public_dict,
}
use prow_cti.Db.Queries.Ranked.{IsRanked, IsRanked-unique, IsSelect, Ranking, Untied, Untied-perm}
use prow_cti.Json.{Fields}
use prow_cti.Prelude.{
  List, Option, String, [], ap, arith, drop, filter, length, map, none, refl, some, suc, sym, take,
  zero, ℕ, ◌*◌, ◌++◌, ◌+◌, ◌∙◌, ◌∷◌, ◌≡◌, ◌≤◌,
}
use mathlib.Core.List.{Perm, Permᴰ, map-append}
use mathlib.Core.List.Perm
use mathlib.Core.Logic.{∥∥₁_elim}
use mathlib.Core.Path.{ap₂}
use native.Mathlib.Nat.{ℕ_set}

take-nil : {A : Type 0} (n : ℕ) → take {A = A} n [] ≡ []
take-nil zero = refl
take-nil (suc n) = refl

drop-nil : {A : Type 0} (n : ℕ) → drop {A = A} n [] ≡ []
drop-nil zero = refl
drop-nil (suc n) = refl

take-append_drop :
    {A : Type 0} (n m : ℕ) (xs : List A) → take n xs ++ take m (drop n xs) ≡ take (n + m) xs
take-append_drop zero m xs = ground arith
take-append_drop (suc n) m [] = take-nil m ∙ sym (take-nil (suc n + m))
take-append_drop (suc n) m (x ∷ xs) =
    let moved : suc n + m ≡ suc (n + m) = omega arith in
    rw moved (ap (λ l. x ∷ l) (take-append_drop n m xs))

drop-drop : {A : Type 0} (n m : ℕ) (xs : List A) → drop m (drop n xs) ≡ drop (n + m) xs
drop-drop zero m xs = ground arith
drop-drop (suc n) m [] = drop-nil m ∙ sym (drop-nil (suc n + m))
drop-drop (suc n) m (x ∷ xs) =
    let moved : suc n + m ≡ suc (n + m) = omega arith in rw moved (drop-drop n m xs)

take_all : {A : Type 0} (n : ℕ) (xs : List A) → length xs ≤ n → take n xs ≡ xs
take_all zero [] h = refl
take_all zero (x ∷ xs) h = absurd (omega arith)
take_all (suc n) [] h = refl
take_all (suc n) (x ∷ xs) h = ap (λ l. x ∷ l) (take_all n xs (omega arith))

Permᴰ-length : {A : Type 0} {xs ys : List A} → Permᴰ xs ys → length xs ≡ length ys
Permᴰ-length Permᴰ.nil = refl
Permᴰ-length (Permᴰ.cons e p) = ap suc (Permᴰ-length p)
Permᴰ-length (Permᴰ.swap e f) = refl
Permᴰ-length (Permᴰ.trans p q) = Permᴰ-length p ∙ Permᴰ-length q

perm-length : {A : Type 0} {xs ys : List A} → Perm xs ys → length xs ≡ length ys
perm-length p = ∥∥₁_elim p (ℕ_set _ _) Permᴰ-length

module _ {T : Type 0} (db : Selects T) (rendering : Rendering) where
  -- The objects of so many pages of a size, from an offset on.
  abbrev pub pages : Option String → String → T → ℕ → ℕ → ℕ → List Fields
  pages stix_type sort t size offset zero = []
  pages stix_type sort t size offset (suc number) =
      (list_objects db rendering stix_type size offset sort t).0
      ++ pages stix_type sort t size (offset + size) number

  module _ (lawful : IsSelect db) (stix_type : Option String) (sort : String) (t : T) where
    abbrev matching : List StixObjectRow
    matching = filter (of_type stix_type) (db.stored t)

    abbrev whole :
        Ranking matching
          (order_of sort)
          none
          0
          (db.select (of_type stix_type) (order_of sort) none 0 t)
    whole = lawful.ranking (of_type stix_type) (order_of sort) none 0 t

    page_lem :
        (size offset : ℕ)
        → Untied (order_of sort) matching
        → (list_objects db rendering stix_type size offset sort t).0
          ≡ map (stix_row_to_public_dict rendering) (take size (drop offset whole.ranked))
    unfolding list_objects
    page_lem size offset untied =
        let one = lawful.ranking (of_type stix_type) (order_of sort) (some size) offset t in
        let same =
          IsRanked-unique (order_of sort)
            (Untied-perm (order_of sort) (Perm.symm whole.same_rows) untied) one.is_ranked
            whole.is_ranked (Perm.trans one.same_rows (Perm.symm whole.same_rows)) in
        ap (map (stix_row_to_public_dict rendering)) one.cut
        ∙ ap (λ l. map (stix_row_to_public_dict rendering) (take size (drop offset l))) same

    pages_lem :
        (size number offset : ℕ)
        → Untied (order_of sort) matching
        → pages stix_type sort t size offset number
          ≡ map
              (stix_row_to_public_dict rendering)
              (take (number * size) (drop offset whole.ranked))
    pages_lem size zero offset untied = ground arith
    pages_lem size (suc number) offset untied =
        let public = stix_row_to_public_dict rendering in
        let rest = drop offset whole.ranked in
        ap₂ ◌++◌ (page_lem size offset untied) (
          pages_lem size number (offset + size) untied
          ∙ ap (λ l. map public (take (number * size) l))
              (sym (drop-drop offset size whole.ranked)))
        ∙ sym (map-append public (take size rest) (take (number * size) (drop size rest)))
        ∙ ap (map public) (take-append_drop size (number * size) rest)
        ∙ ap (λ n. map public (take n rest)) (grind arith)

    -- If no two of the matching objects are tied, the pages of `list_objects`, read one after
    -- another until they reach the total that it tells, hold every matching object exactly once,
    -- in the order that was asked for.
    pub list_objects-pages :
        (size number : ℕ)
        → Untied (order_of sort) matching
        → (list_objects db rendering stix_type size 0 sort t).1 ≤ number * size
        → (rows : List StixObjectRow) × (pages stix_type sort t size 0 number
            ≡ map (stix_row_to_public_dict rendering) rows)
          × Perm rows (filter (of_type stix_type) (db.stored t))
          × IsRanked (order_of sort) rows
    unfolding list_objects
    list_objects-pages size number untied enough = (
      whole.ranked,
      pages_lem size number 0 untied
          ∙ ap (map (stix_row_to_public_dict rendering))
              (take_all (number * size) whole.ranked (omega (arith, perm-length whole.same_rows))),
      whole.same_rows,
      whole.is_ranked,
    )
