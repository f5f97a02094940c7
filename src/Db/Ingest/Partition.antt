-- ===== src/Db/Ingest/Partition.antt =====
-- How a bundle is split into accepted objects and failures (src/prow/db/ingest.py).
use prow_cti.Db.Ingest.{
  Validation, check_item, check_items, cons_accepted, validate_and_partition_bundle,
}
use prow_cti.Json.{
  Fields, Items, Json, arr, bool, elements, float, get, int, non_empty, null, obj, str,
}
use prow_cti.Prelude.{
  Bool, List, Option, String, [], ap, arith, eq_refl, false, length, none, refl, some, suc, sym,
  true, ℕ, ◌&&◌, ◌++◌, ◌↔◌, ◌∙◌, ◌∷◌, ◌≡◌, ◌≤◌,
}
use prow_cti.Protocol.Messages.{ValidationFailure}
use mathlib.Core.Path.{subst}

-- `validate_stix_object` accepts the item.
abbrev pub passes : Validation → Bool → Json → Option Fields
passes va allow (obj o) = elim (va.validate_stix_object allow o) [ [] ↦ some o | (e ∷ es) ↦ none ]
passes va allow _ = none

-- The objects that the validation accepts, in their order.
unfoldable pub passing : Validation → Bool → List Json → List Fields
passing va allow [] = []
passing va allow (item ∷ items) = cons_accepted (passes va allow item) (passing va allow items)

abbrev pub is_empty : List ValidationFailure → Bool
is_empty [] = true
is_empty (f ∷ fs) = false

abbrev is_some : Option Fields → Bool
is_some (some o) = true
is_some none = false

module _ (va : Validation) (allow : Bool) (bundle_id : String) where
  -- An item is accepted, or it has a failure, and not both.
  check_item-lem :
      (index : ℕ) (item : Json)
      → ((check_item va allow bundle_id index item).0 ≡ passes va allow item)
        × (is_empty (check_item va allow bundle_id index item).1 ≡ is_some (passes va allow item))
  check_item-lem index (obj o) = by_errors (va.validate_stix_object allow o) refl
    where
      by_errors :
          (es : List String)
          → va.validate_stix_object allow o ≡ es
          → ((check_item va allow bundle_id index (obj o)).0 ≡ passes va allow (obj o))
            × (is_empty (check_item va allow bundle_id index (obj o)).1
                ≡ is_some (passes va allow (obj o)))
      by_errors [] e = ground (arith, e)
      by_errors (x ∷ es) e = ground (arith, e)
  check_item-lem index null = (refl, refl)
  check_item-lem index (bool b) = (refl, refl)
  check_item-lem index (int n) = (refl, refl)
  check_item-lem index (float f) = (refl, refl)
  check_item-lem index (str s) = (refl, refl)
  check_item-lem index (arr is) = (refl, refl)

  is_empty-append :
      (fs gs : List ValidationFailure) → is_empty (fs ++ gs) ≡ (is_empty fs && is_empty gs)
  is_empty-append [] gs = refl
  is_empty-append (f ∷ fs) gs = refl

  check_items-passing :
      (index : ℕ) (items : List Json)
      → (check_items va allow bundle_id index items).0 ≡ passing va allow items
  unfolding check_items passing
  check_items-passing index [] = refl
  check_items-passing index (item ∷ items) =
      ap (λ o. cons_accepted o (check_items va allow bundle_id (suc index) items).0)
        (check_item-lem index item).0
      ∙ ap (cons_accepted (passes va allow item)) (check_items-passing (suc index) items)

  length-passing-le : (items : List Json) → length (passing va allow items) ≤ length items
  unfolding passing
  length-passing-le [] = omega arith
  length-passing-le (item ∷ items) = by_pass (passes va allow item) refl (length-passing-le items)
    where
      by_pass :
          (o : Option Fields)
          → passes va allow item ≡ o
          → length (passing va allow items) ≤ length items
          → length (passing va allow (item ∷ items)) ≤ length (item ∷ items)
      by_pass (some o) e k = ground (arith, e, k)
      by_pass none e k = ground (arith, e, k)

  check_items-failures :
      (index : ℕ) (items : List Json)
      → (is_empty (check_items va allow bundle_id index items).1 ≡ true)
        ↔ (length (passing va allow items) ≡ length items)
  unfolding check_items passing
  check_items-failures index [] = (λ e. refl, λ e. refl)
  check_items-failures index (item ∷ items) =
      by_pass (passes va allow item) refl (check_items-failures (suc index) items)
    where
      by_pass :
          (o : Option Fields)
          → passes va allow item ≡ o
          → (is_empty (check_items va allow bundle_id (suc index) items).1 ≡ true)
            ↔ (length (passing va allow items) ≡ length items)
          → (is_empty (check_items va allow bundle_id index (item ∷ items)).1 ≡ true)
            ↔ (length (passing va allow (item ∷ items)) ≡ length (item ∷ items))
      by_pass (some o) e k = ground (
        arith,
        e,
        k,
        check_item-lem index item,
        is_empty-append (check_item va allow bundle_id index item).1
            (check_items va allow bundle_id (suc index) items).1,
      )
      by_pass none e k = ground (
        arith,
        e,
        k,
        check_item-lem index item,
        length-passing-le items,
        is_empty-append (check_item va allow bundle_id index item).1
            (check_items va allow bundle_id (suc index) items).1,
      )

  well_formed :
      (bundle : Fields) (items : Items)
      → get bundle "type" ≡ some (str "bundle")
      → non_empty (get bundle "id") ≡ some bundle_id
      → get bundle "objects" ≡ some (arr items)
      → validate_and_partition_bundle va allow (obj bundle)
        ≡ check_items va allow bundle_id 0 (elements items)
  unfolding validate_and_partition_bundle
  well_formed bundle items t i o = ground (arith, t, i, o, eq_refl "bundle")

  -- A bundle with its type, id and array of objects: the accepted objects are those that the validation
  -- accepts, in the order of the bundle, and there is no failure exactly if all objects are accepted.
  validate_and_partition_bundle-lem :
      (bundle : Fields) (items : Items)
      → get bundle "type" ≡ some (str "bundle")
      → non_empty (get bundle "id") ≡ some bundle_id
      → get bundle "objects" ≡ some (arr items)
      → let checked = validate_and_partition_bundle va allow (obj bundle) in
        (checked.0 ≡ passing va allow (elements items))
        × ((is_empty checked.1 ≡ true)
            ↔ (length (passing va allow (elements items)) ≡ length (elements items)))
  validate_and_partition_bundle-lem bundle items t i o =
      subst
        (λ checked.
          (checked.0 ≡ passing va allow (elements items))
          × ((is_empty checked.1 ≡ true)
              ↔ (length (passing va allow (elements items)) ≡ length (elements items))))
        (sym (well_formed bundle items t i o))
        (check_items-passing 0 (elements items), check_items-failures 0 (elements items))
