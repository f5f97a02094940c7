-- ===== src/Stix/Validate/Accepts.antt =====
-- Which objects are accepted (src/prow/stix/_validate.py).
use prow_cti.Json.{
  Fields, Items, Json, arr, bool, cons, elements, end, field, float, get, int, is_text, nil, null,
  obj, str,
}
use prow_cti.Prelude.{
  Bool, Bool-cases, List, String, [], ap, arith, false, inl, inr, map, refl, some, suc, true, ℕ,
  ◌&&◌, ◌++◌, ◌==◌, ◌∙◌, ◌∷◌, ◌≡◌,
}
use prow_cti.Stix.Validate.{
  Schema, items_errors, objects_errors, validate_stix_object, value_errors, verdict,
}

abbrev pub is_accepted : List String → Bool
is_accepted [] = true
is_accepted (e ∷ es) = false

abbrev pub every {ℓ} : {A : Type ℓ} → (A → Bool) → List A → Bool
every test [] = true
every test (x ∷ xs) = test x && every test xs

pub accepted-append :
    (es fs : List String) → is_accepted (es ++ fs) ≡ (is_accepted es && is_accepted fs)
accepted-append [] fs = refl
accepted-append (e ∷ es) fs = refl

accepted-map : (f : String → String) (es : List String) → is_accepted (map f es) ≡ is_accepted es
accepted-map f [] = refl
accepted-map f (e ∷ es) = refl

module _ (sc : Schema) (allow : Bool) where
  -- An item of a bundle is an object that the validation accepts.
  abbrev pub accepts_item : Json → Bool
  accepts_item (obj o) = is_accepted (validate_stix_object sc allow o)
  accepts_item _ = false

  items_errors-accepted :
      (index : ℕ) (is : Items)
      → is_accepted (items_errors sc allow index is) ≡ every accepts_item (elements is)
  unfolding items_errors elements validate_stix_object
  items_errors-accepted index nil = refl
  items_errors-accepted index (cons (obj o) is) =
      let own = verdict sc allow o (objects_errors sc allow o) in
      accepted-append (map (sc.at_index index) own) (items_errors sc allow (suc index) is)
      ∙ ap (λ b. b && is_accepted (items_errors sc allow (suc index) is))
          (accepted-map (sc.at_index index) own)
      ∙ ap (λ b. is_accepted own && b) (items_errors-accepted (suc index) is)
  items_errors-accepted index (cons null is) = refl
  items_errors-accepted index (cons (bool b) is) = refl
  items_errors-accepted index (cons (int n) is) = refl
  items_errors-accepted index (cons (float f) is) = refl
  items_errors-accepted index (cons (str s) is) = refl
  items_errors-accepted index (cons (arr js) is) = refl

  objects_errors-items :
      (o : Fields) (items : Items)
      → get o "objects" ≡ some (arr items)
      → objects_errors sc allow o ≡ items_errors sc allow 0 items
  unfolding objects_errors get
  objects_errors-items end items e = cc
  objects_errors-items (field k v fs) items e = elim (Bool-cases (k == "objects")) [
    | inl here ↦
        let value : v ≡ arr items = ground (arith, here) in
        rw here (ap (value_errors sc allow) value)
    | inr other ↦ rw other (objects_errors-items fs items (ground (arith, other)))
  ]

  -- A bundle is accepted exactly if its schema finds no error and every item is an object that is
  -- accepted itself, nested bundles included.
  pub validate_stix_object-bundle :
      (o : Fields) (items : Items)
      → is_text "bundle" (get o "type") ≡ true
      → get o "objects" ≡ some (arr items)
      → is_accepted (validate_stix_object sc allow o)
        ≡ (is_accepted (sc.bundle_errors o) && every accepts_item (elements items))
  unfolding validate_stix_object verdict
  validate_stix_object-bundle o items t e =
      rw (t, objects_errors-items o items e)
        (accepted-append (sc.bundle_errors o) (items_errors sc allow 0 items)
          ∙ ap (λ b. is_accepted (sc.bundle_errors o) && b) (items_errors-accepted 0 items))
