-- ===== src/Feeds/Attack/Selected.antt =====
-- What of its feed the ATT&CK connector keeps (src/prow/connectors/attack/connector.py).
use prow_cti.Feeds.Attack.{
  is_deprecated, is_true, kept_object, normalize_attack_object, set_default, validated_objects,
  with_kept,
}
use prow_cti.Feeds.Attack.Validated.{IsValid, kept_object-IsValid}
use prow_cti.Feeds.Fetch.{done}
use prow_cti.Feeds.Fetch.Steps.{bind-done, done_injective, raising-done}
use prow_cti.Json.{
  Fields, Items, Json, arr, bool, cons, float, get, get-put, int, is_text, nil, null, obj, str,
}
use prow_cti.Prelude.{
  Bool, Bool-cases, List, Option, String, [], ap, arith, eq_iff, false, if◌then◌else◌, inl, inr,
  none, not, refl, some, true, ◌&&◌, ◌==◌, ◌∷◌, ◌≡◌, ◌⊎◌,
}
use prow_cti.Stix.Validate.{Schema}
use mathlib.Core.Path.{subst}

-- What the object that is made of an item has under a key: what the item has, or else a default.
abbrev pub with_default : Fields → String → Option Json
with_default item k = elim (get item k) [
  | some v ↦ some v
  | none ↦
      if k == "spec_version"
      then some (str "2.1")
      else (if k == "is_family" && is_text "malware" (get item "type")
          then some (bool false)
          else none)
]

abbrev pub IsNormal : Fields → Fields → Type 0
IsNormal item o = (k : String) → get o k ≡ with_default item k

abbrev pub IsDeprecated : Fields → Type 0
IsDeprecated item =
    (get item "x_mitre_deprecated" ≡ some (bool true)) ⊎ (get item "revoked" ≡ some (bool true))

-- The item is deprecated and such are not asked for, or it is not valid with its defaults.
abbrev pub IsLeftOut : Schema → Bool → Fields → Type 0
IsLeftOut schema include_deprecated item =
    ((include_deprecated ≡ false) × IsDeprecated item)
    ⊎ ((o : Fields) × IsNormal item o × (¬ IsValid schema o))

-- The object is the item with its defaults, it is valid, and the item is not deprecated where such are
-- not asked for.
abbrev pub IsKept : Schema → Bool → Fields → Fields → Type 0
IsKept schema include_deprecated item o =
    IsNormal item o × IsValid schema o × ((include_deprecated ≡ true) ⊎ (¬ IsDeprecated item))

-- The objects that are made of the items of a feed, in their order.
pub data Selection (schema : Schema) (include_deprecated : Bool)
    : Items → List Fields → Type 0 where
  all_read : Selection schema include_deprecated nil []
  left_out :
      {item : Fields} {others : Items} {os : List Fields}
      → IsLeftOut schema include_deprecated item
      → Selection schema include_deprecated others os
      → Selection schema include_deprecated (cons (obj item) others) os
  kept :
      {item o : Fields} {others : Items} {os : List Fields}
      → IsKept schema include_deprecated item o
      → Selection schema include_deprecated others os
      → Selection schema include_deprecated (cons (obj item) others) (o ∷ os)

get-set_default :
    (key k : String) (v : Json) (o : Fields)
    → get (set_default key v o) k
      ≡ elim (get o k) [ some w ↦ some w | none ↦ if k == key then some v else none ]
get-set_default key k v o = ground (arith, get-put key k v o, eq_iff k key, eq_iff key k)

normalize-IsNormal : (item : Fields) → IsNormal item (normalize_attack_object item)
unfolding normalize_attack_object
normalize-IsNormal item k = ground (
  arith,
  get-set_default "spec_version" k (str "2.1") item,
  get-set_default "spec_version" "type" (str "2.1") item,
  get-set_default "is_family" k (bool false) (set_default "spec_version" (str "2.1") item),
  eq_iff k "spec_version",
  eq_iff k "is_family",
)

is_true-true : (v : Option Json) → is_true v ≡ true → v ≡ some (bool true)
is_true-true none h = cc
is_true-true (some null) h = cc
is_true-true (some (bool b)) h = rw h refl
is_true-true (some (int n)) h = cc
is_true-true (some (float f)) h = cc
is_true-true (some (str t)) h = cc
is_true-true (some (arr is)) h = cc
is_true-true (some (obj o)) h = cc

is_deprecated-IsDeprecated : (item : Fields) → is_deprecated item ≡ true → IsDeprecated item
is_deprecated-IsDeprecated item h = elim (Bool-cases (is_true (get item "x_mitre_deprecated"))) [
  | inl e ↦ inl (is_true-true _ e)
  | inr e ↦ inr (is_true-true _ (ground (arith, e)))
]

IsDeprecated-is_deprecated : (item : Fields) → IsDeprecated item → is_deprecated item ≡ true
IsDeprecated-is_deprecated item (inl e) = ground (arith, ap is_true e)
IsDeprecated-is_deprecated item (inr e) = ground (arith, ap is_true e)

module _ (schema : Schema) (include_deprecated : Bool) where
  kept_object-IsKept :
      (item o : Fields)
      → kept_object schema include_deprecated item ≡ some o
      → IsKept schema include_deprecated item o
  kept_object-IsKept item o h =
      let same : normalize_attack_object item ≡ o = ground arith in
      (
        subst (IsNormal item) same (normalize-IsNormal item),
        kept_object-IsValid schema include_deprecated item o h,
        elim (Bool-cases include_deprecated) [
          | inl e ↦ inl e
          | inr e ↦ inr (λ d. ground (arith, IsDeprecated-is_deprecated item d, e))
        ],
      )

  kept_object-IsLeftOut :
      (item : Fields)
      → kept_object schema include_deprecated item ≡ none
      → IsLeftOut schema include_deprecated item
  kept_object-IsLeftOut item h = elim (Bool-cases (not include_deprecated && is_deprecated item)) [
    | inl e ↦ inl (ground (arith, e), is_deprecated-IsDeprecated item (ground (arith, e)))
    | inr e ↦ inr (
      normalize_attack_object item,
      normalize-IsNormal item,
      λ (valid : IsValid schema (normalize_attack_object item)). ground (arith, e, valid),
    )
  ]

  with_kept-Selection :
      (item : Fields) (m : Option Fields) (others : Items) (os : List Fields)
      → kept_object schema include_deprecated item ≡ m
      → Selection schema include_deprecated others os
      → Selection schema include_deprecated (cons (obj item) others) (with_kept m os)
  with_kept-Selection item none others os q s = left_out (kept_object-IsLeftOut item q) s
  with_kept-Selection item (some o) others os q s = kept (kept_object-IsKept item o q) s

  pub validated_objects-Selection :
      (listed : Items) (os : List Fields)
      → validated_objects schema include_deprecated listed ≡ done os
      → Selection schema include_deprecated listed os
  unfolding validated_objects
  validated_objects-Selection nil os h =
      subst (Selection schema include_deprecated nil) (done_injective h) all_read
  validated_objects-Selection (cons (obj item) others) os h =
      let (rest, q, h') = bind-done (validated_objects schema include_deprecated others) _ os h in
      subst (Selection schema include_deprecated (cons (obj item) others)) (done_injective h')
        (with_kept-Selection item _ others rest refl (validated_objects-Selection others rest q))
  validated_objects-Selection (cons _ others) os h = raising-done h
