-- ===== src/Forward/Secrets/Complete.antt =====
-- That every secret of a schema is found, at any depth, and redacted where it stands
-- (src/prow/connector/entry_point_resolve.py and log_forwarder.py).
use prow_cti.Forward.Secrets.{
  collect, collect_secret_field_paths, depth, depth_value, found_in, found_in_all, holds_any,
  is_true, join_path, nests,
}
use prow_cti.Json.{Fields, Json, end, field, get, obj}
use prow_cti.Prelude.{
  Bool-cases, List, String, [], ap, append_assoc, arith, eq_iff, if◌then◌else◌, inl, inr, length,
  refl, some, suc, sym, true, zero, ℕ, ◌++◌, ◌==◌, ◌∷◌, ◌≡◌, ◌≤◌,
}
use mathlib.Core.Path.{subst, subst₂}

-- A property of the schema, named by the keys that lead to it, that is marked secret.
pub data IsSecret : List String → Fields → Type 0 where
  marked :
      (k : String) (schema props sub : Fields)
      → get schema "properties" ≡ some (obj props)
      → get props k ≡ some (obj sub)
      → is_true (get sub "secret") ≡ true
      → IsSecret (k ∷ []) schema
  nested :
      (k : String) (ks : List String) (schema props sub : Fields)
      → get schema "properties" ≡ some (obj props)
      → get props k ≡ some (obj sub)
      → IsSecret ks sub
      → IsSecret (k ∷ ks) schema

-- The dotted path of the keys.
abbrev pub path_from : String → List String → String
path_from prefix [] = prefix
path_from prefix (k ∷ ks) = path_from (join_path prefix k) ks

-- A list with an element at some place.
pub data Holds (x : String) : List String → Type 0 where
  at_place : (before after : List String) → Holds x (before ++ x ∷ after)

Holds-left : (x : String) (l r : List String) → Holds x l → Holds x (l ++ r)
Holds-left x _ r (at_place b a) =
    subst (Holds x) (sym (append_assoc b (x ∷ a) r)) (at_place b (a ++ r))

Holds-right : (x : String) (l r : List String) → Holds x r → Holds x (l ++ r)
Holds-right x l _ (at_place b a) = subst (Holds x) (append_assoc l b (x ∷ a)) (at_place (l ++ b) a)

Holds-found_in_all :
    (deeper : String → Fields → List String) (prefix k x : String) (v : Json) (props : Fields)
    → get props k ≡ some v
    → Holds x (found_in deeper prefix k v)
    → Holds x (found_in_all deeper prefix props)
unfolding found_in_all get
Holds-found_in_all deeper prefix k x v end e h = cc
Holds-found_in_all deeper prefix k x v (field j w fs) e h = elim (Bool-cases (j == k)) [
  | inl same ↦
      let key : j ≡ k = (eq_iff j k).0 same in
      let value : w ≡ v = ground (arith, same) in
      Holds-left x (found_in deeper prefix j w) (found_in_all deeper prefix fs)
        (subst₂ (λ i u. Holds x (found_in deeper prefix i u)) (sym key) (sym value) h)
  | inr other ↦
      Holds-right x (found_in deeper prefix j w) (found_in_all deeper prefix fs)
        (Holds-found_in_all deeper prefix k x v fs (ground (arith, other)) h)
]

collect-properties :
    (fuel : ℕ) (prefix : String) (schema props : Fields)
    → get schema "properties" ≡ some (obj props)
    → collect (suc fuel) prefix schema ≡ found_in_all (collect fuel) prefix props
unfolding collect
collect-properties fuel prefix schema props e = rw (e, collect)

holds_any-get :
    (props : Fields) (k : String) (v : Json) → get props k ≡ some v → holds_any props ≡ true
unfolding get
holds_any-get end k v e = cc
holds_any-get (field j w fs) k v e = refl

nests-properties :
    (schema props : Fields) (k : String) (v : Json)
    → get schema "properties" ≡ some (obj props)
    → get props k ≡ some v
    → nests (get schema "properties") (get schema "type") ≡ true
nests-properties schema props k v e f = ground (arith, e, holds_any-get props k v f)

Holds-own :
    (deeper : String → Fields → List String) (prefix k : String) (sub : Fields)
    → is_true (get sub "secret") ≡ true
    → Holds (join_path prefix k) (found_in deeper prefix k (obj sub))
unfolding found_in
Holds-own deeper prefix k sub s =
    Holds-left (join_path prefix k)
      (if is_true (get sub "secret") then join_path prefix k ∷ [] else [])
      (if nests (get sub "properties") (get sub "type")
        then deeper (join_path prefix k) sub
        else [])
      (rw s (at_place [] []))

Holds-deeper :
    (deeper : String → Fields → List String) (prefix k x : String) (sub : Fields)
    → nests (get sub "properties") (get sub "type") ≡ true
    → Holds x (deeper (join_path prefix k) sub)
    → Holds x (found_in deeper prefix k (obj sub))
unfolding found_in
Holds-deeper deeper prefix k x sub n h =
    Holds-right x (if is_true (get sub "secret") then join_path prefix k ∷ [] else [])
      (if nests (get sub "properties") (get sub "type")
        then deeper (join_path prefix k) sub
        else [])
      (rw n h)

-- A schema with a secret in it has properties.
IsSecret-nests :
    (ks : List String) (sub : Fields)
    → IsSecret ks sub
    → nests (get sub "properties") (get sub "type") ≡ true
IsSecret-nests _ _ (marked k schema props sub e f s) = nests-properties schema props k (obj sub) e f
IsSecret-nests _ _ (nested k ks schema props sub e f s) =
    nests-properties schema props k (obj sub) e f

Holds-collect :
    (fuel : ℕ) (prefix : String) (ks : List String) (schema : Fields)
    → length ks ≤ fuel
    → IsSecret ks schema
    → Holds (path_from prefix ks) (collect fuel prefix schema)
Holds-collect zero prefix _ _ h (marked k schema props sub e f s) =
    let no : ⊥ = omega arith in elim no [ ]
Holds-collect zero prefix _ _ h (nested k ks schema props sub e f s) =
    let no : ⊥ = omega arith in elim no [ ]
Holds-collect (suc fuel) prefix _ _ h (marked k schema props sub e f s) =
    subst (Holds (join_path prefix k)) (sym (collect-properties fuel prefix schema props e)) (
      Holds-found_in_all (collect fuel) prefix k (join_path prefix k) (obj sub) props f
        (Holds-own (collect fuel) prefix k sub s))
Holds-collect (suc fuel) prefix _ _ h (nested k ks schema props sub e f s) =
    let rec = Holds-collect fuel (join_path prefix k) ks sub (omega (arith, h)) s in
    let x = path_from (join_path prefix k) ks in
    subst (Holds x) (sym (collect-properties fuel prefix schema props e)) (
      Holds-found_in_all (collect fuel) prefix k x (obj sub) props f
        (Holds-deeper (collect fuel) prefix k x sub (IsSecret-nests ks sub s) rec))

depth-get : (fs : Fields) (k : String) (v : Json) → get fs k ≡ some v → depth_value v ≤ depth fs
unfolding get depth
depth-get end k v e = cc
depth-get (field j w fs) k v e = elim (Bool-cases (j == k)) [
  | inl same ↦ let value : w ≡ v = ground (arith, same) in omega (arith, ap depth_value value)
  | inr other ↦ omega (arith, depth-get fs k v (ground (arith, other)))
]

depth-sub :
    (schema props sub : Fields) (k : String)
    → get schema "properties" ≡ some (obj props)
    → get props k ≡ some (obj sub)
    → suc (depth sub) ≤ depth schema
unfolding depth
depth-sub schema props sub k e f =
    omega (arith, depth-get schema "properties" (obj props) e, depth-get props k (obj sub) f)

length-depth : (ks : List String) (schema : Fields) → IsSecret ks schema → length ks ≤ depth schema
length-depth _ _ (marked k schema props sub e f s) = omega (arith, depth-sub schema props sub k e f)
length-depth _ _ (nested k ks schema props sub e f s) =
    omega (arith, depth-sub schema props sub k e f, length-depth ks sub s)

-- Every property of a schema that is marked secret, at any depth, has its dotted path in the result.
pub Holds-collect_secret_field_paths :
    (ks : List String) (schema : Fields)
    → IsSecret ks schema
    → Holds (path_from "" ks) (collect_secret_field_paths schema)
unfolding collect_secret_field_paths
Holds-collect_secret_field_paths ks schema s =
    Holds-collect (depth schema) "" ks schema (length-depth ks schema s) s
