-- ===== src/Json.antt =====
-- The values that `json.loads` returns and that payloads, configurations and STIX objects are made
-- of: Python's `dict[str, Any]`. A float is kept as the text of its literal.
use prow_cti.Prelude.{
  Bool, Bool-cases, List, Option, String, [], arith, eq_iff, false, if◌then◌else◌, inl, inr, none,
  refl, some, ◌==◌, ◌∷◌, ◌≡◌,
}
use prow_cti.Prelude.Dict.{Dict}
use prow_cti.Prelude.Int.{ℤ}

mutual
  pub data Json : Type 0 where
    null : Json
    bool : Bool → Json
    int : ℤ → Json
    float : String → Json
    str : String → Json
    arr : Items → Json
    obj : Fields → Json

  pub data Items : Type 0 where
    nil : Items
    cons : Json → Items → Items

  pub data Fields : Type 0 where
    end : Fields
    field : String → Json → Fields → Fields

-- The elements of an array.
unfoldable pub elements : Items → List Json
elements nil = []
elements (cons x xs) = x ∷ elements xs

-- The object as a dictionary.
unfoldable pub to_dict : Fields → Dict Json
to_dict end = []
to_dict (field k v fs) = (k, v) ∷ to_dict fs

-- `obj.get(key)`
unfoldable pub get : Fields → String → Option Json
get end key = none
get (field k v fs) key = if k == key then some v else get fs key

-- `isinstance(value, str) and value`
abbrev pub non_empty : Option Json → Option String
non_empty (some (str s)) = if s == "" then none else some s
non_empty _ = none

-- `value == text`
abbrev pub is_text : String → Option Json → Bool
is_text text (some (str s)) = s == text
is_text text _ = false

-- `type(value).__name__`
abbrev pub type_name : Json → String
type_name null = "NoneType"
type_name (bool b) = "bool"
type_name (int n) = "int"
type_name (float f) = "float"
type_name (str s) = "str"
type_name (arr is) = "list"
type_name (obj fs) = "dict"

-- `obj[key] = value`
unfoldable pub put : String → Json → Fields → Fields
put k v end = field k v end
put k v (field j w fs) = let rest = put k v fs in if j == k then field j v fs else field j w rest

pub get-put :
    (k j : String) (v : Json) (o : Fields)
    → get (put k v o) j ≡ (if k == j then some v else get o j)
unfolding get put
get-put k j v end = refl
get-put k j v (field i w fs) = ground (arith, eq_iff k j, eq_iff i k, eq_iff i j, get-put k j v fs)

pub String-discrete : Discrete String
String-discrete a b = elim (Bool-cases (a == b)) [
  | inl e ↦ yes ((eq_iff a b).0 e)
  | inr n ↦ no (λ (e : a ≡ b). cc ((eq_iff a b).1 e, n))
]
