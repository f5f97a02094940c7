-- ===== src/Config/Loader/Overrides.antt =====
-- That the environment overrides change the settings that they name, and no other
-- (src/prow/config/loader.py).
use prow_cti.Config.Loader.{
  Override, System, apply_env_overrides, apply_override, cast, env_overrides, from_mapping,
  nested_or_empty, or_value_error, override, parsed, set_nested, yaml_mapping,
}
use prow_cti.Json.{Fields, Json, get, get-put, obj, put}
use prow_cti.Prelude.{
  Bool, List, Option, String, [], ap, arith, eq_iff, false, if◌then◌else◌, none, refl, some, true,
  ◌&&◌, ◌==◌, ◌∙◌, ◌∷◌, ◌≡◌,
}

-- `data[section][key]`, none where there is no such section or key.
abbrev pub setting : String → String → Fields → Option Json
setting a b o = get (nested_or_empty (get o a)) b

get-section :
    (same : Bool) (b d : String) (v : Json) (x y : Option Json)
    → (same ≡ true → x ≡ y)
    → get (nested_or_empty (if same then some (obj (put d v (nested_or_empty x))) else y)) b
      ≡ (if same && d == b then some v else get (nested_or_empty y) b)
get-section true b d v x y e =
    get-put d b v (nested_or_empty x)
    ∙ ap (λ z. if d == b then some v else get (nested_or_empty z) b) (e refl)
get-section false b d v x y e = refl

set_nested-setting :
    (a b c d : String) (v : Json) (o : Fields)
    → setting a b (set_nested (c ∷ d ∷ []) v o)
      ≡ (if c == a && d == b then some v else setting a b o)
unfolding set_nested
set_nested-setting a b c d v o =
    ap (λ x. get (nested_or_empty x) b) (get-put c a (obj (put d v (nested_or_empty (get o c)))) o)
    ∙ get-section (c == a) b d v (get o c) (get o a) (λ e. ap (get o) ((eq_iff c a).0 e))

-- Overrides whose paths name a section and a key of it.
pub data NamesSettings : List Override → Type 0 where
  names_none : NamesSettings []
  names_one :
      (n c d : String) (i : Bool) (ovs : List Override)
      → NamesSettings ovs
      → NamesSettings (override n (c ∷ d ∷ []) i ∷ ovs)

abbrev pub names : List String → String → String → Bool
names (c ∷ d ∷ []) a b = c == a && d == b
names _ a b = false

from_mapping-or_value_error :
    (r : Option Fields) (p : Fields) → or_value_error r ≡ from_mapping p → r ≡ some p
from_mapping-or_value_error none p e = ground arith
from_mapping-or_value_error (some q) p e = grind arith

module _ (sys : System) where
  -- What the variable of `ov` makes of the value `old`.
  abbrev by_env : Override → Option Json → Option Json
  by_env ov old = elim (sys.environ ov.env_name) [ none ↦ old | some raw ↦ cast sys ov.is_int raw ]

  -- The value of `a.b` under the overrides: the last that names it and whose variable is set decides.
  abbrev pub overridden : List Override → String → String → Option Json → Option Json
  overridden [] a b old = old
  overridden (ov ∷ ovs) a b old =
      overridden ovs a b (if names ov.keys a b then by_env ov old else old)

  apply_override-setting :
      (n c d : String) (i : Bool) (a b : String) (o p : Fields)
      → apply_override sys (override n (c ∷ d ∷ []) i) o ≡ some p
      → setting a b p ≡ (
          if c == a && d == b
          then by_env (override n (c ∷ d ∷ []) i) (setting a b o)
          else setting a b o)
  unfolding apply_override
  apply_override-setting n c d i a b o p e = grind (arith, set_nested-setting a b c d)

  -- The first round went well where all did.
  first_round :
      (r : Option Fields) (rest : List Override) (p : Fields)
      → elim r [ none ↦ none | some q ↦ apply_env_overrides sys rest q ] ≡ some p
      → (q : Fields) × (r ≡ some q) × (apply_env_overrides sys rest q ≡ some p)
  first_round none rest p e = ground arith
  first_round (some q) rest p e = (q, refl, e)

  overrides-setting :
      (ovs : List Override) (a b : String) (o p : Fields)
      → NamesSettings ovs
      → apply_env_overrides sys ovs o ≡ some p
      → setting a b p ≡ overridden ovs a b (setting a b o)
  unfolding apply_env_overrides
  overrides-setting ovs a b o p names_none e = ground arith
  overrides-setting ovs a b o p (names_one n c d i rest two) e =
      let (q, first, others) =
        first_round (apply_override sys (override n (c ∷ d ∷ []) i) o) rest p e in
      overrides-setting rest a b q p two others
      ∙ ap (overridden rest a b) (apply_override-setting n c d i a b o q first)

  env_overrides-NamesSettings : NamesSettings env_overrides
  env_overrides-NamesSettings = names_one "PROW_DATABASE_URL" "database" "url" false _ (
      names_one "PROW_DATABASE_POOL_SIZE" "database" "pool_size" true _ (
        names_one "PROW_API_HOST" "api" "host" false _ (
          names_one "PROW_API_PORT" "api" "port" true _
            (names_one "PROW_LOG_LEVEL" "log" "level" false _ names_none))))

  -- Where a configuration is loaded from the mapping `o` of a file, the mapping `p` that it is built from has in every setting `a.b` what the five overrides make of the value in `o`, in their order: each replaces the settings with its name by the cast of its variable, where that is set, and no other setting changes.
  pub parsed-setting :
      (a b : String) (o p : Fields)
      → parsed sys (yaml_mapping o) ≡ from_mapping p
      → setting a b p ≡ overridden env_overrides a b (setting a b o)
  parsed-setting a b o p e =
      overrides-setting env_overrides a b o p env_overrides-NamesSettings
        (from_mapping-or_value_error (apply_env_overrides sys env_overrides o) p e)
