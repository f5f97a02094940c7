-- ===== src/Forward/Redaction/Hides.antt =====
-- That no secret is forwarded (src/prow/connector/log_forwarder.py).
use prow_cti.Forward.Redaction.{
  LogPayload, forward, redact_all, redact_at_path, redact_parts, redact_value, split_dots,
  with_exception,
}
use prow_cti.Json.{Fields, Json, arr, bool, end, field, float, int, null, obj, put, str}
use prow_cti.Prelude.{
  Bool, Bool-cases, List, Option, String, [], ap, arith, eq_iff, eq_refl, eqb, false, if◌then◌else◌,
  inl, inr, none, refl, some, true, ◌++◌, ◌==◌, ◌∙◌, ◌∷◌, ◌≡◌,
}
use Prim.Native.Char.{code}

-- The value at a path.
unfoldable mutual
  pub at_parts : List String → Fields → Option Json
  at_parts ps end = none
  at_parts [] (field j v fs) = none
  at_parts (p ∷ ps) (field j v fs) =
      let rest = at_parts (p ∷ ps) fs in let inner = at_value ps v in if j == p then inner else rest

  pub at_value : List String → Json → Option Json
  at_value [] v = some v
  at_value (p ∷ ps) (obj fs) = at_parts (p ∷ ps) fs
  at_value (p ∷ ps) v = none

-- Nothing but the mark.
abbrev pub is_hidden : Option Json → Bool
is_hidden none = true
is_hidden (some (str s)) = s == "<redacted>"
is_hidden (some v) = false

mutual
  unfolding at_parts redact_parts

  redact_parts-hides :
      (p : String) (ps : List String) (o : Fields)
      → is_hidden (at_parts (p ∷ ps) (redact_parts (p ∷ ps) o)) ≡ true
  redact_parts-hides p ps end = refl
  redact_parts-hides p ps (field j v fs) =
      ground (arith, redact_parts-hides p ps fs, redact_value-hides ps v)

  redact_value-hides :
      (ps : List String) (v : Json) → is_hidden (at_value ps (redact_value ps v)) ≡ true
  redact_value-hides [] v = eq_refl "<redacted>"
  redact_value-hides (p ∷ ps) (obj fs) = redact_parts-hides p ps fs
  redact_value-hides (p ∷ ps) null = refl
  redact_value-hides (p ∷ ps) (bool b) = refl
  redact_value-hides (p ∷ ps) (int n) = refl
  redact_value-hides (p ∷ ps) (float f) = refl
  redact_value-hides (p ∷ ps) (str s) = refl
  redact_value-hides (p ∷ ps) (arr is) = refl

-- What is hidden stays hidden.
mutual
  unfolding at_parts redact_parts

  redact_parts-keeps :
      (q : String) (qs : List String) (p : String) (ps : List String) (o : Fields)
      → is_hidden (at_parts (p ∷ ps) o) ≡ true
      → is_hidden (at_parts (p ∷ ps) (redact_parts (q ∷ qs) o)) ≡ true
  redact_parts-keeps q qs p ps end h = refl
  redact_parts-keeps q qs p ps (field j v fs) h =
      ground
        (arith, redact_parts-keeps q qs p ps fs, redact_value-keeps qs ps v, eq_iff j p, eq_iff j q)

  redact_value-keeps :
      (qs ps : List String) (v : Json)
      → is_hidden (at_value ps v) ≡ true
      → is_hidden (at_value ps (redact_value qs v)) ≡ true
  redact_value-keeps [] [] v h = eq_refl "<redacted>"
  redact_value-keeps [] (p ∷ ps) v h = refl
  redact_value-keeps (q ∷ qs) [] (obj fs) h = h
  redact_value-keeps (q ∷ qs) (p ∷ ps) (obj fs) h = redact_parts-keeps q qs p ps fs h
  redact_value-keeps (q ∷ qs) ps null h = h
  redact_value-keeps (q ∷ qs) ps (bool b) h = h
  redact_value-keeps (q ∷ qs) ps (int n) h = h
  redact_value-keeps (q ∷ qs) ps (float f) h = h
  redact_value-keeps (q ∷ qs) ps (str s) h = h
  redact_value-keeps (q ∷ qs) ps (arr is) h = h

-- A path has at least one part.
pub split_dots-cons : (s : String) → (p : String) × (ps : List String) × (split_dots s ≡ p ∷ ps)
unfolding split_dots
split_dots-cons String.[] = ("", [], refl)
split_dots-cons (String.◌∷◌ c s) =
    let (p, ps, e) = split_dots-cons s in
    elim (Bool-cases (eqb (code c) b'.')) [
      | inl dot ↦ ("", split_dots s, rw dot)
      | inr char ↦ (String.◌∷◌ c p, ps, rw (char, e))
    ]

-- The value at a dotted path.
abbrev pub at_path : String → Fields → Option Json
at_path path o = at_parts (split_dots path) o

redact_at_path-hides :
    (path : String) (o : Fields) → is_hidden (at_path path (redact_at_path o path)) ≡ true
unfolding redact_at_path
redact_at_path-hides path o =
    let (p, ps, e) = split_dots-cons path in rw e (redact_parts-hides p ps o)

redact_at_path-keeps :
    (path other : String) (o : Fields)
    → is_hidden (at_path path o) ≡ true
    → is_hidden (at_path path (redact_at_path o other)) ≡ true
unfolding redact_at_path
redact_at_path-keeps path other o h =
    let (p, ps, e) = split_dots-cons path in
    let (q, qs, f) = split_dots-cons other in rw (e, f) (redact_parts-keeps q qs p ps o (rw e at h))

redact_all-keeps :
    (paths : List String) (path : String) (o : Fields)
    → is_hidden (at_path path o) ≡ true
    → is_hidden (at_path path (redact_all paths o)) ≡ true
unfolding redact_all
redact_all-keeps [] path o h = h
redact_all-keeps (other ∷ paths) path o h =
    redact_all-keeps paths path (redact_at_path o other) (redact_at_path-keeps path other o h)

redact_all-hides :
    (before after : List String) (path : String) (o : Fields)
    → is_hidden (at_path path (redact_all (before ++ path ∷ after) o)) ≡ true
unfolding redact_all
redact_all-hides [] after path o =
    redact_all-keeps after path (redact_at_path o path) (redact_at_path-hides path o)
redact_all-hides (other ∷ before) after path o =
    redact_all-hides before after path (redact_at_path o other)

at_parts-put :
    (key p : String) (ps : List String) (v : Json) (o : Fields)
    → (key == p) ≡ false
    → at_parts (p ∷ ps) (put key v o) ≡ at_parts (p ∷ ps) o
unfolding put at_parts
at_parts-put key p ps v end h = ground (arith, h)
at_parts-put key p ps v (field j w fs) h =
    ground (arith, h, at_parts-put key p ps v fs h, eq_iff j key, eq_iff j p, eq_iff key p)

at_parts-with_exception :
    (o : Option String) (p : String) (ps : List String) (kwargs : Fields)
    → ("exc_info" == p) ≡ false
    → at_parts (p ∷ ps) (with_exception o kwargs) ≡ at_parts (p ∷ ps) kwargs
at_parts-with_exception none p ps kwargs h = refl
at_parts-with_exception (some e) p ps kwargs h = at_parts-put "exc_info" p ps (str e) kwargs h

forward-at_path :
    (paths : List String) (path key : String) (rest : List String) (payload : LogPayload)
    → split_dots path ≡ key ∷ rest
    → ("connector_timestamp" == key) ≡ false
    → ("exc_info" == key) ≡ false
    → at_path path (forward paths payload) ≡ at_path path (redact_all paths payload.fields)
unfolding forward
forward-at_path paths path key rest payload e t x =
    let fields = redact_all paths payload.fields in
    rw e (
      at_parts-with_exception payload.exception key rest
        (put "connector_timestamp" (str payload.timestamp) fields) x
      ∙ at_parts-put "connector_timestamp" key rest (str payload.timestamp) fields t)

-- A secret is never forwarded: whatever the fields of the payload, their nesting and the order of the
-- secret paths, the logger finds at a secret path nothing or the mark `<redacted>`, if the path does not
-- begin with a keyword that the forwarder itself sets.
pub forward-hides :
    (before after : List String) (path key : String) (rest : List String) (payload : LogPayload)
    → split_dots path ≡ key ∷ rest
    → ("connector_timestamp" == key) ≡ false
    → ("exc_info" == key) ≡ false
    → is_hidden (at_path path (forward (before ++ path ∷ after) payload)) ≡ true
forward-hides before after path key rest payload e t x =
    ap is_hidden (forward-at_path (before ++ path ∷ after) path key rest payload e t x)
    ∙ redact_all-hides before after path payload.fields
