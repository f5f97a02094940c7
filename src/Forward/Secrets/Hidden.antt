-- ===== src/Forward/Secrets/Hidden.antt =====
-- That what the schema marks secret is redacted where it stands
-- (src/prow/connector/entry_point_resolve.py and log_forwarder.py).
use prow_cti.Forward.Redaction.{LogPayload, forward, split_dots}
use prow_cti.Forward.Redaction.Hides.{at_parts, at_path, forward-hides, is_hidden, split_dots-cons}
use prow_cti.Forward.Secrets.{collect_secret_field_paths, join_path}
use prow_cti.Forward.Secrets.Complete.{
  Holds, Holds-collect_secret_field_paths, IsSecret, at_place, path_from,
}
use prow_cti.Json.{Fields}
use prow_cti.Prelude.{
  All, Bool-cases, List, String, [], ap, append-nil, append_assoc, eq_iff, eq_refl, eqb, false, inl,
  inr, refl, sym, true, ◌++◌, ◌==◌, ◌∙◌, ◌∷◌, ◌≡◌,
}
use prow_cti.Prelude.Text.{concat}
use Prim.Native.Char.{Char, code}
use mathlib.Core.Path.{subst}

-- A key that a dotted path can name: it is not empty and holds no dot.
pub record IsPlain (k : String) : Type 0 where
  pub one_part : split_dots k ≡ k ∷ []
  pub not_empty : (k == "") ≡ false

cons_not_empty : (c : Char) (s : String) → (String.◌∷◌ c s == "") ≡ false
cons_not_empty c s = elim (Bool-cases (String.◌∷◌ c s == "")) [
  | inl same ↦ cc ((eq_iff (String.◌∷◌ c s) "").0 same)
  | inr other ↦ other
]

split_dots-concat :
    (p k : String) → split_dots (concat p (concat "." k)) ≡ split_dots p ++ split_dots k
unfolding split_dots
split_dots-concat String.[] k = refl
split_dots-concat (String.◌∷◌ c s) k =
    let rec = split_dots-concat s k in
    let (q, qs, e) = split_dots-cons s in
    elim (Bool-cases (eqb (code c) b'.')) [ inl dot ↦ rw (dot, rec) | inr char ↦ rw (char, rec, e) ]

join_path-prefix :
    (prefix k : String)
    → (prefix == "") ≡ false
    → (split_dots (join_path prefix k) ≡ split_dots prefix ++ split_dots k)
      × ((join_path prefix k == "") ≡ false)
unfolding join_path
join_path-prefix String.[] k h = cc (h, eq_refl "")
join_path-prefix (String.◌∷◌ c s) k h =
    rw h (split_dots-concat (String.◌∷◌ c s) k, cons_not_empty c (concat s (concat "." k)))

split_dots-path_from :
    (prefix : String) (ks : List String)
    → (prefix == "") ≡ false
    → All IsPlain ks
    → split_dots (path_from prefix ks) ≡ split_dots prefix ++ ks
split_dots-path_from prefix [] h a = sym (append-nil (split_dots prefix))
split_dots-path_from prefix (k ∷ ks) h (plain, a) =
    let (split', more) = join_path-prefix prefix k h in
    split_dots-path_from (join_path prefix k) ks more a
    ∙ ap (λ l. l ++ ks) (split' ∙ ap (λ l. split_dots prefix ++ l) plain.one_part)
    ∙ append_assoc (split_dots prefix) (k ∷ []) ks

split_dots-keys :
    (k : String) (ks : List String)
    → All IsPlain (k ∷ ks)
    → split_dots (path_from "" (k ∷ ks)) ≡ k ∷ ks
unfolding join_path
split_dots-keys k ks (plain, a) =
    split_dots-path_from k ks plain.not_empty a ∙ ap (λ l. l ++ ks) plain.one_part

hides-Holds :
    (paths : List String) (path key : String) (rest : List String) (payload : LogPayload)
    → Holds path paths
    → split_dots path ≡ key ∷ rest
    → ("connector_timestamp" == key) ≡ false
    → ("exc_info" == key) ≡ false
    → is_hidden (at_path path (forward paths payload)) ≡ true
hides-Holds _ path key rest payload (at_place b a) e t x =
    forward-hides b a path key rest payload e t x

-- A secret of the configuration is not logged: if the schema marks a property secret, at any depth, and
-- the keys that lead to it are not empty and hold no dot, then in the record that is forwarded for any
-- payload these keys lead to nothing or to the mark `<redacted>`, if the first of them is no keyword that
-- the forwarder itself sets.
pub forward-hides_secret :
    (k : String) (ks : List String) (schema : Fields) (payload : LogPayload)
    → IsSecret (k ∷ ks) schema
    → All IsPlain (k ∷ ks)
    → ("connector_timestamp" == k) ≡ false
    → ("exc_info" == k) ≡ false
    → is_hidden (at_parts (k ∷ ks) (forward (collect_secret_field_paths schema) payload)) ≡ true
forward-hides_secret k ks schema payload s plain t x =
    let keys = split_dots-keys k ks plain in
    subst (λ l. is_hidden (at_parts l (forward (collect_secret_field_paths schema) payload)) ≡ true)
      keys
      (hides-Holds (collect_secret_field_paths schema) (path_from "" (k ∷ ks)) k ks payload
        (Holds-collect_secret_field_paths (k ∷ ks) schema s) keys t x)
