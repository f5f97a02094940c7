-- ===== src/Db/Queries/Public.antt =====
-- What a consumer reads of an object that was stored (src/prow/db/repositories.py: `_row_dict` and
-- `_stix_row_to_public_dict`).
use prow_cti.Db.Queries.{Rendering, StixObjectRow, put_some, stix_row_to_public_dict}
use prow_cti.Db.Repository.{Row, row_dict}
use prow_cti.Db.StixFields.{Timestamp, as_str, extract_stix_persistence_fields, returned}
use prow_cti.Json.{
  Fields, Json, arr, bool, float, get, get-put, int, non_empty, null, obj, put, str,
}
use prow_cti.Prelude.{
  All, Bool-cases, List, Option, String, [], ap, arith, eq_iff, false, inl, inr, none, refl, some,
  sym, true, ◌==◌, ◌∙◌, ◌∷◌, ◌≡◌,
}
use mathlib.Core.Option

put_keeps :
    (k j : String) (v : Json) (o : Fields) (x : Option Json)
    → (k == j ≡ true → some v ≡ x)
    → get o j ≡ x
    → get (put k v o) j ≡ x
put_keeps k j v o x h g = elim (Bool-cases (k == j)) [
  | inl same ↦ get-put k j v o ∙ rw same (h same)
  | inr other ↦ get-put k j v o ∙ rw other g
]

put_some_keeps :
    (k j : String) (m : Option Json) (o : Fields) (x : Option Json)
    → ((v : Json) → m ≡ some v → k == j ≡ true → some v ≡ x)
    → get o j ≡ x
    → get (put_some k m o) j ≡ x
put_some_keeps k j none o x h g = g
put_some_keeps k j (some v) o x h g = put_keeps k j v o x (h v refl) g

-- The keys that are written from columns of other types than the object's own texts.
abbrev pub rendered_keys : List String
rendered_keys =
    "ingested_at" ∷ "source_connector_instance_id" ∷ "confidence" ∷ "revoked" ∷ "modified"
    ∷ "created" ∷ "spec_version" ∷ []

abbrev pub IsOther : String → Type 0
IsOther k = All (λ c. (c == k) ≡ false) rendered_keys

-- The texts that a row takes over from its object.
abbrev pub Taken : Fields → Row → Type 0
Taken o r =
    (r.raw ≡ o)
    × (get o "id" ≡ some (str r.id))
    × (get o "type" ≡ some (str r.type_name))
    × (as_str (get o "created_by_ref") ≡ r.created_by_ref)

non_empty-str : (v : Option Json) (s : String) → non_empty v ≡ some s → v ≡ some (str s)
non_empty-str none s h = cc
non_empty-str (some null) s h = cc
non_empty-str (some (bool b)) s h = cc
non_empty-str (some (int n)) s h = cc
non_empty-str (some (float f)) s h = cc
non_empty-str (some (str t)) s h = ground arith
non_empty-str (some (arr is)) s h = cc
non_empty-str (some (obj o)) s h = cc

as_str-some : (v : Option Json) (s : String) → as_str v ≡ some s → v ≡ some (str s)
as_str-some none s h = cc
as_str-some (some null) s h = cc
as_str-some (some (bool b)) s h = cc
as_str-some (some (int n)) s h = cc
as_str-some (some (float f)) s h = cc
as_str-some (some (str t)) s h = cc
as_str-some (some (arr is)) s h = cc
as_str-some (some (obj o)) s h = cc

pub row_dict-Taken :
    (fromisoformat : String → Option Timestamp) (source : String) (o : Fields) (r : Row)
    → row_dict fromisoformat source o ≡ returned r
    → Taken o r
unfolding row_dict extract_stix_persistence_fields
row_dict-Taken fromisoformat source o r h =
    ground (arith, non_empty-str (get o "id") r.id, non_empty-str (get o "type") r.type_name)

created_by :
    (o : Fields) (m : Option String) (w : Json)
    → as_str (get o "created_by_ref") ≡ m
    → Option.map str m ≡ some w
    → some w ≡ get o "created_by_ref"
created_by o none w e h = cc
created_by o (some s) w e h = sym h ∙ sym (as_str-some (get o "created_by_ref") s e)

module _ (rendering : Rendering) where
  public-Taken :
      (o : Fields) (r : StixObjectRow) (k : String)
      → IsOther k
      → Taken o r.columns
      → get (stix_row_to_public_dict rendering r) k ≡ get o k
  unfolding stix_row_to_public_dict
  public-Taken o r k (i, (s, (c, (v, (m, (d, (p, _))))))) (raw, id, ty, by) =
      put_keeps "ingested_at" k _ _ (get o k) (λ e. cc)
        (put_keeps "source_connector_instance_id" k _ _ (get o k) (λ e. cc)
          (put_some_keeps "confidence" k _ _ (get o k) (λ w h e. cc)
            (put_some_keeps "created_by_ref" k _ _ (get o k)
              (λ w h e. by_ref w h ((eq_iff "created_by_ref" k).0 e))
              (put_keeps "revoked" k _ _ (get o k) (λ e. cc)
                (put_some_keeps "modified" k _ _ (get o k) (λ w h e. cc)
                  (put_keeps "created" k _ _ (get o k) (λ e. cc)
                    (put_keeps "spec_version" k _ _ (get o k) (λ e. cc)
                      (put_keeps "type" k _ _ (get o k)
                        (λ e. sym ty ∙ ap (get o) ((eq_iff "type" k).0 e))
                        (put_keeps "id" k _ _ (get o k)
                          (λ e. sym id ∙ ap (get o) ((eq_iff "id" k).0 e))
                          (ap (λ x. get x k) raw))))))))))
    where
      by_ref :
          (w : Json)
          → Option.map str r.columns.created_by_ref ≡ some w
          → "created_by_ref" ≡ k
          → some w ≡ get o k
      by_ref w h e = created_by o r.columns.created_by_ref w by h ∙ ap (get o) e

  -- Whatever a connector emitted under a key that the database does not render anew is read back
  -- from the stored object as it was: the id, the type, the creator and every key that is no column,
  -- at any depth, absent ones included.
  pub row_dict-public :
      (fromisoformat : String → Option Timestamp) (source : String) (o : Fields) (r : StixObjectRow)
      (k : String)
      → row_dict fromisoformat source o ≡ returned r.columns
      → IsOther k
      → get (stix_row_to_public_dict rendering r) k ≡ get o k
  row_dict-public fromisoformat source o r k h other =
      public-Taken o r k other (row_dict-Taken fromisoformat source o r.columns h)
