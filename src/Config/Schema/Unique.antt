-- ===== src/Config/Schema/Unique.antt =====
-- That a configuration is accepted exactly if its instances have ids of their own
-- (src/prow/config/schema.py).
use prow_cti.Config.Schema.{
  ConnectorInstanceConfig, is_blank, resolve_ids, validate_unique_instance_ids,
}
use prow_cti.Prelude.{
  Bool, List, Option, String, [], arith, false, if◌then◌else◌, none, not, refl, some, suc, true, ℕ,
  ◌&&◌, ◌==◌, ◌||◌, ◌∙◌, ◌∷◌, ◌≡◌,
}
use prow_cti.Prelude.Dict.{Dict, insert, lookup, lookup-insert}
use prow_cti.Prelude.Text.{concat, decimal}

-- The id that a connector gets, blank or not.
abbrev pub id_of : ℕ → ConnectorInstanceConfig → String
id_of index c = elim c.id [ none ↦ concat c.name (concat "-" (decimal index)) | some id ↦ id ]

abbrev pub with_ids : ℕ → List ConnectorInstanceConfig → List ConnectorInstanceConfig
with_ids index [] = []
with_ids index (c ∷ cs) = record c { id = some (id_of index c) } ∷ with_ids (suc index) cs

abbrev pub ids_from : ℕ → List ConnectorInstanceConfig → List String
ids_from index [] = []
ids_from index (c ∷ cs) = id_of index c ∷ ids_from (suc index) cs

unfoldable pub is_among : String → List String → Bool
is_among x [] = false
is_among x (y ∷ ys) = x == y || is_among x ys

unfoldable pub are_distinct : List String → Bool
are_distinct [] = true
are_distinct (x ∷ xs) = not (is_among x xs) && are_distinct xs

abbrev is_unset : Option ℕ → Bool
is_unset none = true
is_unset (some n) = false

-- None of the ids was seen before.
unfoldable all_new : Dict ℕ → List String → Bool
all_new seen [] = true
all_new seen (x ∷ xs) = is_unset (lookup x seen) && all_new seen xs

all_new-insert :
    (x : String) (n : ℕ) (seen : Dict ℕ) (xs : List String)
    → all_new (insert x n seen) xs ≡ (not (is_among x xs) && all_new seen xs)
unfolding all_new is_among
all_new-insert x n seen [] = refl
all_new-insert x n seen (y ∷ ys) =
    ground (arith, all_new-insert x n seen ys, lookup-insert x y n seen)

all_new-nil : (xs : List String) → all_new [] xs ≡ true
unfolding all_new lookup
all_new-nil [] = refl
all_new-nil (x ∷ xs) = all_new-nil xs

module _ (is_space : ℕ → Bool) where
  -- No connector has a blank id of its own.
  unfoldable pub none_blank : List ConnectorInstanceConfig → Bool
  none_blank [] = true
  none_blank (c ∷ cs) =
      elim c.id [ none ↦ true | some id ↦ not (is_blank is_space id) ] && none_blank cs

  resolve_ids-lem :
      (index : ℕ) (seen : Dict ℕ) (cs : List ConnectorInstanceConfig)
      → resolve_ids is_space index seen cs ≡ (
          if none_blank cs && (all_new seen (ids_from index cs) && are_distinct (ids_from index cs))
          then some (with_ids index cs)
          else none)
  unfolding resolve_ids none_blank all_new are_distinct
  resolve_ids-lem index seen [] = refl
  resolve_ids-lem index seen (c ∷ cs) = ground (
    arith,
    resolve_ids-lem (suc index) (insert (id_of index c) index seen) cs,
    all_new-insert (id_of index c) index seen (ids_from (suc index) cs),
  )

  -- The connectors are accepted exactly if none has a blank id of its own and their ids, those made
  -- up of the name and the index included, are distinct; then each has its id set, in the order of
  -- the file, and nothing else is changed.
  pub validate_unique_instance_ids-lem :
      (cs : List ConnectorInstanceConfig)
      → validate_unique_instance_ids is_space cs
        ≡ (if none_blank cs && are_distinct (ids_from 0 cs) then some (with_ids 0 cs) else none)
  unfolding validate_unique_instance_ids
  validate_unique_instance_ids-lem cs =
      resolve_ids-lem 0 [] cs ∙ rw (all_new-nil (ids_from 0 cs)) refl
