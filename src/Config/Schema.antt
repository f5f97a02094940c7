-- ===== src/Config/Schema.antt =====
-- The connectors of the configuration (src/prow/config/schema.py).
use prow_cti.Json.{Fields}
use prow_cti.Prelude.{
  Bool, List, Option, String, [], if◌then◌else◌, none, some, suc, true, ℕ, ◌&&◌, ◌∷◌,
}
use prow_cti.Prelude.Dict.{Dict, insert, lookup}
use prow_cti.Prelude.Text.{codes, concat, decimal}
pub mod Unique

-- `ConnectorInstanceConfig`
pub record ConnectorInstanceConfig : Type 0 where
  pub name : String
  pub id : Option String
  pub enabled : Bool
  pub schedule : String
  pub allow_custom_types : Bool
  pub config : Fields

abbrev every : (ℕ → Bool) → List ℕ → Bool
every test [] = true
every test (c ∷ cs) = test c && every test cs

-- `is_space` is `str.isspace` on a code point, which `strip` goes by.
module _ (is_space : ℕ → Bool) where
  -- `not value.strip()`
  abbrev pub is_blank : String → Bool
  is_blank s = every is_space (codes s)

  -- The id of the connector at an index; none is a `ValueError`.
  abbrev pub resolved_id : ℕ → ConnectorInstanceConfig → Option String
  resolved_id index c = elim c.id [
    | none ↦ some (concat c.name (concat "-" (decimal index)))
    | some id ↦ if is_blank id then none else some id
  ]

  -- The loop of `validate_unique_instance_ids`: the connectors with their ids set, none for a
  -- `ValueError`.
  unfoldable pub resolve_ids :
      ℕ → Dict ℕ → List ConnectorInstanceConfig → Option (List ConnectorInstanceConfig)
  resolve_ids index seen [] = some []
  resolve_ids index seen (c ∷ cs) = elim (resolved_id index c) [
    | none ↦ none
    | some id ↦ elim (lookup id seen) [
      | some earlier ↦ none
      | none ↦ elim (resolve_ids (suc index) (insert id index seen) cs) [
        | none ↦ none
        | some ds ↦ some (record c { id = some id } ∷ ds)
      ]
    ]
  ]

  -- `validate_unique_instance_ids`
  unfoldable pub validate_unique_instance_ids :
      List ConnectorInstanceConfig → Option (List ConnectorInstanceConfig)
  validate_unique_instance_ids cs = resolve_ids 0 [] cs
