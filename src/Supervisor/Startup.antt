-- ===== src/Supervisor/Startup.antt =====
-- The start-up from the configuration (src/prow/api/connector_startup.py).
pub mod Raises
use prow_cti.Config.Schema.{ConnectorInstanceConfig}
use prow_cti.Json.{Fields}
use prow_cti.Prelude.{Bool, List, Option, String, [], if◌then◌else◌, none, some, ◌&&◌, ◌∷◌}
use prow_cti.Prelude.Dict.{Dict, insert}
use prow_cti.Prelude.Text.{codes}
use prow_cti.Supervisor.Duration.{Unicode}
use prow_cti.Supervisor.Fleet.{Supervisor, add_instance, new_supervisor}
use prow_cti.Supervisor.Schedule.{Scheduler, new_scheduler, register}
pub mod Registered

-- What is found of the connectors' packages: `_entry_point_usable`, and whether
-- `validate_connector_instance_config` lets a configuration pass.
pub record Packages : Type 0 where
  pub entry_point_usable : String → Bool
  pub config_valid : String → Fields → Bool

-- `allow_custom_types_by_instance`
unfoldable pub allow_custom_types_by_instance : List ConnectorInstanceConfig → Dict Bool → Dict Bool
allow_custom_types_by_instance [] d = d
allow_custom_types_by_instance (c ∷ cs) d =
    allow_custom_types_by_instance cs
      (elim c.id [ none ↦ d | some id ↦ insert id c.allow_custom_types d ])

module _ (t : Unicode) (packages : Packages) where
  -- A connector that is enabled and that can run.
  abbrev pub is_chosen : ConnectorInstanceConfig → Bool
  is_chosen c =
      c.enabled && (packages.entry_point_usable c.name && packages.config_valid c.name c.config)

  -- `add_instance` and `register`, none where one of them raises.
  unfoldable pub add_connector :
      String → ConnectorInstanceConfig → Supervisor × Scheduler → Option (Supervisor × Scheduler)
  add_connector id c (supervisor, scheduler) =
      elim (add_instance (packages.config_valid c.name c.config) id supervisor) [
        | none ↦ none
        | some supervisor' ↦ elim (register t id (codes c.schedule) scheduler) [
          | none ↦ none
          | some scheduler' ↦ some (supervisor', scheduler')
        ]
      ]

  -- The loop over the connectors.
  unfoldable pub add_connectors :
      List ConnectorInstanceConfig → Supervisor × Scheduler → Option (Supervisor × Scheduler)
  add_connectors [] built = some built
  add_connectors (c ∷ cs) built =
      let skipped = add_connectors cs built in
      if is_chosen c
      then elim c.id [
        | none ↦ skipped
        | some id ↦ elim (add_connector id c built) [
          | none ↦ none
          | some built' ↦ add_connectors cs built'
        ]
      ]
      else skipped

  -- `build_supervisor_and_scheduler`
  unfoldable pub build_supervisor_and_scheduler :
      List ConnectorInstanceConfig → Option (Supervisor × Scheduler)
  build_supervisor_and_scheduler cs = add_connectors cs (new_supervisor (some 30), new_scheduler)
