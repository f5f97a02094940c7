-- ===== src/Db/State.antt =====
-- The state that connectors keep in the database: the repository of src/prow/db/repositories.py and the
-- handlers of src/prow/db/state_handler.py.
use prow_cti.Db.StixFields.{Timestamp}
use prow_cti.Json.{Json, null}
use prow_cti.Prelude.{Bool, List, Option, String, none, some, ◌&&◌, ◌==◌}
pub mod LastWrite

-- `ConnectorStateRow`
pub record ConnectorStateRow : Type 0 where
  pub connector_instance_id : String
  pub key : String
  pub value : Json
  pub updated_at : Timestamp

abbrev pub is_entry : String → String → ConnectorStateRow → Bool
is_entry instance_id key r = (r.connector_instance_id == instance_id) && (r.key == key)

-- What the repository uses of the database: the value of the row with this primary key, and an `INSERT`
-- with `ON CONFLICT DO UPDATE` on the primary key.
pub record StateTable (U : Type 0) : Type 0 where
  pub state_rows : U → List ConnectorStateRow
  pub select_value : String → String → U → Option Json
  pub upsert : ConnectorStateRow → U → U

-- A JSON null is read as None, as no row is.
abbrev pub not_null : Option Json → Option Json
not_null (some null) = none
not_null v = v

abbrev pub or_instance : Option String → String → String
or_instance (some own) instance_id = own
or_instance none instance_id = instance_id

module _ {U : Type 0} (db : StateTable U) where
  -- `SqlAlchemyConnectorStateRepository.get`
  unfoldable pub get_value : String → String → U → Option Json
  get_value instance_id key u = not_null (db.select_value instance_id key u)

  -- `SqlAlchemyConnectorStateRepository.set`, at the time `now`.
  unfoldable pub set_value : String → String → Json → Timestamp → U → U
  set_value instance_id key value now u =
      db.upsert
        (record { connector_instance_id = instance_id; key = key; value = value; updated_at = now })
        u

  -- `create_db_state_getter` and `create_db_state_setter`: the first argument is their
  -- `connector_instance_id`.
  unfoldable pub get_state : Option String → String → String → U → Option Json
  get_state own instance_id key u = get_value (or_instance own instance_id) key u

  unfoldable pub set_state : Option String → String → String → Json → Timestamp → U → U
  set_state own instance_id key value now u =
      set_value (or_instance own instance_id) key value now u
