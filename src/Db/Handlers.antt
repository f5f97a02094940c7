-- ===== src/Db/Handlers.antt =====
-- The database behind the transport: the emit handlers of src/prow/db/emit_handler.py, and the handlers
-- that src/prow/connector/instance.py gives to its transport.
pub mod Origin
pub mod Tests
pub mod Found
use prow_cti.Db.Ingest.{Validation, ingest_stix_bundle}
use prow_cti.Db.Repository.{Database}
use prow_cti.Db.State.{StateTable, get_state, set_state}
use prow_cti.Db.StixFields.{Outcome, Timestamp, raised_error, returned}
use prow_cti.Json.{Fields, Json, null, obj}
use prow_cti.Prelude.{Bool, Option, String, [], false, none, some, ℕ}
use prow_cti.Prelude.Dict.{Dict, insert, lookup}
use prow_cti.Protocol.Messages.{EmitAckPayload}
use prow_cti.Transport.Runtime.{Services}
pub mod Answers

-- The two tables.
pub record Stores (T U : Type 0) : Type 0 where
  pub objects : T
  pub states : U

-- `DEFAULT_INSERT_BATCH_SIZE`
abbrev pub default_insert_batch_size : ℕ
default_insert_batch_size = 500

abbrev pub or_null : Option Json → Json
or_null (some v) = v
or_null none = null

-- `custom_types_lookup.get(instance_id, False)`
abbrev pub allows_custom : String → Dict Bool → Bool
allows_custom instance_id allowed = elim (lookup instance_id allowed) [ some b ↦ b | none ↦ false ]

module _ {T : Type 0} (va : Validation) (db : Database T)
    (fromisoformat : String → Option Timestamp) where
  -- `create_db_emit_handler`
  unfoldable pub emit_handler :
      Dict Bool → String → Fields → T → Outcome (Option (T × EmitAckPayload))
  emit_handler allowed instance_id bundle t =
      ingest_stix_bundle va db fromisoformat (allows_custom instance_id allowed) instance_id
        default_insert_batch_size (obj bundle) t

  -- `create_inprocess_db_emit_handler`
  unfoldable pub inprocess_emit_handler :
      String → Bool → Fields → T → Outcome (Option (T × EmitAckPayload))
  inprocess_emit_handler instance_id allow bundle t =
      emit_handler (insert instance_id allow []) instance_id bundle t

  module _ {U : Type 0} (states : StateTable U) where
    -- What a call of the emit handler leaves of the stores: a failure rolls back.
    abbrev after_emit :
        Stores T U → Outcome (Option (T × EmitAckPayload)) → Stores T U × Option EmitAckPayload
    after_emit s (returned (some (t, told))) = (record s { objects = t }, some told)
    after_emit s (returned none) = (s, none)
    after_emit s (raised_error e) = (s, none)

    -- The services that `_new_process` gives to the transport of one instance, over handlers that all
    -- instances share; `now` is the clock of the setter. Forwarding a log or a metric touches no table.
    unfoldable pub stored_services :
        Dict Bool → String → Timestamp → Services (Stores T U) → Services (Stores T U)
    stored_services allowed instance_id now base = record base {
      emit_handler = λ bundle s. after_emit s (emit_handler allowed instance_id bundle s.objects);
      state_set_handler = λ key value s.
          (record s { states = set_state states none instance_id key value now s.states }, some tt);
      state_get_handler =
          λ key s. (s, some (or_null (get_state states none instance_id key s.states)));
      log_handler = λ payload s. s;
      metric_handler = λ payload s. s;
    }
