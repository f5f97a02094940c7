-- ===== src/Db/Handlers/Tests.antt =====
-- A concrete database behind the handlers (src/prow/db/state_handler.py and emit_handler.py).
use prow_cti.Db.Handlers.{Stores, emit_handler, or_null, stored_services}
use prow_cti.Db.Handlers.Answers.{all_told, get_state-answered, services}
use prow_cti.Db.Handlers.Found.{IsReadBack, emit_handler-found}
use prow_cti.Db.Ingest.{check_items, ingest_stix_bundle, validate_and_partition_bundle}
use prow_cti.Db.Queries.{Rendering, Selects, StixObjectRow}
use prow_cti.Db.Queries.Ranked.{IsSelect}
use prow_cti.Db.Queries.Ties.{scanning, scanning-IsSelect}
use prow_cti.Db.Repository.{
  Row, bulk_insert_dedupe, bulk_insert_rows, insert_batches, row_dict, row_dicts,
}
use prow_cti.Db.Repository.Dedupe.{clashes, insert_each}
use prow_cti.Db.State.{ConnectorStateRow, StateTable, get_state, get_value, set_state, set_value}
use prow_cti.Db.State.LastWrite.{IsStateTable, Write, last_written, upsert_row, value_of}
use prow_cti.Db.StixFields.{extract_stix_persistence_fields, parse_stix_datetime, returned}
use prow_cti.Db.Tests.{
  bundle-ingested, bundle_fields, bundle_rows, list_db, list_db-IsPostgres, one_time, told_first,
  validation,
}
use prow_cti.Json.{Fields, elements, end, field, get, obj, str}
use prow_cti.Prelude.{All, List, String, [], false, filter, map, none, refl, some, ◌++◌, ◌∷◌, ◌≡◌}
use prow_cti.Prelude.Dict.{lookup}
use prow_cti.Prelude.Int.{pos}
use prow_cti.Protocol.Messages.{Envelope}
use prow_cti.Transport.Pending.{no_requests, resolve}
use prow_cti.Transport.Runtime.{
  Runtime, Services, dispatch_all, dispatch_one, handle_emit, handle_get_state, handle_set_state,
  send_ack,
}
use prow_cti.Transport.Runtime.Effects.{Tells}

-- The table of states is its list of rows.
abbrev listed : StateTable (List ConnectorStateRow)
listed = record { state_rows = λ u. u; select_value = value_of; upsert = upsert_row }

listed-IsStateTable : IsStateTable listed
listed-IsStateTable = record { selected = λ i k u. refl; upserted = λ r u. refl }

abbrev write : String → String → String → Write
write instance_id key value = record {
  instance_id = instance_id;
  key = key;
  value = str value;
  now = 1;
}

abbrev writes : List Write
writes =
    write "kev" "etag" "a"
    ∷ write "attack" "etag" "b"
    ∷ write "kev" "since" "c"
    ∷ write "kev" "etag" "d"
    ∷ []

last_written_run : last_written "kev" "etag" writes none ≡ some (str "d")
last_written_run = refl

-- With an id of its own the handler does not look at the instance's.
own_id :
    get_state listed
      (some "kev")
      "other"
      "etag"
      (set_state listed (some "kev") "attack" "etag" (str "a") 1 [])
    ≡ some (str "a")
unfolding get_state set_state get_value set_value value_of upsert_row
own_id = refl

abbrev base_services : Services (Stores (List Row) (List ConnectorStateRow))
base_services = record {
  emit_payload = some;
  set_state_payload = λ p. elim (get p "value") [ none ↦ none | some v ↦ some ("etag", v) ];
  get_state_payload = λ p. some "etag";
  log_payload = some;
  metric_payload = some;
  dump_emit_ack = λ a. end;
  dump_get_state_ack = λ j. field "value" j end;
  emit_handler = λ bundle s. (s, none);
  state_set_handler = λ key value s. (s, none);
  state_get_handler = λ key s. (s, none);
  log_handler = λ p s. s;
  metric_handler = λ p s. s;
  new_message_id = λ s. "r";
  write_failure = λ env. none;
}

abbrev message : String → String → Fields → Envelope
message id kind payload = record {
  v = pos 1;
  id = id;
  kind = kind;
  payload = payload;
  id_ref = none;
  error = none;
}

abbrev earlier_messages : List Envelope
earlier_messages =
    message "1" "set-state" (field "value" (str "a") end)
    ∷ message "2" "emit" bundle_fields
    ∷ message "3" "set-state" (field "value" (str "b") end)
    ∷ []

abbrev asking : Envelope
asking = message "4" "get-state" end

abbrev empty_runtime : Runtime (Stores (List Row) (List ConnectorStateRow))
empty_runtime = record {
  services = record { objects = []; states = [] };
  requests = no_requests;
  written = [];
}

abbrev kev_services : Services (Stores (List Row) (List ConnectorStateRow))
kev_services = services validation list_db listed one_time [] "kev" 1 base_services

loop-goes_on :
    (dispatch_all (pos 1) kev_services (earlier_messages ++ asking ∷ []) none empty_runtime).raised
    ≡ none
unfolding dispatch_all dispatch_one handle_emit handle_set_state handle_get_state send_ack resolve
    stored_services emit_handler ingest_stix_bundle bulk_insert_dedupe bulk_insert_rows
    insert_batches insert_each clashes filter row_dicts row_dict extract_stix_persistence_fields
    parse_stix_datetime validate_and_partition_bundle check_items elements get lookup
loop-goes_on = refl

get_state-answered_example :
    Tells asking "get-state-ack"
      (field "value"
        (or_null (
          all_told validation list_db listed one_time [] "kev" 1 base_services "etag"
            earlier_messages
            (get_state listed none "kev" "etag" [])))
        end)
      (dispatch_all (pos 1) kev_services (earlier_messages ++ asking ∷ []) none empty_runtime)
get_state-answered_example =
    get_state-answered validation list_db listed one_time [] "kev" 1 base_services (pos 1)
      listed-IsStateTable earlier_messages asking "etag" empty_runtime refl refl loop-goes_on

-- Queries over the rows of the insertion.
abbrev as_stored : Row → StixObjectRow
as_stored r = record { row_id = 0; ingested_at = 0; columns = r }

abbrev row_selects : Selects (List Row)
row_selects = record {
  stored = map as_stored;
  select = λ keep o limit offset t. scanning.select keep o limit offset (map as_stored t);
}

row_selects-IsSelect : IsSelect row_selects
row_selects-IsSelect = record {
  ranking =
      λ keep o limit offset t. scanning-IsSelect.ranking keep o limit offset (map as_stored t);
}

abbrev rendering : Rendering
rendering = record { datetime_value = λ t. str "a time"; isoformat = λ t. "a time" }

bundle-handled :
    emit_handler validation list_db one_time [] "mitre" bundle_fields []
    ≡ returned (some (bundle_rows, told_first))
unfolding emit_handler lookup
bundle-handled = bundle-ingested

emit_handler-found_example :
    let valid = (validate_and_partition_bundle validation false (obj bundle_fields)).0 in
    All (IsReadBack row_selects rendering [] valid bundle_rows) valid
unfolding lookup
emit_handler-found_example =
    emit_handler-found validation list_db list_db-IsPostgres one_time row_selects rendering
      row_selects-IsSelect [] "mitre" bundle_fields [] bundle_rows told_first refl bundle-handled
