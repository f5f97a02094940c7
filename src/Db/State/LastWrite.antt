-- ===== src/Db/State/LastWrite.antt =====
-- That a connector reads what it wrote last, and never what another one wrote
-- (src/prow/db/state_handler.py).
use prow_cti.Db.State.{
  ConnectorStateRow, StateTable, get_state, get_value, is_entry, not_null, set_state, set_value,
}
use prow_cti.Db.StixFields.{Timestamp}
use prow_cti.Json.{Json}
use prow_cti.Prelude.{
  Bool, List, Option, String, [], ap, arith, eq_iff, false, if◌then◌else◌, none, refl, some, sym,
  true, ◌&&◌, ◌==◌, ◌∙◌, ◌∷◌, ◌≡◌,
}

-- The rows after an `INSERT` with `ON CONFLICT DO UPDATE`: the row with the primary key is replaced.
unfoldable pub upsert_row : ConnectorStateRow → List ConnectorStateRow → List ConnectorStateRow
upsert_row r [] = r ∷ []
upsert_row r (s ∷ rows) =
    let rest = upsert_row r rows in
    if is_entry r.connector_instance_id r.key s then r ∷ rows else s ∷ rest

-- The value of the row with a primary key.
unfoldable pub value_of : String → String → List ConnectorStateRow → Option Json
value_of instance_id key [] = none
value_of instance_id key (r ∷ rows) =
    let rest = value_of instance_id key rows in
    if is_entry instance_id key r then some r.value else rest

-- What the code relies on in PostgreSQL.
pub record IsStateTable {U : Type 0} (db : StateTable U) : Type 0 where
  pub selected :
      (instance_id key : String) (u : U)
      → db.select_value instance_id key u ≡ value_of instance_id key (db.state_rows u)
  pub upserted :
      (r : ConnectorStateRow) (u : U)
      → db.state_rows (db.upsert r u) ≡ upsert_row r (db.state_rows u)

value_of-upsert_row :
    (r : ConnectorStateRow) (i k : String) (rows : List ConnectorStateRow)
    → value_of i k (upsert_row r rows)
      ≡ (if (r.connector_instance_id == i) && (r.key == k) then some r.value else value_of i k rows)
unfolding value_of upsert_row
value_of-upsert_row r i k [] = refl
value_of-upsert_row r i k (s ∷ rows) = ground (
  arith,
  eq_iff r.connector_instance_id i,
  eq_iff s.connector_instance_id r.connector_instance_id,
  eq_iff s.connector_instance_id i,
  eq_iff r.key k,
  eq_iff s.key r.key,
  eq_iff s.key k,
  value_of-upsert_row r i k rows,
)

not_null-if :
    (b : Bool) (x y : Option Json)
    → not_null (if b then x else y) ≡ (if b then not_null x else not_null y)
not_null-if true x y = refl
not_null-if false x y = refl

-- A call of the setter: by which instance, the key, the value and the time.
pub record Write : Type 0 where
  pub instance_id : String
  pub key : String
  pub value : Json
  pub now : Timestamp

-- The last value that `instance_id` wrote under the key, if it wrote there.
abbrev pub last_written : String → String → List Write → Option Json → Option Json
last_written i k [] old = old
last_written i k (w ∷ ws) old =
    last_written i k ws
      (if (w.instance_id == i) && (w.key == k) then not_null (some w.value) else old)

module _ {U : Type 0} (db : StateTable U) where
  abbrev pub write_all : List Write → U → U
  write_all [] u = u
  write_all (w ∷ ws) u = write_all ws (set_state db none w.instance_id w.key w.value w.now u)

module _ {U : Type 0} (db : StateTable U) (lawful : IsStateTable db) where
  pub get_state-set_state :
      (i j k l : String) (v : Json) (now : Timestamp) (u : U)
      → get_state db none i k (set_state db none j l v now u)
        ≡ (if (j == i) && (l == k) then not_null (some v) else get_state db none i k u)
  unfolding get_state set_state get_value set_value
  get_state-set_state i j k l v now u =
      let r : ConnectorStateRow = record {
        connector_instance_id = j;
        key = l;
        value = v;
        updated_at = now;
      } in
      ap not_null (
        lawful.selected i k (db.upsert r u)
        ∙ ap (value_of i k) (lawful.upserted r u)
        ∙ value_of-upsert_row r i k (db.state_rows u))
      ∙ not_null-if ((j == i) && (l == k)) (some v) (value_of i k (db.state_rows u))
      ∙ ap (λ x. if (j == i) && (l == k) then not_null (some v) else not_null x)
          (sym (lawful.selected i k u))

  -- Whatever connectors wrote, in any order and however often, an instance reads under a key the
  -- value that it wrote there last itself, and what was there before if it wrote none: no other
  -- instance and no other key has a part in it. (A JSON null reads as nothing.)
  get_state-last_written :
      (ws : List Write) (i k : String) (u : U)
      → get_state db none i k (write_all db ws u) ≡ last_written i k ws (get_state db none i k u)
  get_state-last_written [] i k u = refl
  get_state-last_written (w ∷ ws) i k u =
      get_state-last_written ws i k (set_state db none w.instance_id w.key w.value w.now u)
      ∙ ap (last_written i k ws) (get_state-set_state i w.instance_id k w.key w.value w.now u)
