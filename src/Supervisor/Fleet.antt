-- ===== src/Supervisor/Fleet.antt =====
-- The supervisor of many instances (src/prow/connector/supervisor.py).
pub mod Tests
pub mod Stopped
use prow_cti.Prelude.{
  Bool, List, Option, String, [], false, if◌then◌else◌, map, none, some, true, ℕ, ◌∷◌,
}
use prow_cti.Prelude.Dict.{Dict, insert, lookup}
use prow_cti.Supervisor.Health.{Probe, probe_round}
use prow_cti.Supervisor.Instance.{
  Instance, clear_circuit_break, new_instance, request_shutdown, spawn_begin, spawn_finish, start,
}
use prow_cti.Supervisor.State.{ConnectorState, Transition, invalid_transition, ok}
pub mod Probing

-- `Supervisor`: the instances by their ids, in the order in which they were added, the interval of the
-- health probes (none is that there are none), whether their task runs, and the counts of misses.
pub record Supervisor : Type 0 where
  pub instances : Dict Instance
  pub probe_interval : Option ℕ
  pub health_task : Bool
  pub misses : Dict ℕ

-- `Supervisor.__init__`
abbrev pub new_supervisor : Option ℕ → Supervisor
new_supervisor interval = record {
  instances = [];
  probe_interval = interval;
  health_task = false;
  misses = [];
}

-- `add_instance`: `is_valid` is whether `validate_connector_instance_config` lets the configuration
-- pass; where it raises, nothing is added.
unfoldable pub add_instance : Bool → String → Supervisor → Option Supervisor
add_instance is_valid instance_id s =
    if is_valid
    then some (record s { instances = insert instance_id new_instance s.instances })
    else none

-- How the start of a process ends: an exception, or with a transport or without.
pub data Spawn : Type 0 where
  raises : Spawn
  finished : Bool → Spawn

abbrev or_left : Instance → Transition Instance → Instance
or_left i (ok j) = j
or_left i invalid_transition = i

-- `start` of one instance as `_safe_start` calls it: a process is created and may come up; whatever is
-- raised is logged.
unfoldable pub safe_start : ℕ × Spawn → Instance → Instance
safe_start (process, spawn) i = elim (start i) [
  | invalid_transition ↦ i
  | ok j ↦ elim spawn [
    | raises ↦ spawn_begin process j
    | finished up ↦
        or_left (spawn_begin process j) (spawn_finish process up (spawn_begin process j))
  ]
]

unfoldable pub map_instances : (String → Instance → Instance) → Dict Instance → Dict Instance
map_instances f [] = []
map_instances f ((id, i) ∷ rest) = (id, f id i) ∷ map_instances f rest

-- `start_all`, from what becomes of the process of each instance.
unfoldable pub start_all : (String → ℕ × Spawn) → Supervisor → Supervisor
start_all spawns s = record s {
  instances = map_instances (λ id i. safe_start (spawns id) i) s.instances;
}

-- `shutdown_all` up to the joining of the background tasks: the health probes stop first.
unfoldable pub shutdown_all : Supervisor → Supervisor
shutdown_all s = record s {
  health_task = false;
  instances = map_instances (λ id i. (request_shutdown i).0) s.instances;
}

-- `get_instance`, none for a `KeyError`.
unfoldable pub get_instance : String → Supervisor → Option Instance
get_instance instance_id s = lookup instance_id s.instances

-- `list_instances`
unfoldable pub list_instances : Supervisor → List Instance
list_instances s = map (λ e. e.1) s.instances

-- `clear_circuit_break`, up to the spawn; none where it raises.
unfoldable pub clear_instance : String → Supervisor → Option Supervisor
clear_instance instance_id s = elim (get_instance instance_id s) [
  | none ↦ none
  | some i ↦ elim (clear_circuit_break i) [
    | invalid_transition ↦ none
    | ok j ↦ some (record s { instances = insert instance_id j s.instances })
  ]
]

-- `start_health_probes`
unfoldable pub start_health_probes : Supervisor → Supervisor
start_health_probes s = elim s.probe_interval [
  | none ↦ s
  | some _ ↦ record s { health_task = true }
]

abbrev pub misses_of : String → Dict ℕ → ℕ
misses_of id misses = elim (lookup id misses) [ some n ↦ n | none ↦ 0 ]

-- One turn of the inner loop of `_health_probe_loop`: what is found of an instance, the counts after
-- it, and whether the instance is killed.
unfoldable pub probe_one : String × ConnectorState × Probe → Dict ℕ → Dict ℕ × Bool
probe_one (id, s, probe) misses =
    let (n, killed) = probe_round s probe (misses_of id misses) in (insert id n misses, killed)

-- The turns of `_health_probe_loop`, one round after another.
unfoldable pub health_probe_loop :
    List (String × ConnectorState × Probe) → Dict ℕ → List (String × Bool)
health_probe_loop [] misses = []
health_probe_loop ((id, s, probe) ∷ turns) misses =
    let (misses', killed) = probe_one (id, s, probe) misses in
    (id, killed) ∷ health_probe_loop turns misses'
