-- ===== src/Supervisor/Fleet/Tests.antt =====
-- Concrete supervisors (src/prow/connector/supervisor.py and src/prow/api/connector_startup.py).
use prow_cti.Config.Schema.{ConnectorInstanceConfig, resolve_ids, validate_unique_instance_ids}
use prow_cti.Json.{end}
use prow_cti.Prelude.{
  All, Bool, List, String, [], false, if◌then◌else◌, map, none, refl, some, true, ◌++◌, ◌==◌, ◌||◌,
  ◌∷◌, ◌≡◌,
}
use prow_cti.Prelude.Dict.{Dict, insert, lookup}
use prow_cti.Prelude.Text.{codes, decimal_from}
use prow_cti.Protocol.Messages.{healthy}
use prow_cti.Supervisor.Duration.{lstrip, parse_iso8601_duration, rstrip, scan_digits, unit_seconds}
use prow_cti.Supervisor.Fleet.{
  Supervisor, add_instance, finished, health_probe_loop, list_instances, map_instances,
  new_supervisor, probe_one, raises, safe_start, shutdown_all, start_all,
}
use prow_cti.Supervisor.Fleet.Probing.{health_probe_loop-every_second, kills_of, turns_of}
use prow_cti.Supervisor.Fleet.Stopped.{IsQuiet, instances_of, shutdown_all-no_restart, stays}
use prow_cti.Supervisor.Health.{Probe, ack, every_second, exception, probe_round}
use prow_cti.Supervisor.Instance.{
  Instance, new_instance, request_shutdown, spawn_begin, spawn_finish,
}
use prow_cti.Supervisor.Instance.History.{World}
use prow_cti.Supervisor.Policy.{default_policy}
use prow_cti.Supervisor.Schedule.{HasInterval, Scheduler, ids, new_scheduler, register}
use prow_cti.Supervisor.Startup.{
  Packages, add_connector, add_connectors, build_supervisor_and_scheduler,
}
use prow_cti.Supervisor.Startup.Raises.{build_supervisor_and_scheduler-raises, is_refused}
use prow_cti.Supervisor.Startup.Registered.{build_supervisor_and_scheduler-lem, chosen_ids}
use prow_cti.Supervisor.State.{
  ConnectorState, apply_transition, crashed, dead, draining, ready, running, starting,
  transition_suppressed,
}
use prow_cti.Supervisor.Tests.{ascii}
use prow_cti.Supervisor.Instance
use prow_cti.Supervisor.Schedule

abbrev missed_probe : Probe
missed_probe = exception

-- Two instances in turn: the first misses twice, the second once between.
abbrev turns : List (String × ConnectorState × Probe)
turns =
    ("kev", ready, missed_probe)
    ∷ ("attack", running, missed_probe)
    ∷ ("kev", ready, missed_probe)
    ∷ ("attack", running, ack healthy)
    ∷ []

health_probe_loop-every_second_example :
    kills_of "kev" (health_probe_loop turns []) ≡ every_second 0 (turns_of "kev" turns)
health_probe_loop-every_second_example = health_probe_loop-every_second "kev" turns

kev-killed :
    health_probe_loop turns []
    ≡ ("kev", false) ∷ ("attack", false) ∷ ("kev", true) ∷ ("attack", false) ∷ []
unfolding health_probe_loop probe_one probe_round lookup insert
kev-killed = refl

abbrev two_instances : Supervisor
two_instances = record (new_supervisor (some 30)) {
  instances =
      ("kev", record new_instance { state = running; process = some 1 })
      ∷ ("attack", record new_instance { state = crashed; pending_restart = some 1 })
      ∷ [];
}

abbrev stopped_worlds : Dict World
stopped_worlds =
    (
      "kev",
      record {
        inst = record new_instance {
          state = draining;
          process = some 1;
          shutdown_requested = true;
        };
        history = [];
        latest = 0;
      },
    )
    ∷ (
      "attack",
      record {
        inst = record new_instance { state = dead; shutdown_requested = true };
        history = [];
        latest = 0;
      },
    )
    ∷ []

stopped-same : instances_of stopped_worlds ≡ (shutdown_all two_instances).instances
unfolding shutdown_all map_instances request_shutdown transition_suppressed apply_transition
stopped-same = refl

shutdown_all-no_restart_example : All (λ e. IsQuiet e.1.inst) stopped_worlds
shutdown_all-no_restart_example =
    shutdown_all-no_restart default_policy two_instances stopped_worlds stopped_worlds stopped-same
      stays

-- One start fails and the other does not.
two-started :
    map
      (λ i. i.state)
      (list_instances (
        start_all
          (λ id. if id == "kev" then (7, raises) else (8, finished true))
          (record (new_supervisor none) {
            instances = ("kev", new_instance) ∷ ("attack", new_instance) ∷ [];
          })))
    ≡ starting ∷ ready ∷ []
unfolding list_instances start_all map_instances safe_start Instance.start spawn_begin spawn_finish
    apply_transition
two-started = refl

abbrev connector : String → Bool → String → ConnectorInstanceConfig
connector name enabled schedule = record {
  name = name;
  id = none;
  enabled = enabled;
  schedule = schedule;
  allow_custom_types = false;
  config = end;
}

abbrev packages : Packages
packages = record {
  entry_point_usable = λ name. name == "kev" || name == "attack";
  config_valid = λ name config. name == "kev" || name == "attack";
}

abbrev configured : List ConnectorInstanceConfig
configured =
    connector "kev" true "30m" ∷ connector "urlhaus" false "1h" ∷ connector "attack" true "1h" ∷ []

abbrev with_their_ids : List ConnectorInstanceConfig
with_their_ids =
    record (connector "kev" true "30m") { id = some "kev-0" }
    ∷ record (connector "urlhaus" false "1h") { id = some "urlhaus-1" }
    ∷ record (connector "attack" true "1h") { id = some "attack-2" }
    ∷ []

configured-validated : validate_unique_instance_ids ascii.is_space configured ≡ some with_their_ids
unfolding validate_unique_instance_ids resolve_ids lookup insert decimal_from
configured-validated = refl

abbrev built_supervisor : Supervisor
built_supervisor = record (new_supervisor (some 30)) {
  instances = ("kev-0", new_instance) ∷ ("attack-2", new_instance) ∷ [];
}

abbrev built_scheduler : Scheduler
built_scheduler = record new_scheduler { schedules = ("kev-0", 1800) ∷ ("attack-2", 3600) ∷ [] }

configured-built :
    build_supervisor_and_scheduler ascii packages with_their_ids
    ≡ some (built_supervisor, built_scheduler)
unfolding build_supervisor_and_scheduler add_connectors add_connector add_instance Schedule.register
    insert parse_iso8601_duration lstrip rstrip scan_digits unit_seconds
configured-built = refl

build_supervisor_and_scheduler-lem_example :
    (ids built_supervisor.instances ≡ chosen_ids ascii packages with_their_ids)
    × (ids (Schedule.start built_scheduler).tasks ≡ chosen_ids ascii packages with_their_ids)
    × All HasInterval (Schedule.start built_scheduler).tasks
build_supervisor_and_scheduler-lem_example =
    build_supervisor_and_scheduler-lem ascii packages ascii.is_space configured with_their_ids
      built_supervisor built_scheduler configured-validated configured-built

abbrev bad_schedule : ConnectorInstanceConfig
bad_schedule = record (connector "attack" true "soon") { id = some "attack-2" }

soon-refused : is_refused (parse_iso8601_duration ascii (codes "soon")) ≡ true
unfolding parse_iso8601_duration lstrip rstrip scan_digits unit_seconds
soon-refused = refl

build_supervisor_and_scheduler-raises_example :
    (build_supervisor_and_scheduler ascii packages
        (record (connector "kev" true "30m") { id = some "kev-0" } ∷ bad_schedule ∷ [])
      ≡ none)
    × ((others more : List ConnectorInstanceConfig) (d : ConnectorInstanceConfig)
        → packages.config_valid d.name d.config ≡ false
        → build_supervisor_and_scheduler ascii packages (others ++ d ∷ more)
          ≡ build_supervisor_and_scheduler ascii packages (others ++ more))
build_supervisor_and_scheduler-raises_example =
    build_supervisor_and_scheduler-raises ascii packages
      (record (connector "kev" true "30m") { id = some "kev-0" } ∷ []) [] bad_schedule "attack-2"
      refl refl soon-refused
