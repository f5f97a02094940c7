-- ===== src/Supervisor/Health.antt =====
-- Health probes and their remediation (src/prow/connector/supervisor.py, and `probe_health` and
-- `_mark_unhealthy` of src/prow/connector/instance.py).
use prow_cti.Json.{end, field, str}
use prow_cti.Prelude.{
  Bool, List, Option, String, [], arith, eqb, false, if◌then◌else◌, ltb, none, not, refl, some,
  true, ℕ, ◌%◌, ◌&&◌, ◌+◌, ◌∷◌, ◌≡◌,
}
use prow_cti.Protocol.Messages.{HealthAckPayload, HealthStatus, degraded, healthy, unhealthy}
use prow_cti.Supervisor.Instance.{Instance}
use prow_cti.Supervisor.State.{ConnectorState, is_active}
use prow_cti.Supervisor.State.Trace.{run}

-- What a probe of one instance gives the loop: an acknowledgement, or an exception.
pub data Probe : Type 0 where
  ack : HealthStatus → Probe
  exception : Probe

-- What the transport answers to `request_health`.
pub data HealthReply : Type 0 where
  reply : HealthAckPayload → HealthReply
  no_reply : HealthReply

unhealthy_because : String → HealthAckPayload
unhealthy_because reason = record { status = unhealthy; details = field "reason" (str reason) end }

-- `probe_health`: `has_transport` is whether the process has a runtime transport.
unfoldable pub probe_health : Instance → Bool → HealthReply → HealthAckPayload
unfolding unhealthy_because
probe_health i has_transport r =
    if not (is_active i.state) then unhealthy_because "not_ready" else elim i.process [
      | none ↦ unhealthy_because "no_transport"
      | some _ ↦
          if has_transport
          then elim r [ reply a ↦ a | no_reply ↦ unhealthy_because "probe_failed" ]
          else unhealthy_because "no_transport"
    ]

-- `_mark_unhealthy`: the process that is killed, if any.
unfoldable pub mark_unhealthy : Instance → Option ℕ
mark_unhealthy i = if is_active i.state then i.process else none

-- A probe that counts as a miss.
abbrev pub is_miss : Probe → Bool
is_miss (ack healthy) = false
is_miss (ack degraded) = false
is_miss _ = true

-- One round of `_health_probe_loop` for one instance: the count of consecutive misses, and whether
-- `_mark_unhealthy` is called.
unfoldable pub probe_round : ConnectorState → Probe → ℕ → ℕ × Bool
probe_round s probe misses =
    if not (is_active s)
    then (0, false)
    else if not (is_miss probe)
    then (0, false)
    else if ltb (misses + 1) 2
    then (misses + 1, false)
    else (0, true)

-- The rounds of the loop for one instance, from the first on.
unfoldable pub probe_rounds : List (ConnectorState × Probe) → ℕ → ℕ × List Bool
probe_rounds [] misses = (misses, [])
probe_rounds ((s, probe) ∷ rounds) misses =
    let (misses', killed) = probe_round s probe misses in
    let (misses'', kills) = probe_rounds rounds misses' in (misses'', killed ∷ kills)

abbrev pub missed : ConnectorState × Probe → Bool
missed (s, probe) = is_active s && is_miss probe

-- Every second miss of a run of consecutive misses, told from the length of the run so far.
unfoldable pub every_second : ℕ → List (ConnectorState × Probe) → List Bool
every_second run [] = []
every_second run (r ∷ rounds) =
    let run' = if missed r then run + 1 else 0 in
    (missed r && eqb (run' % 2) 0) ∷ every_second run' rounds

abbrev longer : ConnectorState × Probe → ℕ → ℕ
longer r run = if missed r then run + 1 else 0

probe_round-parity :
    (s : ConnectorState) (probe : Probe) (run : ℕ)
    → probe_round s probe (run % 2)
      ≡ (longer (s, probe) run % 2, missed (s, probe) && eqb (longer (s, probe) run % 2) 0)
unfolding probe_round
probe_round-parity s probe run = ground arith

probe_rounds-from :
    (rounds : List (ConnectorState × Probe)) (run : ℕ)
    → (probe_rounds rounds (run % 2)).1 ≡ every_second run rounds
unfolding probe_rounds every_second
probe_rounds-from [] run = refl
probe_rounds-from ((s, probe) ∷ rounds) run =
    rw (probe_round-parity s probe run, probe_rounds-from rounds (longer (s, probe) run))

-- An instance is killed by the health probes at exactly every second miss of a run of consecutive
-- misses: never after a single one, always after two, and a probe that succeeds, or a round in which
-- the instance is neither ready nor running, starts the count afresh.
pub probe_rounds-every_second :
    (rounds : List (ConnectorState × Probe)) → (probe_rounds rounds 0).1 ≡ every_second 0 rounds
probe_rounds-every_second rounds = probe_rounds-from rounds 0
