-- ===== src/Supervisor/Schedule.antt =====
-- The interval scheduler (src/prow/connector/scheduler.py). A text is the list of its code points.
use prow_cti.Prelude.{
  All, Bool, List, Option, String, [], arith, false, if◌then◌else◌, map, none, refl, some, true, ℕ,
  ◌++◌, ◌<◌, ◌||◌, ◌∷◌, ◌≡◌,
}
use prow_cti.Supervisor.Duration.{
  DurationResult, Unicode, max_seconds, overflow_error, parse_iso8601_duration, seconds,
  value_error,
}
use prow_cti.Supervisor.Duration.Accepts.{parse_iso8601_duration-positive}
use prow_cti.Supervisor.State.{ConnectorState, circuit_broken}
use mathlib.Core.List.{map-append}

-- `ConnectorScheduler`: an entry of `_schedules` is an instance id with its interval in seconds, and
-- so is a running task.
pub record Scheduler : Type 0 where
  pub schedules : List (String × ℕ)
  pub tasks : List (String × ℕ)
  pub stop_event : Bool

-- `ConnectorScheduler.__init__`
abbrev pub new_scheduler : Scheduler
new_scheduler = record { schedules = []; tasks = []; stop_event = false }

-- `register`: an interval that is no duration raises, and nothing is recorded.
unfoldable pub register : Unicode → String → List ℕ → Scheduler → Option Scheduler
register t instance_id schedule s = elim (parse_iso8601_duration t schedule) [
  | seconds interval ↦ some (record s { schedules = s.schedules ++ (instance_id, interval) ∷ [] })
  | _ ↦ none
]

-- `start`: one loop for each entry.
unfoldable pub start : Scheduler → Scheduler
start s = record s { stop_event = false; tasks = s.schedules }

-- `stop`
unfoldable pub stop : Scheduler → Scheduler
stop s = record s { stop_event = true; tasks = [] }

-- What one turn of `_run_loop` meets: whether the stop event is set before it, the state of the
-- instance, whether the fetch cycle raises, and whether the event is set during the wait.
pub record Turn : Type 0 where
  pub stopped : Bool
  pub state : ConnectorState
  pub fails : Bool
  pub stopped_in_wait : Bool

-- What a turn does.
pub data Action : Type 0 where
  skip_circuit_broken fetch fetch_failed : Action

turn_action : Turn → Action
turn_action r = elim r.state [
  | circuit_broken ↦ skip_circuit_broken
  | _ ↦ if r.fails then fetch_failed else fetch
]

-- `_run_loop`
unfoldable pub run_loop : List Turn → List Action
unfolding turn_action
run_loop [] = []
run_loop (r ∷ turns) =
    let rest = run_loop turns in
    if r.stopped then [] else turn_action r ∷ (if r.stopped_in_wait then [] else rest)

abbrev pub ids {ℓ} : {V : Type ℓ} → List (String × V) → List String
ids = map (λ e. e.0)

abbrev pub HasInterval : String × ℕ → Type 0
HasInterval e = (0 < e.1) × (e.1 < max_seconds)

All-snoc :
    (es : List (String × ℕ)) (e : String × ℕ)
    → All HasInterval es
    → HasInterval e
    → All HasInterval (es ++ e ∷ [])
All-snoc [] e h g = (g, tt)
All-snoc (x ∷ es) e h g = (h.0, All-snoc es e h.1 g)

pub register-step :
    (t : Unicode) (i : String) (schedule : List ℕ) (s s' : Scheduler)
    → register t i schedule s ≡ some s'
    → All HasInterval s.schedules
    → All HasInterval s'.schedules × (ids s'.schedules ≡ ids s.schedules ++ i ∷ [])
unfolding register
register-step t i schedule s s' h all = by_result (parse_iso8601_duration t schedule) refl
  where
    by_result :
        (r : DurationResult)
        → parse_iso8601_duration t schedule ≡ r
        → All HasInterval s'.schedules × (ids s'.schedules ≡ ids s.schedules ++ i ∷ [])
    by_result (seconds n) e =
        let (positive, small, _) = parse_iso8601_duration-positive t schedule n e in
        let same : s.schedules ++ (i, n) ∷ [] ≡ s'.schedules = ground (arith, e) in
        rw (← same)
          (All-snoc s.schedules (i, n) all (positive, small), map-append (λ e. e.0) s.schedules _)
    by_result value_error e = cc (h, e)
    by_result overflow_error e = cc (h, e)

-- Once the stop event is set, before a turn or during its wait, no later turn does anything.
pub run_loop-stopped :
    (before : List Turn) (r : Turn) (after : List Turn)
    → (r.stopped || r.stopped_in_wait) ≡ true
    → run_loop (before ++ r ∷ after) ≡ run_loop (before ++ r ∷ [])
unfolding run_loop
run_loop-stopped [] r after h = ground arith
run_loop-stopped (q ∷ before) r after h = ground (arith, run_loop-stopped before r after h)
