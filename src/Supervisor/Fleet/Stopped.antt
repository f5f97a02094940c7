-- ===== src/Supervisor/Fleet/Stopped.antt =====
-- That nothing is restarted once all instances were told to stop (src/prow/connector/supervisor.py).
use prow_cti.Prelude.{All, String, [], false, sym, true, ◌++◌, ◌∷◌, ◌≡◌, ◌≢◌}
use prow_cti.Prelude.Dict.{Dict}
use prow_cti.Supervisor.Fleet.{Supervisor, map_instances, shutdown_all}
use prow_cti.Supervisor.Instance.{Instance, request_shutdown, wake}
use prow_cti.Supervisor.Instance.History.{Step, World}
use prow_cti.Supervisor.Instance.Shutdown.{
  IsStopped, Step-IsStopped, automatic, request_shutdown-stops, wake-IsStopped,
}
use prow_cti.Supervisor.Policy.{RestartPolicy}
use prow_cti.Supervisor.State.{starting}
use mathlib.Core.Path.{subst}

-- The instances of a supervisor, each with its history.
abbrev pub Worlds : Type 0
Worlds = Dict World

abbrev pub instances_of : Worlds → Dict Instance
instances_of [] = []
instances_of ((id, w) ∷ ws) = (id, w.inst) ∷ instances_of ws

-- Automatic steps of the instances, in any interleaving.
pub data Runs (p : RestartPolicy) (v : Worlds) : Worlds → Type 0 where
  stays : Runs p v v
  steps :
      (before after : Worlds) (id : String) (a b : World)
      → Runs p v (before ++ (id, a) ∷ after)
      → (s : Step p a b) → automatic s ≡ true
      → Runs p v (before ++ (id, b) ∷ after)

abbrev AllStopped : Worlds → Type 0
AllStopped = All (λ e. IsStopped e.1.inst)

at_place :
    (before after : Worlds) (id : String) (a : World)
    → AllStopped (before ++ (id, a) ∷ after)
    → IsStopped a.inst
at_place [] after id a h = h.0
at_place (e ∷ before) after id a h = at_place before after id a h.1

put_in_place :
    (before after : Worlds) (id : String) (a b : World)
    → AllStopped (before ++ (id, a) ∷ after)
    → IsStopped b.inst
    → AllStopped (before ++ (id, b) ∷ after)
put_in_place [] after id a b h s = (s, h.1)
put_in_place (e ∷ before) after id a b h s = (h.0, put_in_place before after id a b h.1 s)

Runs-AllStopped :
    (p : RestartPolicy) (v : Worlds) {w : Worlds} → Runs p v w → AllStopped v → AllStopped w
Runs-AllStopped p v stays h = h
Runs-AllStopped p v (steps before after id a b runs s auto) h =
    let all' = Runs-AllStopped p v runs h in
    put_in_place before after id a b all'
      (Step-IsStopped p s auto (at_place before after id a all'))

told_to_stop :
    (instances : Dict Instance)
    → All (λ e. IsStopped e.1) (map_instances (λ id i. (request_shutdown i).0) instances)
unfolding map_instances
told_to_stop [] = tt
told_to_stop ((id, i) ∷ rest) = (request_shutdown-stops i, told_to_stop rest)

worlds-stopped : (ws : Worlds) → All (λ e. IsStopped e.1) (instances_of ws) → AllStopped ws
worlds-stopped [] h = tt
worlds-stopped ((id, w) ∷ ws) h = (h.0, worlds-stopped ws h.1)

-- The instance is not starting, and its restart timer would spawn nothing.
abbrev pub IsQuiet : Instance → Type 0
IsQuiet i = (i.state ≢ starting) × ((wake i).1 ≡ false)

All-IsQuiet : (ws : Worlds) → AllStopped ws → All (λ e. IsQuiet e.1.inst) ws
All-IsQuiet [] h = tt
All-IsQuiet ((id, w) ∷ ws) (stopped, rest) =
    ((stopped.1, (wake-IsStopped w.inst stopped).1), All-IsQuiet ws rest)

-- After `shutdown_all` no instance is restarted: whatever exits, probes, timers and messages of
-- whichever instances follow, in any interleaving, none of them is starting and no restart timer
-- spawns a process, until one is started again or its circuit breaker is cleared.
pub shutdown_all-no_restart :
    (p : RestartPolicy) (s : Supervisor) (v w : Worlds)
    → instances_of v ≡ (shutdown_all s).instances
    → Runs p v w
    → All (λ e. IsQuiet e.1.inst) w
unfolding shutdown_all
shutdown_all-no_restart p s v w same runs = All-IsQuiet w (
    Runs-AllStopped p v runs
      (worlds-stopped v (subst (All (λ e. IsStopped e.1)) (sym same) (told_to_stop s.instances))))
