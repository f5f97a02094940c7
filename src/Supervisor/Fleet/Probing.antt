-- ===== src/Supervisor/Fleet/Probing.antt =====
-- That the probes of one instance do not depend on the others (src/prow/connector/supervisor.py).
use prow_cti.Prelude.{
  Bool, Bool-cases, List, String, [], ap, arith, eq_iff, if◌then◌else◌, inl, inr, refl, ℕ, ◌==◌,
  ◌∙◌, ◌∷◌, ◌≡◌,
}
use prow_cti.Prelude.Dict.{Dict, insert, lookup, lookup-insert}
use prow_cti.Supervisor.Fleet.{health_probe_loop, misses_of, probe_one}
use prow_cti.Supervisor.Health.{
  Probe, every_second, probe_round, probe_rounds, probe_rounds-every_second,
}
use prow_cti.Supervisor.State.{ConnectorState}
use mathlib.Core.Path.{ap₂}

-- What the loop finds of one instance, and what it does to it.
unfoldable pub turns_of :
    String → List (String × ConnectorState × Probe) → List (ConnectorState × Probe)
turns_of id [] = []
turns_of id ((other, s, probe) ∷ turns) =
    let rest = turns_of id turns in if other == id then (s, probe) ∷ rest else rest

unfoldable pub kills_of : String → List (String × Bool) → List Bool
kills_of id [] = []
kills_of id ((other, killed) ∷ kills) =
    let rest = kills_of id kills in if other == id then killed ∷ rest else rest

misses_of-insert :
    (other id : String) (n : ℕ) (misses : Dict ℕ)
    → misses_of id (insert other n misses) ≡ (if other == id then n else misses_of id misses)
misses_of-insert other id n misses = ground (arith, lookup-insert other id n misses)

health_probe_loop-one :
    (id : String) (turns : List (String × ConnectorState × Probe)) (misses : Dict ℕ)
    → kills_of id (health_probe_loop turns misses)
      ≡ (probe_rounds (turns_of id turns) (misses_of id misses)).1
unfolding kills_of turns_of health_probe_loop probe_one probe_rounds
health_probe_loop-one id [] misses = refl
health_probe_loop-one id ((other, s, probe) ∷ turns) misses =
    let round = probe_round s probe (misses_of other misses) in
    let rec = health_probe_loop-one id turns (insert other round.0 misses) in
    let counted = misses_of-insert other id round.0 misses in
    elim (Bool-cases (other == id)) [
      | inl same ↦
          let key : other ≡ id = (eq_iff other id).0 same in
          rw same (
            ap₂ ◌∷◌ (ap (λ x. (probe_round s probe (misses_of x misses)).1) key) (
              rec
              ∙ ap (λ n. (probe_rounds (turns_of id turns) n).1)
                  (counted ∙ rw same (ap (λ x. (probe_round s probe (misses_of x misses)).0) key))))
      | inr different ↦
          rw different
            (rec ∙ ap (λ n. (probe_rounds (turns_of id turns) n).1) (counted ∙ rw different refl))
    ]

-- However many instances there are, and however their probes answer, each of them is killed at exactly
-- every second of its own consecutive misses: what the loop finds of the others, before or between,
-- has no part in it.
pub health_probe_loop-every_second :
    (id : String) (turns : List (String × ConnectorState × Probe))
    → kills_of id (health_probe_loop turns []) ≡ every_second 0 (turns_of id turns)
unfolding lookup
health_probe_loop-every_second id turns =
    health_probe_loop-one id turns [] ∙ probe_rounds-every_second (turns_of id turns)
