-- ===== src/Supervisor/Startup/Registered.antt =====
-- What the start-up builds from a validated configuration (src/prow/api/connector_startup.py and
-- src/prow/config/schema.py).
use prow_cti.Config.Schema.{ConnectorInstanceConfig, validate_unique_instance_ids}
use prow_cti.Config.Schema.Unique.{
  are_distinct, id_of, ids_from, is_among, none_blank, validate_unique_instance_ids-lem, with_ids,
}
use prow_cti.Prelude.{
  All, Bool, Bool-cases, List, Option, Option-cases, String, [], ap, append-nil, append_assoc,
  arith, eq_iff, false, if◌then◌else◌, inl, inr, none, refl, some, suc, sym, true, ℕ, ◌&&◌, ◌++◌,
  ◌==◌, ◌||◌, ◌∙◌, ◌∷◌, ◌≡◌,
}
use prow_cti.Prelude.Dict.{Dict, insert}
use prow_cti.Prelude.Text.{codes}
use prow_cti.Supervisor.Duration.{Unicode}
use prow_cti.Supervisor.Fleet.{Supervisor, add_instance, new_supervisor}
use prow_cti.Supervisor.Instance.{new_instance}
use prow_cti.Supervisor.Schedule.{
  HasInterval, Scheduler, ids, new_scheduler, register, register-step,
}
use prow_cti.Supervisor.Startup.{
  Packages, add_connector, add_connectors, build_supervisor_and_scheduler, is_chosen,
}
use mathlib.Core.Path.{subst}
use prow_cti.Supervisor.Schedule

module _ (t : Unicode) (packages : Packages) where
  unfoldable pub chosen_ids : List ConnectorInstanceConfig → List String
  chosen_ids [] = []
  chosen_ids (c ∷ cs) =
      let rest = chosen_ids cs in
      if is_chosen t packages c then elim c.id [ none ↦ rest | some id ↦ id ∷ rest ] else rest

unfoldable pub set_ids : List ConnectorInstanceConfig → List String
set_ids [] = []
set_ids (c ∷ cs) = elim c.id [ none ↦ set_ids cs | some id ↦ id ∷ set_ids cs ]

set_ids-with_ids :
    (index : ℕ) (cs : List ConnectorInstanceConfig)
    → set_ids (with_ids index cs) ≡ ids_from index cs
unfolding set_ids
set_ids-with_ids index [] = refl
set_ids-with_ids index (c ∷ cs) = ap (◌∷◌ (id_of index c)) (set_ids-with_ids (suc index) cs)

ids-insert :
    {V : Type 0} (k : String) (v : V) (d : Dict V)
    → is_among k (ids d) ≡ false
    → ids (insert k v d) ≡ ids d ++ k ∷ []
unfolding is_among insert
ids-insert k v [] h = refl
ids-insert k v ((j, w) ∷ d) h = ground (arith, ids-insert k v d, eq_iff j k, eq_iff k j)

is_among-snoc :
    (x y : String) (ys : List String) → is_among x (ys ++ y ∷ []) ≡ (is_among x ys || x == y)
unfolding is_among
is_among-snoc x y [] = ground arith
is_among-snoc x y (z ∷ ys) = ground (arith, is_among-snoc x y ys)

-- None of the ids is a key.
abbrev AreNew : List String → List String → Type 0
AreNew xs keys = All (λ x. is_among x keys ≡ false) xs

AreNew-snoc :
    (y : String) (xs keys : List String)
    → is_among y xs ≡ false
    → AreNew xs keys
    → AreNew xs (keys ++ y ∷ [])
unfolding is_among
AreNew-snoc y [] keys h n = tt
AreNew-snoc y (x ∷ xs) keys h (n, rest) = (
  ground (arith, is_among-snoc x y keys, eq_iff x y, eq_iff y x),
  AreNew-snoc y xs keys (ground arith) rest,
)

AreNew-nil : (xs : List String) → AreNew xs []
unfolding is_among
AreNew-nil [] = tt
AreNew-nil (x ∷ xs) = (refl, AreNew-nil xs)

validated-distinct :
    (is_space : ℕ → Bool) (cs ds : List ConnectorInstanceConfig)
    → validate_unique_instance_ids is_space cs ≡ some ds
    → are_distinct (set_ids ds) ≡ true
validated-distinct is_space cs ds h =
    let spec = validate_unique_instance_ids-lem is_space cs in
    elim (Bool-cases (none_blank is_space cs && are_distinct (ids_from 0 cs))) [
      | inl accepted ↦
          let same : ds ≡ with_ids 0 cs = ground (arith, spec, accepted, h) in
          let distinct : are_distinct (ids_from 0 cs) ≡ true = ground (arith, accepted) in
          ap are_distinct (ap set_ids same ∙ set_ids-with_ids 0 cs) ∙ distinct
      | inr no_ids ↦ absurd (ground (arith, spec, no_ids, h))
    ]

-- What is built: the instances and the intervals have the ids, and each interval is one.
record IsBuilt (chosen : List String) (keys : List String) (scheduled : List String)
    (built : Supervisor × Scheduler) : Type 0 where
  pub instances : ids built.0.instances ≡ keys ++ chosen
  pub schedules : ids built.1.schedules ≡ scheduled ++ chosen
  pub intervals : All HasInterval built.1.schedules

module _ (t : Unicode) (packages : Packages) where
  add_connector-IsBuilt :
      (id : String) (c : ConnectorInstanceConfig) (s : Supervisor) (r : Scheduler)
      (built : Supervisor × Scheduler)
      → add_connector t packages id c (s, r) ≡ some built
      → is_among id (ids s.instances) ≡ false
      → All HasInterval r.schedules
      → IsBuilt (id ∷ []) (ids s.instances) (ids r.schedules) built
  unfolding add_connector add_instance
  add_connector-IsBuilt id c s r built h new all =
      elim (Option-cases (register t id (codes c.schedule) r)) [
        | inl e ↦ absurd (ground (arith, e))
        | inr (r', e) ↦
            let (all', named) = register-step t id (codes c.schedule) r r' e all in
            let s' = record s { instances = insert id new_instance s.instances } in
            let same : (s', r') ≡ built = ground (arith, e) in
            subst (IsBuilt (id ∷ []) (ids s.instances) (ids r.schedules)) same (record {
              instances = ids-insert id new_instance s.instances new;
              schedules = named;
              intervals = all';
            })
      ]

  IsBuilt-cons :
      (id : String) (chosen keys scheduled : List String) (built' built : Supervisor × Scheduler)
      → IsBuilt (id ∷ []) keys scheduled built'
      → IsBuilt chosen (ids built'.0.instances) (ids built'.1.schedules) built
      → IsBuilt (id ∷ chosen) keys scheduled built
  IsBuilt-cons id chosen keys scheduled built' built a b = record {
    instances =
        b.instances ∙ ap (λ l. l ++ chosen) a.instances ∙ append_assoc keys (id ∷ []) chosen;
    schedules =
        b.schedules ∙ ap (λ l. l ++ chosen) a.schedules ∙ append_assoc scheduled (id ∷ []) chosen;
    intervals = b.intervals;
  }

  -- One round: `b` is whether the connector is chosen, and `o` its id.
  add_one-IsBuilt :
      (c : ConnectorInstanceConfig) (cs : List ConnectorInstanceConfig) (s : Supervisor)
      (r : Scheduler) (built : Supervisor × Scheduler) (b : Bool) (o : Option String)
      → (if b
          then elim o [
            | none ↦ add_connectors t packages cs (s, r)
            | some id ↦ elim (add_connector t packages id c (s, r)) [
              | none ↦ none
              | some built' ↦ add_connectors t packages cs built'
            ]
          ]
          else add_connectors t packages cs (s, r))
        ≡ some built
      → are_distinct (elim o [ none ↦ set_ids cs | some id ↦ id ∷ set_ids cs ]) ≡ true
      → AreNew (elim o [ none ↦ set_ids cs | some id ↦ id ∷ set_ids cs ]) (ids s.instances)
      → All HasInterval r.schedules
      → ((s' : Supervisor) (r' : Scheduler) (built'' : Supervisor × Scheduler)
          → add_connectors t packages cs (s', r') ≡ some built''
          → are_distinct (set_ids cs) ≡ true
          → AreNew (set_ids cs) (ids s'.instances)
          → All HasInterval r'.schedules
          → IsBuilt (chosen_ids t packages cs) (ids s'.instances) (ids r'.schedules) built'')
      → IsBuilt
          (if b
            then elim o [
              | none ↦ chosen_ids t packages cs
              | some id ↦ id ∷ chosen_ids t packages cs
            ]
            else chosen_ids t packages cs)
          (ids s.instances)
          (ids r.schedules)
          built
  unfolding are_distinct
  add_one-IsBuilt c cs s r built true none h d n all rec = rec s r built h d n all
  add_one-IsBuilt c cs s r built false none h d n all rec = rec s r built h d n all
  add_one-IsBuilt c cs s r built false (some id) h d n all rec =
      rec s r built h (ground arith) n.1 all
  add_one-IsBuilt c cs s r built true (some id) h d n all rec =
      elim (Option-cases (add_connector t packages id c (s, r))) [
        | inl e ↦ absurd (ground (arith, e))
        | inr ((s', r'), e) ↦
            let first' = add_connector-IsBuilt id c s r (s', r') e n.0 all in
            IsBuilt-cons id (chosen_ids t packages cs) (ids s.instances) (ids r.schedules) (s', r')
              built first'
              (rec s' r' built (ground (arith, e)) (ground arith)
                (subst (AreNew (set_ids cs)) (sym first'.instances)
                  (AreNew-snoc id (set_ids cs) (ids s.instances) (ground arith) n.1))
                first'.intervals)
      ]

  add_connectors-IsBuilt :
      (cs : List ConnectorInstanceConfig) (s : Supervisor) (r : Scheduler)
      (built : Supervisor × Scheduler)
      → add_connectors t packages cs (s, r) ≡ some built
      → are_distinct (set_ids cs) ≡ true
      → AreNew (set_ids cs) (ids s.instances)
      → All HasInterval r.schedules
      → IsBuilt (chosen_ids t packages cs) (ids s.instances) (ids r.schedules) built
  unfolding add_connectors chosen_ids set_ids are_distinct
  add_connectors-IsBuilt [] s r built h d n all =
      let same : (s, r) ≡ built = ground arith in
      subst (IsBuilt [] (ids s.instances) (ids r.schedules)) same (record {
        instances = sym (append-nil (ids s.instances));
        schedules = sym (append-nil (ids r.schedules));
        intervals = all;
      })
  add_connectors-IsBuilt (c ∷ cs) s r built h d n all =
      add_one-IsBuilt c cs s r built (is_chosen t packages c) c.id h d n all
        (add_connectors-IsBuilt cs)

  -- If a configuration was validated and the start-up does not raise, then the supervisor holds one
  -- instance under the id of each connector that is enabled, can be loaded and has a valid
  -- configuration, in the order of the file and no other; and the scheduler, once started, runs one
  -- loop for each of these, with an interval of at least a second that a `timedelta` holds.
  pub build_supervisor_and_scheduler-lem :
      (is_space : ℕ → Bool) (cs ds : List ConnectorInstanceConfig) (supervisor : Supervisor)
      (scheduler : Scheduler)
      → validate_unique_instance_ids is_space cs ≡ some ds
      → build_supervisor_and_scheduler t packages ds ≡ some (supervisor, scheduler)
      → (ids supervisor.instances ≡ chosen_ids t packages ds)
        × (ids (Schedule.start scheduler).tasks ≡ chosen_ids t packages ds)
        × All HasInterval (Schedule.start scheduler).tasks
  unfolding build_supervisor_and_scheduler Schedule.start
  build_supervisor_and_scheduler-lem is_space cs ds supervisor scheduler h g =
      let done =
        add_connectors-IsBuilt ds (new_supervisor (some 30)) new_scheduler (supervisor, scheduler) g
          (validated-distinct is_space cs ds h) (AreNew-nil (set_ids ds)) tt in
      (done.instances, done.schedules, done.intervals)
