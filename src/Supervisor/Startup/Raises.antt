-- ===== src/Supervisor/Startup/Raises.antt =====
-- That one bad schedule stops the whole start-up (src/prow/api/connector_startup.py).
use prow_cti.Config.Schema.{ConnectorInstanceConfig}
use prow_cti.Prelude.{
  Bool, List, Option, String, [], ap, arith, false, fun_ext, if◌then◌else◌, none, refl, some, true,
  ◌++◌, ◌∷◌, ◌≡◌,
}
use prow_cti.Prelude.Text.{codes}
use prow_cti.Supervisor.Duration.{DurationResult, Unicode, parse_iso8601_duration, seconds}
use prow_cti.Supervisor.Fleet.{Supervisor, new_supervisor}
use prow_cti.Supervisor.Schedule.{Scheduler, new_scheduler, register}
use prow_cti.Supervisor.Startup.{
  Packages, add_connector, add_connectors, build_supervisor_and_scheduler, is_chosen,
}

-- The text is no duration.
abbrev pub is_refused : DurationResult → Bool
is_refused (seconds n) = false
is_refused _ = true

-- A round of the loop yields nothing where the rest of the loop never does.
then-none :
    {B : Type 0} (f : B → Option B) (o : Option B)
    → ((x : B) → f x ≡ none)
    → elim o [ none ↦ none | some x ↦ f x ] ≡ none
then-none f none h = refl
then-none f (some x) h = h x

round-none :
    {B : Type 0} (f : B → Option B) (x : B) (b : Bool) (o : Option String) (add : String → Option B)
    → ((y : B) → f y ≡ none)
    → (if b
        then elim o [ none ↦ f x | some id ↦ elim (add id) [ none ↦ none | some y ↦ f y ] ]
        else f x)
      ≡ none
round-none f x true none add h = h x
round-none f x true (some id) add h = then-none f (add id) h
round-none f x false o add h = h x

-- A round depends on the rest of the loop only by what it gives.
round-same :
    {B : Type 0} (f g : B → Option B) (x : B) (b : Bool) (o : Option String)
    (add : String → Option B)
    → ((y : B) → f y ≡ g y)
    → (if b
        then elim o [ none ↦ f x | some id ↦ elim (add id) [ none ↦ none | some y ↦ f y ] ]
        else f x)
      ≡ (if b
          then elim o [ none ↦ g x | some id ↦ elim (add id) [ none ↦ none | some y ↦ g y ] ]
          else g x)
round-same f g x b o add h =
    ap
      (λ r.
        if b
        then elim o [ none ↦ r x | some id ↦ elim (add id) [ none ↦ none | some y ↦ r y ] ]
        else r x)
      (fun_ext h)

module _ (t : Unicode) (packages : Packages) where
  add_connector-none :
      (id : String) (c : ConnectorInstanceConfig) (built : Supervisor × Scheduler)
      → is_refused (parse_iso8601_duration t (codes c.schedule)) ≡ true
      → add_connector t packages id c built ≡ none
  unfolding add_connector register
  add_connector-none id c (s, r) h = ground (arith, h)

  add_connectors-none :
      (before after : List ConnectorInstanceConfig) (c : ConnectorInstanceConfig) (id : String)
      (built : Supervisor × Scheduler)
      → is_chosen t packages c ≡ true
      → c.id ≡ some id
      → is_refused (parse_iso8601_duration t (codes c.schedule)) ≡ true
      → add_connectors t packages (before ++ c ∷ after) built ≡ none
  unfolding add_connectors
  add_connectors-none [] after c id built h e g =
      ground (arith, h, e, add_connector-none id c built g)
  add_connectors-none (b ∷ before) after c id built h e g =
      round-none (add_connectors t packages (before ++ c ∷ after)) built (is_chosen t packages b)
        b.id (λ id'. add_connector t packages id' b built)
        (λ built'. add_connectors-none before after c id built' h e g)

  add_connectors-skips :
      (before after : List ConnectorInstanceConfig) (d : ConnectorInstanceConfig)
      (built : Supervisor × Scheduler)
      → is_chosen t packages d ≡ false
      → add_connectors t packages (before ++ d ∷ after) built
        ≡ add_connectors t packages (before ++ after) built
  unfolding add_connectors
  add_connectors-skips [] after d built h = ground (arith, h)
  add_connectors-skips (b ∷ before) after d built h =
      round-same (add_connectors t packages (before ++ d ∷ after))
        (add_connectors t packages (before ++ after)) built (is_chosen t packages b) b.id
        (λ id. add_connector t packages id b built)
        (λ built'. add_connectors-skips before after d built' h)

  -- A connector that is enabled, can be loaded and has a valid configuration, but whose schedule is no
  -- duration, makes the start-up raise, whatever the connectors before and after it, so that none of
  -- them is started; a connector whose configuration is not valid is only left out: the start-up has
  -- the outcome that it has without it, whatever its schedule and the other connectors.
  pub build_supervisor_and_scheduler-raises :
      (before after : List ConnectorInstanceConfig) (c : ConnectorInstanceConfig) (id : String)
      → is_chosen t packages c ≡ true
      → c.id ≡ some id
      → is_refused (parse_iso8601_duration t (codes c.schedule)) ≡ true
      → (build_supervisor_and_scheduler t packages (before ++ c ∷ after) ≡ none)
        × ((others more : List ConnectorInstanceConfig) (d : ConnectorInstanceConfig)
            → packages.config_valid d.name d.config ≡ false
            → build_supervisor_and_scheduler t packages (others ++ d ∷ more)
              ≡ build_supervisor_and_scheduler t packages (others ++ more))
  unfolding build_supervisor_and_scheduler
  build_supervisor_and_scheduler-raises before after c id h e g = (
    add_connectors-none before after c id (new_supervisor (some 30), new_scheduler) h e g,
    λ others more d wrong.
        add_connectors-skips others more d (new_supervisor (some 30), new_scheduler)
          (ground (arith, wrong)),
  )
