-- ===== src/Feeds/Fetch/Steps.antt =====
-- The steps of a fetch, one by one (src/prow/connectors).
use prow_cti.Feeds.Fetch.{
  ContextCall, FetchFailure, Fetched, build_objects, done, extend, feed_format_error, keeps_state,
  or_raise, perform_fetch, raising, ◌>>=◌,
}
use prow_cti.Json.{Fields}
use prow_cti.Prelude.{
  Bool, List, Option, [], ap, false, if◌then◌else◌, none, refl, some, suc, true, ℕ, ◌++◌, ◌∙◌, ◌∷◌,
  ◌≡◌,
}
use prow_cti.Stix.Objects.{StixObject}
use mathlib.Core.Option.{some-injective}

abbrev done_or {ℓ} : {A : Type ℓ} → A → Fetched A → A
done_or a (done b) = b
done_or a (raising e) = a

abbrev is_done {ℓ} : {A : Type ℓ} → Fetched A → Bool
is_done (done a) = true
is_done (raising e) = false

pub done_injective {ℓ} : {A : Type ℓ} {a b : A} → done a ≡ done b → a ≡ b
done_injective {a = a} e = ap (done_or a) e

pub raising-done {ℓ κ} :
    {A : Type ℓ} {C : Type κ} {e : FetchFailure} {a : A} → raising e ≡ done a → C
raising-done {A = A} e = absurd (cc e)

-- What is done in two steps has its first one done.
pub bind-done {ℓ κ} :
    {A : Type ℓ} {B : Type κ} (m : Fetched A) (f : A → Fetched B) (b : B)
    → m >>= f ≡ done b
    → (a : A) × (m ≡ done a) × (f a ≡ done b)
bind-done (done a) f b e = (a, refl, e)
bind-done (raising x) f b e = raising-done e

-- What raises in its second step raises.
pub bind-raising {ℓ κ} :
    {A : Type ℓ} {B : Type κ} (m : Fetched A) (f : A → Fetched B)
    → ((a : A) → (x : FetchFailure) × (f a ≡ raising x))
    → (x : FetchFailure) × (m >>= f ≡ raising x)
bind-raising (done a) f bad = bad a
bind-raising (raising x) f bad = (x, refl)

pub bind-raises {ℓ κ} :
    {A : Type ℓ} {B : Type κ} (m : Fetched A) (f : A → Fetched B)
    → ((x : FetchFailure) × (m ≡ raising x))
    → (x : FetchFailure) × (m >>= f ≡ raising x)
bind-raises m f (x, e) = (x, ap (λ n. n >>= f) e)

-- An entry that raises makes the loop raise, wherever it stands.
pub build_objects-raising :
    (make : ℕ → Fields → Fetched (List StixObject)) (is_cancelled : ℕ → Bool) (e : Fields)
    → ((i : ℕ) → is_cancelled i ≡ false)
    → ((i : ℕ) → (x : FetchFailure) × (make i e ≡ raising x))
    → (pre post : List Fields) (i : ℕ)
    → (x : FetchFailure) × (build_objects make is_cancelled i (pre ++ e ∷ post) ≡ raising x)
unfolding build_objects
build_objects-raising make c e free bad [] post i = rw (free i) (bind-raises (make i e) _ (bad i))
build_objects-raising make c e free bad (d ∷ pre) post i = rw (free i) (
    bind-raising (make i d) _
      (λ os. bind-raises _ _ (build_objects-raising make c e free bad pre post (suc i))))

extend-some :
    (first os : List StixObject) (more : Option (List StixObject))
    → extend first more ≡ some os
    → (rest : List StixObject) × (more ≡ some rest) × (first ++ rest ≡ os)
extend-some first os none h = absurd (cc h)
extend-some first os (some rest) h = (rest, refl, some-injective _ _ h)

-- A loop that comes to its end has made the objects of its first entry and of the others.
pub build_objects-cons :
    (make : ℕ → Fields → Fetched (List StixObject)) (is_cancelled : ℕ → Bool) (e : Fields)
    (es : List Fields) (i : ℕ) (os : List StixObject)
    → build_objects make is_cancelled i (e ∷ es) ≡ done (some os)
    → (first more : List StixObject) × (make i e ≡ done first)
      × (build_objects make is_cancelled (suc i) es ≡ done (some more))
      × (first ++ more ≡ os)
unfolding build_objects
build_objects-cons make c e es i os h = by_flag (c i) h
  where
    by_flag :
        (b : Bool)
        → (if b
            then done none
            else (make i e >>= λ os'.
                build_objects make c (suc i) es >>= λ more. done (extend os' more)))
          ≡ done (some os)
        → (first more : List StixObject) × (make i e ≡ done first)
          × (build_objects make c (suc i) es ≡ done (some more))
          × (first ++ more ≡ os)
    by_flag true h = absurd (cc (done_injective h))
    by_flag false h =
        let (first, q, h') = bind-done (make i e) _ (some os) h in
        let (rest, q', h'') = bind-done (build_objects make c (suc i) es) _ (some os) h' in
        let (more, e', joined) = extend-some first os rest (done_injective h'') in
        (first, more, q, q' ∙ ap done e', joined)

-- What is done in its first step, and then in its second, is done.
pub bind-total {ℓ κ} :
    {A : Type ℓ} {B : Type κ} (m : Fetched A) (f : A → Fetched B) (a : A)
    → m ≡ done a
    → (b : B) × (f a ≡ done b)
    → (b : B) × (m >>= f ≡ done b)
bind-total m f a q (b, r) = (b, ap (λ n. n >>= f) q ∙ r)

pub or_raise-done {ℓ} :
    {A : Type ℓ} (x : FetchFailure) (o : Option A) (a : A) → or_raise x o ≡ done a → o ≡ some a
or_raise-done x none a h = raising-done h
or_raise-done x (some b) a h = ap some (done_injective h)

-- A fetch that keeps state has planned its calls.
pub kept-done :
    (accepts : ContextCall → Bool) (m : Fetched (List ContextCall))
    → keeps_state (perform_fetch accepts m).0 ≡ true
    → (planned : List ContextCall) × (m ≡ done planned)
unfolding perform_fetch
kept-done accepts (done planned) h = (planned, refl)
kept-done accepts (raising x) h = absurd (cc h)

pub otherwise-done {ℓ} :
    {A : Type ℓ} (b : Bool) (m : Fetched A) (a : A)
    → (if b then raising feed_format_error else m) ≡ done a
    → m ≡ done a
otherwise-done true m a h = raising-done h
otherwise-done false m a h = h
