-- ===== src/Feeds/Attack/Delivered.antt =====
-- What the ATT&CK connector delivers (src/prow/connectors/attack/connector.py).
use prow_cti.Feeds.Attack.{
  batch_calls, batches_of, emit_batch_size, extract_validated_objects, fetch, fetch_objects,
  validated_objects,
}
use prow_cti.Feeds.Attack.Batches.{
  IsSmall, batch_calls-IsSmall, batches_of-joined, batches_of-small, joined, make_calls-All,
  set_if-IsSmall,
}
use prow_cti.Feeds.Attack.Selected.{Selection, validated_objects-Selection}
use prow_cti.Feeds.Fetch.{
  ContextCall, Feed, HttpAnswer, done, emit_dict_call, feed_format_error, keeps_state, make_calls,
  perform_fetch, raising, set_state_call,
}
use prow_cti.Feeds.Fetch.Steps.{bind-done, done_injective, kept-done, otherwise-done, raising-done}
use prow_cti.Feeds.Http.{FeedResult, modified, not_modified, parse_feed_json, read_feed, set_if}
use prow_cti.Json.{Fields, Items, Json, arr, get, str}
use prow_cti.Prelude.{
  All, Bool, Bool-cases, List, Option, String, [], ap, arith, false, if◌then◌else◌, inl, inr,
  length, none, refl, some, suc, sym, true, ℕ, ◌++◌, ◌==◌, ◌∙◌, ◌∷◌, ◌≡◌,
}
use prow_cti.Stix.Helpers.{StixLib, fresh_id}
use prow_cti.Stix.Validate.{Schema}
use mathlib.Core.Path.{subst}

-- The objects of the bundles whose emit did not raise.
abbrev pub delivered : (ContextCall → Bool) → List ContextCall → List Fields
delivered accepts [] = []
delivered accepts (emit_dict_call id os ∷ cs) =
    if accepts (emit_dict_call id os) then os ++ delivered accepts cs else delivered accepts cs
delivered accepts (_ ∷ cs) = delivered accepts cs

state-delivered :
    (accepts : ContextCall → Bool) (key : String) (value : Json) (cs : List ContextCall)
    → delivered accepts (make_calls accepts cs).0 ≡ []
    → delivered accepts (make_calls accepts (set_state_call key value ∷ cs)).0 ≡ []
unfolding make_calls
state-delivered accepts key value cs h = elim (Bool-cases (accepts (set_state_call key value))) [
  | inl e ↦ rw e h
  | inr e ↦ rw e refl
]

set_if-delivered :
    (accepts : ContextCall → Bool) (key : String) (value : Option String) (cs : List ContextCall)
    → delivered accepts (make_calls accepts cs).0 ≡ []
    → delivered accepts (make_calls accepts (set_if key value cs)).0 ≡ []
set_if-delivered accepts key none cs h = h
set_if-delivered accepts key (some value) cs h = state-delivered accepts key (str value) cs h

emit-delivered :
    (accepts : ContextCall → Bool) (id : String) (b os : List Fields) (cs : List ContextCall)
    → (keeps_state (make_calls accepts cs).0 ≡ true
        → delivered accepts (make_calls accepts cs).0 ≡ os)
    → keeps_state (make_calls accepts (emit_dict_call id b ∷ cs)).0 ≡ true
    → delivered accepts (make_calls accepts (emit_dict_call id b ∷ cs)).0 ≡ b ++ os
unfolding make_calls
emit-delivered accepts id b os cs after h = elim (Bool-cases (accepts (emit_dict_call id b))) [
  | inl e ↦ let h' = rw e at h in rw e (rw e (ap (λ more. b ++ more) (after h')))
  | inr e ↦ let h' = rw e at h in absurd (cc h')
]

unless_cancelled :
    (accepts : ContextCall → Bool) (is_cancelled : Bool) (cs : List ContextCall) (os : List Fields)
    → (keeps_state (make_calls accepts cs).0 ≡ true
        → delivered accepts (make_calls accepts cs).0 ≡ os)
    → keeps_state (make_calls accepts (if is_cancelled then [] else cs)).0 ≡ true
    → delivered accepts (make_calls accepts (if is_cancelled then [] else cs)).0 ≡ os
unfolding make_calls
unless_cancelled accepts true cs os after h = absurd (cc h)
unless_cancelled accepts false cs os after h = after h

-- What is emitted before the state is kept is all that was to be emitted.
batch_calls-delivered :
    (lib : StixLib) (accepts : ContextCall → Bool) (c : ℕ → Bool) (final : List ContextCall)
    (bs : List (List Fields)) (i : ℕ)
    → delivered accepts (make_calls accepts final).0 ≡ []
    → keeps_state (make_calls accepts (batch_calls lib c i bs final)).0 ≡ true
    → delivered accepts (make_calls accepts (batch_calls lib c i bs final)).0 ≡ joined bs
unfolding batch_calls
batch_calls-delivered lib accepts c final [] i f h = f
batch_calls-delivered lib accepts c final (b ∷ bs) i f h =
    unless_cancelled accepts (c i) _ (b ++ joined bs)
      (emit-delivered accepts (fresh_id lib "bundle" i) b (joined bs)
        (batch_calls lib c (suc i) bs final)
        (batch_calls-delivered lib accepts c final bs (suc i) f))
      h

module _ {Body : Type 0} (lib : StixLib) (source : Feed Body) (schema : Schema) where
  -- What is extracted of a body is a selection of the objects of its feed.
  extract-Selection :
      (include : Bool) (body : Body) (os : List Fields)
      → extract_validated_objects lib source schema include body ≡ done os
      → (feed : Fields) × (listed : Items) × (parse_feed_json source body ≡ done feed)
        × (get feed "objects" ≡ some (arr listed))
        × Selection schema include listed os
  unfolding extract_validated_objects
  extract-Selection include body os h =
      let (feed, is_feed, h') = bind-done (parse_feed_json source body) _ os h in
      by_array feed is_feed (get feed "objects") refl h'
    where
      by_array :
          (feed : Fields)
          → parse_feed_json source body ≡ done feed
          → (found : Option Json) → get feed "objects" ≡ found
          → elim found [
            | some (arr listed) ↦ validated_objects schema include listed
            | _ ↦ raising feed_format_error
          ]
            ≡ done os
          → (feed : Fields) × (listed : Items) × (parse_feed_json source body ≡ done feed)
            × (get feed "objects" ≡ some (arr listed))
            × Selection schema include listed os
      by_array feed p (some (arr listed)) e h =
          (feed, listed, p, e, validated_objects-Selection schema include listed os h)
      by_array feed p _ e h = raising-done h

  -- A selection of the objects of a feed that was modified, in bundles whose emit did not raise.
  abbrev pub Delivered :
      (String → List (String × String) → HttpAnswer Body)
      → String
      → Bool
      → Option Json
      → Option Json
      → (ContextCall → Bool)
      → List ContextCall
      → Type 0
  Delivered client url include etag at accepts made =
      (body : Body) × (new_etag new_at : Option String) × (feed : Fields) × (listed : Items)
      × (read_feed source client url etag at ≡ done (modified body new_etag new_at))
      × (parse_feed_json source body ≡ done feed)
      × (get feed "objects" ≡ some (arr listed))
      × Selection schema include listed (delivered accepts made)
      × All IsSmall made

  result-Delivered :
      (client : String → List (String × String) → HttpAnswer Body) (url : String) (include : Bool)
      (etag at : Option Json) (now : Json) (accepts : ContextCall → Bool) (result : FeedResult Body)
      (planned : List ContextCall)
      → read_feed source client url etag at ≡ done result
      → elim result [
        | not_modified ↦ done []
        | modified body new_etag new_at ↦
            fetch_objects lib source schema include now body new_etag new_at
      ]
        ≡ done planned
      → keeps_state (perform_fetch accepts (done planned)).0 ≡ true
      → Delivered client url include etag at accepts (perform_fetch accepts (done planned)).0
  unfolding perform_fetch fetch_objects make_calls
  result-Delivered client url include etag at now accepts not_modified planned r q h =
      absurd (cc (ap (λ p. keeps_state (make_calls accepts p).0) (done_injective q) ∙ h))
  result-Delivered client url include etag at now accepts (modified body e l) planned r q h =
      let (os, extracted, q') =
        bind-done (extract_validated_objects lib source schema include body) _ planned q in
      let same = done_injective q' in
      let kept = ap (λ p. keeps_state (make_calls accepts p).0) same ∙ h in
      let all =
        batch_calls-delivered lib accepts source.is_cancelled _
          (batches_of (length os) emit_batch_size os) 0
          (set_if-delivered accepts "etag" e _ (
            set_if-delivered accepts "last_modified" l _
              (state-delivered accepts "last_successful_fetch" now [] refl)))
          kept in
      let (feed, listed, is_feed, is_array, selected) =
        extract-Selection include body os extracted in
      let same_objects =
        ap (λ p. delivered accepts (make_calls accepts p).0) (sym same)
        ∙ all
        ∙ batches_of-joined (length os) 499 os (omega arith) in
      (
        body,
        e,
        l,
        feed,
        listed,
        r,
        is_feed,
        is_array,
        subst (Selection schema include listed) (sym same_objects) selected,
        rw (sym same) (
            make_calls-All IsSmall accepts _ (
              batch_calls-IsSmall lib source.is_cancelled _
                (batches_of (length os) emit_batch_size os) 0 (batches_of-small (length os) 499 os)
                (set_if-IsSmall "etag" e _ (set_if-IsSmall "last_modified" l _ (tt, tt))))),
      )

  -- If a fetch of the ATT&CK connector keeps any state, then it read a feed that was modified, with an
  -- array of objects, and the objects of the bundles that it emitted without an error are, one after
  -- another, made of the items of that array, in their order: an item is left out only if it is
  -- deprecated or revoked while such are not asked for, or if it is not valid with its defaults and
  -- custom types allowed; for each other item there is an object, with what the item has under every
  -- key and otherwise the default of the specification's version and, for malware, of the family, and
  -- it is valid. No bundle holds more than a batch.
  pub fetch-Delivered :
      (client_get : String → List (String × String) → HttpAnswer Body) (stix_url : String)
      (include_deprecated : Bool) (etag last_modified : Option Json) (now : Json)
      (accepts : ContextCall → Bool)
      → keeps_state
          (perform_fetch accepts (
            fetch lib source schema
              (some client_get)
              stix_url
              include_deprecated
              etag
              last_modified
              now)).0
        ≡ true
      → Delivered client_get stix_url include_deprecated etag last_modified accepts
          (perform_fetch accepts (
            fetch lib source schema
              (some client_get)
              stix_url
              include_deprecated
              etag
              last_modified
              now)).0
  unfolding fetch
  fetch-Delivered client url include etag at now accepts h =
      let (planned, q) = kept-done accepts _ h in
      let (result, r, q') =
        bind-done
          (if url == "" then raising feed_format_error else read_feed source client url etag at) _
          planned q in
      rw q (
        result-Delivered client url include etag at now accepts result planned
          (otherwise-done (url == "") _ result r) q'
          (sym (ap (λ m. keeps_state (perform_fetch accepts m).0) q) ∙ h))
