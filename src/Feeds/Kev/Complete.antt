-- ===== src/Feeds/Kev/Complete.antt =====
-- The whole feed is emitted (src/prow/connectors/kev/connector.py).
use prow_cti.Db.StixFields.{Timestamp}
use prow_cti.Feeds.Fetch.{
  ContextCall, Feed, HttpAnswer, build_objects, done, emit_call, make_calls, perform_fetch,
  set_state_call,
}
use prow_cti.Feeds.Fetch.Steps.{bind-total}
use prow_cti.Feeds.Http.{modified, parse_feed_json, read_feed, set_if}
use prow_cti.Feeds.Kev.{
  build_indicator, build_relationship, build_vulnerability, cve_and_date, extract_vulnerabilities,
  fetch, fetch_modified, objects_for_entry,
}
use prow_cti.Feeds.Kev.Delivered.{Covers, build_objects-Covers}
use prow_cti.Json.{Fields, Json}
use prow_cti.Prelude.{
  All, Bool, List, Option, String, [], false, none, refl, some, suc, true, ℕ, ◌*◌, ◌++◌, ◌+◌, ◌==◌,
  ◌∷◌, ◌≡◌,
}
use prow_cti.Stix.Helpers.{StixLib, bundle, fresh_id, indicator, relationship}
use prow_cti.Stix.Objects.{Bundle, Identity, StixObject, identity_object}

module _ {Body : Type 0} (lib : StixLib) (source : Feed Body) where
  -- An entry with a name and a date that can be read.
  abbrev pub IsUsable : Fields → Type 0
  IsUsable e = (found : String × Timestamp) × (cve_and_date lib source e ≡ done found)

  module _ (me : Identity) where
    objects_for_entry-total :
        (i : ℕ) (e : Fields)
        → IsUsable e
        → (os : List StixObject) × (objects_for_entry lib source me i e ≡ done os)
    unfolding objects_for_entry build_vulnerability build_indicator build_relationship indicator
        relationship
    objects_for_entry-total i e (found, q) =
        let (v, hv) = bind-total (cve_and_date lib source e) _ found q (_, refl) in
        let (ind, hi) = bind-total (cve_and_date lib source e) _ found q (_, refl) in
        bind-total (build_vulnerability lib source me (3 * i + 1) e) _ v hv
          (bind-total (build_indicator lib source me (3 * i + 2) e) _ ind hi (_, refl))

    build_objects-total :
        (es : List Fields) (i : ℕ)
        → All IsUsable es
        → ((j : ℕ) → source.is_cancelled j ≡ false)
        → (os : List StixObject) × (build_objects
              (objects_for_entry lib source me)
              source.is_cancelled
              i
              es
            ≡ done (some os))
    unfolding build_objects
    build_objects-total [] i usable free = ([], refl)
    build_objects-total (e ∷ es) i (u, us) free =
        let (os, q) = objects_for_entry-total i e u in
        let (more, r) = build_objects-total es (suc i) us free in
        (os ++ more, rw (free i, q, r) refl)

    make_calls-all :
        (accepts : ContextCall → Bool)
        → ((c : ContextCall) → accepts c ≡ true)
        → (cs : List ContextCall) → make_calls accepts cs ≡ (cs, none)
    unfolding make_calls
    make_calls-all accepts all [] = refl
    make_calls-all accepts all (c ∷ cs) = rw (all c, make_calls-all accepts all cs) refl

    -- A KEV feed that was modified and whose entries have names and dates that can be read is
    -- emitted whole: if the connector is not cancelled and no call of the context raises, the fetch
    -- raises nothing, and emits one bundle, with the identity and the objects of every entry in their
    -- order; then it keeps what the next request is made with, and the time.
    pub fetch_complete :
        (client_get : String → List (String × String) → HttpAnswer Body) (feed_url : String)
        (etag last_modified : Option Json) (now : Json) (accepts : ContextCall → Bool) (body : Body)
        (new_etag new_last_modified : Option String) (feed : Fields) (entries : List Fields)
        → (feed_url == "") ≡ false
        → read_feed source client_get feed_url etag last_modified
          ≡ done (modified body new_etag new_last_modified)
        → parse_feed_json source body ≡ done feed
        → extract_vulnerabilities lib source feed ≡ done entries
        → All IsUsable entries
        → ((i : ℕ) → source.is_cancelled i ≡ false)
        → ((c : ContextCall) → accepts c ≡ true)
        → (b : Bundle) × (objects : List StixObject) × (perform_fetch accepts
              (fetch lib source (some me) (some client_get) feed_url etag last_modified now)
            ≡ (
              emit_call b
                  ∷ set_if "etag" new_etag (
                      set_if "last_modified" new_last_modified
                        (set_state_call "last_successful_fetch" now ∷ [])),
              none,
            ))
          × (b.objects ≡ identity_object me ∷ objects)
          × Covers entries objects
    unfolding fetch fetch_modified perform_fetch bundle
    fetch_complete client url etag at now accepts body e l feed entries named read is_feed listed
          usable free all =
        let (os, built) = build_objects-total entries 0 usable free in
        (
          record { id = fresh_id lib "bundle" 0; objects = identity_object me ∷ os },
          os,
          rw (named, read, is_feed, listed, built) (make_calls-all accepts all _),
          refl,
          build_objects-Covers lib source me entries 0 os built,
        )
