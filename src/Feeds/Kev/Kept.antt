-- ===== src/Feeds/Kev/Kept.antt =====
-- What the KEV connector keeps for its next fetch (src/prow/connectors/kev/connector.py).
use prow_cti.Feeds.Fetch.{
  ContextCall, Feed, FetchFailure, HttpAnswer, build_objects, call_failed, done, emit_call,
  feed_format_error, keeps_state, make_calls, perform_fetch, raising,
}
use prow_cti.Feeds.Fetch.Steps.{bind-done, done_injective, kept-done, otherwise-done}
use prow_cti.Feeds.Http.{FeedResult, modified, not_modified, parse_feed_json, read_feed}
use prow_cti.Feeds.Kev.{
  extract_vulnerabilities, fetch, fetch_modified, final_calls, objects_for_entry,
}
use prow_cti.Feeds.Kev.Delivered.{Covers, build_objects-Covers}
use prow_cti.Json.{Fields, Json}
use prow_cti.Prelude.{
  Bool, Bool-cases, List, Option, String, [], ap, if◌then◌else◌, inl, inr, none, refl, some, sym,
  true, ◌==◌, ◌∙◌, ◌∷◌, ◌≡◌, ◌⊎◌,
}
use prow_cti.Stix.Helpers.{StixLib, bundle}
use prow_cti.Stix.Objects.{Bundle, Identity, StixObject, identity_object}

module _ {Body : Type 0} (lib : StixLib) (source : Feed Body) (me : Identity) where
  -- A bundle with the identity and the objects of every entry of a body.
  pub record IsSent (body : Body) (b : Bundle) : Type 0 where
    pub feed : Fields
    pub entries : List Fields
    pub objects : List StixObject
    pub is_feed : parse_feed_json source body ≡ done feed
    pub are_entries : extract_vulnerabilities lib source feed ≡ done entries
    pub is_bundle : b.objects ≡ identity_object me ∷ objects
    pub covers : Covers entries objects

  -- What a fetch plans: nothing, or a bundle with all entries first.
  abbrev IsPlan : Body → List ContextCall → Type 0
  IsPlan body calls' =
      (calls' ≡ [])
      ⊎ ((b : Bundle) × (rest : List ContextCall) × (calls' ≡ emit_call b ∷ rest) × IsSent body b)

  fetch_modified-IsPlan :
      (now : Json) (body : Body) (etag modified_at : Option String) (planned : List ContextCall)
      → fetch_modified lib source me now body etag modified_at ≡ done planned
      → IsPlan body planned
  unfolding fetch_modified bundle
  fetch_modified-IsPlan now body etag at planned h =
      let (feed, is_feed, h1) = bind-done (parse_feed_json source body) _ planned h in
      let (entries, are_entries, h2) =
        bind-done (extract_vulnerabilities lib source feed) _ planned h1 in
      let (built, is_built, h3) =
        bind-done (build_objects (objects_for_entry lib source me) source.is_cancelled 0 entries) _
          planned h2 in
      by_build feed is_feed entries are_entries built is_built h3
    where
      by_build :
          (feed : Fields)
          → parse_feed_json source body ≡ done feed
          → (entries : List Fields) → extract_vulnerabilities lib source feed ≡ done entries
          → (built : Option (List StixObject))
          → build_objects (objects_for_entry lib source me) source.is_cancelled 0 entries
            ≡ done built
          → elim built [
            | none ↦ done []
            | some objects ↦ final_calls lib source now etag at (identity_object me ∷ objects)
          ]
            ≡ done planned
          → IsPlan body planned
      by_build feed p entries q none r h = inl (sym (done_injective h))
      by_build feed p entries q (some objects) r h = inr (
        _,
        _,
        sym (done_injective h),
        record {
          feed = feed;
          entries = entries;
          objects = objects;
          is_feed = p;
          are_entries = q;
          is_bundle = refl;
          covers = build_objects-Covers lib source me entries 0 objects r;
        },
      )

  -- A run that keeps state had its bundle emitted first, and the emit did not raise.
  perform_fetch-Kept :
      (accepts : ContextCall → Bool) (b : Bundle) (rest : List ContextCall)
      → keeps_state (perform_fetch accepts (done (emit_call b ∷ rest))).0 ≡ true
      → (accepts (emit_call b) ≡ true)
        × (others : List ContextCall) × ((perform_fetch accepts (done (emit_call b ∷ rest))).0
            ≡ emit_call b ∷ others)
  unfolding perform_fetch make_calls
  perform_fetch-Kept accepts b rest h = elim (Bool-cases (accepts (emit_call b))) [
    | inl e ↦ (e, (make_calls accepts rest).0, rw e refl)
    | inr e ↦ absurd (cc (sym (ap (λ a. keeps_state (refused_or_made a).0) e) ∙ h))
  ]
    where
      refused_or_made : Bool → List ContextCall × Option FetchFailure
      refused_or_made a =
          let (made, problem) = make_calls accepts rest in
          if a then (emit_call b ∷ made, problem) else (emit_call b ∷ [], some call_failed)

  -- A bundle came first, and its emit did not raise.
  abbrev pub Kept :
      (String → List (String × String) → HttpAnswer Body)
      → String
      → Option Json
      → Option Json
      → (ContextCall → Bool)
      → List ContextCall
      → Type 0
  Kept client url etag at accepts made =
      (body : Body) × (new_etag new_at : Option String) × (b : Bundle) × (rest : List ContextCall)
      × (read_feed source client url etag at ≡ done (modified body new_etag new_at))
      × (made ≡ emit_call b ∷ rest)
      × (accepts (emit_call b) ≡ true)
      × IsSent body b

  planned-Kept :
      (client : String → List (String × String) → HttpAnswer Body) (url : String)
      (etag at : Option Json) (accepts : ContextCall → Bool) (body : Body)
      (new_etag new_at : Option String) (planned : List ContextCall)
      → read_feed source client url etag at ≡ done (modified body new_etag new_at)
      → IsPlan body planned
      → keeps_state (perform_fetch accepts (done planned)).0 ≡ true
      → Kept client url etag at accepts (perform_fetch accepts (done planned)).0
  unfolding perform_fetch make_calls
  planned-Kept client url etag at accepts body e l planned r (inl none_planned) h =
      absurd (cc (sym (ap (λ p. keeps_state (make_calls accepts p).0) none_planned) ∙ h))
  planned-Kept client url etag at accepts body e l planned r (inr (b, rest, q, delivered)) h =
      let (accepted, _, made) =
        perform_fetch-Kept accepts b rest
          (sym (ap (λ p. keeps_state (perform_fetch accepts (done p)).0) q) ∙ h) in
      (
        body,
        e,
        l,
        b,
        _,
        r,
        ap (λ p. (perform_fetch accepts (done p)).0) q ∙ made,
        accepted,
        delivered,
      )

  result-Kept :
      (client : String → List (String × String) → HttpAnswer Body) (url : String)
      (etag at : Option Json) (now : Json) (accepts : ContextCall → Bool) (result : FeedResult Body)
      (planned : List ContextCall)
      → read_feed source client url etag at ≡ done result
      → elim result [
        | not_modified ↦ done []
        | modified body new_etag new_at ↦ fetch_modified lib source me now body new_etag new_at
      ]
        ≡ done planned
      → keeps_state (perform_fetch accepts (done planned)).0 ≡ true
      → Kept client url etag at accepts (perform_fetch accepts (done planned)).0
  unfolding perform_fetch make_calls
  result-Kept client url etag at now accepts not_modified planned r q h =
      absurd (cc (ap (λ p. keeps_state (make_calls accepts p).0) (done_injective q) ∙ h))
  result-Kept client url etag at now accepts (modified body e l) planned r q h =
      planned-Kept client url etag at accepts body e l planned r
        (fetch_modified-IsPlan now body e l planned q) h

  -- State is kept only after an emit: if a fetch of the KEV connector keeps any state, an `ETag` or a
  -- date of the feed included, then it read a feed that was modified, and the first call that it made
  -- was to emit a bundle with the identity and the three objects of each entry of that feed, in their
  -- order, and that call did not raise (which says nothing of single objects that its acknowledgement
  -- reports as not valid).
  pub fetch-Kept :
      (client_get : String → List (String × String) → HttpAnswer Body) (feed_url : String)
      (etag last_modified : Option Json) (now : Json) (accepts : ContextCall → Bool)
      → keeps_state
          (perform_fetch accepts
            (fetch lib source (some me) (some client_get) feed_url etag last_modified now)).0
        ≡ true
      → Kept client_get feed_url etag last_modified accepts
          (perform_fetch accepts
            (fetch lib source (some me) (some client_get) feed_url etag last_modified now)).0
  unfolding fetch
  fetch-Kept client url etag at now accepts h =
      let (planned, q) = kept-done accepts _ h in
      let (result, r, q') =
        bind-done
          (if url == "" then raising feed_format_error else read_feed source client url etag at) _
          planned q in
      rw q (
        result-Kept client url etag at now accepts result planned
          (otherwise-done (url == "") _ result r) q'
          (sym (ap (λ m. keeps_state (perform_fetch accepts m).0) q) ∙ h))
