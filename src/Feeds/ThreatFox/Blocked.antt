-- ===== src/Feeds/ThreatFox/Blocked.antt =====
-- An entry of a kind that the ThreatFox connector does not know
-- (src/prow/connectors/threatfox/connector.py).
use prow_cti.Feeds.AbuseCh.{date_under, extract_entries, load_object, read_body}
use prow_cti.Feeds.Fetch.{
  ContextCall, Feed, FetchFailure, HttpAnswer, done, feed_format_error, filled, or_raise,
  perform_fetch, raising,
}
use prow_cti.Feeds.Fetch.Steps.{bind-raises, bind-raising, build_objects-raising}
use prow_cti.Feeds.ThreatFox.{build_observable, days_asked, fetch, fetch_entries, objects_for_ioc}
use prow_cti.Json.{Fields, Json, get, str}
use prow_cti.Prelude.{
  Bool, List, Option, String, [], arith, false, some, ℕ, ◌++◌, ◌==◌, ◌||◌, ◌∷◌, ◌≡◌,
}
use prow_cti.Prelude.Int.{ℤ}
use prow_cti.Stix.Helpers.{StixLib}

-- The kinds of indicators that the connector knows.
abbrev pub is_known : String → Bool
is_known ty =
    ty == "ip:port" || ty == "domain" || ty == "url" || ty == "sha256_hash" || ty == "md5_hash"

module _ {Body : Type 0} (lib : StixLib) (source : Feed Body) where
  build_observable-raising :
      (ty value : String)
      → is_known ty ≡ false
      → (x : FetchFailure) × (build_observable lib source ty value ≡ raising x)
  unfolding build_observable
  build_observable-raising ty value h = (feed_format_error, ground (arith))

  objects_for_ioc-raising :
      (e : Fields) (ty : String)
      → get e "ioc_type" ≡ some (str ty)
      → is_known ty ≡ false
      → (i : ℕ) → (x : FetchFailure) × (objects_for_ioc lib source i e ≡ raising x)
  unfolding objects_for_ioc
  objects_for_ioc-raising e ty h unknown i =
      bind-raising (or_raise feed_format_error (filled source.strip (get e "ioc"))) _ (λ value.
        rw h (
          bind-raising (date_under source "first_seen" e) _ (λ at.
            bind-raises (build_observable lib source ty value) _
              (build_observable-raising ty value unknown))))

  fetch_entries-raising :
      (today now : Json) (pre post : List Fields) (e : Fields) (ty : String)
      → get e "ioc_type" ≡ some (str ty)
      → is_known ty ≡ false
      → ((i : ℕ) → source.is_cancelled i ≡ false)
      → (x : FetchFailure) × (fetch_entries lib source today now (pre ++ e ∷ post) ≡ raising x)
  unfolding fetch_entries
  fetch_entries-raising today now [] post e ty h unknown free = bind-raises _ _ (
      build_objects-raising (objects_for_ioc lib source) source.is_cancelled e free
        (objects_for_ioc-raising e ty h unknown) [] post 0)
  fetch_entries-raising today now (d ∷ pre) post e ty h unknown free = bind-raises _ _ (
      build_objects-raising (objects_for_ioc lib source) source.is_cancelled e free
        (objects_for_ioc-raising e ty h unknown) (d ∷ pre) post 0)

  -- One entry of a kind that the ThreatFox connector does not know blocks the whole feed: wherever it
  -- stands among the entries that were loaded, the fetch of a connector that is not cancelled raises
  -- before it has emitted anything of the others or kept any state.
  pub fetch-blocked :
      (accepts : ContextCall → Bool) (post_query : String → ℤ → HttpAnswer Body)
      (last_fetch : Option Json) (days_back : ℤ) (api_url : String) (today now : Json) (body : Body)
      (feed : Fields) (pre post : List Fields) (e : Fields) (ty : String)
      → read_body source api_url (post_query api_url (days_asked lib source last_fetch days_back))
        ≡ done body
      → load_object source body ≡ done feed
      → extract_entries source "data" feed ≡ done (pre ++ e ∷ post)
      → get e "ioc_type" ≡ some (str ty)
      → is_known ty ≡ false
      → ((i : ℕ) → source.is_cancelled i ≡ false)
      → (x : FetchFailure) × (perform_fetch accepts
            (fetch lib source (some post_query) last_fetch days_back api_url today now)
          ≡ ([], some x))
  unfolding fetch perform_fetch
  fetch-blocked accepts q last days url today now body feed pre post e ty r l x h unknown free =
      let (problem, stops) = fetch_entries-raising today now pre post e ty h unknown free in
      (problem, rw (r, l, x, stops))
