-- ===== src/Feeds/Kev/Tests.antt =====
-- A run of the KEV connector (src/prow/connectors/kev/connector.py).
use prow_cti.Feeds.Fetch.{
  ContextCall, HttpAnswer, array_under, build_objects, done, emit_call, entries_of, keeps_state,
  make_calls, perform_fetch, response, set_state_call,
}
use prow_cti.Feeds.Http.{http_get_feed, modified, parse_feed_json, read_feed, set_if}
use prow_cti.Feeds.Kev.{
  build_identity, build_indicator, build_relationship, build_vulnerability, cve_and_date,
  extract_vulnerabilities, fetch, fetch_modified, objects_for_entry,
}
use prow_cti.Feeds.Kev.Complete.{fetch_complete}
use prow_cti.Feeds.Kev.Delivered.{Covers}
use prow_cti.Feeds.Kev.Kept.{Kept, fetch-Kept}
use prow_cti.Feeds.Tests.{kev_entry, kev_feed, library, source}
use prow_cti.Json.{Fields, get, null}
use prow_cti.Prelude.{Bool, List, String, [], if◌then◌else◌, none, refl, some, true, ◌==◌, ◌∷◌, ◌≡◌}
use prow_cti.Stix.Helpers.{bundle, indicator, relationship}
use prow_cti.Stix.Objects.{Bundle, Identity, StixObject, identity_object}

abbrev me : Identity
me = build_identity library source 9

abbrev answers : String → List (String × String) → HttpAnswer Fields
answers url headers = response 200 kev_feed (λ name. if name == "ETag" then some "v1" else none)

abbrev accepts_all : ContextCall → Bool
accepts_all c = true

kev_calls :
    keeps_state
      (perform_fetch accepts_all
        (fetch library source (some me) (some answers) "https://feed" none none null)).0
    ≡ true
unfolding fetch perform_fetch make_calls http_get_feed fetch_modified get array_under entries_of
    build_objects objects_for_entry build_vulnerability build_indicator build_relationship indicator
    relationship bundle
kev_calls = refl

fetch-Kept_example :
    Kept library source me answers "https://feed" none none accepts_all
      (perform_fetch accepts_all
        (fetch library source (some me) (some answers) "https://feed" none none null)).0
fetch-Kept_example =
    fetch-Kept library source me answers "https://feed" none none null accepts_all kev_calls

kev_parts :
    (read_feed source answers "https://feed" none none ≡ done (modified kev_feed (some "v1") none))
    × (parse_feed_json source kev_feed ≡ done kev_feed)
    × (extract_vulnerabilities library source kev_feed ≡ done (kev_entry ∷ []))
    × (cve_and_date library source kev_entry ≡ done ("CVE-2024-1", 7))
unfolding http_get_feed get array_under entries_of
kev_parts = (refl, refl, refl, refl)

fetch_complete_example :
    (b : Bundle) × (objects : List StixObject) × (perform_fetch accepts_all
        (fetch library source (some me) (some answers) "https://feed" none none null)
      ≡ (
        emit_call b
            ∷ set_if "etag"
                (some "v1")
                (set_if "last_modified" none (set_state_call "last_successful_fetch" null ∷ [])),
        none,
      ))
    × (b.objects ≡ identity_object me ∷ objects)
    × Covers (kev_entry ∷ []) objects
fetch_complete_example =
    fetch_complete library source me answers "https://feed" none none null accepts_all kev_feed
      (some "v1") none kev_feed (kev_entry ∷ []) refl kev_parts.0 kev_parts.1 kev_parts.2
      ((("CVE-2024-1", 7), kev_parts.3), tt) (λ i. refl) (λ c. refl)
