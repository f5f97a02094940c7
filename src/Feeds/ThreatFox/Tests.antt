-- ===== src/Feeds/ThreatFox/Tests.antt =====
-- A run of the ThreatFox connector (src/prow/connectors/threatfox/connector.py).
use prow_cti.Feeds.AbuseCh.{extract_entries, load_object, read_body}
use prow_cti.Feeds.Fetch.{
  ContextCall, FetchFailure, HttpAnswer, array_under, done, entries_of, perform_fetch, response,
}
use prow_cti.Feeds.Tests.{fox_feed, ioc, library, source}
use prow_cti.Feeds.ThreatFox.{days_asked, fetch}
use prow_cti.Feeds.ThreatFox.Blocked.{fetch-blocked}
use prow_cti.Json.{Fields, get, null, str}
use prow_cti.Prelude.{Bool, String, [], none, refl, some, true, ◌∷◌, ◌≡◌}
use prow_cti.Prelude.Int.{pos, ℤ}

abbrev posts : String → ℤ → HttpAnswer Fields
posts url days = response 200 fox_feed (λ name. none)

abbrev accepts_all : ContextCall → Bool
accepts_all c = true

fox_parts :
    (read_body source "https://feed" (posts "https://feed" (days_asked library source none (pos 7)))
      ≡ done fox_feed)
    × (load_object source fox_feed ≡ done fox_feed)
    × (extract_entries source "data" fox_feed
        ≡ done (ioc "domain" "a.example" ∷ ioc "sha1_hash" "00" ∷ []))
    × (get (ioc "sha1_hash" "00") "ioc_type" ≡ some (str "sha1_hash"))
unfolding extract_entries get array_under entries_of
fox_parts = (refl, refl, refl, refl)

fetch-blocked_example :
    (x : FetchFailure) × (perform_fetch accepts_all
        (fetch library source (some posts) none (pos 7) "https://feed" null null)
      ≡ ([], some x))
fetch-blocked_example =
    fetch-blocked library source accepts_all posts none (pos 7) "https://feed" null null fox_feed
      fox_feed (ioc "domain" "a.example" ∷ []) [] (ioc "sha1_hash" "00") "sha1_hash" fox_parts.0
      fox_parts.1 fox_parts.2 fox_parts.3 refl (λ i. refl)
