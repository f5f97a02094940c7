-- ===== src/Feeds/Reported/UrlHaus.antt =====
-- What the URLhaus connector reports (src/prow/connectors/urlhaus/connector.py).
use prow_cti.Feeds.AbuseCh.{comparison, date_under, feed_indicator, plain_relationship}
use prow_cti.Feeds.Fetch.{Feed, done, feed_format_error, filled, or_raise}
use prow_cti.Feeds.Fetch.Steps.{bind-done, done_injective}
use prow_cti.Feeds.Reported.{IsReported, objects-IsReported}
use prow_cti.Feeds.UrlHaus.{display_url, objects_for_url, urlhaus_confidence}
use prow_cti.Json.{Fields, get}
use prow_cti.Prelude.{List, [], refl, sym, ℕ, ◌*◌, ◌+◌, ◌≡◌}
use prow_cti.Prelude.Int.{pos}
use prow_cti.Prelude.Text.{concat}
use prow_cti.Stix.Helpers.{StixLib, value_observable}
use prow_cti.Stix.Objects.{StixObject, ref_of}

module _ {Body : Type 0} (lib : StixLib) (source : Feed Body) where
  pub objects_for_url-IsReported :
      (i : ℕ) (e : Fields) (os : List StixObject)
      → objects_for_url lib source i e ≡ done os
      → IsReported os
  unfolding objects_for_url value_observable
  objects_for_url-IsReported i e os h =
      let (value, _, h1) =
        bind-done (or_raise feed_format_error (filled source.strip (get e "url"))) _ os h in
      let (at, _, h2) = bind-done (date_under source "date_added" e) _ os h1 in
      let (ind, hi, h3) =
        bind-done
          (feed_indicator lib (2 * i + 1) (concat "Malicious URL: " (display_url value))
            (comparison "url:value" value) at (pos urlhaus_confidence))
          _ os h2 in
      let (rel, hr, h4) =
        bind-done
          (plain_relationship lib (2 * i + 2) ind.common.id "based-on"
            (ref_of (value_observable lib "url" value)))
          _ os h3 in
      rw (sym (done_injective h4)) (
        objects-IsReported lib _ _ _ _ at _ (value_observable lib "url" value) ind rel []
          ("url:value", value, refl, refl) hi hr)
