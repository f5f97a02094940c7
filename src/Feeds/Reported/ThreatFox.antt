-- ===== src/Feeds/Reported/ThreatFox.antt =====
-- What the ThreatFox connector reports (src/prow/connectors/threatfox/connector.py).
use prow_cti.Feeds.AbuseCh.{
  date_under, family_objects, feed_indicator, first_chars, plain_relationship,
}
use prow_cti.Feeds.Fetch.{Feed, Fetched, done, feed_format_error, filled, or_raise, text_of}
use prow_cti.Feeds.Fetch.Steps.{bind-done, done_injective, raising-done}
use prow_cti.Feeds.Reported.{IsComparison, IsReported, objects-IsReported, property_of}
use prow_cti.Feeds.ThreatFox.{build_observable, confidence_of, indicator_pattern, objects_for_ioc}
use prow_cti.Json.{Fields, get}
use prow_cti.Prelude.{
  Bool, List, String, ap, false, if◌then◌else◌, refl, sym, true, ℕ, ◌*◌, ◌+◌, ◌==◌, ◌∙◌, ◌≡◌,
}
use prow_cti.Prelude.Text.{concat}
use prow_cti.Stix.Helpers.{StixLib, file_observable, value_observable}
use prow_cti.Stix.Objects.{StixObject, ref_of}

-- An observable and a pattern that are made together.
abbrev Agree : Fetched StixObject → Fetched String → Type 0
Agree o p =
    (obs : StixObject) (pattern : String)
    → o ≡ done obs
    → p ≡ done pattern
    → IsComparison obs pattern

both_if :
    (b : Bool) (o o' : Fetched StixObject) (p p' : Fetched String)
    → Agree o p
    → Agree o' p'
    → Agree (if b then o else o') (if b then p else p')
both_if true o o' p p' h h' = h
both_if false o o' p p' h h' = h'

both_done :
    (obs : StixObject) (pattern : String)
    → IsComparison obs pattern
    → Agree (done obs) (done pattern)
both_done obs pattern h obs' pattern' e e' =
    let (path, value, q, c) = h in
    (path, value, ap property_of (sym (done_injective e)) ∙ q, sym (done_injective e') ∙ c)

module _ {Body : Type 0} (lib : StixLib) (source : Feed Body) where
  build_observable-Agree :
      (ty value : String)
      → Agree (build_observable lib source ty value) (indicator_pattern lib source ty value)
  unfolding build_observable indicator_pattern file_observable value_observable
  build_observable-Agree ty value =
      both_if (ty == "ip:port") _ _ _ _ (both_done _ _ (_, _, refl, refl)) (
        both_if (ty == "domain") _ _ _ _ (both_done _ _ (_, _, refl, refl)) (
          both_if (ty == "url") _ _ _ _ (both_done _ _ (_, _, refl, refl)) (
            both_if (ty == "sha256_hash") _ _ _ _ (both_done _ _ (_, _, refl, refl)) (
              both_if (ty == "md5_hash") _ _ _ _ (both_done _ _ (_, _, refl, refl))
                (λ obs p e e'. raising-done e)))))

  -- The entries of ThreatFox.
  pub objects_for_ioc-IsReported :
      (i : ℕ) (e : Fields) (os : List StixObject)
      → objects_for_ioc lib source i e ≡ done os
      → IsReported os
  unfolding objects_for_ioc
  objects_for_ioc-IsReported i e os h =
      let (value, _, h1) =
        bind-done (or_raise feed_format_error (filled source.strip (get e "ioc"))) _ os h in
      let (ty, _, h2) =
        bind-done (or_raise feed_format_error (text_of (get e "ioc_type"))) _ os h1 in
      let (at, _, h3) = bind-done (date_under source "first_seen" e) _ os h2 in
      let (obs, ho, h4) = bind-done (build_observable lib source ty value) _ os h3 in
      let (pattern, hp, h5) = bind-done (indicator_pattern lib source ty value) _ os h4 in
      let (ind, hi, h6) =
        bind-done
          (feed_indicator lib (4 * i + 1) (concat "ThreatFox IOC: " (first_chars 60 value)) pattern
            at (confidence_of (get e "confidence_level")))
          _ os h5 in
      let (rel, hr, h7) =
        bind-done (plain_relationship lib (4 * i + 2) ind.common.id "based-on" (ref_of obs)) _ os
          h6 in
      let (family, _, h8) =
        bind-done (family_objects lib source.strip (4 * i + 3) ind (get e "malware_printable")) _ os
          h7 in
      rw (sym (done_injective h8)) (
        objects-IsReported lib _ _ _ pattern at _ obs ind rel family
          (build_observable-Agree ty value obs pattern ho hp) hi hr)
