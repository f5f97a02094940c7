-- ===== src/Feeds/Reported/Connectors.antt =====
-- The connectors of abuse.ch together (src/prow/connectors: threatfox, urlhaus and malwarebazaar).
use prow_cti.Feeds.Fetch.{Feed, Fetched, done}
use prow_cti.Feeds.MalwareBazaar.{objects_for_sample}
use prow_cti.Feeds.Reported.{IsReported}
use prow_cti.Feeds.Reported.MalwareBazaar.{objects_for_sample-IsReported}
use prow_cti.Feeds.Reported.ThreatFox.{objects_for_ioc-IsReported}
use prow_cti.Feeds.Reported.UrlHaus.{objects_for_url-IsReported}
use prow_cti.Feeds.ThreatFox.{objects_for_ioc}
use prow_cti.Feeds.UrlHaus.{objects_for_url}
use prow_cti.Json.{Fields}
use prow_cti.Prelude.{List, ℕ, ◌≡◌}
use prow_cti.Stix.Helpers.{StixLib}
use prow_cti.Stix.Objects.{StixObject}

-- The connectors of abuse.ch.
pub data AbuseChConnector : Type 0 where
  threatfox urlhaus malwarebazaar : AbuseChConnector

-- The objects that a connector makes of the entry at an index.
abbrev pub objects_of :
    {Body : Type 0}
    → AbuseChConnector
    → StixLib
    → Feed Body
    → ℕ
    → Fields
    → Fetched (List StixObject)
objects_of threatfox = objects_for_ioc
objects_of urlhaus = objects_for_url
objects_of malwarebazaar = objects_for_sample

-- An indicator is about its observable and nothing else, whatever an entry of a feed holds: if a connector
-- of abuse.ch makes objects of it, its pattern compares the property of the observable that it comes with
-- with a literal that the grammar of patterns reads as the value of that observable, quotes and
-- backslashes included, and that ends where the pattern ends; and the relationship between the two says
-- that the indicator is based on that observable.
pub objects_of-IsReported :
    {Body : Type 0} (connector : AbuseChConnector) (lib : StixLib) (source : Feed Body) (i : ℕ)
    (entry : Fields) (os : List StixObject)
    → objects_of connector lib source i entry ≡ done os
    → IsReported os
objects_of-IsReported threatfox lib source = objects_for_ioc-IsReported lib source
objects_of-IsReported urlhaus lib source = objects_for_url-IsReported lib source
objects_of-IsReported malwarebazaar lib source = objects_for_sample-IsReported lib source
