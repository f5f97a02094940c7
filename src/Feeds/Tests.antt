-- ===== src/Feeds/Tests.antt =====
-- Concrete feeds for the connectors (src/prow/connectors).
use prow_cti.Feeds.AbuseCh.{family_objects}
use prow_cti.Feeds.Fetch.{Feed, done, loaded_json}
use prow_cti.Feeds.Reported.{IsReported}
use prow_cti.Feeds.Reported.Connectors.{objects_of, objects_of-IsReported, threatfox}
use prow_cti.Feeds.ThreatFox.{build_observable, indicator_pattern, objects_for_ioc}
use prow_cti.Json.{Fields, arr, cons, end, field, get, nil, obj, str}
use prow_cti.Prelude.{List, String, false, none, refl, some, ◌≡◌}
use prow_cti.Prelude.Text.{decimal}
use prow_cti.Stix.Helpers.{StixLib, indicator, relationship, value_observable}
use prow_cti.Stix.Objects.{StixObject}

abbrev pub library : StixLib
library = record {
  uuid4 = decimal;
  utc_now = λ n. n;
  canonicalize = λ o. "canonical";
  uuid5 = λ space name. "5";
  sco_namespace = "namespace";
  strip = λ s. s;
  lower = λ s. s;
}

abbrev pub kev_entry : Fields
kev_entry = field "cveID" (str "CVE-2024-1") (field "dateAdded" (str "2024-01-02") end)

abbrev pub kev_feed : Fields
kev_feed = field "vulnerabilities" (arr (cons (obj kev_entry) nil)) end

abbrev pub ioc : String → String → Fields
ioc kind value =
    field "ioc" (str value)
      (field "ioc_type" (str kind) (field "first_seen" (str "2024-01-02 03:04:05 UTC") end))

abbrev pub fox_feed : Fields
fox_feed =
    field "data"
      (arr (cons (obj (ioc "domain" "a.example")) (cons (obj (ioc "sha1_hash" "00")) nil))) end

-- A source whose bodies are objects.
abbrev pub source : Feed Fields
source = record {
  is_file_url = λ url. false;
  read_file = λ url. none;
  decode_utf8 = λ body. some "text";
  loads_text = λ text. some (obj kev_feed);
  loads = λ body. loaded_json (obj body);
  strip = λ s. s;
  parse_date = λ s. some 7;
  is_cancelled = λ i. false;
}

abbrev quoted_ioc : Fields
quoted_ioc = ioc "url" "http://a.example/it's"

-- The objects of an entry whose value holds a quote.
quoted_objects :
    (os : List StixObject) × (objects_of threatfox library source 0 quoted_ioc ≡ done os)
unfolding objects_for_ioc build_observable indicator_pattern family_objects value_observable
    indicator relationship get
quoted_objects = (_, refl)

objects_of-IsReported_example : IsReported (quoted_objects.0)
objects_of-IsReported_example =
    objects_of-IsReported threatfox library source 0 quoted_ioc quoted_objects.0 quoted_objects.1
