-- ===== src/Feeds/Kev.antt =====
-- The connector of the CISA KEV catalogue (src/prow/connectors/kev/connector.py).
use prow_cti.Db.StixFields.{Timestamp}
use prow_cti.Feeds.Fetch.{
  ContextCall, Feed, Fetched, HttpAnswer, array_under, build_objects, done, emit_call,
  feed_format_error, filled, or_raise, pydantic_error, raising, runtime_error, set_state_call,
  text_of, ◌>>=◌,
}
use prow_cti.Feeds.Http.{modified, not_modified, parse_feed_json, read_feed, set_if}
use prow_cti.Json.{Fields, Json, end, field, get, str}
use prow_cti.Prelude.{List, Option, String, [], if◌then◌else◌, none, some, ℕ, ◌*◌, ◌+◌, ◌==◌, ◌∷◌}
use prow_cti.Prelude.Int.{pos}
use prow_cti.Prelude.Text.{concat}
use prow_cti.Stix.Helpers.{
  StixLib, bundle, fresh_id, indicator, indicator_args, relationship, relationship_args,
}
use prow_cti.Stix.Objects.{
  ExternalReference, Identity, Indicator, Relationship, StixObject, Vulnerability, identity_object,
  indicator_object, relationship_object, vulnerability_object,
}
pub mod Tests
pub mod Complete
pub mod Kept
pub mod Delivered

abbrev pub text_or_empty : Option Json → String
text_or_empty (some (str s)) = s
text_or_empty _ = ""

module _ {Body : Type 0} (lib : StixLib) (source : Feed Body) where
  -- `_build_identity`
  unfoldable pub build_identity : ℕ → Identity
  build_identity n = record {
    common = record {
      id = fresh_id lib "identity" n;
      created = lib.utc_now n;
      modified = lib.utc_now n;
      created_by_ref = none;
      confidence = none;
      object_marking_refs = none;
    };
    name = "Cybersecurity and Infrastructure Security Agency";
    identity_class = "organization";
    description = some "United States Cybersecurity and Infrastructure Security Agency (CISA).";
  }

  -- `_external_reference_for_cve`
  abbrev pub external_reference_for_cve : String → ExternalReference
  external_reference_for_cve cve_id = record {
    source_name = "cve";
    description = some (concat "CVE record for " cve_id);
    url = some (concat "https://www.cve.org/CVERecord?id=" cve_id);
    external_id = some cve_id;
  }

  -- The name and the date of an entry.
  abbrev pub cve_and_date : Fields → Fetched (String × Timestamp)
  cve_and_date entry = do
    cve_id ← or_raise feed_format_error (filled source.strip (get entry "cveID"))
    added_raw ← or_raise feed_format_error (text_of (get entry "dateAdded"))
    added ← or_raise feed_format_error (source.parse_date added_raw)
    done (cve_id, added)

  -- `_build_vulnerability`
  unfoldable pub build_vulnerability : Identity → ℕ → Fields → Fetched Vulnerability
  build_vulnerability identity n entry = cve_and_date entry >>= λ found. done (record {
    common = record {
      id = fresh_id lib "vulnerability" n;
      created = found.1;
      modified = found.1;
      created_by_ref = some identity.common.id;
      confidence = none;
      object_marking_refs = none;
    };
    name = found.0;
    description = text_or_empty (get entry "shortDescription");
    external_references = external_reference_for_cve found.0 ∷ [];
    extensions = field "x_kev_due_date" (str (text_or_empty (get entry "dueDate"))) (
        field "x_kev_required_action" (str (text_or_empty (get entry "requiredAction"))) (
          field "x_kev_known_ransomware_use"
            (str (text_or_empty (get entry "knownRansomwareCampaignUse"))) end));
  })

  -- `_build_indicator`
  unfoldable pub build_indicator : Identity → ℕ → Fields → Fetched Indicator
  build_indicator identity n entry = cve_and_date entry >>= λ found. or_raise pydantic_error (
      indicator lib n
        (record (indicator_args (concat "KEV: " found.0)
          (concat "[vulnerability:name = '" (concat found.0 "']"))) {
            indicator_types = some ("malicious-activity" ∷ []);
            valid_from = some found.1;
            confidence = some (pos 100);
            created_by_ref = some identity.common.id;
          }))

  -- `_build_relationship`
  unfoldable pub build_relationship :
      Identity → ℕ → Indicator → Vulnerability → Fetched Relationship
  build_relationship identity n ind vuln = or_raise pydantic_error (
      relationship lib n ind.common.id "indicates" vuln.common.id
        (record relationship_args { created_by_ref = some identity.common.id }))

  -- The objects of the entry at an index; the numbers only name the draws.
  unfoldable pub objects_for_entry : Identity → ℕ → Fields → Fetched (List StixObject)
  objects_for_entry identity i entry = do
    vuln ← build_vulnerability identity (3 * i + 1) entry
    ind ← build_indicator identity (3 * i + 2) entry
    rel ← build_relationship identity (3 * i + 3) ind vuln
    done (vulnerability_object vuln ∷ indicator_object ind ∷ relationship_object rel ∷ [])

  -- `_extract_vulnerabilities`
  abbrev pub extract_vulnerabilities : Fields → Fetched (List Fields)
  extract_vulnerabilities feed = array_under "vulnerabilities" feed

  -- The calls at the end of `fetch`, at the time `now`; the bundle is draw 0.
  abbrev pub final_calls :
      Json → Option String → Option String → List StixObject → Fetched (List ContextCall)
  final_calls now etag last_modified objects = do
    b ← or_raise pydantic_error (bundle lib 0 objects)
    done (
        emit_call b
        ∷ set_if "etag" etag (
            set_if "last_modified" last_modified (set_state_call "last_successful_fetch" now ∷ [])))

  -- `fetch` after the feed was read, for a feed that was modified.
  unfoldable pub fetch_modified :
      Identity → Json → Body → Option String → Option String → Fetched (List ContextCall)
  fetch_modified identity now body etag last_modified = do
    feed ← parse_feed_json source body
    entries ← extract_vulnerabilities feed
    built ← build_objects (objects_for_entry identity) source.is_cancelled 0 entries
    elim built [
      | none ↦ done []
      | some objects ↦ final_calls now etag last_modified (identity_object identity ∷ objects)
    ]

  -- `fetch`: the identity and the client that `setup` made, the url of the configuration, and the state
  -- that was kept under `etag` and `last_modified`.
  unfoldable pub fetch :
      Option Identity
      → Option (String → List (String × String) → HttpAnswer Body)
      → String
      → Option Json
      → Option Json
      → Json
      → Fetched (List ContextCall)
  fetch identity client feed_url etag last_modified now = do
    me ← or_raise runtime_error identity
    client_get ← or_raise runtime_error client
    result ←
        if feed_url == ""
        then raising feed_format_error
        else read_feed source client_get feed_url etag last_modified
    elim result [
      | not_modified ↦ done []
      | modified body new_etag new_last_modified ↦
          fetch_modified me now body new_etag new_last_modified
    ]
