-- ===== src/Feeds/AbuseCh.antt =====
-- What the connectors of the abuse.ch feeds share (src/prow/connectors: threatfox, urlhaus and
-- malwarebazaar).
use prow_cti.Db.StixFields.{Timestamp}
use prow_cti.Feeds.Fetch.{
  Feed, Fetched, HttpAnswer, array_under, decode_error, done, feed_format_error, fetch_error,
  filled, http_error, json_error, loaded_json, or_raise, pydantic_error, raising, response, text_of,
  unicode_error, ◌>>=◌,
}
use prow_cti.Json.{Fields, Json, get, is_text, obj}
use prow_cti.Prelude.{
  List, Option, String, [], eqb, if◌then◌else◌, none, some, suc, true, zero, ℕ, ◌+◌, ◌∷◌,
}
use prow_cti.Prelude.Int.{ℤ}
use prow_cti.Prelude.Text.{concat}
use prow_cti.Stix.Helpers.{
  StixLib, indicator, indicator_args, malware, relationship, relationship_args,
}
use prow_cti.Stix.Objects.{Indicator, Relationship, StixObject, malware_object, relationship_object}
use prow_cti.Stix.Pattern.{stix_pattern_quote}

-- `value[:n]`
unfoldable pub first_chars : ℕ → String → String
first_chars zero value = String.[]
first_chars (suc n) String.[] = String.[]
first_chars (suc n) (String.◌∷◌ c value) = String.◌∷◌ c (first_chars n value)

-- `[path = 'literal']` with the value quoted.
abbrev pub comparison : String → String → String
comparison path value =
    concat "[" (concat path (concat " = '" (concat (stix_pattern_quote value) "']")))

module _ {Body : Type 0} (source : Feed Body) where
  -- The body of a feed: of the file that a url names, or of an answer with status 200.
  abbrev pub read_body : String → HttpAnswer Body → Fetched Body
  read_body url got =
      if source.is_file_url url then or_raise fetch_error (source.read_file url) else elim got [
        | http_error ↦ raising fetch_error
        | response status body header ↦ if eqb status 200 then done body else raising fetch_error
      ]

  -- `json.loads(raw)` and the test that its root is an object.
  abbrev pub load_object : Body → Fetched Fields
  load_object body = elim (source.loads body) [
    | json_error ↦ raising feed_format_error
    | decode_error ↦ raising unicode_error
    | loaded_json (obj o) ↦ done o
    | loaded_json _ ↦ raising feed_format_error
  ]

  -- The entries under a key: none of a feed that says that it has no results.
  unfoldable pub extract_entries : String → Fields → Fetched (List Fields)
  extract_entries key feed =
      if is_text "no_results" (get feed "query_status") then done [] else array_under key feed

  -- The date under a key of an entry.
  abbrev pub date_under : String → Fields → Fetched Timestamp
  date_under key entry = or_raise feed_format_error (text_of (get entry key)) >>= λ raw.
      or_raise feed_format_error (source.parse_date raw)

module _ (lib : StixLib) where
  -- The indicator of an entry.
  abbrev pub feed_indicator : ℕ → String → String → Timestamp → ℤ → Fetched Indicator
  feed_indicator n name pattern valid_from confidence = or_raise pydantic_error (
      indicator lib n (record (indicator_args name pattern) {
        indicator_types = some ("malicious-activity" ∷ []);
        valid_from = some valid_from;
        confidence = some confidence;
      }))

  abbrev pub plain_relationship : ℕ → String → String → String → Fetched Relationship
  plain_relationship n from kind to =
      or_raise pydantic_error (relationship lib n from kind to relationship_args)

  -- The family that an entry names, and the relationship of its indicator to it; `name` is stripped.
  unfoldable pub family_objects :
      (String → String) → ℕ → Indicator → Option Json → Fetched (List StixObject)
  family_objects strip n ind named = elim (filled strip named) [
    | none ↦ done []
    | some name ↦
        let family = malware lib n (strip name) true in
        plain_relationship (n + 1) ind.common.id "indicates" family.common.id >>= λ rel.
        done (malware_object family ∷ relationship_object rel ∷ [])
  ]
