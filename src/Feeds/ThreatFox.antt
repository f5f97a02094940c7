-- ===== src/Feeds/ThreatFox.antt =====
-- The connector of ThreatFox (src/prow/connectors/threatfox/connector.py).
use prow_cti.Feeds.AbuseCh.{
  comparison, date_under, extract_entries, family_objects, feed_indicator, first_chars, load_object,
  plain_relationship, read_body,
}
use prow_cti.Feeds.Fetch.{
  ContextCall, Feed, Fetched, HttpAnswer, build_objects, done, emit_call, feed_format_error, filled,
  or_raise, pydantic_error, raising, runtime_error, set_state_call, text_of, ◌>>=◌,
}
use prow_cti.Json.{Fields, Json, bool, get, int}
use prow_cti.Prelude.{
  List, Option, String, [], eqb, if◌then◌else◌, none, some, ℕ, ◌*◌, ◌++◌, ◌+◌, ◌==◌, ◌∷◌,
}
use prow_cti.Prelude.Int.{pos, ℤ}
use prow_cti.Prelude.Text.{concat}
use prow_cti.Stix.Helpers.{StixLib, bundle, file_observable, value_observable}
use prow_cti.Stix.Objects.{StixObject, file_object, indicator_object, ref_of, relationship_object}
pub mod Tests
pub mod Blocked
use Prim.Native.Char.{code}

-- What stands before the first colon.
unfoldable pub before_colon : String → String
before_colon String.[] = String.[]
before_colon (String.◌∷◌ c value) =
    let rest = before_colon value in if eqb (code c) 58 then String.[] else String.◌∷◌ c rest

-- `int(confidence_raw) if isinstance(confidence_raw, int) else 50`
abbrev pub confidence_of : Option Json → ℤ
confidence_of (some (int n)) = n
confidence_of (some (bool b)) = if b then pos 1 else pos 0
confidence_of _ = pos 50

module _ {Body : Type 0} (lib : StixLib) (source : Feed Body) where
  -- `_split_ip_port`
  abbrev pub split_ip_port : String → String
  split_ip_port value = source.strip (before_colon value)

  -- `_indicator_pattern`
  unfoldable pub indicator_pattern : String → String → Fetched String
  indicator_pattern ioc_type ioc_value =
      if ioc_type == "ip:port"
      then done (comparison "ipv4-addr:value" (split_ip_port ioc_value))
      else if ioc_type == "domain"
      then done (comparison "domain-name:value" ioc_value)
      else if ioc_type == "url"
      then done (comparison "url:value" ioc_value)
      else if ioc_type == "sha256_hash"
      then done (comparison "file:hashes.'SHA-256'" ioc_value)
      else if ioc_type == "md5_hash"
      then done (comparison "file:hashes.'MD5'" ioc_value)
      else raising feed_format_error

  -- `file_observable(hashes={…})` of one hash.
  abbrev of_hash : String → String → Fetched StixObject
  of_hash algo hash = elim (file_observable lib ((algo, hash) ∷ []) none none) [
    | none ↦ raising pydantic_error
    | some f ↦ done (file_object f)
  ]

  -- `_build_observable`
  unfoldable pub build_observable : String → String → Fetched StixObject
  build_observable ioc_type ioc_value =
      if ioc_type == "ip:port"
      then done (value_observable lib "ipv4-addr" (split_ip_port ioc_value))
      else if ioc_type == "domain"
      then done (value_observable lib "domain-name" ioc_value)
      else if ioc_type == "url"
      then done (value_observable lib "url" ioc_value)
      else if ioc_type == "sha256_hash"
      then of_hash "SHA-256" ioc_value
      else if ioc_type == "md5_hash"
      then of_hash "MD5" ioc_value
      else raising feed_format_error

  -- `_objects_for_ioc` on the entry at an index; the numbers only name the draws.
  unfoldable pub objects_for_ioc : ℕ → Fields → Fetched (List StixObject)
  objects_for_ioc i entry = do
    ioc_value ← or_raise feed_format_error (filled source.strip (get entry "ioc"))
    ioc_type ← or_raise feed_format_error (text_of (get entry "ioc_type"))
    valid_from ← date_under source "first_seen" entry
    obs ← build_observable ioc_type ioc_value
    pattern ← indicator_pattern ioc_type ioc_value
    ind ←
        feed_indicator lib (4 * i + 1) (concat "ThreatFox IOC: " (first_chars 60 ioc_value)) pattern
          valid_from (confidence_of (get entry "confidence_level"))
    rel ← plain_relationship lib (4 * i + 2) ind.common.id "based-on" (ref_of obs)
    family ← family_objects lib source.strip (4 * i + 3) ind (get entry "malware_printable")
    done ((obs ∷ indicator_object ind ∷ relationship_object rel ∷ []) ++ family)

  -- The days that are asked for: one where the last fetch is known.
  abbrev pub days_asked : Option Json → ℤ → ℤ
  days_asked last_fetch days_back = elim (filled source.strip last_fetch) [
    | some _ ↦ pos 1
    | none ↦ days_back
  ]

  -- The calls at the end of `fetch`: `today` and `now` are `ctx.now` as a date and as a time.
  abbrev pub final_calls : Json → Json → List StixObject → Fetched (List ContextCall)
  final_calls today now [] = done (set_state_call "last_fetch_date" today ∷ [])
  final_calls today now (o ∷ os) = or_raise pydantic_error (bundle lib 0 (o ∷ os)) >>= λ b. done (
      emit_call b
      ∷ set_state_call "last_fetch_date" today
      ∷ set_state_call "last_successful_fetch" now
      ∷ [])

  -- `fetch` once its feed was loaded.
  unfoldable pub fetch_entries : Json → Json → List Fields → Fetched (List ContextCall)
  fetch_entries today now [] = done (set_state_call "last_fetch_date" today ∷ [])
  fetch_entries today now (e ∷ es) =
      build_objects objects_for_ioc source.is_cancelled 0 (e ∷ es) >>= λ built. elim built [
        | none ↦ done []
        | some objects ↦ final_calls today now objects
      ]

  -- `fetch`: the client that `setup` made, which posts a query for a number of days, the state under
  -- `last_fetch_date`, and of the configuration `days_back` and `api_url`.
  unfoldable pub fetch :
      Option (String → ℤ → HttpAnswer Body)
      → Option Json
      → ℤ
      → String
      → Json
      → Json
      → Fetched (List ContextCall)
  fetch client last_fetch days_back api_url today now = do
    post ← or_raise runtime_error client
    body ← read_body source api_url (post api_url (days_asked last_fetch days_back))
    feed ← load_object source body
    entries ← extract_entries source "data" feed
    fetch_entries today now entries
