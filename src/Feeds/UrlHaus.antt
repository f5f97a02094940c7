-- ===== src/Feeds/UrlHaus.antt =====
-- The connector of URLhaus (src/prow/connectors/urlhaus/connector.py).
use prow_cti.Feeds.AbuseCh.{
  comparison, date_under, extract_entries, feed_indicator, first_chars, load_object,
  plain_relationship, read_body,
}
use prow_cti.Feeds.Fetch.{
  ContextCall, Feed, Fetched, HttpAnswer, build_objects, done, emit_call, feed_format_error, filled,
  or_raise, pydantic_error, runtime_error, set_state_call, ◌>>=◌,
}
use prow_cti.Json.{Fields, Json, get}
use prow_cti.Prelude.{
  Bool, List, Option, String, [], false, if◌then◌else◌, none, not, some, suc, true, zero, ℕ, ◌*◌,
  ◌+◌, ◌∷◌,
}
use prow_cti.Prelude.Int.{leb_ℤ, pos, ℤ}
use prow_cti.Prelude.Text.{concat}
use prow_cti.Stix.Helpers.{StixLib, bundle, value_observable}
use prow_cti.Stix.Objects.{StixObject, indicator_object, ref_of, relationship_object}

-- `_URLHAUS_CONFIDENCE`
abbrev pub urlhaus_confidence : ℕ
urlhaus_confidence = 75

-- `len(value) <= n`
unfoldable pub is_within : ℕ → String → Bool
is_within n String.[] = true
is_within zero (String.◌∷◌ c value) = false
is_within (suc n) (String.◌∷◌ c value) = is_within n value

-- `display_url`
abbrev pub display_url : String → String
display_url url = if is_within 60 url then url else concat (first_chars 57 url) "..."

module _ {Body : Type 0} (lib : StixLib) (source : Feed Body) where
  -- `_objects_for_url` on the entry at an index; the numbers only name the draws.
  unfoldable pub objects_for_url : ℕ → Fields → Fetched (List StixObject)
  objects_for_url i entry = do
    url_value ← or_raise feed_format_error (filled source.strip (get entry "url"))
    valid_from ← date_under source "date_added" entry
    ind ←
        feed_indicator lib (2 * i + 1) (concat "Malicious URL: " (display_url url_value))
          (comparison "url:value" url_value) valid_from (pos urlhaus_confidence)
    rel ←
        plain_relationship lib (2 * i + 2) ind.common.id "based-on"
          (ref_of (value_observable lib "url" url_value))
    done
        (value_observable lib "url" url_value ∷ indicator_object ind ∷ relationship_object rel ∷ [])

  -- The objects of an entry, or none where its confidence is below the one that is asked for.
  abbrev pub confident_objects : ℤ → ℕ → Fields → Fetched (List StixObject)
  confident_objects min_confidence i entry =
      if not (leb_ℤ min_confidence (pos urlhaus_confidence))
      then done []
      else objects_for_url i entry

  -- The calls at the end of `fetch`.
  abbrev pub final_calls : Json → List StixObject → Fetched (List ContextCall)
  final_calls now [] = done []
  final_calls now (o ∷ os) = or_raise pydantic_error (bundle lib 0 (o ∷ os)) >>= λ b.
      done (emit_call b ∷ set_state_call "last_successful_fetch" now ∷ [])

  -- `fetch` once its feed was loaded.
  unfoldable pub fetch_entries : ℤ → Json → List Fields → Fetched (List ContextCall)
  fetch_entries min_confidence now entries =
      build_objects (confident_objects min_confidence) source.is_cancelled 0 entries >>= λ built.
      elim built [ none ↦ done [] | some objects ↦ final_calls now objects ]

  -- `fetch`: the client that `setup` made, which gets the recent urls up to a limit, and of the
  -- configuration `limit`, `min_confidence` and `api_base` without its last slashes.
  unfoldable pub fetch :
      Option (String → ℤ → HttpAnswer Body) → ℤ → ℤ → String → Json → Fetched (List ContextCall)
  fetch client limit min_confidence api_base now = do
    get_recent ← or_raise runtime_error client
    body ← read_body source api_base (get_recent api_base limit)
    feed ← load_object source body
    entries ← extract_entries source "urls" feed
    fetch_entries min_confidence now entries
