-- ===== src/Feeds/MalwareBazaar.antt =====
-- The connector of MalwareBazaar (src/prow/connectors/malwarebazaar/connector.py).
use prow_cti.Feeds.AbuseCh.{
  comparison, date_under, extract_entries, family_objects, feed_indicator, first_chars, load_object,
  plain_relationship, read_body,
}
use prow_cti.Feeds.Fetch.{
  ContextCall, Feed, Fetched, HttpAnswer, build_objects, done, emit_call, feed_format_error, filled,
  or_raise, pydantic_error, runtime_error, set_state_call, ◌>>=◌,
}
use prow_cti.Json.{Fields, Json, bool, get, int}
use prow_cti.Prelude.{List, Option, String, [], if◌then◌else◌, none, some, ℕ, ◌*◌, ◌++◌, ◌+◌, ◌∷◌}
use prow_cti.Prelude.Dict.{Dict, insert}
use prow_cti.Prelude.Int.{pos, ℤ}
use prow_cti.Prelude.Text.{concat}
use prow_cti.Stix.Helpers.{StixLib, bundle, file_observable}
use prow_cti.Stix.Objects.{StixObject, file_object, indicator_object, relationship_object}

-- `_MALWAREBAZAAR_CONFIDENCE`
abbrev pub malwarebazaar_confidence : ℕ
malwarebazaar_confidence = 85

-- `int(file_size) if isinstance(file_size, int) else None`
abbrev pub size_of : Option Json → Option ℤ
size_of (some (int n)) = some n
size_of (some (bool b)) = some (if b then pos 1 else pos 0)
size_of _ = none

abbrev pub hash_if : String → Option String → Dict String → Dict String
hash_if algo none hashes = hashes
hash_if algo (some hash) hashes = insert algo hash hashes

module _ {Body : Type 0} (lib : StixLib) (source : Feed Body) where
  -- The hashes of an entry, from its SHA-256.
  abbrev pub hashes_of : String → Fields → Dict String
  hashes_of sha256 entry =
      hash_if "SHA-1" (filled source.strip (get entry "sha1_hash"))
        (hash_if "MD5" (filled source.strip (get entry "md5_hash")) (("SHA-256", sha256) ∷ []))

  -- `_objects_for_sample` on the entry at an index; the numbers only name the draws.
  unfoldable pub objects_for_sample : ℕ → Fields → Fetched (List StixObject)
  objects_for_sample i entry = do
    sha256 ← or_raise feed_format_error (filled source.strip (get entry "sha256_hash"))
    valid_from ← date_under source "first_seen" entry
    obs ← or_raise pydantic_error (
        file_observable lib (hashes_of sha256 entry) (filled source.strip (get entry "file_name"))
          (size_of (get entry "file_size")))
    ind ←
        feed_indicator lib (4 * i + 1)
          (concat "MalwareBazaar sample: " (concat (first_chars 16 sha256) "..."))
          (comparison "file:hashes.'SHA-256'" sha256) valid_from (pos malwarebazaar_confidence)
    rel ← plain_relationship lib (4 * i + 2) ind.common.id "based-on" obs.id
    family ← family_objects lib source.strip (4 * i + 3) ind (get entry "signature")
    done ((file_object obs ∷ indicator_object ind ∷ relationship_object rel ∷ []) ++ family)

  -- `fetch` once its feed was loaded, at the time `now`.
  unfoldable pub fetch_entries : Json → List Fields → Fetched (List ContextCall)
  fetch_entries now [] = done []
  fetch_entries now (e ∷ es) =
      build_objects objects_for_sample source.is_cancelled 0 (e ∷ es) >>= λ built. elim built [
        | none ↦ done []
        | some objects ↦ or_raise pydantic_error (bundle lib 0 objects) >>= λ b.
            done (emit_call b ∷ set_state_call "last_successful_fetch" now ∷ [])
      ]

  -- `fetch`: the client that `setup` made, which posts a query with a limit, and of the configuration
  -- `limit` and `api_url`.
  unfoldable pub fetch :
      Option (String → ℤ → HttpAnswer Body) → ℤ → String → Json → Fetched (List ContextCall)
  fetch client limit api_url now = do
    post ← or_raise runtime_error client
    body ← read_body source api_url (post api_url limit)
    feed ← load_object source body
    entries ← extract_entries source "data" feed
    fetch_entries now entries
