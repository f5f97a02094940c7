-- ===== src/Feeds/Attack.antt =====
-- The connector of MITRE ATT&CK (src/prow/connectors/attack/connector.py).
pub mod Selected
pub mod Validated
pub mod Tests
pub mod Batches
use prow_cti.Feeds.Fetch.{
  ContextCall, Feed, Fetched, HttpAnswer, done, emit_dict_call, feed_format_error, or_raise,
  raising, runtime_error, set_state_call, ◌>>=◌,
}
use prow_cti.Feeds.Http.{modified, not_modified, parse_feed_json, read_feed, set_if}
use prow_cti.Json.{Fields, Items, Json, arr, bool, cons, get, is_text, nil, obj, put, str}
use prow_cti.Prelude.{
  Bool, List, Option, String, [], drop, false, if◌then◌else◌, length, none, not, some, suc, take,
  true, zero, ℕ, ◌&&◌, ◌==◌, ◌||◌, ◌∷◌,
}
use prow_cti.Stix.Helpers.{StixLib, fresh_id}
use prow_cti.Stix.Validate.{Schema, validate_stix_object}
pub mod Delivered

-- `_EMIT_BATCH_SIZE`
abbrev pub emit_batch_size : ℕ
emit_batch_size = 500

-- `out.setdefault(key, value)`
abbrev pub set_default : String → Json → Fields → Fields
set_default key value o = elim (get o key) [ some _ ↦ o | none ↦ put key value o ]

-- `_normalize_attack_object`
unfoldable pub normalize_attack_object : Fields → Fields
normalize_attack_object o =
    let out = set_default "spec_version" (str "2.1") o in
    if is_text "malware" (get out "type") then set_default "is_family" (bool false) out else out

abbrev pub is_true : Option Json → Bool
is_true (some (bool b)) = b
is_true _ = false

-- `_is_deprecated`
abbrev pub is_deprecated : Fields → Bool
is_deprecated o = is_true (get o "x_mitre_deprecated") || is_true (get o "revoked")

-- An object that is emitted, none where it is left out: it is deprecated, or it does not pass the
-- validation.
abbrev pub kept_object : Schema → Bool → Fields → Option Fields
kept_object schema include_deprecated item =
    if not include_deprecated && is_deprecated item
    then none
    else elim (validate_stix_object schema true (normalize_attack_object item)) [
      | [] ↦ some (normalize_attack_object item)
      | problem ∷ problems ↦ none
    ]

abbrev pub with_kept : Option Fields → List Fields → List Fields
with_kept none os = os
with_kept (some o) os = o ∷ os

-- The loop of `_extract_validated_objects`.
unfoldable pub validated_objects : Schema → Bool → Items → Fetched (List Fields)
validated_objects schema include_deprecated nil = done []
validated_objects schema include_deprecated (cons (obj item) others) =
    validated_objects schema include_deprecated others >>= λ os.
    done (with_kept (kept_object schema include_deprecated item) os)
validated_objects schema include_deprecated (cons _ others) = raising feed_format_error

-- The slices of `range(0, len(objects), size)`, on the number of objects as fuel.
unfoldable pub batches_of : ℕ → ℕ → List Fields → List (List Fields)
batches_of fuel size [] = []
batches_of zero size (o ∷ os) = []
batches_of (suc fuel) size (o ∷ os) = take size (o ∷ os) ∷ batches_of fuel size (drop size (o ∷ os))

-- The calls of the loop over the batches, and those behind it; a cancelled loop makes no more.
unfoldable pub batch_calls :
    StixLib → (ℕ → Bool) → ℕ → List (List Fields) → List ContextCall → List ContextCall
batch_calls lib is_cancelled i [] final = final
batch_calls lib is_cancelled i (b ∷ bs) final =
    let rest = batch_calls lib is_cancelled (suc i) bs final in
    if is_cancelled i then [] else emit_dict_call (fresh_id lib "bundle" i) b ∷ rest

module _ {Body : Type 0} (lib : StixLib) (source : Feed Body) (schema : Schema) where
  -- `_extract_validated_objects`
  unfoldable pub extract_validated_objects : Bool → Body → Fetched (List Fields)
  extract_validated_objects include_deprecated body = parse_feed_json source body >>= λ feed.
      elim (get feed "objects") [
        | some (arr listed) ↦ validated_objects schema include_deprecated listed
        | _ ↦ raising feed_format_error
      ]

  -- The calls of `fetch` for a feed that was modified; `is_cancelled` is asked at each batch.
  unfoldable pub fetch_objects :
      Bool → Json → Body → Option String → Option String → Fetched (List ContextCall)
  fetch_objects include_deprecated now body etag last_modified =
      extract_validated_objects include_deprecated body >>= λ objects. done (
        batch_calls lib source.is_cancelled 0 (batches_of (length objects) emit_batch_size objects)
          (set_if "etag" etag (
            set_if "last_modified" last_modified
              (set_state_call "last_successful_fetch" now ∷ []))))

  -- `fetch`: the client that `setup` made, of the configuration `stix_url` and `include_deprecated`, and the
  -- state that was kept under `etag` and `last_modified`.
  unfoldable pub fetch :
      Option (String → List (String × String) → HttpAnswer Body)
      → String
      → Bool
      → Option Json
      → Option Json
      → Json
      → Fetched (List ContextCall)
  fetch client stix_url include_deprecated etag last_modified now = do
    client_get ← or_raise runtime_error client
    result ←
        if stix_url == ""
        then raising feed_format_error
        else read_feed source client_get stix_url etag last_modified
    elim result [
      | not_modified ↦ done []
      | modified body new_etag new_last_modified ↦
          fetch_objects include_deprecated now body new_etag new_last_modified
    ]
