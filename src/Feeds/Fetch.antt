-- ===== src/Feeds/Fetch.antt =====
-- What the fetches of the feed connectors have in common (src/prow/connectors): where a feed comes
-- from, the entries of its JSON, the objects made of them, and the calls of the context.
use prow_cti.Db.StixFields.{Timestamp}
use prow_cti.Json.{Fields, Items, Json, arr, cons, get, nil, obj, str}
use prow_cti.Prelude.{
  Bool, List, Option, String, [], false, if◌then◌else◌, none, some, suc, true, ℕ, ◌++◌, ◌==◌, ◌∷◌,
}
use prow_cti.Stix.Objects.{Bundle, StixObject}
pub mod Steps

-- What a fetch raises: an error of the connector's own about the feed or about fetching it, pydantic's
-- error, an error of decoding, a `RuntimeError`, or what a call of the context raised.
pub data FetchFailure : Type 0 where
  feed_format_error fetch_error pydantic_error unicode_error runtime_error call_failed :
      FetchFailure

pub data Fetched {ℓ} (A : Type ℓ) : Type ℓ where
  done : A → Fetched A
  raising : FetchFailure → Fetched A

infixl 5 ◌>>=◌
abbrev pub ◌>>=◌ {ℓ κ} : {A : Type ℓ} {B : Type κ} → Fetched A → (A → Fetched B) → Fetched B
done a >>= f = f a
raising e >>= f = raising e

abbrev pub or_raise {ℓ} : {A : Type ℓ} → FetchFailure → Option A → Fetched A
or_raise e none = raising e
or_raise e (some a) = done a

-- The calls of the context that change something: a bundle is emitted as an object, or as a dictionary
-- with its type, an id and objects.
pub data ContextCall : Type 0 where
  emit_call : Bundle → ContextCall
  emit_dict_call : String → List Fields → ContextCall
  set_state_call : String → Json → ContextCall

-- Whether any state is set.
abbrev pub keeps_state : List ContextCall → Bool
keeps_state [] = false
keeps_state (emit_call b ∷ cs) = keeps_state cs
keeps_state (emit_dict_call id objects ∷ cs) = keeps_state cs
keeps_state (set_state_call key value ∷ cs) = true

-- The calls are made one after another until one raises: those that were made, the one that raised
-- among them, and what was raised. `accepts` is whether a call returns and does not raise; the failures
-- that the acknowledgement of an emit lists are not among it, as no connector looks at them.
unfoldable pub make_calls :
    (ContextCall → Bool) → List ContextCall → List ContextCall × Option FetchFailure
make_calls accepts [] = ([], none)
make_calls accepts (c ∷ cs) =
    let (made, problem) = make_calls accepts cs in
    if accepts c then (c ∷ made, problem) else (c ∷ [], some call_failed)

-- A fetch makes its calls at its end; where it raises before, it has made none.
unfoldable pub perform_fetch :
    (ContextCall → Bool) → Fetched (List ContextCall) → List ContextCall × Option FetchFailure
perform_fetch accepts (done planned) = make_calls accepts planned
perform_fetch accepts (raising e) = ([], some e)

-- An answer to a request: `httpx.HTTPError`, or a status, a body and the headers.
pub data HttpAnswer (Body : Type 0) : Type 0 where
  http_error : HttpAnswer Body
  response : ℕ → Body → (String → Option String) → HttpAnswer Body

-- The outcomes of `json.loads` on bytes.
pub data Loads : Type 0 where
  loaded_json : Json → Loads
  json_error decode_error : Loads

-- What a fetch uses of the source: `urlparse(url).scheme == "file"`, `read_bytes`, the parsing of a body and
-- of dates, `str.strip`, and whether the connector is cancelled when it comes to the entry, or the batch, of an index.
pub record Feed (Body : Type 0) : Type 0 where
  pub is_file_url : String → Bool
  pub read_file : String → Option Body
  pub decode_utf8 : Body → Option String
  pub loads_text : String → Option Json
  pub loads : Body → Loads
  pub strip : String → String
  pub parse_date : String → Option Timestamp
  pub is_cancelled : ℕ → Bool

-- `isinstance(value, str)`
abbrev pub text_of : Option Json → Option String
text_of (some (str s)) = some s
text_of _ = none

-- `isinstance(value, str) and value.strip()`
abbrev pub filled : (String → String) → Option Json → Option String
filled strip (some (str s)) = if strip s == "" then none else some s
filled strip _ = none

-- The loop over the items of an array, which must be objects.
unfoldable pub entries_of : Items → Fetched (List Fields)
entries_of nil = done []
entries_of (cons (obj e) others) = entries_of others >>= λ es. done (e ∷ es)
entries_of (cons _ others) = raising feed_format_error

-- The array under a key.
unfoldable pub array_under : String → Fields → Fetched (List Fields)
array_under key feed = elim (get feed key) [
  | some (arr listed) ↦ entries_of listed
  | _ ↦ raising feed_format_error
]

abbrev pub extend : List StixObject → Option (List StixObject) → Option (List StixObject)
extend os none = none
extend os (some more) = some (os ++ more)

-- The loop over the entries: none is a cancelled fetch.
unfoldable pub build_objects :
    (ℕ → Fields → Fetched (List StixObject))
    → (ℕ → Bool)
    → ℕ
    → List Fields
    → Fetched (Option (List StixObject))
build_objects make is_cancelled i [] = done (some [])
build_objects make is_cancelled i (e ∷ es) =
    if is_cancelled i
    then done none
    else (make i e >>= λ os.
        build_objects make is_cancelled (suc i) es >>= λ more. done (extend os more))
