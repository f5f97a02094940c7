-- ===== src/Forward/Tests.antt =====
-- A concrete log record (src/prow/connector/log_forwarder.py).
use prow_cti.Forward.Redaction.{
  LogPayload, forward, redact_all, redact_at_path, redact_parts, split_dots,
}
use prow_cti.Forward.Redaction.Hides.{at_parts, at_path, is_hidden}
use prow_cti.Forward.Secrets.{collect_secret_field_paths}
use prow_cti.Forward.Secrets.Complete.{IsSecret, marked, nested}
use prow_cti.Forward.Secrets.Hidden.{IsPlain, forward-hides_secret}
use prow_cti.Json.{Fields, bool, end, field, get, obj, put, str}
use prow_cti.Prelude.{All, [], refl, some, true, ◌∷◌, ◌≡◌}

abbrev payload : LogPayload
payload = record {
  message = "connected";
  timestamp = "2026-01-01T00:00:00+00:00";
  fields =
      field "url" (str "https://example.org")
        (field "auth" (obj (field "user" (str "me") (field "token" (str "s3cret") end))) end);
  exception = some "Traceback";
}

token_path : split_dots "auth.token" ≡ "auth" ∷ "token" ∷ []
unfolding split_dots
token_path = refl

-- The other fields are forwarded as they are.
forward-user :
    at_path "auth.user" (forward ("password" ∷ "auth.token" ∷ "url.x" ∷ []) payload)
    ≡ some (str "me")
unfolding forward redact_all redact_at_path redact_parts split_dots at_parts put
forward-user = refl

-- {"properties": {"auth": {"type": "object", "properties": {"token": {"secret": true}}}}}
abbrev token_schema : Fields
token_schema = field "secret" (bool true) end

abbrev auth_properties : Fields
auth_properties = field "token" (obj token_schema) end

abbrev auth_schema : Fields
auth_schema = field "type" (str "object") (field "properties" (obj auth_properties) end)

abbrev top_properties : Fields
top_properties = field "auth" (obj auth_schema) end

abbrev schema : Fields
schema = field "properties" (obj top_properties) end

token-IsSecret : IsSecret ("auth" ∷ "token" ∷ []) schema
unfolding get
token-IsSecret =
    nested "auth" ("token" ∷ []) schema top_properties auth_schema refl refl
      (marked "token" auth_schema auth_properties token_schema refl refl refl)

keys-IsPlain : All IsPlain ("auth" ∷ "token" ∷ [])
unfolding split_dots
keys-IsPlain = (
  record { one_part = refl; not_empty = refl },
  (record { one_part = refl; not_empty = refl }, tt),
)

forward-hides_secret_example :
    is_hidden
      (at_parts ("auth" ∷ "token" ∷ []) (forward (collect_secret_field_paths schema) payload))
    ≡ true
forward-hides_secret_example =
    forward-hides_secret "auth" ("token" ∷ []) schema payload token-IsSecret keys-IsPlain refl refl
