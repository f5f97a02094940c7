-- ===== src/Feeds/Attack/Tests.antt =====
-- A run of the ATT&CK connector (src/prow/connectors/attack/connector.py).
use prow_cti.Feeds.Attack.{
  batch_calls, batches_of, extract_validated_objects, fetch, fetch_objects, normalize_attack_object,
  validated_objects,
}
use prow_cti.Feeds.Attack.Delivered.{Delivered, fetch-Delivered}
use prow_cti.Feeds.Fetch.{
  ContextCall, Feed, HttpAnswer, keeps_state, make_calls, perform_fetch, response,
}
use prow_cti.Feeds.Http.{http_get_feed}
use prow_cti.Feeds.Tests.{library, source}
use prow_cti.Json.{Fields, arr, bool, cons, end, field, get, nil, null, obj, put, str}
use prow_cti.Prelude.{Bool, List, String, [], false, none, refl, some, true, ◌≡◌}
use prow_cti.Stix.Validate.{Schema, objects_errors, validate_stix_object, verdict}

abbrev attack_pattern : String → Bool → Fields
attack_pattern id deprecated =
    field "type" (str "attack-pattern")
      (field "id" (str id) (field "x_mitre_deprecated" (bool deprecated) end))

abbrev attack_feed : Fields
attack_feed =
    field "objects"
      (arr (cons (obj (attack_pattern "old" true)) (cons (obj (attack_pattern "new" false)) nil)))
      end

abbrev attack_source : Feed Fields
attack_source = record source { loads_text = λ text. some (obj attack_feed) }

abbrev schema : Schema
schema = record {
  bundle_errors = λ o. [];
  validators = λ t. some (λ o. []);
  is_space = λ c. false;
  is_word = λ c. true;
  unknown_type = λ t. t;
  invalid_identifier = λ t. t;
  wrong_prefix = λ t. t;
  expected_object = λ i t. t;
  at_index = λ i t. t;
}

abbrev gets : String → List (String × String) → HttpAnswer Fields
gets url headers = response 200 attack_feed (λ name. none)

abbrev accepts_all : ContextCall → Bool
accepts_all c = true

attack_calls :
    keeps_state
      (perform_fetch accepts_all
        (fetch library attack_source schema (some gets) "https://feed" false none none null)).0
    ≡ true
unfolding fetch perform_fetch make_calls http_get_feed fetch_objects extract_validated_objects
    validated_objects get put normalize_attack_object batches_of batch_calls validate_stix_object
    verdict objects_errors
attack_calls = refl

fetch-Delivered_example :
    Delivered library attack_source schema gets "https://feed" false none none accepts_all
      (perform_fetch accepts_all
        (fetch library attack_source schema (some gets) "https://feed" false none none null)).0
fetch-Delivered_example =
    fetch-Delivered library attack_source schema gets "https://feed" false none none null
      accepts_all attack_calls
