-- ===== src/Stix/Helpers.antt =====
-- The functions that build STIX objects (src/prow/stix/helpers.py).
-- What the helpers draw: the `n`-th `uuid4` and the `n`-th reading of the clock; and the libraries that
-- make the deterministic ids: the canonical JSON of a dictionary, `uuid5` with the namespace of
-- observables, and text operations.
use prow_cti.Db.StixFields.{Timestamp}
use prow_cti.Json.{Fields, end, field, obj, str}
use prow_cti.Prelude.{
  Bool, List, Option, String, [], if◌then◌else◌, none, not, some, true, ℕ, ◌&&◌, ◌==◌, ◌∷◌,
}
use prow_cti.Prelude.Dict.{Dict, lookup}
use prow_cti.Prelude.Int.{leb_ℤ, pos, ℤ}
use prow_cti.Prelude.Text.{concat}
use prow_cti.Stix.Objects.{Bundle, File, Indicator, Malware, Relationship, StixObject, value_object}

pub record StixLib : Type 0 where
  pub uuid4 : ℕ → String
  pub utc_now : ℕ → Timestamp
  pub canonicalize : Fields → String
  pub uuid5 : String → String → String
  pub sco_namespace : String
  pub strip : String → String
  pub lower : String → String

-- `list(xs) if xs else None`
abbrev pub list_or_none : Option (List String) → Option (List String)
list_or_none none = none
list_or_none (some []) = none
list_or_none (some (x ∷ xs)) = some (x ∷ xs)

-- `Field(default=None, ge=0, le=100)`
abbrev pub is_confidence : Option ℤ → Bool
is_confidence none = true
is_confidence (some n) = leb_ℤ (pos 0) n && leb_ℤ n (pos 100)

abbrev pub or_now : Option Timestamp → Timestamp → Timestamp
or_now (some at) now = at
or_now none now = now

-- The keyword arguments of `indicator`, `relationship` and `malware`.
pub record IndicatorArgs : Type 0 where
  pub name : String
  pub pattern : String
  pub pattern_type : String
  pub indicator_types : Option (List String)
  pub valid_from : Option Timestamp
  pub valid_until : Option Timestamp
  pub confidence : Option ℤ
  pub description : Option String
  pub object_marking_refs : Option (List String)
  pub created_by_ref : Option String
  pub given_id : Option String

pub record RelationshipArgs : Type 0 where
  pub description : Option String
  pub confidence : Option ℤ
  pub object_marking_refs : Option (List String)
  pub created_by_ref : Option String
  pub given_id : Option String

-- The defaults.
abbrev pub indicator_args : String → String → IndicatorArgs
indicator_args name pattern = record {
  name = name;
  pattern = pattern;
  pattern_type = "stix";
  indicator_types = none;
  valid_from = none;
  valid_until = none;
  confidence = none;
  description = none;
  object_marking_refs = none;
  created_by_ref = none;
  given_id = none;
}

abbrev pub relationship_args : RelationshipArgs
relationship_args = record {
  description = none;
  confidence = none;
  object_marking_refs = none;
  created_by_ref = none;
  given_id = none;
}

-- `_FILE_HASH_PRECEDENCE`
abbrev pub file_hash_precedence : List String
file_hash_precedence =
    "SHA-256" ∷ "SHA-1" ∷ "MD5" ∷ "SHA-512" ∷ "SHA3-256" ∷ "SHA3-512" ∷ "SSDEEP" ∷ "TLSH" ∷ []

-- `next((algo for algo in … if algo in hashes), None)`, with the hash.
unfoldable pub canonical_hash : List String → Dict String → Option (String × String)
canonical_hash [] hashes = none
canonical_hash (algo ∷ algos) hashes = elim (lookup algo hashes) [
  | some hash ↦ some (algo, hash)
  | none ↦ canonical_hash algos hashes
]

unfoldable pub fields_of : Dict String → Fields
fields_of [] = end
fields_of ((k, v) ∷ d) = field k (str v) (fields_of d)

abbrev pub contributing_hashes : Dict String → Fields
contributing_hashes hashes = elim (canonical_hash file_hash_precedence hashes) [
  | none ↦ fields_of hashes
  | some (algo, hash) ↦ field algo (str hash) end
]

module _ (lib : StixLib) where
  -- `_fresh_id`
  abbrev pub fresh_id : String → ℕ → String
  fresh_id stix_type n = concat stix_type (concat "--" (lib.uuid4 n))

  -- `id or _fresh_id(…)`
  abbrev pub or_fresh : Option String → String → ℕ → String
  or_fresh none stix_type n = fresh_id stix_type n
  or_fresh (some id) stix_type n = if id == "" then fresh_id stix_type n else id

  -- `bundle`; none where pydantic refuses an empty one.
  unfoldable pub bundle : ℕ → List StixObject → Option Bundle
  bundle n [] = none
  bundle n (o ∷ os) = some (record { id = fresh_id "bundle" n; objects = o ∷ os })

  -- `indicator`; none where pydantic refuses the confidence.
  unfoldable pub indicator : ℕ → IndicatorArgs → Option Indicator
  indicator n a =
      if not (is_confidence a.confidence)
      then none
      else some (record {
        common = record {
          id = or_fresh a.given_id "indicator" n;
          created = lib.utc_now n;
          modified = lib.utc_now n;
          created_by_ref = a.created_by_ref;
          confidence = a.confidence;
          object_marking_refs = list_or_none a.object_marking_refs;
        };
        name = a.name;
        description = a.description;
        pattern = a.pattern;
        pattern_type = a.pattern_type;
        indicator_types = list_or_none a.indicator_types;
        valid_from = or_now a.valid_from (lib.utc_now n);
        valid_until = a.valid_until;
      })

  -- `relationship` between two ids.
  unfoldable pub relationship :
      ℕ → String → String → String → RelationshipArgs → Option Relationship
  relationship n source relationship_type target a =
      if not (is_confidence a.confidence)
      then none
      else some (record {
        common = record {
          id = or_fresh a.given_id "relationship" n;
          created = lib.utc_now n;
          modified = lib.utc_now n;
          created_by_ref = a.created_by_ref;
          confidence = a.confidence;
          object_marking_refs = list_or_none a.object_marking_refs;
        };
        relationship_type = relationship_type;
        source_ref = source;
        target_ref = target;
        description = a.description;
      })

  -- `malware_id`
  unfoldable pub malware_id : String → String
  malware_id name = concat "malware--" (
      lib.uuid5 "6ba7b814-9dad-11d1-80b4-00c04fd430c8"
        (concat "prow:malware:" (lib.lower (lib.strip name))))

  -- `malware` of a name and of whether it is a family, with the other arguments at their defaults.
  unfoldable pub malware : ℕ → String → Bool → Malware
  malware n name is_family = record {
    common = record {
      id = malware_id name;
      created = lib.utc_now n;
      modified = lib.utc_now n;
      created_by_ref = none;
      confidence = none;
      object_marking_refs = none;
    };
    is_family = is_family;
    name = name;
    description = none;
    malware_types = none;
    aliases = none;
  }

  -- `compute_sco_id` (src/prow/stix/_stix2_adapter.py)
  unfoldable pub compute_sco_id : String → Fields → String
  compute_sco_id sco_type contributing =
      concat sco_type (concat "--" (lib.uuid5 lib.sco_namespace (lib.canonicalize contributing)))

  -- `url_observable`, `ipv4_observable`, `domain_observable` and their like.
  unfoldable pub value_observable : String → String → StixObject
  value_observable sco_type value =
      value_object sco_type (compute_sco_id sco_type (field "value" (str value) end)) value

  abbrev name_field : Option String → Fields
  name_field none = end
  name_field (some name) = if name == "" then end else field "name" (str name) end

  -- The contributing properties of `file_observable` without extensions.
  abbrev pub contributing_of : Dict String → Option String → Fields
  contributing_of [] name = name_field name
  contributing_of (h ∷ hashes) name =
      field "hashes" (obj (contributing_hashes (h ∷ hashes))) (name_field name)

  abbrev is_size : Option ℤ → Bool
  is_size none = true
  is_size (some n) = leb_ℤ (pos 0) n

  -- `file_observable` without extensions, none where it raises: with neither hash nor name, or where
  -- pydantic refuses a negative size.
  unfoldable pub file_observable : Dict String → Option String → Option ℤ → Option File
  file_observable hashes name size = elim (contributing_of hashes name) [
    | end ↦ none
    | field k v fs ↦
        if not (is_size size)
        then none
        else some (record {
          id = compute_sco_id "file" (field k v fs);
          hashes = some hashes;
          name = name;
          size = size;
          extensions = end;
        })
  ]
