-- ===== src/Stix/Objects.antt =====
-- STIX objects, with the fields that src/prow/stix/helpers.py and the feed connectors set
-- (src/prow/stix/types.py).
use prow_cti.Db.StixFields.{Timestamp}
use prow_cti.Json.{Fields}
use prow_cti.Prelude.{Bool, List, Option, String}
use prow_cti.Prelude.Dict.{Dict}
use prow_cti.Prelude.Int.{ℤ}

pub record ExternalReference : Type 0 where
  pub source_name : String
  pub description : Option String
  pub url : Option String
  pub external_id : Option String

-- What the domain objects have in common.
pub record DomainObject : Type 0 where
  pub id : String
  pub created : Timestamp
  pub modified : Timestamp
  pub created_by_ref : Option String
  pub confidence : Option ℤ
  pub object_marking_refs : Option (List String)

pub record Identity : Type 0 where
  pub common : DomainObject
  pub name : String
  pub identity_class : String
  pub description : Option String

pub record Vulnerability : Type 0 where
  pub common : DomainObject
  pub name : String
  pub description : String
  pub external_references : List ExternalReference
  pub extensions : Fields

pub record Indicator : Type 0 where
  pub common : DomainObject
  pub name : String
  pub description : Option String
  pub pattern : String
  pub pattern_type : String
  pub indicator_types : Option (List String)
  pub valid_from : Timestamp
  pub valid_until : Option Timestamp

pub record Malware : Type 0 where
  pub common : DomainObject
  pub is_family : Bool
  pub name : String
  pub description : Option String
  pub malware_types : Option (List String)
  pub aliases : Option (List String)

pub record Relationship : Type 0 where
  pub common : DomainObject
  pub relationship_type : String
  pub source_ref : String
  pub target_ref : String
  pub description : Option String

pub record File : Type 0 where
  pub id : String
  pub hashes : Option (Dict String)
  pub name : Option String
  pub size : Option ℤ
  pub extensions : Fields

-- The observables with a value are told apart by their type.
pub data StixObject : Type 0 where
  identity_object : Identity → StixObject
  vulnerability_object : Vulnerability → StixObject
  indicator_object : Indicator → StixObject
  malware_object : Malware → StixObject
  relationship_object : Relationship → StixObject
  value_object : String → String → String → StixObject
  file_object : File → StixObject

pub record Bundle : Type 0 where
  pub id : String
  pub objects : List StixObject

-- `_ref_of`: the id of an object.
abbrev pub ref_of : StixObject → String
ref_of (identity_object o) = o.common.id
ref_of (vulnerability_object o) = o.common.id
ref_of (indicator_object o) = o.common.id
ref_of (malware_object o) = o.common.id
ref_of (relationship_object o) = o.common.id
ref_of (value_object sco_type id value) = id
ref_of (file_object o) = o.id
