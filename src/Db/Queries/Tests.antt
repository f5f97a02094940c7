-- ===== src/Db/Queries/Tests.antt =====
-- Concrete rows for the queries (src/prow/db/repositories.py).
use prow_cti.Db.Queries.{
  Rendering, Selects, StixObjectRow, TextSearch, before, full_text_search, get_object,
  get_relationships, has_id, list_objects, matches_text, of_type, order_of, relates,
  search_by_observable, stix_row_to_public_dict,
}
use prow_cti.Db.Queries.Newest.{Newest, get_object-Newest}
use prow_cti.Db.Queries.Pages.{list_objects-pages, pages}
use prow_cti.Db.Queries.Public.{row_dict-public}
use prow_cti.Db.Queries.Ranked.{IsRanked, IsSelect, Untied}
use prow_cti.Db.Queries.Ties.{list_objects-tied, place, rank, scanning, scanning-IsSelect}
use prow_cti.Db.Repository.{Row, epoch, row_dict}
use prow_cti.Db.StixFields.{
  Timestamp, extract_stix_persistence_fields, parse_stix_datetime, returned,
}
use prow_cti.Json.{Fields, bool, end, field, get, str}
use prow_cti.Prelude.{
  List, Option, String, [], arith, false, filter, map, none, refl, some, true, ℕ, ◌==◌, ◌∷◌, ◌≡◌,
  ◌≤◌,
}
use mathlib.Core.Bool.{Bool-set}
use mathlib.Core.List.{Pairwise, Perm, Pairwise-singleton, mem-cons, not-mem-nil}
use mathlib.Core.Logic.Or

abbrev rendering : Rendering
rendering = record { datetime_value = λ t. str "a time"; isoformat = λ t. "a time" }

abbrev columns : String → Option Timestamp → Fields → Row
columns id modified raw = record {
  id = id;
  type_name = "indicator";
  spec_version = "2.1";
  created = 5;
  modified = modified;
  created_by_ref = none;
  revoked = false;
  confidence = none;
  source_connector_instance_id = "mitre";
  raw = raw;
}

abbrev stored_row : ℕ → Timestamp → Option Timestamp → StixObjectRow
stored_row n at modified = record {
  row_id = n;
  ingested_at = at;
  columns = columns "indicator-1" modified (field "id" (str "indicator-1") end);
}

abbrev early : StixObjectRow
early = stored_row 1 100 (some 7)

abbrev late : StixObjectRow
late = stored_row 2 200 (some 9)

abbrev two_stored : List StixObjectRow
two_stored = early ∷ late ∷ []

two_stored-Untied :
    Untied (order_of "ingested_at_desc") (filter (of_type (some "indicator")) two_stored)
unfolding filter before
two_stored-Untied =
    Pairwise.cons
      (λ x m. Or.elim (Bool-set _ _) (mem-cons.0 m) (λ e. rw e refl) (λ n. absurd (not-mem-nil n)))
      (Pairwise-singleton _ late)

two_stored-total :
    (list_objects scanning rendering (some "indicator") 1 0 "ingested_at_desc" two_stored).1 ≤ 2
unfolding list_objects filter
two_stored-total = omega arith

-- Two pages of one object each.
list_objects-pages_example :
    (rows : List StixObjectRow) × (pages scanning rendering
        (some "indicator")
        "ingested_at_desc"
        two_stored
        1
        0
        2
      ≡ map (stix_row_to_public_dict rendering) rows)
    × Perm rows (filter (of_type (some "indicator")) two_stored)
    × IsRanked (order_of "ingested_at_desc") rows
list_objects-pages_example =
    list_objects-pages scanning rendering scanning-IsSelect (some "indicator") "ingested_at_desc"
      two_stored 1 2 two_stored-Untied two_stored-total

pages_run :
    pages scanning rendering (some "indicator") "ingested_at_desc" two_stored 1 0 2
    ≡ stix_row_to_public_dict rendering late ∷ stix_row_to_public_dict rendering early ∷ []
unfolding list_objects filter rank place before
pages_run = refl

-- Two rows of one transaction.
abbrev twin : StixObjectRow
twin = stored_row 2 100 (some 9)

twins-tied :
    (before (order_of "ingested_at_desc") early twin ≡ true)
    × (before (order_of "ingested_at_desc") twin early ≡ true)
unfolding before
twins-tied = (refl, refl)

list_objects-tied_example :
    (db : Selects (List StixObjectRow)) × IsSelect db
    × (db.stored (early ∷ twin ∷ []) ≡ early ∷ twin ∷ [])
    × (pages db rendering none "ingested_at_desc" (early ∷ twin ∷ []) 1 0 2
        ≡ stix_row_to_public_dict rendering early ∷ stix_row_to_public_dict rendering early ∷ [])
list_objects-tied_example =
    list_objects-tied rendering "ingested_at_desc" early twin twins-tied.0 twins-tied.1

get_object-Newest_example :
    Newest rendering
      (filter (has_id "indicator-1") two_stored)
      (get_object scanning rendering "indicator-1" two_stored)
get_object-Newest_example =
    get_object-Newest scanning rendering "indicator-1" two_stored scanning-IsSelect

get_object-late :
    get_object scanning rendering "indicator-1" two_stored
    ≡ some (stix_row_to_public_dict rendering late)
unfolding get_object filter rank place before
get_object-late = refl

abbrev one_time : String → Option Timestamp
one_time s = some 7

abbrev emitted : Fields
emitted = field "type" (str "indicator") (
    field "id" (str "indicator-1")
      (field "created_by_ref" (str "identity-1") (field "x_note" (bool true) end)))

abbrev emitted_row : StixObjectRow
emitted_row = record {
  row_id = 1;
  ingested_at = 100;
  columns = record (columns "indicator-1" none emitted) {
    created = epoch;
    created_by_ref = some "identity-1";
  };
}

emitted-row_dict : row_dict one_time "mitre" emitted ≡ returned emitted_row.columns
unfolding row_dict extract_stix_persistence_fields parse_stix_datetime get
emitted-row_dict = refl

row_dict-public_example :
    get (stix_row_to_public_dict rendering emitted_row) "x_note" ≡ get emitted "x_note"
row_dict-public_example =
    row_dict-public rendering one_time "mitre" emitted emitted_row "x_note" emitted-row_dict
      (refl, (refl, (refl, (refl, (refl, (refl, (refl, tt)))))))

-- A search for a text, and the relationships of an object.
abbrev evil_search : TextSearch
evil_search = record {
  ilike = λ text pattern. pattern == "%evil%";
  as_string = λ v. elim v [ str s ↦ some s | _ ↦ none ];
  object_text = λ o. "?";
}

search-other_type :
    search_by_observable scanning rendering evil_search "evil" (some "malware") 10 two_stored
    ≡ ([], 0)
unfolding search_by_observable
search-other_type = refl

search-text : (full_text_search scanning rendering evil_search "evil" none 10 two_stored).1 ≡ 2
unfolding full_text_search filter rank place before matches_text
search-text = refl

get_relationships-none :
    get_relationships scanning rendering evil_search "indicator-1" two_stored ≡ []
unfolding get_relationships filter relates rank
get_relationships-none = refl
