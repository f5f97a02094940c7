-- ===== src/Db/Queries/Newest.antt =====
-- The version of an object that `get_object` gives (src/prow/db/repositories.py).
use prow_cti.Db.Queries.{
  Rendering, Selects, StixObjectRow, before, first_public, get_object, has_id, newest_version,
  stix_row_to_public_dict,
}
use prow_cti.Db.Queries.Ranked.{IsRanked, IsSelect, Mem-before}
use prow_cti.Json.{Fields}
use prow_cti.Prelude.{
  All, List, Option, String, [], filter, inl, inr, none, refl, some, sym, take, true, ◌∷◌, ◌≡◌, ◌⊎◌,
}
use mathlib.Core.List.{Mem, Perm, mem-cons_self, mem-cons_of_mem}
use mathlib.Core.List.Perm

All-Mem : {A : Type 0} {P : A → Type 0} (xs : List A) → ((x : A) → Mem x xs → P x) → All P xs
All-Mem [] h = tt
All-Mem (x ∷ xs) h = (h x mem-cons_self, All-Mem xs (λ y m. h y (mem-cons_of_mem x m)))

-- The row that a query for one row gives, as `get_object` asks for it.
abbrev pub Newest : Rendering → List StixObjectRow → Option Fields → Type 0
Newest rendering rows result =
    ((result ≡ none) × (rows ≡ []))
    ⊎ ((r : StixObjectRow) × (result ≡ some (stix_row_to_public_dict rendering r))
        × Mem r rows
        × All (λ s. before newest_version r s ≡ true) rows)

module _ {T : Type 0} (db : Selects T) (rendering : Rendering) where
  first-Newest :
      (rows ranked chosen : List StixObjectRow)
      → Perm ranked rows
      → IsRanked newest_version ranked
      → chosen ≡ take 1 ranked
      → Newest rendering rows (first_public db rendering chosen)
  first-Newest rows [] chosen p s e = inl (rw e refl, sym (Perm.nil-eq p))
  first-Newest rows (r ∷ rs) chosen p s e = inr (
    r,
    rw e refl,
    (Perm.mem_iff p).0 mem-cons_self,
    All-Mem rows (λ x m. Mem-before newest_version x rs s ((Perm.mem_iff p).1 m)),
  )

  -- `get_object` gives nothing exactly if no stored object has the id; otherwise it gives a version
  -- with that id before which no other stands: none is modified later, an unversioned one stands
  -- behind all that are, and of those modified together it is the one stored last.
  pub get_object-Newest :
      (stix_id : String) (t : T)
      → IsSelect db
      → Newest rendering (filter (has_id stix_id) (db.stored t)) (get_object db rendering stix_id t)
  unfolding get_object
  get_object-Newest stix_id t lawful =
      let one = lawful.ranking (has_id stix_id) newest_version (some 1) 0 t in
      first-Newest (filter (has_id stix_id) (db.stored t)) one.ranked
        (db.select (has_id stix_id) newest_version (some 1) 0 t) one.same_rows one.is_ranked one.cut
