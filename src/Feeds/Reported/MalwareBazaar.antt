-- ===== src/Feeds/Reported/MalwareBazaar.antt =====
-- What the MalwareBazaar connector reports (src/prow/connectors/malwarebazaar/connector.py).
use prow_cti.Feeds.AbuseCh.{
  comparison, date_under, family_objects, feed_indicator, first_chars, plain_relationship,
}
use prow_cti.Feeds.Fetch.{Feed, done, feed_format_error, filled, or_raise, pydantic_error}
use prow_cti.Feeds.Fetch.Steps.{bind-done, done_injective, or_raise-done}
use prow_cti.Feeds.MalwareBazaar.{
  hash_if, hashes_of, malwarebazaar_confidence, objects_for_sample, size_of,
}
use prow_cti.Feeds.Reported.{IsReported, first_hash, objects-IsReported}
use prow_cti.Json.{Fields, get}
use prow_cti.Prelude.{
  List, Option, String, [], ap, arith, false, none, refl, some, sym, ℕ, ◌*◌, ◌+◌, ◌==◌, ◌∙◌, ◌∷◌,
  ◌≡◌,
}
use prow_cti.Prelude.Dict.{Dict, insert}
use prow_cti.Prelude.Int.{pos, ℤ}
use prow_cti.Prelude.Text.{concat}
use prow_cti.Stix.Helpers.{StixLib, file_observable}
use prow_cti.Stix.Objects.{File, StixObject, file_object}

module _ {Body : Type 0} (lib : StixLib) (source : Feed Body) where
  hash_if-first :
      (algo other hash : String) (o : Option String) (hashes : Dict String)
      → (algo == other) ≡ false
      → (rest : Dict String) × (hash_if other o ((algo, hash) ∷ hashes) ≡ (algo, hash) ∷ rest)
  unfolding insert
  hash_if-first algo other hash none hashes e = (hashes, refl)
  hash_if-first algo other hash (some v) hashes e = (insert other v hashes, rw e refl)

  hashes_of-first :
      (sha256 : String) (e : Fields)
      → (rest : Dict String) × (hashes_of lib source sha256 e ≡ ("SHA-256", sha256) ∷ rest)
  hashes_of-first sha256 e =
      let (rest, q) =
        hash_if-first "SHA-256" "MD5" sha256 (filled source.strip (get e "md5_hash")) [] refl in
      let (more, r) =
        hash_if-first "SHA-256" "SHA-1" sha256 (filled source.strip (get e "sha1_hash")) rest
          refl in
      (more, ap (hash_if "SHA-1" (filled source.strip (get e "sha1_hash"))) q ∙ r)

  file_observable-hashes :
      (first : String × String) (rest : Dict String) (name : Option String) (size : Option ℤ)
      (f : File)
      → file_observable lib (first ∷ rest) name size ≡ some f
      → f.hashes ≡ some (first ∷ rest)
  unfolding file_observable
  file_observable-hashes first rest name size f h = ground (arith)

  pub objects_for_sample-IsReported :
      (i : ℕ) (e : Fields) (os : List StixObject)
      → objects_for_sample lib source i e ≡ done os
      → IsReported os
  unfolding objects_for_sample
  objects_for_sample-IsReported i e os h =
      let (sha256, _, h1) =
        bind-done (or_raise feed_format_error (filled source.strip (get e "sha256_hash"))) _ os h in
      let (at, _, h2) = bind-done (date_under source "first_seen" e) _ os h1 in
      let (f, hf, h3) =
        bind-done
          (or_raise pydantic_error (
            file_observable lib (hashes_of lib source sha256 e)
              (filled source.strip (get e "file_name")) (size_of (get e "file_size"))))
          _ os h2 in
      let (ind, hi, h4) =
        bind-done
          (feed_indicator lib (4 * i + 1)
            (concat "MalwareBazaar sample: " (concat (first_chars 16 sha256) "..."))
            (comparison "file:hashes.'SHA-256'" sha256) at (pos malwarebazaar_confidence))
          _ os h3 in
      let (rel, hr, h5) =
        bind-done (plain_relationship lib (4 * i + 2) ind.common.id "based-on" f.id) _ os h4 in
      let (family, _, h6) =
        bind-done (family_objects lib source.strip (4 * i + 3) ind (get e "signature")) _ os h5 in
      let (rest, first) = hashes_of-first sha256 e in
      let hashed : f.hashes ≡ some (("SHA-256", sha256) ∷ rest) =
        file_observable-hashes ("SHA-256", sha256) rest _ _ f
          (sym (
              ap
                (λ d.
                  file_observable lib d (filled source.strip (get e "file_name"))
                    (size_of (get e "file_size")))
                first)
            ∙ or_raise-done pydantic_error _ f hf) in
      rw (sym (done_injective h6)) (
        objects-IsReported lib _ _ _ _ at _ (file_object f) ind rel family
          ("file:hashes.'SHA-256'", sha256, ap first_hash hashed, refl) hi hr)
