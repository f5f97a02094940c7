-- ===== src/Db/Ingest/Account.antt =====
-- What the acknowledgement of an emitted bundle says (src/prow/db/ingest.py).
use prow_cti.Db.Ingest.{
  Validation, acknowledge, ingest_stix_bundle, insert_valid, validate_and_partition_bundle,
}
use prow_cti.Db.Repository.{
  Database, Row, bulk_insert_dedupe, bulk_insert_rows, row_dict, row_dicts,
}
use prow_cti.Db.Repository.Dedupe.{IsPostgres, bulk_insert_rows-lem}
use prow_cti.Db.Repository.Repeat.{bulk_insert_rows-again}
use prow_cti.Db.StixFields.{Outcome, Timestamp, raised_error, returned}
use prow_cti.Json.{Fields, Json}
use prow_cti.Prelude.{
  Bool, List, Option, String, [], ap, arith, length, refl, some, ℕ, ◌+◌, ◌∙◌, ◌∷◌, ◌≡◌, ◌≤◌,
}
use prow_cti.Protocol.Messages.{EmitAckPayload, ValidationFailure}
use prow_cti.Supervisor.Process.StderrRing.{total}
use mathlib.Core.Path.{subst}

module _ {T : Type 0} (va : Validation) (db : Database T) (pg : IsPostgres db)
    (fromisoformat : String → Option Timestamp) (allow : Bool) (source : String) where
  length-row_dicts :
      (os : List Fields) (rs : List Row)
      → row_dicts fromisoformat source os ≡ returned rs
      → length rs ≡ length os
  unfolding row_dicts
  length-row_dicts [] rs e = ground (arith, e)
  length-row_dicts (o ∷ os) rs e =
      by_rest (row_dict fromisoformat source o) (row_dicts fromisoformat source os) refl refl
        (length-row_dicts os)
    where
      by_rest :
          (x : Outcome Row) (y : Outcome (List Row))
          → row_dict fromisoformat source o ≡ x
          → row_dicts fromisoformat source os ≡ y
          → ((ss : List Row)
              → row_dicts fromisoformat source os ≡ returned ss
              → length ss ≡ length os)
          → length rs ≡ length (o ∷ os)
      by_rest (returned r) (returned ss) f g k = ground (arith, e, f, g, k ss g)
      by_rest (returned r) (raised_error x) f g k = ground (arith, e, f, g)
      by_rest (raised_error x) y f g k = ground (arith, e, f)

  pub insert_valid-some :
      (size : ℕ) (failures : List ValidationFailure) (o : Fields) (os : List Fields) (rs : List Row)
      (t t' : T) (a d : ℕ)
      → 1 ≤ size
      → row_dicts fromisoformat source (o ∷ os) ≡ returned rs
      → bulk_insert_rows db size rs t ≡ some (t', a, d)
      → insert_valid va db fromisoformat source size failures (o ∷ os) t
        ≡ returned (some (acknowledge va db fromisoformat failures (t', a, d)))
  unfolding bulk_insert_dedupe
  insert_valid-some size failures o os rs t t' a d h e f = ground (arith, h, e, f)

  insert_valid-lem :
      (size : ℕ) (failures : List ValidationFailure) (valid : List Fields) (rs : List Row) (t : T)
      → 1 ≤ size
      → row_dicts fromisoformat source valid ≡ returned rs
      → (t' : T) × (told : EmitAckPayload) × (insert_valid va db fromisoformat source size failures
            valid t
          ≡ returned (some (t', told)))
        × (told.accepted + length (db.rows t) ≡ length (db.rows t'))
        × (told.accepted + told.duplicates ≡ length valid)
        × (told.validation_failures ≡ failures)
  insert_valid-lem size failures [] rs t h e =
      let told : EmitAckPayload = record {
        accepted = 0;
        duplicates = 0;
        validation_failures = failures;
      } in
      (t, told, refl, omega arith, omega arith, refl)
  insert_valid-lem size failures (o ∷ os) rs t h e =
      let (t', a, d, f, all', grown, total) = bulk_insert_rows-lem db pg size rs t h in
      let told : EmitAckPayload = record {
        accepted = a;
        duplicates = d;
        validation_failures = failures;
      } in
      (
        t',
        told,
        insert_valid-some size failures o os rs t t' a d h e f,
        grown,
        total ∙ length-row_dicts (o ∷ os) rs e,
        refl,
      )

  insert_valid-again :
      (size again : ℕ) (failures : List ValidationFailure) (valid : List Fields) (rs : List Row)
      (t t' : T) (told : EmitAckPayload)
      → 1 ≤ size
      → 1 ≤ again
      → row_dicts fromisoformat source valid ≡ returned rs
      → insert_valid va db fromisoformat source size failures valid t ≡ returned (some (t', told))
      → (t'' : T) × (told' : EmitAckPayload) × (insert_valid va db fromisoformat source again
            failures valid t'
          ≡ returned (some (t'', told')))
        × (told'.accepted ≡ 0)
        × (told'.duplicates ≡ length valid)
        × (db.rows t'' ≡ db.rows t')
  insert_valid-again size again failures [] rs t t' told h k e f =
      let none_sent : EmitAckPayload = record {
        accepted = 0;
        duplicates = 0;
        validation_failures = failures;
      } in
      (t', none_sent, refl, refl, refl, refl)
  insert_valid-again size again failures (o ∷ os) rs t t' told h k e f =
      let (u, a, d, g, all', grown, total) = bulk_insert_rows-lem db pg size rs t h in
      let here : u ≡ t' =
        ground (arith, f, insert_valid-some size failures o os rs t u a d h e g) in
      let (w, g', same) = bulk_insert_rows-again db pg size again rs t u a d h k g in
      let known : EmitAckPayload = record {
        accepted = 0;
        duplicates = length rs;
        validation_failures = failures;
      } in
      (
        w,
        known,
        insert_valid-some again failures o os rs t' w 0 (length rs) k e
            (subst (λ x. bulk_insert_rows db again rs x ≡ some (w, 0, length rs)) here g'),
        refl,
        length-row_dicts (o ∷ os) rs e,
        same ∙ ap db.rows here,
      )

  -- If the accepted objects have the columns that a row needs, a bundle is ingested, and its
  -- acknowledgement accounts for it: the accepted objects are as many as the new rows, accepted and
  -- duplicates add up to the objects that passed the validation, and the failures are those of the
  -- validation.
  pub ingest_stix_bundle-account :
      (size : ℕ) (bundle : Json) (rs : List Row) (t : T)
      → 1 ≤ size
      → row_dicts fromisoformat source (validate_and_partition_bundle va allow bundle).0
        ≡ returned rs
      → (t' : T) × (told : EmitAckPayload) × (ingest_stix_bundle va db fromisoformat allow source
            size bundle t
          ≡ returned (some (t', told)))
        × (told.accepted + length (db.rows t) ≡ length (db.rows t'))
        × (told.accepted + told.duplicates
            ≡ length (validate_and_partition_bundle va allow bundle).0)
        × (told.validation_failures ≡ (validate_and_partition_bundle va allow bundle).1)
  unfolding ingest_stix_bundle
  ingest_stix_bundle-account size bundle rs t h e =
      let checked = validate_and_partition_bundle va allow bundle in
      insert_valid-lem size checked.1 checked.0 rs t h e

  -- A bundle that was ingested is ingested again, in batches of any size, with no object accepted, every
  -- valid object a duplicate, and the table left as it is.
  pub ingest_stix_bundle-again :
      (size again : ℕ) (bundle : Json) (rs : List Row) (t t' : T) (told : EmitAckPayload)
      → 1 ≤ size
      → 1 ≤ again
      → row_dicts fromisoformat source (validate_and_partition_bundle va allow bundle).0
        ≡ returned rs
      → ingest_stix_bundle va db fromisoformat allow source size bundle t
        ≡ returned (some (t', told))
      → (t'' : T) × (told' : EmitAckPayload) × (ingest_stix_bundle va db fromisoformat allow source
            again bundle t'
          ≡ returned (some (t'', told')))
        × (told'.accepted ≡ 0)
        × (told'.duplicates ≡ length (validate_and_partition_bundle va allow bundle).0)
        × (db.rows t'' ≡ db.rows t')
  unfolding ingest_stix_bundle
  ingest_stix_bundle-again size again bundle rs t t' told h k e f =
      let checked = validate_and_partition_bundle va allow bundle in
      insert_valid-again size again checked.1 checked.0 rs t t' told h k e f
