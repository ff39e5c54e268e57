-- ===== src/Tests/Deleted.antt =====
-- A deletion from a store that holds a list of keys.
use freesense_os_base.Base.{
  ◌≤◌, ◌≡◌, refl, String, ◌&&◌, not, false, List, [], ◌∷◌, ok, keep_if, some, All, length,
  if◌then◌else◌, arith, eq_iff, sym, ◌∙◌, ok-injective,
}
use freesense_os_base.Base.Sets.{contains, add}
use freesense_os_base.Base.Json.{Json}
use freesense_os_base.Retention.Batch.{max_delete_objects}
use freesense_os_base.Retention.Report.{candidate_digest, checked_candidates}
use freesense_os_base.Base.Text.{includes, strip_prefix}
use freesense_os_base.Retention.Delete.{
  BucketKind, bucket_kind, Store, deletion_keys, gather, bytes_or_zero, add_keys, check_key,
  is_protected_key, is_allowed_key, delete_batches, delete_report_keys,
}
use freesense_os_base.Retention.Delete.Guard.{MayDelete, listed_keys, deletion_keys-MayDelete}
use freesense_os_base.Retention.Delete.Exact.{
  IsFaithful, delete_report_keys-untouched, delete_report_keys-exact, AreFull, joined, after_all,
  delete_report_keys-eq-ok,
}
use freesense_os_base.Tests.Sample.{runtime}
use freesense_os_base.Tests.Confirmed.{report_with, stale}

abbrev without : List String → List String → List String
without batch = keep_if (λ k. not (contains batch k))

abbrev store : Store
store = record {
  State = List String;
  delete_objects =
      λ batch w. (ok (record { has_errors = false; deleted = batch }), without batch w);
}

abbrev report : Json
report = report_with (stale ∷ [])

abbrev held : List String
held = "v1/artifacts/a" ∷ "v1/artifacts/b" ∷ []

contains-without :
    (batch w : List String) (k : String)
    → contains (without batch w) k ≡ (contains w k && not (contains batch k))
contains-without batch [] k = refl
contains-without batch (x ∷ w) k = ground (arith, contains-without batch w k, eq_iff x k)

store-IsFaithful : IsFaithful store contains
store-IsFaithful = record {
  untouched = λ batch w k h. ground (arith, contains-without batch w k);
  gone = λ batch w r k e h. ground (arith, contains-without batch w k);
}

keys_run : deletion_keys runtime report "build" "build" ≡ ok ("v1/artifacts/b" ∷ [])
unfolding deletion_keys candidate_digest bucket_kind gather bytes_or_zero add_keys check_key
    is_protected_key includes strip_prefix is_allowed_key add
keys_run = refl

delete_run : (delete_report_keys store runtime report "build" "build" held).0 ≡ ok 1
unfolding delete_report_keys deletion_keys candidate_digest bucket_kind gather bytes_or_zero
    add_keys check_key is_protected_key includes strip_prefix is_allowed_key add delete_batches
delete_run = refl

deletion_keys-MayDelete_example :
    (kind : BucketKind) × (candidates : List Json) × (bucket_kind "build" ≡ some kind)
    × (checked_candidates report ≡ ok candidates)
    × All (MayDelete kind) ("v1/artifacts/b" ∷ [])
    × (1 ≤ max_delete_objects)
    × ((k : String)
        → contains ("v1/artifacts/b" ∷ []) k ≡ contains (listed_keys "build" candidates) k)
deletion_keys-MayDelete_example =
    deletion_keys-MayDelete runtime report "build" "build" ("v1/artifacts/b" ∷ []) keys_run

outside :
    (keys : List String)
    → deletion_keys runtime report "build" "build" ≡ ok keys
    → contains keys "v1/artifacts/a" ≡ false
outside keys h = rw (← ok-injective (sym keys_run ∙ h)) refl

delete_report_keys-untouched_example :
    contains (delete_report_keys store runtime report "build" "build" held).1 "v1/artifacts/a"
    ≡ contains held "v1/artifacts/a"
delete_report_keys-untouched_example =
    delete_report_keys-untouched store contains store-IsFaithful runtime report "build" "build" held
      "v1/artifacts/a" outside

delete_report_keys-exact_example :
    (keys : List String) × (deletion_keys runtime report "build" "build" ≡ ok keys)
    × (1 ≡ length keys)
    × ((k : String)
        → contains (delete_report_keys store runtime report "build" "build" held).1 k
          ≡ (if contains keys k then false else contains held k))
delete_report_keys-exact_example =
    delete_report_keys-exact store contains store-IsFaithful runtime report "build" "build" held 1
      delete_run

delete_report_keys-eq-ok_example :
    (batches : List (List String)) × (delete_report_keys store runtime report "build" "build" held
      ≡ (ok 1, after_all store batches held))
    × (joined batches ≡ "v1/artifacts/b" ∷ [])
    × AreFull batches
delete_report_keys-eq-ok_example =
    delete_report_keys-eq-ok store (λ batch w. refl) runtime report "build" "build" held
      ("v1/artifacts/b" ∷ []) keys_run
