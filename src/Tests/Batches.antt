-- ===== src/Tests/Batches.antt =====
-- Batches of two candidates of one bucket, the older one first.
use freesense_os_base.Base.{◌+◌, ◌≤◌, ◌<◌, ◌⊎◌, ◌≡◌, refl, none, [], ◌∷◌, ok}
use freesense_os_base.Base.Text.{size}
use freesense_os_base.Base.Json.{get}
use freesense_os_base.Retention.Batch.{
  Candidate, of_bucket, objects_of, bytes_of, select_deletion_batch,
}
use freesense_os_base.Retention.Batch.Greedy.{select_deletion_batch-Capped}
use freesense_os_base.Retention.Batch.Maximal.{select_deletion_batch-maximal}
use freesense_os_base.Tests.Sample.{runtime}

abbrev old : Candidate
old = record {
  bucket = "build";
  prefix = "v1/a/";
  reason = "abandoned incomplete artifact";
  object_count = 2;
  bytes = 10;
  last_modified = "+";
  keys = "v1/a/2" ∷ "v1/a/1" ∷ [];
}

abbrev young : Candidate
young = record {
  bucket = "build";
  prefix = "v1/b/";
  reason = "abandoned incomplete artifact";
  object_count = 2;
  bytes = 20;
  last_modified = "++";
  keys = "v1/b/1" ∷ "v1/b/2" ∷ [];
}

-- The cap on objects is 3: the younger candidate waits.
greedy_run : select_deletion_batch runtime 3 100 (young ∷ old ∷ []) none ≡ ok (old ∷ [], young ∷ [])
unfolding select_deletion_batch size get
greedy_run = refl

select_deletion_batch-Capped_example :
    (objects_of (of_bucket "build" (old ∷ [])) ≤ 3)
    × (bytes_of (of_bucket "build" (old ∷ [])) ≤ 100)
select_deletion_batch-Capped_example =
    select_deletion_batch-Capped 3 100 runtime (young ∷ old ∷ []) none (old ∷ []) (young ∷ [])
      greedy_run "build"

select_deletion_batch-maximal_example :
    (3 < objects_of (of_bucket "build" (old ∷ [])) + 2)
    ⊎ (100 < bytes_of (of_bucket "build" (old ∷ [])) + 20)
select_deletion_batch-maximal_example =
    select_deletion_batch-maximal 3 100 "build" runtime (young ∷ old ∷ []) (old ∷ []) (young ∷ [])
      greedy_run young [] refl
