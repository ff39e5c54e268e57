-- ===== src/Retention/Batch/Pinned.antt =====
-- select_deletion_batch of scripts/r2_retention.py: the batch that an earlier run has pinned.
use freesense_os_base.Base.{◌≡◌, String, some, ok}
use freesense_os_base.Base.Sets.{Dict, lookup}
use freesense_os_base.Retention.Runtime.{Runtime}
use freesense_os_base.Retention.Batch.{Candidate, candidate_group_digest}

module _ (rt : Runtime) where
  -- Every candidate stands at its own digest.
  abbrev IsIndex : Dict Candidate → Type 0
  IsIndex d =
      (k : String) (c : Candidate) → lookup k d ≡ some c → candidate_group_digest rt c ≡ ok k
