-- ===== src/Retention/Batch/Prefix.antt =====
-- select_deletion_batch of scripts/r2_retention.py: each bucket's candidates, oldest first, and which
-- of them a batch without a pin takes.
use freesense_os_base.Base.{
  ℕ, ◌≡◌, refl, String, ◌==◌, false, List, [], ◌∷◌, ◌++◌, inl, inr, if◌then◌else◌, Bool-cases,
  keep_if-append,
}
use mathlib.Core.List.{append-nil}
use freesense_os_base.Base.Sets.{contains}
use freesense_os_base.Retention.Runtime.{Runtime}
use freesense_os_base.Retention.Batch.{Candidate, Batch, of_bucket}

pub of_bucket-snoc :
    (b : String) (cs : List Candidate) (c : Candidate)
    → of_bucket b (cs ++ c ∷ [])
      ≡ (if c.bucket == b then of_bucket b cs ++ c ∷ [] else of_bucket b cs)
of_bucket-snoc b cs c =
    rw (keep_if-append (λ (x : Candidate). x.bucket == b) cs (c ∷ []))
      (elim (Bool-cases (c.bucket == b)) [
        | inl e ↦ rw e refl
        | inr e ↦ rw e (append-nil (of_bucket b cs))
      ])

module _ (max_objects max_bytes : ℕ) where
  -- Bucket `b` after the candidates `done`: what is chosen precedes what waits, and nothing waits
  -- unless the bucket is blocked.
  record IsSplit (b : String) (done : List Candidate) (s : Batch) : Type 0 where
    split : of_bucket b done ≡ of_bucket b s.selected ++ of_bucket b s.deferred
    waits : contains s.blocked b ≡ false → of_bucket b s.deferred ≡ []
