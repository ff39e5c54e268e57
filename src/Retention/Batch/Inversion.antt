-- ===== src/Retention/Batch/Inversion.antt =====
-- select_deletion_batch of scripts/r2_retention.py: the steps that a successful choice has passed.
use freesense_os_base.Base.{
  ℕ, String, ◌≡◌, true, Option, List, [], ok, >>=-eq-ok, require-eq-ok, all, require, nat_eq,
  length,
}
use freesense_os_base.Base.Sets.{Dict}
use freesense_os_base.Retention.Runtime.{Runtime}
use freesense_os_base.Retention.Batch.{
  Candidate, select_from, select_deletion_batch, oldest_first, indexed_from, is_within, pinned,
  or_no_groups,
}

module _ (rt : Runtime) (max_objects max_bytes : ℕ) where
  pub record Passed (candidates : List Candidate) (previous : Option (List String))
      (selected deferred : List Candidate) : Type 0 where
    pub ordered : List Candidate
    pub indexed : Dict Candidate
    pub is_ordered : oldest_first rt candidates ≡ ok ordered
    pub all_within : all (is_within max_objects max_bytes) ordered ≡ true
    pub is_indexed : indexed_from rt [] ordered ≡ ok indexed
    pub no_duplicates : nat_eq (length indexed) (length ordered) ≡ true
    pub chosen :
        select_from rt max_objects max_bytes
          (pinned rt max_objects max_bytes previous indexed)
          (or_no_groups rt max_objects max_bytes previous)
          ordered
        ≡ ok (selected, deferred)

  pub passed :
      (candidates : List Candidate) (previous : Option (List String))
      (selected deferred : List Candidate)
      → select_deletion_batch rt max_objects max_bytes candidates previous ≡ ok (selected, deferred)
      → Passed candidates previous selected deferred
  unfolding select_deletion_batch
  passed candidates previous selected deferred h =
      let (ordered, h0, h1) = >>=-eq-ok (oldest_first rt candidates) _ h in
      let (u, w, h2) = >>=-eq-ok (require (all (is_within max_objects max_bytes) ordered) _) _ h1 in
      let (indexed, i, h3) = >>=-eq-ok (indexed_from rt [] ordered) _ h2 in
      let (v, d, h4) = >>=-eq-ok (require (nat_eq (length indexed) (length ordered)) _) _ h3 in
      record {
        ordered = ordered;
        indexed = indexed;
        is_ordered = h0;
        all_within = require-eq-ok _ _ w;
        is_indexed = i;
        no_duplicates = require-eq-ok _ _ d;
        chosen = h4;
      }

  -- The same checks, passed again with another pin
  pub again :
      {candidates : List Candidate} {previous : Option (List String)}
      {selected deferred : List Candidate} (p : Passed candidates previous selected deferred)
      (other : Option (List String))
      → select_from rt max_objects max_bytes
          (pinned rt max_objects max_bytes other p.indexed)
          (or_no_groups rt max_objects max_bytes other)
          p.ordered
        ≡ ok (selected, deferred)
      → select_deletion_batch rt max_objects max_bytes candidates other ≡ ok (selected, deferred)
  unfolding select_deletion_batch
  again p other h = rw (p.is_ordered, p.all_within, p.is_indexed, p.no_duplicates) h
