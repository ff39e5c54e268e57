-- ===== src/Retention/Batch/Greedy.antt =====
-- select_deletion_batch of scripts/r2_retention.py: what each bucket's batch may hold at most.
use freesense_os_base.Base.{
  ℕ, ◌+◌, ◌≤◌, ◌≡◌, refl, subst, String, ◌==◌, ◌&&◌, ◌||◌, true, Option, none, some, List, [], ◌∷◌,
  ◌++◌, ◌⊎◌, inl, inr, arith, eq_iff, ltb, leb, if◌then◌else◌, Bool-cases, keep_if-append,
  sum_by-append, all, sum_by, ok, >>=-eq-ok, require-eq-ok, require,
}
use freesense_os_base.Base.Sets.{contains}
use freesense_os_base.Retention.Runtime.{Runtime}
use freesense_os_base.Retention.Batch.{
  Candidate, Batch, no_batch, of_bucket, objects_of, bytes_of, choose, choose_all, fits_caps,
  candidate_totals, select_from, select_deletion_batch, not_pinned,
}
use freesense_os_base.Retention.Batch.Inversion.{passed}

module _ (f : Candidate → ℕ) where
  -- A sum over one bucket, when a candidate is added at the end
  sum-of_bucket-snoc :
      (b : String) (cs : List Candidate) (c : Candidate)
      → sum_by f (of_bucket b (cs ++ c ∷ []))
        ≡ (if c.bucket == b then sum_by f (of_bucket b cs) + f c else sum_by f (of_bucket b cs))
  sum-of_bucket-snoc b cs c =
      rw (keep_if-append (λ (x : Candidate). x.bucket == b) cs (c ∷ []))
        (elim (Bool-cases (c.bucket == b)) [
          | inl e ↦ rw e (rw sum_by-append (omega arith))
          | inr e ↦ rw e (rw sum_by-append (omega arith))
        ])

module _ (max_objects max_bytes : ℕ) where
  -- The usage of a bucket is the total of its selected candidates, and within the caps.
  pub record IsAccounted (s : Batch) : Type 0 where
    pub objects : (b : String) → objects_of (of_bucket b s.selected) ≡ s.used_objects b
    pub bytes : (b : String) → bytes_of (of_bucket b s.selected) ≡ s.used_bytes b
    pub objects_within : (b : String) → s.used_objects b ≤ max_objects
    pub bytes_within : (b : String) → s.used_bytes b ≤ max_bytes

  choose-IsAccounted :
      (s : Batch) (c : Candidate) → IsAccounted s → IsAccounted (choose max_objects max_bytes s c)
  unfolding choose
  choose-IsAccounted s c h =
      elim (Bool-cases (
        contains s.blocked c.bucket
        || (ltb max_objects (s.used_objects c.bucket + c.object_count)
            || ltb max_bytes (s.used_bytes c.bucket + c.bytes)))) [
              | inl e ↦ rw e (record {
                objects = h.objects;
                bytes = h.bytes;
                objects_within = h.objects_within;
                bytes_within = h.bytes_within;
              })
              | inr e ↦ rw e (record {
                objects = λ b.
                    ground
                      (arith, h.objects b, sum-of_bucket-snoc (λ x. x.object_count) b s.selected c);
                bytes = λ b.
                    ground (arith, h.bytes b, sum-of_bucket-snoc (λ x. x.bytes) b s.selected c);
                objects_within = λ b. ground (arith, h.objects_within b, eq_iff c.bucket b);
                bytes_within = λ b. ground (arith, h.bytes_within b, eq_iff c.bucket b);
              })
            ]

  pub choose_all-IsAccounted :
      (s : Batch) (cs : List Candidate)
      → IsAccounted s
      → IsAccounted (choose_all max_objects max_bytes s cs)
  unfolding choose_all
  choose_all-IsAccounted s [] h = h
  choose_all-IsAccounted s (c ∷ cs) h =
      choose_all-IsAccounted (choose max_objects max_bytes s c) cs (choose-IsAccounted s c h)

  pub no_batch-IsAccounted : IsAccounted no_batch
  no_batch-IsAccounted = record {
    objects = λ b. refl;
    bytes = λ b. refl;
    objects_within = λ b. omega arith;
    bytes_within = λ b. omega arith;
  }

  -- Both caps hold of one bucket of the batch.
  abbrev pub Capped : List Candidate → String → Type 0
  Capped selected b =
      (objects_of (of_bucket b selected) ≤ max_objects)
      × (bytes_of (of_bucket b selected) ≤ max_bytes)

  fits_caps-cases :
      (selected xs : List Candidate) (b : String)
      → all
          (λ c.
            leb (candidate_totals (of_bucket c.bucket selected)).candidate_objects max_objects
            && leb (candidate_totals (of_bucket c.bucket selected)).candidate_bytes max_bytes)
          xs
        ≡ true
      → (of_bucket b xs ≡ []) ⊎ Capped selected b
  unfolding candidate_totals
  fits_caps-cases selected [] b h = inl refl
  fits_caps-cases selected (x ∷ xs) b h = elim (Bool-cases (x.bucket == b)) [
    | inl e ↦
        let same = (eq_iff x.bucket b).0 e in
        inr (subst (λ j. Capped selected j) same (ground arith))
    | inr e ↦ rw e (fits_caps-cases selected xs b (ground arith))
  ]

  fits_caps-Capped :
      (selected : List Candidate) (b : String)
      → fits_caps max_objects max_bytes selected ≡ true
      → Capped selected b
  unfolding fits_caps
  fits_caps-Capped selected b h = elim (fits_caps-cases selected selected b h) [
    | inl e ↦ rw e (omega arith, omega arith)
    | inr capped ↦ capped
  ]

  module _ (rt : Runtime) where
    select_from-Capped :
        (p : Option (List Candidate)) (groups : List String)
        (ordered selected deferred : List Candidate)
        → select_from rt max_objects max_bytes p groups ordered ≡ ok (selected, deferred)
        → (b : String) → Capped selected b
    unfolding select_from
    select_from-Capped (some sel) groups ordered selected deferred h b =
        let (rest, _, h1) = >>=-eq-ok (not_pinned rt groups ordered) _ h in
        let (u, test, h2) = >>=-eq-ok (require (fits_caps max_objects max_bytes sel) _) _ h1 in
        let same : sel ≡ selected = cc h2 in
        subst (λ l. Capped l b) same (fits_caps-Capped sel b (require-eq-ok _ _ test))
    select_from-Capped none groups ordered selected deferred h b =
        let a = choose_all-IsAccounted no_batch ordered no_batch-IsAccounted in
        let same : (choose_all max_objects max_bytes no_batch ordered).selected ≡ selected = cc h in
        subst (λ l. Capped l b) same
          (rw (a.objects b, a.bytes b) (a.objects_within b, a.bytes_within b))

    -- Whatever batch is chosen, pinned by the previous run or not, no bucket deletes more objects or
    -- more bytes than the caps.
    pub select_deletion_batch-Capped :
        (candidates : List Candidate) (previous : Option (List String))
        (selected deferred : List Candidate)
        → select_deletion_batch rt max_objects max_bytes candidates previous
          ≡ ok (selected, deferred)
        → (b : String)
        → (objects_of (of_bucket b selected) ≤ max_objects)
          × (bytes_of (of_bucket b selected) ≤ max_bytes)
    select_deletion_batch-Capped candidates previous selected deferred h =
        let p = passed rt max_objects max_bytes candidates previous selected deferred h in
        select_from-Capped _ _ p.ordered selected deferred p.chosen
