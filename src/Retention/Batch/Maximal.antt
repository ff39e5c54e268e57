-- ===== src/Retention/Batch/Maximal.antt =====
-- select_deletion_batch of scripts/r2_retention.py: the first candidate that a bucket defers.
use freesense_os_base.Base.{
  ℕ, ◌+◌, ◌<◌, ◌≡◌, refl, ◌≢◌, subst, String, ◌==◌, Bool, ◌||◌, true, false, none, List, [], ◌∷◌,
  ◌++◌, ◌⊎◌, inl, inr, arith, eq_iff, ltb, Bool-cases, ok, ltb→lt,
}
use freesense_os_base.Base.Sets.{contains}
use freesense_os_base.Retention.Runtime.{Runtime}
use freesense_os_base.Retention.Batch.{
  Candidate, Batch, no_batch, of_bucket, objects_of, bytes_of, choose, choose_all, select_from,
  select_deletion_batch,
}
use freesense_os_base.Retention.Batch.Inversion.{passed}
use freesense_os_base.Retention.Batch.Greedy.{choose_all-IsAccounted, no_batch-IsAccounted}
use freesense_os_base.Retention.Batch.Prefix.{of_bucket-snoc}

module _ (max_objects max_bytes : ℕ) (b : String) where
  abbrev Overflows : Batch → Candidate → Type 0
  Overflows s c =
      (max_objects < s.used_objects b + c.object_count) ⊎ (max_bytes < s.used_bytes b + c.bytes)

  -- Bucket `b` is blocked exactly when a candidate of it waits, and the first such did not fit.
  record IsFull (s : Batch) : Type 0 where
    waits : contains s.blocked b ≡ false → of_bucket b s.deferred ≡ []
    blocks : contains s.blocked b ≡ true → of_bucket b s.deferred ≢ []
    full :
        (c : Candidate) (rest : List Candidate) → of_bucket b s.deferred ≡ c ∷ rest → Overflows s c

  abbrev exceeds : Batch → Candidate → Bool
  exceeds s c =
      ltb max_objects (s.used_objects c.bucket + c.object_count)
      || ltb max_bytes (s.used_bytes c.bucket + c.bytes)

  exceeds→Overflows :
      (s : Batch) (c : Candidate) → c.bucket ≡ b → exceeds s c ≡ true → Overflows s c
  exceeds→Overflows s c same e =
      let e' =
        subst
          (λ j.
            (ltb max_objects (s.used_objects j + c.object_count)
              || ltb max_bytes (s.used_bytes j + c.bytes))
            ≡ true)
          same e in
      elim (Bool-cases (ltb max_objects (s.used_objects b + c.object_count))) [
        | inl h ↦ inl (ltb→lt _ _ h)
        | inr h ↦ inr (ltb→lt _ _ (rw h at e'))
      ]

  -- The head of the waiting list after one more candidate
  head-snoc :
      (s : Batch) (waiting : List Candidate) (c d : Candidate) (rest : List Candidate)
      → ((e : Candidate) (t : List Candidate) → waiting ≡ e ∷ t → Overflows s e)
      → (waiting ≡ [] → Overflows s c)
      → waiting ++ c ∷ [] ≡ d ∷ rest
      → Overflows s d
  head-snoc s [] c d rest old new e = let same : c ≡ d = cc e in subst (Overflows s) same (new refl)
  head-snoc s (x ∷ xs) c d rest old new e =
      let same : x ≡ d = cc e in subst (Overflows s) same (old x xs refl)

  snoc-ne-nil : (xs : List Candidate) (c : Candidate) → xs ++ c ∷ [] ≢ []
  snoc-ne-nil [] c e = cc e
  snoc-ne-nil (x ∷ xs) c e = cc e

  first_waits :
      (s : Batch) (c : Candidate)
      → IsFull s
      → c.bucket ≡ b
      → (contains s.blocked c.bucket || exceeds s c) ≡ true
      → of_bucket b s.deferred ≡ []
      → Overflows s c
  first_waits s c h same test nothing = elim (Bool-cases (contains s.blocked c.bucket)) [
    | inl e ↦ absurd (h.blocks (subst (λ j. contains s.blocked j ≡ true) same e) nothing)
    | inr e ↦ exceeds→Overflows s c same (rw e at test)
  ]

  choose-IsFull : (s : Batch) (c : Candidate) → IsFull s → IsFull (choose max_objects max_bytes s c)
  unfolding choose
  choose-IsFull s c h = elim (Bool-cases (contains s.blocked c.bucket || exceeds s c)) [
    | inl e ↦ rw e (elim (Bool-cases (c.bucket == b)) [
      | inl same ↦ record {
        waits = rw same (λ w. cc);
        blocks =
            λ w. rw (of_bucket-snoc b s.deferred c, same) (snoc-ne-nil (of_bucket b s.deferred) c);
        full =
            rw (of_bucket-snoc b s.deferred c, same)
              (λ d rest eq.
                head-snoc s (of_bucket b s.deferred) c d rest h.full
                  (first_waits s c h ((eq_iff c.bucket b).0 same) e) eq);
      }
      | inr other ↦ record {
        waits = rw (of_bucket-snoc b s.deferred c, other) h.waits;
        blocks = rw (of_bucket-snoc b s.deferred c, other) h.blocks;
        full = rw (of_bucket-snoc b s.deferred c, other) h.full;
      }
    ])
    | inr e ↦ rw e (elim (Bool-cases (c.bucket == b)) [
      | inl same ↦
          let free =
            subst (λ j. contains s.blocked j ≡ false) ((eq_iff c.bucket b).0 same) (ground arith) in
          record {
            waits = h.waits;
            blocks = h.blocks;
            full = λ d rest eq. absurd (cc (h.waits free));
          }
      | inr other ↦ record { waits = h.waits; blocks = h.blocks; full = rw other h.full }
    ])
  ]

  choose_all-IsFull :
      (s : Batch) (cs : List Candidate) → IsFull s → IsFull (choose_all max_objects max_bytes s cs)
  unfolding choose_all
  choose_all-IsFull s [] h = h
  choose_all-IsFull s (c ∷ cs) h =
      choose_all-IsFull (choose max_objects max_bytes s c) cs (choose-IsFull s c h)

  no_batch-IsFull : IsFull no_batch
  no_batch-IsFull = record { waits = λ w. refl; blocks = λ w. cc; full = λ c rest e. absurd (cc e) }

  -- Without a pinned batch, the oldest deferred candidate of a bucket would break the cap on objects
  -- or the cap on bytes, on top of what the bucket's batch already holds.
  pub select_deletion_batch-maximal :
      (rt : Runtime) (candidates selected deferred : List Candidate)
      → select_deletion_batch rt max_objects max_bytes candidates none ≡ ok (selected, deferred)
      → (c : Candidate) (rest : List Candidate) → of_bucket b deferred ≡ c ∷ rest
      → (max_objects < objects_of (of_bucket b selected) + c.object_count)
        ⊎ (max_bytes < bytes_of (of_bucket b selected) + c.bytes)
  unfolding select_from
  select_deletion_batch-maximal rt candidates selected deferred h c rest e =
      let p = passed rt max_objects max_bytes candidates none selected deferred h in
      let s = choose_all max_objects max_bytes no_batch p.ordered in
      let chosen : s.selected ≡ selected = cc p.chosen in
      let waiting : s.deferred ≡ deferred = cc p.chosen in
      let f = choose_all-IsFull no_batch p.ordered no_batch-IsFull in
      let a =
        choose_all-IsAccounted max_objects max_bytes no_batch p.ordered
          (no_batch-IsAccounted max_objects max_bytes) in
      rw (← chosen, a.objects b, a.bytes b) (f.full c rest (rw waiting e))
