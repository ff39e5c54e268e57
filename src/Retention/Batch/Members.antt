-- ===== src/Retention/Batch/Members.antt =====
-- select_deletion_batch of scripts/r2_retention.py: what holds of every candidate holds of the batch.
use freesense_os_base.Base.{
  ℕ, ◌+◌, ◌≡◌, refl, ◌∙◌, sym, subst, ap, String, ◌==◌, ◌||◌, Option, none, some, List, [], ◌∷◌,
  map, All, All-append, Bool-cases, Option-cases, inl, inr, ok, >>=-eq-ok, ok-injective, require,
  map_results, ltb,
}
use freesense_os_base.Base.Sets.{Dict, contains, lookup, insert, lookup-insert}
use freesense_os_base.Base.Sort.{sorted, sorted-All}
use freesense_os_base.Retention.Runtime.{Runtime, parse_time}
use freesense_os_base.Retention.Batch.{
  Candidate, Batch, Timed, timed, leb_timed, oldest_first, candidate_group_digest, indexed_from,
  pinned_groups, not_pinned, fits_caps, no_batch, choose, choose_all, pinned, select_from,
  select_deletion_batch,
}
use freesense_os_base.Retention.Batch.Inversion.{passed}

module _ (rt : Runtime) (P : Candidate → Type 0) where
  timed-All :
      (cs : List Candidate) (ts : List (Timed rt))
      → map_results (timed rt) cs ≡ ok ts
      → All P cs
      → All (λ t. P t.1) ts
  unfolding map_results timed
  timed-All [] ts h all_p = subst (All (λ t. P t.1)) (ok-injective h) tt
  timed-All (c ∷ cs) ts h (p, ps) =
      let (t, is_t, h1) = >>=-eq-ok (timed rt c) _ h in
      let (rest, is_rest, h2) = >>=-eq-ok (map_results (timed rt) cs) _ h1 in
      let (time, _, same) = >>=-eq-ok (parse_time rt c.last_modified) _ is_t in
      subst (All (λ u. P u.1)) (ok-injective h2)
        (subst P (ap (λ (u : Timed rt). u.1) (ok-injective same)) p, timed-All cs rest is_rest ps)

  untimed-All : (ts : List (Timed rt)) → All (λ t. P t.1) ts → All P (map (λ (_, c). c) ts)
  untimed-All [] h = tt
  untimed-All (t ∷ ts) (h, hs) = (h, untimed-All ts hs)

  oldest_first-All :
      (cs ordered : List Candidate) → oldest_first rt cs ≡ ok ordered → All P cs → All P ordered
  unfolding oldest_first
  oldest_first-All cs ordered h ps =
      let (ts, are_ts, h1) = >>=-eq-ok (map_results (timed rt) cs) _ h in
      subst (All P) (ok-injective h1) (
        untimed-All (sorted (leb_timed rt) ts)
          (sorted-All (leb_timed rt) (λ t. P t.1) ts (timed-All cs ts are_ts ps)))

  abbrev AllValues : Dict Candidate → Type 0
  AllValues d = (k : String) (c : Candidate) → lookup k d ≡ some c → P c

  insert-AllValues :
      (k : String) (v : Candidate) (d : Dict Candidate)
      → P v
      → AllValues d
      → AllValues (insert k v d)
  insert-AllValues k v d p h j c found = elim (Bool-cases (k == j)) [
    | inl here ↦
        let same : v ≡ c = cc (rw here at (sym (lookup-insert k j v d) ∙ found)) in subst P same p
    | inr other ↦ h j c (rw other at (sym (lookup-insert k j v d) ∙ found))
  ]

  indexed_from-AllValues :
      (d : Dict Candidate) (cs : List Candidate) (result : Dict Candidate)
      → indexed_from rt d cs ≡ ok result
      → All P cs
      → AllValues d
      → AllValues result
  unfolding indexed_from
  indexed_from-AllValues d [] result h ps v = subst AllValues (ok-injective h) v
  indexed_from-AllValues d (c ∷ cs) result h (p, ps) v =
      let (digest, _, h1) = >>=-eq-ok (candidate_group_digest rt c) _ h in
      indexed_from-AllValues (insert digest c d) cs result h1 ps (insert-AllValues digest c d p v)

  pinned_groups-All :
      (d : Dict Candidate) (gs : List String) (cs : List Candidate)
      → pinned_groups rt d gs ≡ some cs
      → AllValues d
      → All P cs
  unfolding pinned_groups
  pinned_groups-All d [] cs h v = let same : [] ≡ cs = cc h in subst (All P) same tt
  pinned_groups-All d (g ∷ gs) cs h v = elim (Option-cases (lookup g d)) [
    | inl gone ↦ absurd (cc (rw (gone, pinned_groups) at h))
    | inr (c, found) ↦ elim (Option-cases (pinned_groups rt d gs)) [
      | inl gone ↦ absurd (cc (rw (found, gone, pinned_groups) at h))
      | inr (rest, is_rest) ↦
          let same : (c ∷ rest) ≡ cs = cc (rw (found, is_rest, pinned_groups) at h) in
          subst (All P) same (v g c found, pinned_groups-All d gs rest is_rest v)
    ]
  ]

  module _ (max_objects max_bytes : ℕ) where
    choose-All :
        (s : Batch) (c : Candidate)
        → P c
        → All P s.selected
        → All P (choose max_objects max_bytes s c).selected
    unfolding choose
    choose-All s c p ps =
        elim (Bool-cases (
          contains s.blocked c.bucket
          || (ltb max_objects (s.used_objects c.bucket + c.object_count)
              || ltb max_bytes (s.used_bytes c.bucket + c.bytes)))) [
                | inl held ↦ rw held ps
                | inr taken ↦ rw taken (All-append P s.selected (c ∷ []) ps (p, tt))
              ]

    choose_all-All :
        (s : Batch) (cs : List Candidate)
        → All P cs
        → All P s.selected
        → All P (choose_all max_objects max_bytes s cs).selected
    unfolding choose_all
    choose_all-All s [] ps h = h
    choose_all-All s (c ∷ cs) (p, ps) h =
        choose_all-All (choose max_objects max_bytes s c) cs ps (choose-All s c p h)

    pinned-All :
        (previous : Option (List String)) (d : Dict Candidate) (cs : List Candidate)
        → pinned rt max_objects max_bytes previous d ≡ some cs
        → AllValues d
        → All P cs
    pinned-All none d cs h v = absurd (cc h)
    pinned-All (some []) d cs h v = absurd (cc h)
    pinned-All (some (g ∷ gs)) d cs h v = pinned_groups-All d (g ∷ gs) cs h v

    select_from-All :
        (o : Option (List Candidate)) (groups : List String)
        (ordered selected deferred : List Candidate)
        → select_from rt max_objects max_bytes o groups ordered ≡ ok (selected, deferred)
        → ((cs : List Candidate) → o ≡ some cs → All P cs)
        → All P ordered
        → All P selected
    unfolding select_from
    select_from-All none groups ordered selected deferred h from_pin ps =
        subst (All P) (ap (λ (x : List Candidate × List Candidate). x.0) (ok-injective h))
          (choose_all-All no_batch ordered ps tt)
    select_from-All (some cs) groups ordered selected deferred h from_pin ps =
        let (kept, _, h1) = >>=-eq-ok (not_pinned rt groups ordered) _ h in
        let (_, _, h2) = >>=-eq-ok (require (fits_caps max_objects max_bytes cs) _) _ h1 in
        subst (All P) (ap (λ (x : List Candidate × List Candidate). x.0) (ok-injective h2))
          (from_pin cs refl)

    pub select_deletion_batch-All :
        (candidates : List Candidate) (previous : Option (List String))
        (selected deferred : List Candidate)
        → select_deletion_batch rt max_objects max_bytes candidates previous
          ≡ ok (selected, deferred)
        → All P candidates
        → All P selected
    unfolding lookup
    select_deletion_batch-All candidates previous selected deferred h ps =
        let p = passed rt max_objects max_bytes candidates previous selected deferred h in
        let ordered = oldest_first-All candidates p.ordered p.is_ordered ps in
        select_from-All _ _ p.ordered selected deferred p.chosen
          (λ cs is_pinned. pinned-All previous p.indexed cs is_pinned (
            indexed_from-AllValues [] p.ordered p.indexed p.is_indexed ordered
              (λ k c found. absurd (cc found))))
          ordered
