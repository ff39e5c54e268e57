-- ===== src/Shards/Partition/Merged.antt =====
-- The loop of `partition` of scripts/partition_roots.py that unites roots whose closures overlap.
use freesense_os_base.Base.{
  ◌+◌, ◌≤◌, ◌≡◌, refl, sym, subst, ap, ◌∙◌, String, ◌==◌, Bool, ◌||◌, not, true, false, List, [],
  ◌∷◌, ltb, keep_if, any, sum_by, sum_by-append, All, All-append, All-map_of, arith, eq_iff,
  eq_refl, Bool-cases, inl, inr,
}
use freesense_os_base.Base.Sets.{Dict, contains, contains-append}
use freesense_os_base.Shards.Cover.{join}
use freesense_os_base.Shards.Partition.{closure_of, overlap, merge, merge_all}
use freesense_os_base.Shards.Partition.Times.{
  bit, times, contains-times, times-join, any-contains, sum_by-keep_if, All-keep_if,
}

any-contains_eq :
    (p : String → Bool) (xs : List String)
    → any p xs ≡ true
    → (n : String) × (contains xs n ≡ true) × (p n ≡ true)
any-contains_eq p [] h = cc h
any-contains_eq p (x ∷ xs) h = elim (Bool-cases (p x)) [
  | inl here ↦ (x, ground (arith, eq_refl x), here)
  | inr other ↦ let (n, held, e) = any-contains_eq p xs (ground arith) in (n, ground arith, e)
]

module _ (closures : Dict (List String)) where
  overlap_sym : (r s : String) → overlap closures r s ≡ true → overlap closures s r ≡ true
  unfolding overlap
  overlap_sym r s h =
      let (n, held, also) =
        any-contains_eq (contains (closure_of closures s)) (closure_of closures r) h in
      any-contains (contains (closure_of closures r)) (closure_of closures s) n also held

  -- The two roots are in the same groups.
  abbrev pub Same : String → String → List String → Type 0
  Same r s group = contains group r ≡ contains group s

  -- The groups hold each root of the set once, and roots with overlapping closures together.
  pub record Merged (q : String → Bool) (groups : List (List String)) : Type 0 where
    pub held : (n : String) → sum_by (times n) groups ≡ bit (q n)
    pub together :
        (r s : String)
        → q r ≡ true
        → q s ≡ true
        → overlap closures r s ≡ true
        → All (Same r s) groups

  not_in :
      (n : String) (groups : List (List String))
      → sum_by (times n) groups ≡ 0
      → All (λ g. contains g n ≡ false) groups
  not_in n [] h = tt
  not_in n (g ∷ groups) h = (ground (arith, contains-times n g), not_in n groups (omega arith))

  join-Same :
      (r s : String) (groups : List (List String))
      → All (Same r s) groups
      → contains (join groups) r ≡ contains (join groups) s
  unfolding join
  join-Same r s [] h = refl
  join-Same r s (g ∷ groups) (h, hs) =
      contains-append g (join groups) r
      ∙ ground (arith, join-Same r s groups hs)
      ∙ sym (contains-append g (join groups) s)

  All-Same : (r s : String) (groups : List (List String)) → r ≡ s → All (Same r s) groups
  All-Same r s [] e = tt
  All-Same r s (g ∷ groups) e = (ap (contains g) e, All-Same r s groups e)

  All-flip :
      (r s : String) (groups : List (List String)) → All (Same r s) groups → All (Same s r) groups
  All-flip r s groups = All-map_of (Same r s) (Same s r) (λ g e. sym e) groups

  -- No root that a group without overlap holds overlaps.
  free_of :
      (x s : String) (g : List String)
      → overlap closures x s ≡ true
      → not (any (overlap closures x) g) ≡ true
      → contains g s ≡ false
  free_of x s g o free = elim (Bool-cases (contains g s)) [
    | inl here ↦ let hit = any-contains (overlap closures x) g s here o in ground (arith, hit)
    | inr fine ↦ fine
  ]

  module _ (x : String) (q : String → Bool) (groups : List (List String)) (new : q x ≡ false)
      (m : Merged q groups) where
    abbrev hits : List (List String)
    hits = keep_if (any (overlap closures x)) groups

    abbrev kept : List (List String)
    kept = keep_if (λ g. not (any (overlap closures x) g)) groups

    in_hits : (n : String) → contains (join hits) n ≡ ltb 0 (sum_by (times n) hits)
    in_hits n = contains-times n (join hits) ∙ ap (ltb 0) (times-join n hits)

    all_held : (n : String) → sum_by (times n) kept + sum_by (times n) hits ≡ bit (q n)
    all_held n = sum_by-keep_if (times n) (any (overlap closures x)) groups ∙ m.held n

    absent : All (λ g. contains g x ≡ false) groups
    absent = not_in x groups (m.held x ∙ ap bit new)

    merge-held : (n : String) → sum_by (times n) (merge closures groups x) ≡ bit (x == n || q n)
    unfolding merge
    merge-held n =
        let split = sum_by-append (times n) kept ((x ∷ join hits) ∷ []) in
        let apart : (x == n) ≡ true → q n ≡ false =
          λ e. subst (λ k. q k ≡ false) ((eq_iff x n).0 e) new in
        ground (arith, split, times-join n hits, all_held n, apart)

    no_kept : (s : String) → overlap closures x s ≡ true → sum_by (times s) kept ≡ 0
    no_kept s o = go groups
      where
        none_in : (g : List String) → contains g s ≡ false → times s g ≡ 0
        none_in g e = ground (arith, contains-times s g)

        go :
            (gs : List (List String))
            → sum_by (times s) (keep_if (λ g. not (any (overlap closures x) g)) gs) ≡ 0
        go [] = refl
        go (g ∷ gs) = elim (Bool-cases (not (any (overlap closures x) g))) [
          | inl free ↦ rw free (omega (arith, none_in g (free_of x s g o free), go gs))
          | inr hit ↦ rw hit (go gs)
        ]

    -- The new root, and one seen before with which it overlaps
    with_new :
        (s : String)
        → q s ≡ true
        → overlap closures x s ≡ true
        → All (Same x s) (merge closures groups x)
    unfolding merge
    with_new s old o =
        All-append (Same x s) kept ((x ∷ join hits) ∷ [])
          (All-keep_if (λ g. contains g x ≡ false) (Same x s)
            (λ g. not (any (overlap closures x) g))
            (λ g free no_x. no_x ∙ sym (free_of x s g o free)) groups absent)
          (ground (arith, eq_refl x, in_hits s, all_held s, no_kept s o), tt)

    both_seen :
        (r s : String)
        → q r ≡ true
        → q s ≡ true
        → overlap closures r s ≡ true
        → All (Same r s) (merge closures groups x)
    unfolding merge
    both_seen r s old_r old_s o =
        let all_same = m.together r s old_r old_s o in
        let not_x : (n : String) → q n ≡ true → (x == n) ≡ false = λ n old.
          elim (Bool-cases (x == n)) [
            | inl e ↦ absurd (cc (sym old ∙ subst (λ k. q k ≡ false) ((eq_iff x n).0 e) new))
            | inr e ↦ e
          ] in
        All-append (Same r s) kept ((x ∷ join hits) ∷ [])
          (All-keep_if (Same r s) (Same r s) (λ g. not (any (overlap closures x) g)) (λ g free e. e)
            groups all_same)
          (
            rw (not_x r old_r, not_x s old_s)
                (join-Same r s hits (
                  All-keep_if (Same r s) (Same r s) (any (overlap closures x)) (λ g hit e. e) groups
                    all_same)),
            tt,
          )

    merge-Merged : Merged (λ n. x == n || q n) (merge closures groups x)
    merge-Merged = record {
      held = merge-held;
      together = λ r s in_r in_s o. elim (Bool-cases (x == r)) [
        | inl is_r ↦
            let same_r = (eq_iff x r).0 is_r in
            elim (Bool-cases (x == s)) [
              | inl is_s ↦ All-Same r s (merge closures groups x) (sym same_r ∙ (eq_iff x s).0 is_s)
              | inr not_s ↦
                  subst (λ k. All (Same k s) (merge closures groups x)) same_r
                    (with_new s (ground arith)
                      (subst (λ k. overlap closures k s ≡ true) (sym same_r) o))
            ]
        | inr not_r ↦ elim (Bool-cases (x == s)) [
          | inl is_s ↦
              let same_s = (eq_iff x s).0 is_s in
              All-flip s r (merge closures groups x) (
                subst (λ k. All (Same k r) (merge closures groups x)) same_s
                  (with_new r (ground arith)
                    (subst (λ k. overlap closures k r ≡ true) (sym same_s) (overlap_sym r s o))))
          | inr not_s ↦ both_seen r s (ground arith) (ground arith) o
        ]
      ];
    }

  Merged-eq :
      (p q : String → Bool) (groups : List (List String))
      → ((n : String) → p n ≡ q n)
      → Merged p groups
      → Merged q groups
  Merged-eq p q groups e m = record {
    held = λ n. m.held n ∙ ap bit (e n);
    together = λ r s in_r in_s o. m.together r s (e r ∙ in_r) (e s ∙ in_s) o;
  }

  pub merge_all-Merged :
      (roots : List String) (q : String → Bool) (groups : List (List String))
      → ((n : String) → times n roots + bit (q n) ≤ 1)
      → Merged q groups
      → Merged (λ n. contains roots n || q n) (merge_all closures groups roots)
  unfolding merge_all
  merge_all-Merged [] q groups once m = m
  merge_all-Merged (x ∷ roots) q groups once m =
      let new : q x ≡ false = ground (arith, once x, eq_refl x) in
      Merged-eq (λ n. contains roots n || (x == n || q n))
        (λ n. (x == n || contains roots n) || q n) _ (λ n. ground arith)
        (merge_all-Merged roots (λ n. x == n || q n) (merge closures groups x)
          (λ n.
            let apart : (x == n) ≡ true → q n ≡ false =
              λ e. subst (λ k. q k ≡ false) ((eq_iff x n).0 e) new in
            ground (arith, once n, apart))
          (merge-Merged x q groups new m))
