-- ===== src/Shards/Partition/Spread.antt =====
-- `partition` of scripts/partition_roots.py: the shards against the roots, the heavy roots and the closures.
use freesense_os_base.Base.{
  ℕ, zero, suc, ◌+◌, ◌≤◌, ◌<◌, ◌≡◌, refl, sym, subst, ap, ◌∙◌, String, ◌&&◌, ◌||◌, not, true, false,
  some, List, [], ◌++◌, map, ltb, length, take, keep_if, sum_by, sum_by-append, All, All-append,
  all, arith, ltb→lt, ok, >>=-eq-ok, ok-injective, map_results, or_raise, or_raise-eq-ok,
}
use freesense_os_base.Base.Sets.{Dict, contains}
use freesense_os_base.Base.Json.{Json, ℤ, pos, negsuc}
use freesense_os_base.Base.Sort.{sorted, sum_by-sorted, sorted-All}
use freesense_os_base.Delta.Records.{check, check-eq-ok}
use freesense_os_base.Shards.{positive}
use freesense_os_base.Shards.Partition.{
  Shard, empty_shards, sorted_set, is_origin, is_natural, cost_value, overlap, merge_all, weigh,
  heavier, spread, heavy_roots, partition,
}
use freesense_os_base.Shards.Partition.Times.{
  bit, times, contains-times, times-sorted_set, times-keep_if,
}
use freesense_os_base.Shards.Partition.Merged.{merge_all-Merged}
use freesense_os_base.Shards.Partition.Placed.{
  total, due, SameShard, SameGroup, roots_of, length-place_all, total-place_all,
  place_all-SameShard, take-heavy,
}
use freesense_os_base.Shards.Partition.Weighing.{
  single, weigh_all-members, sorted_singles, due-members, due-sorted_members, due_singles,
  total-roots_of, length-roots_of, length-empty_shards, total-empty_shards, empty_shards-SameShard,
  empty_shards-blanks, members-SameGroup, singles-Same, roots_of-Same, length-single,
}
use freesense_os_base.Shards.Partition.Chosen.{
  is_light, contains-chosen_of, times_lem, contains-light_of,
}

positive-eq : (c : ℤ) (n : ℕ) → positive c ≡ some n → (c ≡ pos n) × (0 < n)
positive-eq (pos zero) n h = cc h
positive-eq (pos (suc k)) n h = let same : suc k ≡ n = cc h in (ap pos same, omega arith)
positive-eq (negsuc k) n h = cc h

module _ (ordered heavy : List String) (count : ℕ) (closures : Dict (List String))
    (costs : Dict Json) (default : ℕ) where
  abbrev light : List String
  light = keep_if (λ root. not (contains heavy root)) ordered

  record Spreads (shards : List Shard) : Type 0 where
    number : length shards ≡ count
    once : (n : String) → total n shards ≡ times n heavy + times n light
    alone : take (length heavy) (roots_of shards) ≡ map single heavy
    together :
        (r s : String)
        → contains light r ≡ true
        → contains light s ≡ true
        → overlap closures r s ≡ true
        → All (SameShard r s) shards

  not_heavy : (n : String) → contains light n ≡ true → contains heavy n ≡ false
  not_heavy n h =
      ground
        (arith, contains-times n light, times-keep_if (λ root. not (contains heavy root)) n ordered)

  spread-Spreads :
      (shards : List Shard)
      → spread ordered heavy count closures costs default ≡ ok shards
      → length heavy < count
      → ((n : String) → times n ordered ≤ 1)
      → Spreads shards
  unfolding spread
  spread-Spreads shards h room apart =
      let (hs, are_hs, h1) = >>=-eq-ok (map_results (weigh costs default) (map single heavy)) _ h in
      let (ls, are_ls, h2) =
        >>=-eq-ok (map_results (weigh costs default) (merge_all closures [] light)) _ h1 in
      let groups = merge_all closures [] light in
      let m =
        merge_all-Merged closures light (λ n. false) []
          (λ n.
            ground (arith, apart n, times-keep_if (λ root. not (contains heavy root)) n ordered))
          (record { held = λ n. refl; together = λ r s a b c. tt }) in
      let heavy_members =
        weigh_all-members costs default (map single heavy) hs are_hs ∙ sorted_singles heavy in
      let light_members = weigh_all-members costs default groups ls are_ls in
      let due_hs : (n : String) → due n hs ≡ times n heavy =
        λ n. due-members n hs ∙ ap (sum_by (times n)) heavy_members ∙ due_singles n heavy in
      let due_ls : (n : String) → due n (sorted heavier ls) ≡ bit (contains light n || false) = λ n.
        sum_by-sorted heavier (λ w. times n w.members) ls
        ∙ due-members n ls
        ∙ ap (sum_by (times n)) light_members
        ∙ due-sorted_members n groups
        ∙ m.held n in
      let start = empty_shards count in
      let size : length start ≡ count = length-empty_shards count in
      let number_hs = length-single hs heavy heavy_members in
      let once_light : (n : String) → bit (contains light n || false) ≡ times n light = λ n.
        ground (
          arith,
          apart n,
          contains-times n light,
          times-keep_if (λ root. not (contains heavy root)) n ordered,
        ) in
      subst Spreads (ok-injective h2) (record {
        number = length-place_all (length heavy) 0 start (hs ++ sorted heavier ls) ∙ size;
        once = λ n. omega (
          arith,
          total-place_all (length heavy) n 0 start (hs ++ sorted heavier ls) (omega (arith, size)),
          total-empty_shards n count,
          sum_by-append (λ w. times n w.members) hs (sorted heavier ls),
          due_hs n,
          due_ls n,
          once_light n,
        );
        alone =
            take-heavy (length heavy) [] count hs (sorted heavier ls) start
              (omega (arith, number_hs)) (omega (arith, number_hs)) (empty_shards-blanks count)
            ∙ heavy_members;
        together = λ r s in_r in_s o.
            place_all-SameShard (length heavy) r s 0 start (hs ++ sorted heavier ls)
              (All-append (SameGroup r s) hs (sorted heavier ls)
                (members-SameGroup r s (map single heavy) hs
                  (weigh_all-members costs default (map single heavy) hs are_hs)
                  (singles-Same r s heavy (not_heavy r in_r) (not_heavy s in_s)))
                (sorted-All heavier (SameGroup r s) ls (
                  members-SameGroup r s groups ls light_members
                    (m.together r s (ground arith) (ground arith) o))))
              (empty_shards-SameShard r s count);
      })

-- What the shards promise, and which roots are the heavy ones
pub record Partitioned (roots heavy : List String) (count : ℤ) (closures : Dict (List String))
    (shards : List (List String)) : Type 0 where
  pub number : count ≡ pos (length shards)
  pub once : (n : String) → sum_by (times n) shards ≡ bit (contains roots n)
  pub chosen : List String
  pub is_chosen : (n : String) → contains chosen n ≡ (contains roots n && contains heavy n)
  pub alone : take (length chosen) shards ≡ map single chosen
  pub together :
      (r s : String)
      → is_light roots heavy r ≡ true
      → is_light roots heavy s ≡ true
      → overlap closures r s ≡ true
      → All (λ shard. contains shard r ≡ contains shard s) shards

-- Where `partition` returns, there are as many shards as asked for; each root is in exactly one of them,
-- once, and nothing else is; each heavy root is alone in one of the first shards; and two other roots
-- whose closures overlap are in the same shard.
pub partition-Partitioned :
    (roots heavy : List String) (count : ℤ) (closures : Dict (List String)) (costs : Dict Json)
    (default : ℤ) (shards : List (List String))
    → partition roots heavy count closures costs default ≡ ok shards
    → Partitioned roots heavy count closures shards
unfolding partition
partition-Partitioned roots heavy count closures costs default shards h =
    let ordered = sorted_set roots in
    let chosen = heavy_roots heavy ordered in
    let (n, is_n, h1) = >>=-eq-ok (or_raise (positive count) _) _ h in
    let (_, checked, h2) =
      >>=-eq-ok (check (ltb (length chosen) n && all is_origin (ordered ++ chosen)) _) _ h1 in
    let (d, _, h3) = >>=-eq-ok (or_raise (positive default) _) _ h2 in
    let (_, _, h4) =
      >>=-eq-ok
        (check (all (λ root. contains ordered root && is_natural (cost_value costs d root)) chosen)
          _)
        _ h3 in
    let (placed, is_placed, h5) = >>=-eq-ok (spread ordered chosen n closures costs d) _ h4 in
    let room : ltb (length chosen) n ≡ true = ground (arith, check-eq-ok _ _ checked) in
    let s =
      spread-Spreads ordered chosen n closures costs d placed is_placed
        (ltb→lt (length chosen) n room) (λ m. ground (arith, times-sorted_set m roots)) in
    subst (Partitioned roots heavy count closures) (ok-injective h5) (record {
      number =
          (positive-eq count n (or_raise-eq-ok _ _ is_n)).0
          ∙ ap pos (sym s.number ∙ length-roots_of placed);
      once = λ m. sym (total-roots_of m placed) ∙ s.once m ∙ times_lem roots heavy m;
      chosen = chosen;
      is_chosen = contains-chosen_of roots heavy;
      alone = s.alone;
      together = λ r t in_r in_t o. roots_of-Same r t placed (
          s.together r t (contains-light_of roots heavy r in_r)
            (contains-light_of roots heavy t in_t) o);
    })
