-- ===== src/Shards/Partition/Weighing.antt =====
-- `partition` of scripts/partition_roots.py: groups once they are weighed, and shards before they are filled.
use freesense_os_base.Base.{
  ℕ, zero, suc, ◌+◌, ◌≡◌, refl, sym, ap, ◌∙◌, String, false, List, [], ◌∷◌, map, length, sum_by,
  All, arith, ok, >>=-eq-ok, ok-injective, map_results,
}
use freesense_os_base.Base.Sets.{Dict, contains, contains-sorted}
use freesense_os_base.Base.Json.{Json}
use freesense_os_base.Base.Sort.{leb_text, sorted}
use freesense_os_base.Shards.Partition.{Weighed, Shard, empty_shards, sum_costs, weigh}
use freesense_os_base.Shards.Partition.Times.{times, times-sorted}
use freesense_os_base.Shards.Partition.Placed.{total, due, SameShard, SameGroup, roots_of, blanks}

abbrev pub single : String → List String
single root = root ∷ []

abbrev pub members_of : List Weighed → List (List String)
members_of = map (λ g. g.members)

module _ (costs : Dict Json) (default : ℕ) where
  weigh-members :
      (g : List String) (w : Weighed) → weigh costs default g ≡ ok w → sorted leb_text g ≡ w.members
  unfolding weigh
  weigh-members g w h =
      let (weight, _, h1) = >>=-eq-ok (sum_costs costs default g) _ h in
      ap (λ (x : Weighed). x.members) (ok-injective h1)

  pub weigh_all-members :
      (gs : List (List String)) (ws : List Weighed)
      → map_results (weigh costs default) gs ≡ ok ws
      → members_of ws ≡ map (sorted leb_text) gs
  unfolding map_results
  weigh_all-members [] ws h = ap members_of (sym (ok-injective h))
  weigh_all-members (g ∷ gs) ws h =
      let (w, is_w, h1) = >>=-eq-ok (weigh costs default g) _ h in
      let (rest, is_rest, h2) = >>=-eq-ok (map_results (weigh costs default) gs) _ h1 in
      ap members_of (sym (ok-injective h2))
      ∙ rw (sym (weigh-members g w is_w), weigh_all-members gs rest is_rest) refl

pub sorted_singles :
    (roots : List String) → map (sorted leb_text) (map single roots) ≡ map single roots
unfolding sorted
sorted_singles [] = refl
sorted_singles (r ∷ roots) = ap (λ l. (r ∷ []) ∷ l) (sorted_singles roots)

pub due-members : (n : String) (ws : List Weighed) → due n ws ≡ sum_by (times n) (members_of ws)
due-members n [] = refl
due-members n (w ∷ ws) = ap (λ k. times n w.members + k) (due-members n ws)

pub due-sorted_members :
    (n : String) (gs : List (List String))
    → sum_by (times n) (map (sorted leb_text) gs) ≡ sum_by (times n) gs
due-sorted_members n [] = refl
due-sorted_members n (g ∷ gs) = omega (arith, times-sorted leb_text n g, due-sorted_members n gs)

pub due_singles :
    (n : String) (roots : List String) → sum_by (times n) (map single roots) ≡ times n roots
due_singles n [] = refl
due_singles n (r ∷ roots) = omega (arith, due_singles n roots)

pub total-roots_of :
    (n : String) (shards : List Shard) → total n shards ≡ sum_by (times n) (roots_of shards)
total-roots_of n [] = refl
total-roots_of n (s ∷ shards) = ap (λ k. times n s.roots + k) (total-roots_of n shards)

pub length-roots_of : (shards : List Shard) → length shards ≡ length (roots_of shards)
length-roots_of [] = refl
length-roots_of (s ∷ shards) = ap suc (length-roots_of shards)

pub length-empty_shards : (n : ℕ) → length (empty_shards n) ≡ n
unfolding empty_shards
length-empty_shards zero = refl
length-empty_shards (suc n) = ap suc (length-empty_shards n)

pub total-empty_shards : (r : String) (n : ℕ) → total r (empty_shards n) ≡ 0
unfolding empty_shards
total-empty_shards r zero = refl
total-empty_shards r (suc n) = omega (arith, total-empty_shards r n)

pub empty_shards-SameShard : (r s : String) (n : ℕ) → All (SameShard r s) (empty_shards n)
unfolding empty_shards
empty_shards-SameShard r s zero = tt
empty_shards-SameShard r s (suc n) = (refl, empty_shards-SameShard r s n)

pub empty_shards-blanks : (n : ℕ) → roots_of (empty_shards n) ≡ blanks n
unfolding empty_shards
empty_shards-blanks zero = refl
empty_shards-blanks (suc n) = ap (λ l. [] ∷ l) (empty_shards-blanks n)

-- Groups that hold both roots or none, once they are weighed
pub members-SameGroup :
    (r s : String) (gs : List (List String)) (ws : List Weighed)
    → members_of ws ≡ map (sorted leb_text) gs
    → All (λ g. contains g r ≡ contains g s) gs
    → All (SameGroup r s) ws
members-SameGroup r s [] [] e h = tt
members-SameGroup r s [] (w ∷ ws) e h = absurd (cc e)
members-SameGroup r s (g ∷ gs) [] e h = absurd (cc e)
members-SameGroup r s (g ∷ gs) (w ∷ ws) e (h, hs) =
    let first : w.members ≡ sorted leb_text g = cc e in
    let rest : members_of ws ≡ map (sorted leb_text) gs = cc e in
    (
      rw first (contains-sorted leb_text g r ∙ h ∙ sym (contains-sorted leb_text g s)),
      members-SameGroup r s gs ws rest hs,
    )

-- A root that stands outside the list is in none of its single groups.
pub singles-Same :
    (r s : String) (roots : List String)
    → contains roots r ≡ false
    → contains roots s ≡ false
    → All (λ g. contains g r ≡ contains g s) (map single roots)
singles-Same r s [] no_r no_s = tt
singles-Same r s (x ∷ roots) no_r no_s =
    (ground arith, singles-Same r s roots (ground arith) (ground arith))

pub roots_of-Same :
    (r s : String) (shards : List Shard)
    → All (SameShard r s) shards
    → All (λ g. contains g r ≡ contains g s) (roots_of shards)
roots_of-Same r s [] h = tt
roots_of-Same r s (x ∷ shards) (h, hs) = (h, roots_of-Same r s shards hs)

pub length-single :
    (ws : List Weighed) (roots : List String)
    → members_of ws ≡ map single roots
    → length ws ≡ length roots
length-single [] [] e = refl
length-single [] (r ∷ roots) e = absurd (cc e)
length-single (w ∷ ws) [] e = absurd (cc e)
length-single (w ∷ ws) (r ∷ roots) e =
    let rest : members_of ws ≡ map single roots = cc e in ap suc (length-single ws roots rest)
