-- ===== src/Shards/Partition/Chosen.antt =====
-- `partition` of scripts/partition_roots.py: the heavy roots and the others.
use freesense_os_base.Base.{
  ◌+◌, ◌≡◌, sym, ap, ◌∙◌, String, Bool, ◌&&◌, not, true, List, ltb, if◌then◌else◌, keep_if, arith,
}
use freesense_os_base.Base.Sets.{contains}
use freesense_os_base.Shards.Partition.{sorted_set, heavy_roots}
use freesense_os_base.Shards.Partition.Times.{
  bit, times, contains-times, contains-sorted_set, times-sorted_set, times-keep_if,
}
use freesense_os_base.Shards.Partition.Placed.{}

-- A root that is no heavy one
abbrev pub is_light : List String → List String → String → Bool
is_light roots heavy n = contains roots n && not (contains heavy n)

pub contains-heavy_roots :
    (heavy ordered : List String) (n : String)
    → contains (heavy_roots heavy ordered) n ≡ (contains ordered n && contains heavy n)
unfolding heavy_roots
contains-heavy_roots heavy ordered n =
    contains-sorted_set (keep_if (contains ordered) heavy) n
    ∙ contains-times n (keep_if (contains ordered) heavy)
    ∙ ground (arith, times-keep_if (contains ordered) n heavy, contains-times n heavy)

times-heavy_roots :
    (heavy ordered : List String) (n : String)
    → times n (heavy_roots heavy ordered) ≡ bit (contains (heavy_roots heavy ordered) n)
unfolding heavy_roots
times-heavy_roots heavy ordered n =
    times-sorted_set n (keep_if (contains ordered) heavy)
    ∙ ap bit (sym (contains-sorted_set (keep_if (contains ordered) heavy) n))

module _ (roots heavy : List String) where
  abbrev pub chosen_of : List String
  chosen_of = heavy_roots heavy (sorted_set roots)

  abbrev pub light_of : List String
  light_of = keep_if (λ root. not (contains chosen_of root)) (sorted_set roots)

  pub contains-chosen_of :
      (n : String) → contains chosen_of n ≡ (contains roots n && contains heavy n)
  contains-chosen_of n =
      contains-heavy_roots heavy (sorted_set roots) n
      ∙ ap (λ b. b && contains heavy n) (contains-sorted_set roots n)

  times-light_of :
      (n : String)
      → times n light_of ≡ (if not (contains chosen_of n) then bit (contains roots n) else 0)
  times-light_of n =
      times-keep_if (λ root. not (contains chosen_of root)) n (sorted_set roots)
      ∙ ap (λ k. if not (contains chosen_of n) then k else 0) (times-sorted_set n roots)

  pub times_lem : (n : String) → times n chosen_of + times n light_of ≡ bit (contains roots n)
  times_lem n =
      ap (λ k. k + times n light_of) (times-heavy_roots heavy (sorted_set roots) n)
      ∙ ap (λ k. bit (contains chosen_of n) + k) (times-light_of n)
      ∙ ground (arith, contains-chosen_of n)

  pub contains-light_of : (n : String) → is_light roots heavy n ≡ true → contains light_of n ≡ true
  contains-light_of n h =
      contains-times n light_of
      ∙ ap (ltb 0) (times-light_of n)
      ∙ ground (arith, contains-chosen_of n)
