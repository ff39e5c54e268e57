-- ===== src/Shards/Partition.antt =====
-- scripts/partition_roots.py: `partition`, which spreads the roots of a component over the shards, and
-- `load_batches`, which cuts each shard into batches.
pub mod Times
pub mod Merged
pub mod Placed
pub mod Weighing
pub mod Chosen
pub mod Spread
pub mod Batched
use Prim.Native.Char.{code}
use freesense_os_base.Base.{
  ℕ, zero, suc, ◌+◌, ◌-◌, String, ◌==◌, Bool, ◌&&◌, ◌||◌, not, true, false, Option, none, some,
  List, [], ◌∷◌, ◌++◌, map, ltb, leb, nat_eq, if◌then◌else◌, Result, ok, err, raised, ◌>>=◌, ◌>>◌,
  or_raise, length, keep_if, any, all, map_results,
}
use freesense_os_base.Base.Text.{is_digit, span, is_empty, strip_prefix}
use freesense_os_base.Base.Sets.{Dict, contains, add_all, lookup}
use freesense_os_base.Base.Json.{Json, ℤ, pos, negsuc, int, as_int}
use freesense_os_base.Base.Sort.{leb_text, sorted}
use freesense_os_base.Delta.Records.{check}
use freesense_os_base.Shards.{positive, batches}
use freesense_os_base.Shards.Cover.{join}

infixl 6 ◌+ℤ◌
unfoldable ◌+ℤ◌ : ℤ → ℤ → ℤ
pos a +ℤ pos b = pos (a + b)
pos a +ℤ negsuc b = if ltb b a then pos (a - suc b) else negsuc (b - a)
negsuc a +ℤ pos b = if ltb a b then pos (b - suc a) else negsuc (a - b)
negsuc a +ℤ negsuc b = negsuc (suc (a + b))

abbrev leb_ℤ : ℤ → ℤ → Bool
leb_ℤ (pos a) (pos b) = leb a b
leb_ℤ (pos a) (negsuc b) = false
leb_ℤ (negsuc a) (pos b) = true
leb_ℤ (negsuc a) (negsuc b) = leb b a

abbrev is_alnum : ℕ → Bool
is_alnum c = is_digit c || (leb b'a' c && leb c b'z') || (leb b'A' c && leb c b'Z')

-- `[A-Za-z0-9+_.-]`
abbrev is_name_char : ℕ → Bool
is_name_char c = is_alnum c || nat_eq c b'+' || nat_eq c b'_' || nat_eq c b'.' || nat_eq c b'-'

-- `[A-Za-z0-9][A-Za-z0-9+_.-]*` at the front of the text, greedy: the rest
unfoldable take_name : String → Option String
unfolding span
take_name String.[] = none
take_name (String.◌∷◌ c s) =
    let (name, rest) = span is_name_char s in if is_alnum (code c) then some rest else none

-- `ORIGIN.fullmatch(text)`. No name has a `/` or an `@`.
unfoldable pub is_origin : String → Bool
unfolding take_name strip_prefix is_empty
is_origin s = elim (take_name s) [
  | none ↦ false
  | some s ↦ elim (strip_prefix "/" s) [
    | none ↦ false
    | some s ↦ elim (take_name s) [
      | none ↦ false
      | some s ↦ elim (strip_prefix "@" s) [
        | none ↦ is_empty s
        | some s ↦ elim (take_name s) [ none ↦ false | some s ↦ is_empty s ]
      ]
    ]
  ]
]

-- `sorted(set(texts))`
unfoldable pub sorted_set : List String → List String
unfolding add_all sorted
sorted_set texts = sorted leb_text (add_all texts [])

-- `costs.get(root, default_cost)`
unfoldable pub cost_value : Dict Json → ℕ → String → Json
unfolding lookup
cost_value costs default root = elim (lookup root costs) [ none ↦ int (pos default) | some v ↦ v ]

abbrev pub is_natural : Json → Bool
is_natural (int (pos n)) = true
is_natural _ = false

-- `set(closures.get(root, [root])) | {root}`
unfoldable pub closure_of : Dict (List String) → String → List String
unfolding lookup
closure_of closures root = elim (lookup root closures) [
  | none ↦ root ∷ []
  | some deps ↦ root ∷ deps
]

-- The closures of two roots share a dependency.
unfoldable pub overlap : Dict (List String) → String → String → Bool
unfolding closure_of
overlap closures root item = any (contains (closure_of closures item)) (closure_of closures root)

-- The body of the loop that unites roots, over the groups that are not heavy. No root is in two groups, so
-- that `groups.remove(group)` takes just the group, and the union has no root twice.
unfoldable pub merge : Dict (List String) → List (List String) → String → List (List String)
unfolding overlap join
merge closures groups root =
    let hit = any (overlap closures root) in
    keep_if (λ group. not (hit group)) groups ++ (root ∷ join (keep_if hit groups)) ∷ []

unfoldable pub merge_all :
    Dict (List String) → List (List String) → List String → List (List String)
unfolding merge
merge_all closures groups [] = groups
merge_all closures groups (root ∷ roots) = merge_all closures (merge closures groups root) roots

-- A group with its roots in order, and the sum of their costs
pub record Weighed : Type 0 where
  pub members : List String
  pub weight : ℤ

-- `sum(costs.get(root, default_cost) for root in group)`. In Python a `bool` is an `int`.
unfoldable pub sum_costs : Dict Json → ℕ → List String → Result ℤ
unfolding cost_value ◌+ℤ◌
sum_costs costs default [] = ok (pos 0)
sum_costs costs default (root ∷ roots) = do
  cost ← or_raise (as_int (cost_value costs default root)) (raised "TypeError")
  rest ← sum_costs costs default roots
  ok (cost +ℤ rest)

unfoldable pub weigh : Dict Json → ℕ → List String → Result Weighed
unfolding sum_costs
weigh costs default group = do
  weight ← sum_costs costs default group
  ok (record { members = sorted leb_text group; weight = weight })

-- `<=` on lists of texts
leb_texts : List String → List String → Bool
leb_texts [] ys = true
leb_texts (x ∷ xs) [] = false
leb_texts (x ∷ xs) (y ∷ ys) = let rest = leb_texts xs ys in if x == y then rest else leb_text x y

-- The order of the keys `(-sum(…), sorted(group))`
unfoldable pub heavier : Weighed → Weighed → Bool
unfolding leb_texts
heavier a b =
    if leb_ℤ a.weight b.weight && leb_ℤ b.weight a.weight
    then leb_texts a.members b.members
    else leb_ℤ b.weight a.weight

-- An element of `shards`, with that of `loads`
pub record Shard : Type 0 where
  pub roots : List String
  pub load : ℤ

abbrev pub empty_shard : Shard
empty_shard = record { roots = []; load = pos 0 }

unfoldable pub empty_shards : ℕ → List Shard
empty_shards zero = []
empty_shards (suc count) = empty_shard ∷ empty_shards count

-- `shards[index].extend(sorted(group)); loads[index] += …`
unfoldable pub extend_shard : Weighed → Shard → Shard
unfolding ◌+ℤ◌
extend_shard group shard = record {
  roots = shard.roots ++ group.members;
  load = shard.load +ℤ group.weight;
}

unfoldable pub extend_at : ℕ → Weighed → List Shard → List Shard
unfolding extend_shard
extend_at index group [] = []
extend_at zero group (shard ∷ shards) = extend_shard group shard ∷ shards
extend_at (suc index) group (shard ∷ shards) = shard ∷ extend_at index group shards

-- The least load with its first index, from a given one on
unfoldable pub least : ℤ → List Shard → ℤ × ℕ
least load [] = (load, 0)
least load (shard ∷ shards) =
    let (low, index) = least shard.load shards in
    if leb_ℤ load low then (load, 0) else (low, suc index)

-- `min(range(len(heavy), count), key=lambda i: (loads[i], i))`, as a distance from `len(heavy)`
unfoldable pub lightest : List Shard → ℕ
unfolding least
lightest [] = 0
lightest (shard ∷ shards) = (least shard.load shards).1

abbrev pub skip_shards : ℕ → List Shard → List Shard
skip_shards zero shards = shards
skip_shards (suc n) [] = []
skip_shards (suc n) (shard ∷ shards) = skip_shards n shards

-- The loop over the groups, from the index of the first
unfoldable pub place_all : ℕ → ℕ → List Shard → List Weighed → List Shard
unfolding extend_at lightest
place_all heavy group_index shards [] = shards
place_all heavy group_index shards (group ∷ groups) =
    let index =
      if ltb group_index heavy then group_index else heavy + lightest (skip_shards heavy shards) in
    place_all heavy (suc group_index) (extend_at index group shards) groups

-- The loops, for roots and heavy roots in order
unfoldable pub spread :
    List String → List String → ℕ → Dict (List String) → Dict Json → ℕ → Result (List Shard)
unfolding merge_all weigh heavier place_all empty_shards
spread ordered heavy count closures costs default = do
  alone ← map_results (weigh costs default) (map (λ root. root ∷ []) heavy)
  light ←
      map_results (weigh costs default)
        (merge_all closures [] (keep_if (λ root. not (contains heavy root)) ordered))
  ok (place_all (length heavy) 0 (empty_shards count) (alone ++ sorted heavier light))

-- `set(heavy) & set(ordered)`, sorted
unfoldable pub heavy_roots : List String → List String → List String
unfolding sorted_set
heavy_roots heavy ordered = sorted_set (keep_if (contains ordered) heavy)

-- `partition`. A count or a default that is no integer is refused like one that is not positive.
unfoldable pub partition :
    List String → List String → ℤ → Dict (List String) → Dict Json → ℤ → Result (List (List String))
unfolding is_origin cost_value heavy_roots spread
partition roots heavy count closures costs default_cost = do
  let ordered = sorted_set roots
  let chosen = heavy_roots heavy ordered
  n ← or_raise (positive count) (raised "invalid shard root plan")
  check (ltb (length chosen) n && all is_origin (ordered ++ chosen)) "invalid shard root plan"
  default ← or_raise (positive default_cost) (raised "invalid default root cost")
  check (all (λ root. contains ordered root && is_natural (cost_value costs default root)) chosen)
      "invalid measured root policy"
  shards ← spread ordered chosen n closures costs default
  ok (map (λ shard. shard.roots) shards)

-- What the policy file says of a component
pub record Policy : Type 0 where
  pub heavy : List String
  pub count : ℤ
  pub closures : Dict (List String)
  pub costs : Dict Json
  pub limit : ℤ
  pub default_cost : ℤ

unfoldable pub load_batches : Policy → List String → Result (List (List (List String)))
unfolding partition batches
load_batches policy roots = do
  shards ←
      partition roots policy.heavy policy.count policy.closures policy.costs policy.default_cost
  map_results (λ shard. batches shard policy.costs policy.limit policy.default_cost) shards
