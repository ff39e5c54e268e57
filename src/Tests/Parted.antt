-- ===== src/Tests/Parted.antt =====
-- Five roots on three shards: one is heavy, and two have a dependency in common.
use freesense_os_base.Base.{◌≡◌, refl, String, List, [], ◌∷◌, ok, err, raised, map_results}
use freesense_os_base.Base.Sets.{Dict, add}
use freesense_os_base.Base.Json.{Json, int, pos, str}
use freesense_os_base.Shards.Partition.{Policy, partition, load_batches}
use freesense_os_base.Shards.Partition.Spread.{Partitioned, partition-Partitioned}
use freesense_os_base.Shards.Partition.Batched.{Cut, load_batches-Cut}
use freesense_os_base.Shards.{cost_of, cumulative, cut_all, cut_root, pieces}

abbrev roots : List String
roots = "x/d" ∷ "x/a" ∷ "x/b" ∷ "x/c" ∷ "x/a" ∷ "x/e" ∷ []

abbrev heavy : List String
heavy = "x/b" ∷ "x/z" ∷ []

abbrev closures : Dict (List String)
closures = ("x/a", "x/a" ∷ "y/l" ∷ []) ∷ ("x/d", "y/l" ∷ []) ∷ []

abbrev costs : Dict Json
costs = ("x/b", int (pos 9)) ∷ ("x/c", int (pos 7)) ∷ []

abbrev shards : List (List String)
shards = ("x/b" ∷ []) ∷ ("x/c" ∷ []) ∷ ("x/a" ∷ "x/d" ∷ "x/e" ∷ []) ∷ []

abbrev cuts : List (List (List String))
cuts =
    (("x/b" ∷ []) ∷ [])
    ∷ (("x/c" ∷ []) ∷ [])
    ∷ (("x/a" ∷ "x/d" ∷ []) ∷ ("x/a" ∷ "x/d" ∷ "x/e" ∷ []) ∷ [])
    ∷ []

partition_run : partition roots heavy (pos 3) closures costs (pos 2) ≡ ok shards
unfolding partition add map_results
partition_run = refl

heavy_refused :
    partition roots heavy (pos 1) closures costs (pos 2) ≡ err (raised "invalid shard root plan")
unfolding partition add
heavy_refused = refl

cost_refused :
    partition roots heavy (pos 3) closures (("x/b", str "9") ∷ []) (pos 2)
    ≡ err (raised "invalid measured root policy")
unfolding partition add
cost_refused = refl

abbrev policy : Policy
policy = record {
  heavy = heavy;
  count = pos 3;
  closures = closures;
  costs = costs;
  limit = pos 5;
  default_cost = pos 2;
}

load_batches_run : load_batches policy roots ≡ ok cuts
unfolding load_batches add map_results cut_all cost_of cumulative pieces cut_root
load_batches_run = refl

partition-Partitioned_example : Partitioned roots heavy (pos 3) closures shards
partition-Partitioned_example =
    partition-Partitioned roots heavy (pos 3) closures costs (pos 2) shards partition_run

load_batches-Cut_example :
    (shards : List (List String)) × Partitioned roots heavy (pos 3) closures shards
    × Cut costs 5 2 shards cuts
load_batches-Cut_example =
    load_batches-Cut roots heavy (pos 3) closures costs 5 2 cuts load_batches_run
