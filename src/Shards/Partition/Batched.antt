-- ===== src/Shards/Partition/Batched.antt =====
-- `load_batches` of scripts/partition_roots.py: the batches of all shards.
use freesense_os_base.Base.{
  ℕ, ◌≡◌, refl, sym, ◌∙◌, String, List, [], ◌∷◌, map, All, ok, >>=-eq-ok, ok-injective, map_results,
}
use freesense_os_base.Base.Sets.{Dict}
use freesense_os_base.Base.Json.{Json, ℤ, pos}
use freesense_os_base.Shards.{cumulative, batches}
use freesense_os_base.Shards.Cover.{join, Fits, batches-cover}
use freesense_os_base.Shards.Partition.{partition, load_batches}
use freesense_os_base.Shards.Partition.Spread.{Partitioned, partition-Partitioned}

-- The batches of each shard: one after another they are the shard, and each fits.
pub record Cut (costs : Dict Json) (limit default : ℕ) (shards : List (List String))
    (result : List (List (List String))) : Type 0 where
  pub pieces : List (List (List String))
  pub growing : result ≡ map (cumulative []) pieces
  pub cover : map join pieces ≡ shards
  pub fit : All (All (Fits costs limit default)) pieces

shards-Cut :
    (costs : Dict Json) (limit default : ℕ) (shards : List (List String))
    (result : List (List (List String)))
    → map_results (λ shard. batches shard costs (pos limit) (pos default)) shards ≡ ok result
    → Cut costs limit default shards result
unfolding map_results
shards-Cut costs limit default [] result h = record {
  pieces = [];
  growing = sym (ok-injective h);
  cover = refl;
  fit = tt;
}
shards-Cut costs limit default (shard ∷ shards) result h =
    let (first, is_first, h1) = >>=-eq-ok (batches shard costs (pos limit) (pos default)) _ h in
    let (others, are_others, h2) =
      >>=-eq-ok (map_results (λ s. batches s costs (pos limit) (pos default)) shards) _ h1 in
    let (ps, growing, cover, fit) = batches-cover shard costs limit default first is_first in
    let rest = shards-Cut costs limit default shards others are_others in
    record {
      pieces = ps ∷ rest.pieces;
      growing = sym (ok-injective h2) ∙ rw (growing, rest.growing) refl;
      cover = rw (cover, rest.cover) refl;
      fit = (fit, rest.fit);
    }

-- Where `load_batches` returns for a policy, the shards part the roots as `partition` does, and the
-- batches of each shard are, one after another, the shard, each within the limit or a single root.
pub load_batches-Cut :
    (roots heavy : List String) (count : ℤ) (closures : Dict (List String)) (costs : Dict Json)
    (limit default : ℕ) (result : List (List (List String)))
    → load_batches
        (record {
          heavy = heavy;
          count = count;
          closures = closures;
          costs = costs;
          limit = pos limit;
          default_cost = pos default;
        })
        roots
      ≡ ok result
    → (shards : List (List String)) × Partitioned roots heavy count closures shards
      × Cut costs limit default shards result
unfolding load_batches
load_batches-Cut roots heavy count closures costs limit default result h =
    let (shards, are_shards, h1) =
      >>=-eq-ok (partition roots heavy count closures costs (pos default)) _ h in
    (
      shards,
      partition-Partitioned roots heavy count closures costs (pos default) shards are_shards,
      shards-Cut costs limit default shards result h1,
    )
