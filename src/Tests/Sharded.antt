-- ===== src/Tests/Sharded.antt =====
-- Three roots, of which one costs more than a batch may.
use freesense_os_base.Base.{true, all, err, raised, ◌≡◌, refl, String, List, [], ◌∷◌, ok, All}
use freesense_os_base.Base.Sets.{Dict, lookup}
use freesense_os_base.Base.Json.{Json, int, pos, str}
use freesense_os_base.Shards.{cost_of, cut_root, cut_all, pieces, cumulative, batches}
use freesense_os_base.Shards.Cover.{join, Fits, batches-cover, has_cost, Outcome, batches-Outcome}

abbrev roots : List String
roots = "x/a" ∷ "x/b" ∷ "x/c" ∷ []

abbrev costs : Dict Json
costs = ("x/b", int (pos 9)) ∷ []

abbrev cut : List (List String)
cut = ("x/a" ∷ []) ∷ ("x/a" ∷ "x/b" ∷ []) ∷ ("x/a" ∷ "x/b" ∷ "x/c" ∷ []) ∷ []

batches_run : batches roots costs (pos 5) (pos 2) ≡ ok cut
unfolding batches cut_all cost_of lookup cut_root pieces cumulative
batches_run = refl

batches-cover_example :
    (ps : List (List String)) × (cut ≡ cumulative [] ps)
    × (join ps ≡ roots)
    × All (Fits costs 5 2) ps
batches-cover_example = batches-cover roots costs 5 2 cut batches_run

all_priced : all (has_cost costs) roots ≡ true
unfolding has_cost lookup
all_priced = refl

cost_refused :
    batches roots (("x/b", str "9") ∷ []) (pos 5) (pos 2) ≡ err (raised "invalid measured cost: ")
unfolding batches cut_all cost_of lookup
cost_refused = refl

batches-Outcome_example :
    Outcome costs 5 2 roots (all (has_cost costs) roots) (batches roots costs (pos 5) (pos 2))
batches-Outcome_example = batches-Outcome roots costs 4 1
