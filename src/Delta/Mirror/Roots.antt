-- ===== src/Delta/Mirror/Roots.antt =====
-- scripts/mirror_plan.py: `component_roots`, the port origins that each build stage starts from.
use freesense_os_base.Base.{
  String, Bool, ◌||◌, not, true, false, none, some, List, [], ◌∷◌, ◌++◌, map, Result, ok, ◌>>=◌,
  ◌>>◌, all, any, length, ltb,
}
use freesense_os_base.Base.Json.{as_text}
use freesense_os_base.Base.Sets.{Dict, contains, insert, lookup, push}
use freesense_os_base.Base.Sort.{leb_text, sorted}
use freesense_os_base.Delta.Worklist.{names}
use freesense_os_base.Delta.Records.{check}
use freesense_os_base.Delta.Layers.{Built, Delta}

pub record ComponentRoots : Type 0 where
  pub system : List String
  pub optional : List String

origins_from : Dict String → List Built → Result (Dict String)
origins_from origins [] = ok origins
origins_from origins (b ∷ bs) = do
  origin ← as_text b.origin
  origins_from (insert b.name origin origins) bs

-- `{item["name"]: item["origin"] for item in delta["build"]}`
unfoldable pub origin_texts : List Built → Result (Dict String)
unfolding origins_from
origin_texts = origins_from []

-- `shared.setdefault(origins[name], []).append(name)` for each name
unfoldable pub share : Dict String → Dict (List String) → List String → Dict (List String)
share origins shared [] = shared
share origins shared (n ∷ ns) = elim (lookup n origins) [
  | none ↦ share origins shared ns
  | some origin ↦ share origins (push origin n shared) ns
]

-- The body of the loop, for one component
unfoldable pub resolve_component : Dict String → List String → Result (List String)
unfolding share
resolve_component origins ns = do
  check (all (contains (names origins)) ns) "names packages outside the delta: "
  let shared = share origins [] ns
  check (not (any (λ e. ltb 1 (length e.1)) shared))
      "packages sharing one flavourless origin, which a bulk list cannot distinguish: "
  ok (sorted leb_text (names shared))

abbrev is_nonempty : {A : Type 0} → List A → Bool
is_nonempty [] = false
is_nonempty (x ∷ xs) = true

unfoldable pub component_roots : Delta → Result ComponentRoots
unfolding origin_texts resolve_component
component_roots delta = do
  origins ← origin_texts delta.build
  system ← resolve_component origins delta.system
  optional ← resolve_component origins delta.optional
  let covered = system ++ optional
  check (all (contains (map (λ e. e.1) origins)) covered)
      "the component split names origins outside the delta"
  check (not (is_nonempty origins) || is_nonempty covered)
      "the delta has packages but the component split is empty"
  ok (record { system = system; optional = optional })
