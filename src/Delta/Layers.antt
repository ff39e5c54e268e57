-- ===== src/Delta/Layers.antt =====
-- scripts/delta_closure.py: `plan`, which puts every package of the closure on one of two layers.
pub mod Complete
pub mod Apart
use freesense_os_base.Base.{
  ℕ, ◌+◌, ◌-◌, String, ◌==◌, Bool, ◌&&◌, ◌||◌, not, true, false, Option, none, some, List, [], ◌∷◌,
  ◌++◌, map, if◌then◌else◌, Result, ok, err, raised, ◌>>=◌, ◌>>◌, map_results, keep_if, length,
}
use freesense_os_base.Base.Json.{Json, str, get, as_text}
use freesense_os_base.Base.Sets.{Dict, contains, add_all, lookup}
use freesense_os_base.Base.Sort.{leb_text, sorted}
use freesense_os_base.Delta.Worklist.{names, dependents, reachable}
use freesense_os_base.Delta.Records.{requirement_records, published, root_names}
use freesense_os_base.Delta.Classify.{classify, Churned, churn}

-- A package and its port origin
pub record Ported : Type 0 where
  pub name : String
  pub origin : Json

-- An entry of `build`
pub record Built : Type 0 where
  pub name : String
  pub origin : Json
  pub cause : String

pub record Counts : Type 0 where
  pub records : ℕ
  pub customized : ℕ
  pub cascade : ℕ
  pub build : ℕ
  pub take : ℕ
  pub causes : Dict ℕ

-- The document that `plan` returns
pub record Delta : Type 0 where
  pub schema_version : String
  pub abi : Json
  pub build : List Built
  pub take : List String
  pub system : List String
  pub optional : List String
  pub collisions : List Ported
  pub churn : List Churned
  pub counts : Counts

-- `set(a) & set(b)` and `set(a) - set(b)`, for `a` without repetition
abbrev pub both : List String → List String → List String
both a b = keep_if (contains b) a

abbrev pub minus : List String → List String → List String
minus a b = keep_if (λ x. not (contains b x)) a

-- `records[name]["origin"]`
unfoldable pub origin_of : Dict Json → String → Result Json
unfolding lookup
origin_of records name = elim (lookup name records) [
  | none ↦ err (raised "KeyError")
  | some r ↦ ok (get "origin" r)
]

-- `causes.get(name, "reverse-dependency")`
abbrev cause_of : Dict String → String → String
cause_of causes name = elim (lookup name causes) [
  | none ↦ "reverse-dependency"
  | some reason ↦ reason
]

unfoldable pub built : Dict Json → Dict String → String → Result Built
unfolding origin_of
built records causes name = do
  origin ← origin_of records name
  ok (record { name = name; origin = origin; cause = cause_of causes name })

unfoldable pub ported : Dict Json → String → Result Ported
unfolding origin_of
ported records name = do
  origin ← origin_of records name
  ok (record { name = name; origin = origin })

-- `{reason: … for reason in sorted(set(causes.values()))}`
unfoldable pub cause_counts : Dict String → Dict ℕ
cause_counts causes =
    map (λ reason. (reason, length (keep_if (λ e. e.1 == reason) causes)))
      (sorted leb_text (add_all (map (λ e. e.1) causes) []))

-- The locals of `plan` once the packages are classified
pub record Layers : Type 0 where
  pub records : Dict Json
  pub upstream : Dict Json
  pub causes : Dict String
  pub cascade : List String
  pub build : List String

unfoldable pub layers : Json → List Json → List String → Result Layers
layers requirements catalogue overridden = do
  records ← requirement_records requirements
  let upstream = published catalogue
  causes ← classify records overridden upstream
  let cascade = dependents records (names causes)
  ok (record {
    records = records;
    upstream = upstream;
    causes = causes;
    cascade = cascade;
    build = names causes ++ cascade;
  })

unfoldable pub delta_of : Json → Layers → Result Delta
unfolding built ported cause_counts
delta_of requirements l = do
  system ← reachable l.records (root_names "system" requirements)
  optional ← reachable l.records (root_names "packages" requirements)
  build ← map_results (built l.records l.causes) (sorted leb_text l.build)
  collisions ← map_results (ported l.records) (sorted leb_text (both l.build (names l.upstream)))
  drift ← churn l.records l.upstream l.build
  ok (record {
    schema_version = "freesense.delta-closure/v1";
    abi = get "abi" requirements;
    build = build;
    take = sorted leb_text (minus (names l.records) l.build);
    system = sorted leb_text (both system l.build);
    optional = sorted leb_text (both optional l.build);
    collisions = collisions;
    churn = drift;
    counts = record {
      records = length l.records;
      customized = length l.causes;
      cascade = length l.cascade;
      build = length l.build;
      take = length l.records - length l.build;
      causes = cause_counts l.causes;
    };
  })

-- `plan`; `overridden` is the result of `overrides(make_conf)`.
unfoldable pub plan : Json → List Json → List String → Result Delta
plan requirements catalogue overridden = do
  l ← layers requirements catalogue overridden
  delta_of requirements l
