-- ===== src/Retention/Plan.antt =====
-- scripts/r2_retention.py: `plan_retention`, from the inventories to the report.
pub mod Inputs
pub mod Roots
pub mod Images
pub mod Closure
pub mod Candidates
pub mod Downloads
pub mod Elsewhere
pub mod Named
pub mod Keeps
pub mod Forever
use freesense_os_base.Base.{
  ℕ, String, ◌==◌, ◌<>◌, Bool, ◌&&◌, ◌||◌, not, true, false, Option, none, some, List, [], ◌∷◌,
  ◌++◌, map, keep_if, leb, if◌then◌else◌, Result, ok, err, fail, Error, raised, require, or_raise,
  ◌>>=◌, ◌>>◌, length, all,
}
use freesense_os_base.Base.Json.{
  Json, Members, member, done, str, arr, obj, null, get, items, is_object, is_array, is_text,
  is_null, texts, elements,
}
use freesense_os_base.Base.Sets.{Dict, add, add_all, contains, lookup}
use freesense_os_base.Base.Sort.{leb_text, sorted}
use freesense_os_base.Retention.Keys.{is_sha256, is_train}
use freesense_os_base.Retention.Runtime.{Runtime}
use freesense_os_base.Retention.Batch.{
  Stored, Candidate, Totals, candidate_totals, of_bucket, select_deletion_batch, max_delete_objects,
  max_delete_bytes,
}
use freesense_os_base.Retention.Report.{state_schema}
use freesense_os_base.Retention.Marker.{Entry, keep_newest_per_architecture}
use freesense_os_base.Retention.Locks.{Locks, lock_identities, collect_sha256}
use freesense_os_base.Retention.Plan.Inputs.{
  Inventory, Settings, Policy, checked_policy, check_inventory, Groups, no_groups, group_objects,
  read_markers,
}
use freesense_os_base.Retention.Plan.Roots.{
  Sorted, nothing_sorted, sort_entries, cycle_roots, all_channel_roots, train_text,
}
use freesense_os_base.Retention.Plan.Images.{multiarch_roots, newest_bundles}
use freesense_os_base.Retention.Plan.Closure.{closure}
use freesense_os_base.Retention.Plan.Candidates.{artifact_candidates, input_candidates}
use freesense_os_base.Retention.Plan.Downloads.{
  DownloadSet, sort_downloads, newest_downloads, release_roots, download_candidates, smoke_of,
}

-- The documents that `plan_retention` is given besides the inventories
pub record Documents : Type 0 where
  pub channels : Json
  pub pinned_inputs : List String
  pub multiarch : Json
  pub release_documents : Dict Json
  pub development_cycle : Json
  pub release_locks : List Json

-- `multiarch["architectures"]`, empty where there is no completion
abbrev pub members_of : Json → Members
members_of (obj ms) = ms
members_of _ = done

abbrev prefixes : List Entry → List String
prefixes = map (λ e. e.prefix)

-- The newest builds of each component, the newest mirrors and the newest bundles
unfoldable pub newest_roots : Policy → Sorted → List String
newest_roots p s =
    keep_newest_per_architecture s.devel_system p.keep_devel
    ++ keep_newest_per_architecture s.devel_packages p.keep_devel
    ++ keep_newest_per_architecture s.rolling_system p.keep_devel
    ++ keep_newest_per_architecture s.rolling_packages p.keep_devel
    ++ keep_newest_per_architecture s.mirrors p.keep_mirrors
    ++ newest_bundles p.keep_devel (s.isos ++ (s.clouds ++ s.appliances))

-- What a retained Development ISO adds: its Packages repository, or `none` for one from before
-- images named it
unfoldable pub iso_root : Entry → Result (Option (List String))
iso_root e =
    let inputs = get "inputs" e.marker in
    if e.kind == "iso" && is_text "devel" (get "channel" inputs)
    then named (get "packages" inputs) (get "package_train" inputs)
    else ok (some [])
  where
    at_train : String → Json → Result (Option (List String))
    at_train packages (str train) =
        if is_train train
        then ok (some (("v1/artifacts/packages/" <> train <> "/" <> packages) ∷ []))
        else fail "retained ISO has an invalid package train: "
    at_train packages _ = fail "retained ISO has an invalid package train: "

    named : Json → Json → Result (Option (List String))
    named (str packages) train =
        let at = at_train packages train in if is_sha256 packages then at else ok none
    named _ train = ok none

-- The Packages repositories of the retained ISOs, and whether one is from before
unfoldable pub iso_roots : Dict Entry → List String → Result (List String × Bool)
unfolding iso_root
iso_roots markers [] = ok ([], false)
iso_roots markers (p ∷ ps) = do
  here ← elim (lookup p markers) [ none ↦ ok (some []) | some e ↦ iso_root e ]
  rest ← iso_roots markers ps
  ok (elim here [ none ↦ (rest.0, true) | some roots ↦ (roots ++ rest.0, rest.1) ])

-- All that is protected before references are followed
pub record Protected : Type 0 where
  pub protected : List String
  pub warnings : List String

unfoldable pub with_legacy : Json → Sorted → List String → List String × Bool → Protected
with_legacy train s protected (found, legacy) =
    if legacy
    then record {
      protected = add_all (prefixes s.devel_packages) (add_all found protected);
      warnings =
          s.warnings
          ++ ("retained legacy Development ISO has no Packages fingerprint; protected all "
              <> train_text train
              <> " package repositories")
            ∷ [];
    }
    else record { protected = add_all found protected; warnings = s.warnings }

unfoldable pub protected_roots : Policy → Documents → Inventory → Dict Entry → Result Protected
protected_roots p docs build markers = do
  cycle ← cycle_roots p docs.development_cycle
  locks ← lock_identities docs.release_locks
  let s = sort_entries p locks (nothing_sorted cycle) markers
  completion ←
      multiarch_roots build docs.release_documents p.development_train
        (members_of (get "architectures" docs.multiarch))
  require (is_object docs.channels) "signed repository manifest has no channels"
  channels ← all_channel_roots (members_of docs.channels)
  let protected = add_all channels (add_all (newest_roots p s) (add_all completion s.protected))
  isos ← iso_roots markers protected
  ok (with_legacy p.development_train s protected isos)

-- The inputs that protected artifacts name
unfoldable pub protected_inputs : Dict Entry → List String → List String → List String
protected_inputs markers [] inputs = inputs
protected_inputs markers (p ∷ ps) inputs =
    protected_inputs markers ps
      (elim (lookup p markers) [ none ↦ inputs | some e ↦ collect_sha256 e.marker inputs ])

-- `len(groups) == len(set(groups))`
abbrev is_set : List String → Bool
is_set [] = true
is_set (g ∷ gs) = not (contains gs g) && is_set gs

-- `state_candidate_groups`: the pinned groups of a previous state
unfoldable pub state_candidate_groups : Json → Result (Option (List String))
state_candidate_groups previous =
    if is_object previous && is_text state_schema (get "schema_version" previous)
    then go (get "candidate_groups_sha256" previous)
    else ok none
  where
    checked : Option (List String) → Result (Option (List String))
    checked none = fail "previous retention state has invalid candidate groups"
    checked (some gs) =
        if is_set gs && all is_sha256 gs
        then ok (some gs)
        else fail "previous retention state has invalid candidate groups"

    go : Json → Result (Option (List String))
    go null = ok none
    go (arr es) = checked (texts (elements es))
    go _ = fail "previous retention state has invalid candidate groups"

-- The part of the report that says what goes and what stays
pub record Report : Type 0 where
  pub artifact_prefixes : List String
  pub input_objects : List String
  pub download_prefixes : List String
  pub smoke_objects : List String
  pub candidates : List Candidate
  pub eligible : List Candidate
  pub deferred : List Candidate
  pub totals : Totals
  pub build_totals : Totals
  pub downloads_totals : Totals
  pub warnings : List String

-- What is kept of downloads and smoke markers
pub record Others : Type 0 where
  pub downloads : List String
  pub smoke : List String
  pub warnings : List String

-- The key `(bucket, prefix)`
unfoldable pub leb_candidate : Candidate → Candidate → Bool
leb_candidate a b =
    not (leb_text b.bucket a.bucket) || a.bucket == b.bucket && leb_text a.prefix b.prefix

abbrev leb_group : String × List Stored → String × List Stored → Bool
leb_group (a, _) (b, _) = leb_text a b

abbrev pub release_keys : List String
release_keys =
    "v1/releases/devel.json" ∷ "v1/releases/devel.amd64.json" ∷ "v1/releases/devel.arm64.json" ∷ []

abbrev pub no_downloads : DownloadSet
no_downloads = record { groups = []; generations = []; protected = []; warnings = [] }

-- Texts without repetition, in order: `sorted(set(texts))`
abbrev sorted_set : List String → List String
sorted_set ts = sorted leb_text (add_all ts [])

module _ (rt : Runtime) where
  -- The candidates of the build bucket: artifacts, then inputs
  unfoldable pub build_candidates :
      Policy
      → Documents
      → Inventory
      → Dict Entry
      → Dict (List Stored)
      → List String
      → Result (List Candidate)
  build_candidates p docs build markers groups protected = do
    artifacts ← artifact_candidates rt p build.bucket markers protected (sorted leb_group groups)
    inputs ←
        input_candidates rt p build.bucket (protected_inputs markers protected docs.pinned_inputs)
          build.objects
    ok (artifacts ++ inputs)

  -- The candidates among downloads and smoke markers, with what is kept of either
  unfoldable pub other_candidates :
      Policy → Inventory → Inventory → Result (List Candidate × Others)
  other_candidates p build downloads = do
    let d = sort_downloads p.development_train no_downloads downloads.objects
    published ← release_roots build release_keys
    let kept = add_all published (add_all (newest_downloads p.keep_devel d.generations) d.protected)
    old_downloads ← download_candidates rt p downloads.bucket kept (sorted leb_group d.groups)
    build_smoke ← smoke_of rt p build
    downloads_smoke ← smoke_of rt p downloads
    ok (
      old_downloads ++ (build_smoke.1 ++ downloads_smoke.1),
      record {
        downloads = kept;
        smoke = build_smoke.0 ++ downloads_smoke.0;
        warnings = d.warnings;
      },
    )

  -- The batch of this run among all candidates
  unfoldable pub choose_batch :
      Inventory → List Candidate → Result (List Candidate × List Candidate)
  choose_batch build eligible = do
    previous ←
        state_candidate_groups
          (elim (lookup "v1/state/retention.json" build.documents) [ none ↦ null | some j ↦ j ])
    select_deletion_batch rt max_delete_objects max_delete_bytes eligible previous

  -- The rest of the plan, once the protected artifacts are known
  unfoldable pub plan_from :
      Policy
      → Documents
      → Inventory
      → Inventory
      → Dict Entry
      → Dict (List Stored)
      → List String
      → List String
      → Result Report
  plan_from p docs build downloads markers groups protected warnings = do
    artifacts ← build_candidates p docs build markers groups protected
    others ← other_candidates p build downloads
    let eligible = sorted leb_candidate (artifacts ++ others.0)
    batch ← choose_batch build eligible
    ok record {
      artifact_prefixes = sorted leb_text protected;
      input_objects = sorted leb_text (
          map (λ v. "v1/inputs/sha256/" <> v)
            (protected_inputs markers protected docs.pinned_inputs));
      download_prefixes = sorted leb_text others.1.downloads;
      smoke_objects = sorted leb_text others.1.smoke;
      candidates = batch.0;
      eligible = eligible;
      deferred = batch.1;
      totals = candidate_totals batch.0;
      build_totals = candidate_totals (of_bucket build.bucket batch.0);
      downloads_totals = candidate_totals (of_bucket downloads.bucket batch.0);
      warnings = sorted_set (warnings ++ others.1.warnings);
    }

  -- The plan for the markers of the build inventory
  unfoldable pub plan_markers :
      Policy → Documents → Inventory → Inventory → Dict (List Stored) → Dict Entry → Result Report
  plan_markers p docs build downloads groups markers = do
    roots ← protected_roots p docs build markers
    plan_from p docs build downloads markers groups (closure markers roots.protected) roots.warnings

  unfoldable pub plan_retention : Settings → Documents → Inventory → Inventory → Result Report
  plan_retention settings docs build downloads = do
    p ← checked_policy settings docs.channels
    check_inventory build "build"
    check_inventory downloads "downloads"
    let g = group_objects no_groups build.objects
    markers ← read_markers build g g.objects
    plan_markers p docs build downloads g.objects markers
