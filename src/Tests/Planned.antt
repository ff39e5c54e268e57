-- ===== src/Tests/Planned.antt =====
-- A plan over one Stable installer image and the repository that it refers to.
use freesense_os_base.Base.{
  ◌==◌, false, sym, subst, arith, eq_iff, Bool-cases, inl, inr, ◌≡◌, refl, String, ◌<>◌, true, none,
  some, List, [], ◌∷◌, ok,
}
use freesense_os_base.Base.Sets.{Dict, contains, lookup, push, insert, add}
use freesense_os_base.Base.Json.{find, get, Json, null, str, int, obj, pos, member, done}
use freesense_os_base.Retention.Batch.{Stored, candidate_totals, select_deletion_batch}
use freesense_os_base.Retention.Marker.{
  Entry, marker_identity, generation_of, check_marker, keep_newest_per_architecture,
}
use freesense_os_base.Retention.Plan.{
  Documents, Report, plan_retention, newest_roots, iso_roots, with_legacy, protected_roots,
  protected_inputs, state_candidate_groups, build_candidates, other_candidates, choose_batch,
  plan_from, plan_markers,
}
use freesense_os_base.Retention.Plan.Inputs.{
  at_least_one, not_negative, cutoff, Inventory, Settings, Policy, checked_policy, no_groups,
  group_objects, read_markers, check_inventory,
}
use freesense_os_base.Retention.Plan.Closure.{
  references, references_of, closure, close, all_references,
}
use freesense_os_base.Retention.Plan.Closure.Laws.{
  IsClosed, closure_mono, closure-references, closure-least,
}
use freesense_os_base.Retention.Locks.{lock_identities, sha256_of_text, collect_sha256}
use freesense_os_base.Retention.Keys.{is_sha256, is_train, classify_artifact_key}
use freesense_os_base.Retention.Report.{is_sha256_text}
use freesense_os_base.Base.Text.{size, is_empty}
use freesense_os_base.Retention.Plan.Keeps.{is_forever}
use freesense_os_base.Retention.Plan.Forever.{KeepsArtifact, plan_retention-forever}
use freesense_os_base.Tests.Sample.{runtime, digest_a, digest_b}
use freesense_os_base.Retention.Plan.Candidates.{artifact_candidates, input_candidates}
use freesense_os_base.Retention.Plan.Downloads.{
  sort_downloads, newest_downloads, release_roots, download_candidates, smoke_of,
}
use freesense_os_base.Retention.Plan.Roots.{cycle_roots, sort_entries, all_channel_roots}
use freesense_os_base.Retention.Plan.Images.{multiarch_roots, newest_bundles}

abbrev marker : Json
marker = obj (
    member "schema_version" (str "freesense.iso/v2") (
      member "fingerprint" (str digest_a) (
        member "generation" (int (pos 3)) (
          member "system" (str digest_b) (
            member "inputs"
              (obj (
                member "channel" (str "stable")
                  (member "packages" (str digest_b) (member "package_train" (str "1.0") done))))
              done)))))

abbrev image : Entry
image = record {
  prefix = "v1/artifacts/iso/" <> digest_a;
  kind = "iso";
  train = none;
  fingerprint = digest_a;
  generation = 3;
  marker = marker;
}

abbrev markers : Dict Entry
markers = (image.prefix, image) ∷ []

image_refers :
    contains (references_of markers image.prefix) ("v1/artifacts/system/" <> digest_b) ≡ true
unfolding references_of lookup references find get is_sha256 size
image_refers = refl

image_kept : contains (closure markers (image.prefix ∷ [])) image.prefix ≡ true
image_kept = closure_mono markers (image.prefix ∷ []) image.prefix refl

system_kept :
    contains (closure markers (image.prefix ∷ [])) ("v1/artifacts/system/" <> digest_b) ≡ true
unfolding closure close all_references references_of lookup references find get is_sha256 size
    is_empty add
system_kept = refl

closure-references_example :
    contains (closure markers (image.prefix ∷ [])) ("v1/artifacts/system/" <> digest_b) ≡ true
closure-references_example =
    closure-references markers (image.prefix ∷ []) image.prefix ("v1/artifacts/system/" <> digest_b)
      image_kept image_refers

-- The image and the two repositories that its marker names
abbrev referred : List String
referred = ("v1/artifacts/system/" <> digest_b) ∷ ("v1/artifacts/packages/1.0/" <> digest_b) ∷ []

abbrev closed_set : List String
closed_set = image.prefix ∷ referred

image_references : references_of markers image.prefix ≡ referred
unfolding references_of lookup references find get is_sha256 size is_empty
image_references = refl

others_refer_to_nothing : (p : String) → (image.prefix == p) ≡ false → references_of markers p ≡ []
unfolding references_of lookup
others_refer_to_nothing p other = rw (other, lookup, references_of) refl

closed_set-IsClosed : IsClosed markers closed_set
closed_set-IsClosed p r h m = elim (Bool-cases (image.prefix == p)) [
  | inl here ↦
      let at : contains (references_of markers image.prefix) r ≡ true =
        subst (λ x. contains (references_of markers x) r ≡ true)
          (sym ((eq_iff image.prefix p).0 here)) m in
      let named : contains referred r ≡ true =
        subst (λ l. contains l r ≡ true) image_references at in
      in_closed_set r named
  | inr other ↦
      absurd (no_member r (subst (λ l. contains l r ≡ true) (others_refer_to_nothing p other) m))
]
  where
    in_closed_set : (k : String) → contains referred k ≡ true → contains closed_set k ≡ true
    in_closed_set k e = ground (arith, e)

    no_member : (k : String) → contains [] k ≡ true → ⊥
    no_member k e = cc e

root_in_closed_set :
    (k : String) → contains (image.prefix ∷ []) k ≡ true → contains closed_set k ≡ true
root_in_closed_set k e = ground (arith, e)

-- The loop has added the System repository, which lies in the closed set.
closure-least_example : contains closed_set ("v1/artifacts/system/" <> digest_b) ≡ true
closure-least_example =
    closure-least markers (image.prefix ∷ []) closed_set closed_set-IsClosed root_in_closed_set
      ("v1/artifacts/system/" <> digest_b) system_kept

abbrev object : String → Stored
object key = record { key = key; size = 5; last_modified = "+"; etag = "" }

abbrev inventory : String → List Stored → Dict Json → Inventory
inventory kind objects documents = record {
  schema_version = "freesense.r2-inventory/v1";
  kind = kind;
  bucket = kind;
  objects = objects;
  documents = documents;
  document_hashes = [];
}

abbrev build : Inventory
build =
    inventory "build"
      (object (image.prefix <> "/image.iso") ∷ object (image.prefix <> "/complete.json") ∷ [])
      ((image.prefix <> "/complete.json", marker) ∷ [])

abbrev downloads : Inventory
downloads = inventory "downloads" [] []

abbrev settings : Settings
settings = record {
  now = record { utc = 9; has_zone = true };
  keep_devel = pos 1;
  keep_mirrors = pos 1;
  smoke_keep = pos 1;
  grace = pos 2;
  completed_grace = pos 0;
  stable_train = some "1.0";
  development_train = some "1.1";
}

abbrev documents : Documents
documents = record {
  channels = obj done;
  pinned_inputs = [];
  multiarch = null;
  release_documents = [];
  development_cycle = null;
  release_locks = [];
}

abbrev policy : Policy
policy = record {
  keep_devel = 1;
  keep_mirrors = 1;
  smoke_keep = 1;
  orphan_cutoff = 7;
  completed_cutoff = 9;
  stable_train = str "1.0";
  development_train = str "1.1";
}

abbrev report : Report
report = record {
  artifact_prefixes =
      image.prefix
      ∷ ("v1/artifacts/packages/1.0/" <> digest_b)
      ∷ ("v1/artifacts/system/" <> digest_b)
      ∷ [];
  input_objects = ("v1/inputs/sha256/" <> digest_a) ∷ ("v1/inputs/sha256/" <> digest_b) ∷ [];
  download_prefixes = [];
  smoke_objects = [];
  candidates = [];
  eligible = [];
  deferred = [];
  totals = candidate_totals [];
  build_totals = candidate_totals [];
  downloads_totals = candidate_totals [];
  warnings = [];
}

policy_run : checked_policy settings documents.channels ≡ ok policy
unfolding checked_policy at_least_one not_negative is_train cutoff
policy_run = refl

markers_run :
    read_markers build
      (group_objects no_groups build.objects)
      (group_objects no_groups build.objects).objects
    ≡ ok markers
unfolding read_markers group_objects classify_artifact_key push insert marker_identity get
    generation_of check_marker is_sha256_text is_sha256 size
markers_run = refl

plan_run : plan_retention runtime settings documents build downloads ≡ ok report
unfolding newest_roots iso_roots with_legacy protected_roots protected_inputs state_candidate_groups
    build_candidates other_candidates choose_batch plan_from plan_markers plan_retention
    select_deletion_batch artifact_candidates input_candidates at_least_one not_negative cutoff
    checked_policy check_inventory group_objects read_markers is_sha256_text lock_identities
    sha256_of_text sort_downloads newest_downloads release_roots download_candidates smoke_of size
    generation_of check_marker marker_identity keep_newest_per_architecture is_sha256
    classify_artifact_key is_train close all_references closure cycle_roots sort_entries
    all_channel_roots multiarch_roots newest_bundles get add collect_sha256
plan_run = refl

locks_run : lock_identities documents.release_locks ≡ ok (record { systems = []; packages = [] })
unfolding lock_identities
locks_run = refl

image_found : lookup image.prefix markers ≡ some image
unfolding lookup
image_found = refl

image_forever : is_forever policy (record { systems = []; packages = [] }) image ≡ true
unfolding is_forever get
image_forever = refl

plan_retention-forever_example : KeepsArtifact report image
plan_retention-forever_example =
    plan_retention-forever runtime settings documents build downloads report policy
      (record { systems = []; packages = [] }) markers image.prefix image plan_run policy_run
      locks_run markers_run image_found image_forever
