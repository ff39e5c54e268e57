-- ===== src/Lib.antt =====
-- The build control plane of FreeSense OS keeps its artifacts in two R2 buckets: `build`, with the
-- System, Packages, installer, cloud, appliance and mirror artifacts, the immutable inputs and the
-- state documents, and `downloads`, with what is published. A daily job, scripts/r2_retention.py,
-- lists both buckets, plans what may go, lets a second run a day later confirm the plan, and then
-- deletes. scripts/partition_roots.py spreads the roots of the package builds over shards and cuts these
-- into batches. What is built at all is decided by scripts/delta_closure.py: the packages that FreeSense
-- changes, and what depends on them. The rest is taken from FreeBSD's mirror, as scripts/mirror_plan.py
-- plans it. A Stable release is
-- built from a sealed lock, which scripts/release_lock.py checks and scripts/stable_gate.py holds to the
-- release policy before anything is built or sealed. The machines that build install their tools from a
-- closure of packages that scripts/resolve_worker_tools.py takes from FreeBSD's catalogue.
--
-- How the parts meet. `plan_retention` checks its policy and the inventories, groups the objects by
-- artifact, reads each group's completion marker, protects what is a root (locked releases, frozen
-- trains, Stable images, signed channels, the active cycle, the newest Development builds), follows
-- references from there, and makes a candidate of every other group that is old enough.
-- `select_deletion_batch` takes from the candidates what one run may delete, or the batch that the
-- previous run's state has pinned. `confirmation` compares the report's digest with that state.
-- `deletion_keys` checks each key of a confirmed report again, and `delete_report_keys` deletes them
-- in requests of 1000 keys.
--
-- `plan` of scripts/delta_closure.py reads the requirements and the published catalogue, gives each
-- package that FreeSense must build its cause, adds the dependents of these, and leaves the complement
-- to the mirror. `plan` of scripts/mirror_plan.py takes that document, checks it against the catalogue and
-- the bounds of the policy, and describes each package to mirror.
--
-- `resolve_worker_tools` parses the catalogue, takes the ports commit of its newest packages, orders the
-- closure of the architecture's roots so that each package follows its dependencies, and describes it.
-- `verify_manifest_downloads` checks the downloaded files against that manifest, and seals it.
--
-- Files (the functions of Retention are of scripts/r2_retention.py).
--   Base: the names that all modules share. Base/Errors: `fail` and raised exceptions as values.
--     Base/Json: documents. Base/Sets: `set[str]` and `dict`. Base/Text: what the scripts use of `str`
--     and of regular expressions. Base/Sort: `sorted`. Base/Lists, Base/Tests: comprehensions and
--     Boolean tests on the native numbers. Base/Begins: lemmas on prefixes.
--   Retention/Keys: SHA256, SYSTEM_KEY and its siblings, `classify_artifact_key`.
--   Retention/Runtime: `parse_time`, `canonical_json`.
--   Retention/Batch: `candidate`, `candidate_totals`, `candidate_group_digest`,
--     `select_deletion_batch`; its loop body is `choose`, its loop `choose_all`, its state `Batch`.
--     Below it Inversion, Greedy, Prefix, Maximal, Pinned and Members hold
--     proofs.
--   Retention/Report: `candidate_digest` over the report as JSON.
--   Retention/Confirm: `confirmation`; Laws and Twice hold proofs.
--   Retention/Delete: `deletion_keys`, `delete_report_keys`; Guard and Exact hold proofs.
--   Retention/Marker: `marker_identity`, `keep_newest_per_architecture`.
--   Retention/Locks: `train_key`, `release_train`, `lock_identities`, `component_prefix`,
--     `collect_sha256`, `withdrawn_releases`, `release_locks`.
--   Retention/Plan: `plan_retention` and `state_candidate_groups`. Its body is in order: Plan/Inputs
--     (policy, inventories, groups, markers), Plan/Roots (cycle, locks, trains, channels), Plan/Images
--     (multiarch completion, bundles), Plan itself (retained ISOs), Plan/Closure (references),
--     Plan/Candidates (artifacts and inputs), Plan/Downloads (downloads and smoke markers).
--     Plan/Keeps, Plan/Elsewhere, Plan/Named, Plan/Forever and Plan/Closure/Laws hold proofs.
--   Shards: `batches` of scripts/partition_roots.py, whose locals are the record `Cutting`;
--     Shards/Cover holds proofs.
--   Shards/Partition: its `partition`, whose loops are `merge_all` and `place_all`, and `load_batches`. Times,
--     Merged, Placed, Weighing, Chosen, Spread and Batched hold proofs.
--   Delta/Safe: `_safe_name` and its siblings and `parse_checksum` of scripts/resolve_worker_tools.py,
--     `options` of scripts/binary_seed.py.
--   Delta/Records: `requirement_records` and `published` of scripts/delta_closure.py, `catalogue_index`
--     of scripts/mirror_plan.py.
--   Delta/Classify: `eligibility`, `classify` and `churn` of scripts/delta_closure.py.
--   Delta/Worklist: its `dependents` and `reachable`, whose loops are `force_all` and `reach`; Parents,
--     Forced, Seen and Reached hold proofs.
--   Delta/Layers: its `plan`, cut where the sets are complete: `layers`, then `delta_of`. Complete and
--     Apart hold proofs.
--   Delta/Mirror: `policy`, `entry`, `unclaimed` and `plan` of scripts/mirror_plan.py; Mirror/Roots:
--     its `component_roots`; Mirror/Bounded holds proofs.
--   Release/Lock: `validate` and `load` of scripts/release_lock.py; Release/Withdrawn: its `withdrawn`;
--     Release/Use: `targets`, `sources`, `policy_for`, `check_pin`; Release/Gate: scripts/stable_gate.py,
--     whose `main` is `gate`, which returns the errors; Release/Images: scripts/images_due.py. Sealed, Listed,
--     Agreed and Allowed hold proofs.
--   Tools/Catalog: `_parse_package`, `_parse_catalog` and `read_catalog` of
--     scripts/resolve_worker_tools.py; Tools/Order: its `_dependency_order`, whose `visit` is `visit`;
--     Tools/Resolve: `worker_profile`, `_select_ports_commit` and `resolve_worker_tools`; Tools/Zbase32: its
--     `zbase32`; Tools/Verify: `verify_download` and `verify_manifest_downloads`, whose loop is
--     `verify_packages`. Keyed; Steps, Walked, Ordered, Needed, Ends; Installable; Read; Put, Genuine, Packages
--     and Sealed hold proofs.
--   Tests: a small runtime and runs at concrete data.
--
-- Conventions. A message of `fail` is its text before the first interpolated value. A time is in
-- microseconds since `datetime.min`, and a zone is present or not. The numbers of JSON documents are
-- integers. `.get` on a value that is no dictionary reads as `null`. Sets and dictionaries are lists
-- in insertion order; where the script sorts, the model does. A `ValueError` is `raised` with its
-- message up to the first interpolated value, or without the interpolated value that it begins with.
-- A marker's `package_train` is a text or absent, the hours of the policy are a number (`int()` of a text
-- is not modelled), the delta that a mirror plan is given has both components, and Python's limit on
-- nested calls is left out.
--
-- Parameters. `Runtime` holds what is not in the repository: `datetime.fromisoformat`, `isoformat`,
-- `json.dumps` and SHA-256. `Store` is the object store's `delete-objects`, and the theorems on it
-- assume that it touches only what it is asked to delete, and that what it reports as deleted is
-- gone. The two-run theorem assumes that `isoformat` is read back and that a digest has 64
-- hexadecimal digits. The origins that `overrides` finds in a make.conf, with the audit of another
-- script, are an argument of the delta plan. `World` is what the gate reads: `fetch_json` and the document
-- in a signed envelope; the reader of pages is an argument of `decide`. `Reader` holds `json.loads`, with the
-- script's hooks, and `strptime`. `Disk` holds the download directory and the digests of its files; one
-- theorem on it assumes that a SHA-256 has 64 hexadecimal digits.
--
-- Fuel. The `while changed` loop of `plan_retention` has the number of all references plus one: each
-- round but the last adds one. The loop over requests has the number of keys: each takes one at least.
-- `dependents` has the customized packages and the records: a package comes on the stack once, when it is
-- forced. `reachable` has the roots and all dependencies of the records.
-- The calls of `visit` nest no deeper than the packages and one: each marks its package first.
--
-- Not modelled: `snapshot` and `aws` (network), `verify_signed_payload` and what stands on it (an
-- external tool), `pinned_inputs` (a walk over files), `markdown_summary` and `main` (output and
-- arguments), release documents that are given as bytes, and the descriptive members of the report;
-- `overrides` and the two digests of a mirror plan; `load` of scripts/partition_roots.py (a file); a file
-- that is found and cannot be read, or changes while it is checked; the other scripts, the Go and
-- JavaScript services.
pub mod Base
pub mod Retention
pub mod Shards
pub mod Delta
pub mod Release
pub mod Tools
mod Tests
