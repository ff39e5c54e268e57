-- ===== src/Retention/Delete.antt =====
-- scripts/r2_retention.py: the keys that a confirmed report may delete, and their deletion.
pub mod Guard
pub mod Exact
use freesense_os_base.Base.{
  ℕ, zero, suc, ◌+◌, ◌-◌, String, ◌==◌, Bool, ◌&&◌, ◌||◌, not, true, false, Option, none, some,
  List, [], ◌∷◌, map, leb, ltb, if◌then◌else◌, length, take, drop, all, Result, ok, err, Error,
  fail, raised, require, or_raise, ◌>>=◌, ◌>>◌, starts_with,
}
use freesense_os_base.Base.Json.{
  Json, ℤ, pos, negsuc, null, int, bool, str, obj, get, items, is_text, as_int, as_text, find,
}
use freesense_os_base.Base.Sets.{contains, add}
use freesense_os_base.Base.Sort.{leb_text, sorted}
use freesense_os_base.Base.Text.{includes}
use freesense_os_base.Retention.Runtime.{Runtime}
use freesense_os_base.Retention.Batch.{max_delete_objects, max_delete_bytes}
use freesense_os_base.Retention.Report.{candidate_digest, checked_candidates}

abbrev pub document_keys : List String
document_keys =
    "v1/repos.manifest.json" ∷ "v1/repos.amd64.manifest.json" ∷ "v1/repos.aarch64.manifest.json"
    ∷ "v1/releases/stable.json" ∷ "v1/releases/devel.json" ∷ "v1/releases/stable.amd64.json"
    ∷ "v1/releases/devel.amd64.json" ∷ "v1/releases/stable.arm64.json"
    ∷ "v1/releases/devel.arm64.json" ∷ "v1/releases/devel.multiarch.json"
    ∷ "v1/state/retention.json" ∷ "v1/state/development-cycle.json" ∷ []

-- A key that no run may delete
unfoldable pub is_protected_key : String → Bool
is_protected_key key =
    includes "/stable/" key
    || starts_with key "v1/state/"
    || contains document_keys key
    || key == "v1/repos.manifest.json"

-- The `--bucket-kind` argument
pub data BucketKind : Type 0 where
  build downloads : BucketKind

-- `if bucket_kind not in {"build", "downloads"}`
unfoldable pub bucket_kind : String → Option BucketKind
bucket_kind name =
    if name == "build" then some build else if name == "downloads" then some downloads else none

-- A key inside the deletion boundary of the bucket
unfoldable pub is_allowed_key : BucketKind → String → Bool
is_allowed_key build key =
    starts_with key "v1/artifacts/"
    || starts_with key "v1/inputs/sha256/"
    || starts_with key "v1/smoke/broker/"
is_allowed_key downloads key =
    starts_with key "v1/releases/devel/" || starts_with key "v1/smoke/broker/"

-- One round of the inner loop
unfoldable pub check_key : BucketKind → String → Result (Unit {0})
check_key kind key = do
  require (not (is_protected_key key)) "protected object entered deletion set: "
  require (is_allowed_key kind key) "object is outside the deletion boundary: "

-- The inner loop, over the keys of one candidate
unfoldable pub add_keys : BucketKind → List String → List Json → Result (List String)
add_keys kind found [] = ok found
add_keys kind found (j ∷ js) = do
  key ← as_text j
  check_key kind key
  add_keys kind (add key found) js

-- Sums of Python integers
abbrev pub plus : ℤ → ℤ → ℤ
plus (pos a) (pos b) = pos (a + b)
plus (negsuc a) (negsuc b) = negsuc (suc (a + b))
plus (pos a) (negsuc b) = if ltb b a then pos (a - suc b) else negsuc (b - a)
plus (negsuc a) (pos b) = if ltb a b then pos (b - suc a) else negsuc (a - b)

-- `n > limit`
abbrev pub is_above : ℕ → ℤ → Bool
is_above limit (pos n) = ltb limit n
is_above limit (negsuc n) = false

-- `item.get("bytes", 0)`: 0 where the key is missing
unfoldable pub bytes_or_zero : Json → Result ℤ
unfolding find
bytes_or_zero (obj ms) = elim (find "bytes" ms) [
  | none ↦ ok (pos 0)
  | some v ↦ or_raise (as_int v) (raised "TypeError")
]
bytes_or_zero _ = err (raised "AttributeError")

-- The outer loop: the keys and the bytes so far, over the candidates left
unfoldable pub gather : BucketKind → String → List String → ℤ → List Json → Result (List String × ℤ)
gather kind bucket found total [] = ok (found, total)
gather kind bucket found total (c ∷ cs) =
    let here = (do
      bytes ← bytes_or_zero c
      keys ← items (get "keys" c)
      more ← add_keys kind found keys
      gather kind bucket more (plus total bytes) cs) in
    let rest = gather kind bucket found total cs in
    if is_text bucket (get "bucket" c) then here else rest

module _ (rt : Runtime) where
  unfoldable pub deletion_keys : Json → String → String → Result (List String)
  deletion_keys report kind_name bucket = do
    digest ← candidate_digest rt report
    kind ← or_raise (bucket_kind kind_name) (Error.exit "unknown retention bucket kind")
    candidates ← checked_candidates report
    gathered ← gather kind bucket [] (pos 0) candidates
    require
        (not (ltb max_delete_objects (length gathered.0) || is_above max_delete_bytes gathered.1))
        "retention deletion exceeds the per-run safety cap"
    ok (sorted leb_text gathered.0)

-- What `aws s3api delete-objects` answers: whether it lists errors, and the keys it deleted
pub record Response : Type 0 where
  pub has_errors : Bool
  pub deleted : List String

-- The object store: `delete_objects` is the command, an error where the CLI fails.
pub record Store : Type 1 where
  pub State : Type 0
  pub delete_objects : List String → State → Result Response × State

-- `deleted != set(batch)`, negated
abbrev pub same_set : List String → List String → Bool
same_set xs ys = all (contains ys) xs && all (contains xs) ys

module _ (s : Store) where
  -- The answer to one batch
  unfoldable pub confirmed_batch : List String → Result Response → Result (Unit {0})
  confirmed_batch batch answer = do
    response ← answer
    require (not response.has_errors && same_set response.deleted batch)
        "R2 did not confirm the exact deletion batch"

  abbrev then_do {ℓ} :
      {A : Type ℓ}
      → Result (Unit {0})
      → (s.State → Result A × s.State)
      → s.State
      → Result A × s.State
  then_do (ok _) next w = next w
  then_do (err e) next w = (err e, w)

  -- The loop over `range(0, len(keys), 1000)`, on fuel
  unfoldable pub delete_batches : ℕ → List String → s.State → Result (Unit {0}) × s.State
  unfolding confirmed_batch
  delete_batches fuel [] w = (ok tt, w)
  delete_batches zero (k ∷ ks) w = (err (raised "out of fuel"), w)
  delete_batches (suc fuel) (k ∷ ks) w =
      let batch = take 1000 (k ∷ ks) in
      let (answer, w') = s.delete_objects batch w in
      then_do (confirmed_batch batch answer) (delete_batches fuel (drop 1000 (k ∷ ks))) w'

  delete_keys : Result (List String) → s.State → Result ℕ × s.State
  delete_keys (err e) w = (err e, w)
  delete_keys (ok keys) w =
      let (answer, w') = delete_batches (length keys) keys w in ((do answer; ok (length keys)), w')

  unfoldable pub delete_report_keys :
      Runtime → Json → String → String → s.State → Result ℕ × s.State
  unfolding delete_keys
  delete_report_keys rt report kind bucket w = delete_keys (deletion_keys rt report kind bucket) w
