-- ===== src/Retention/Batch.antt =====
-- scripts/r2_retention.py: deletion candidates, their totals and digests, and the choice of the
-- batch that one run may delete.
mod Inversion
pub mod Greedy
pub mod Prefix
pub mod Maximal
pub mod Pinned
pub mod Members
use freesense_os_base.Base.{
  ℕ, ◌+◌, ◌*◌, String, ◌==◌, Bool, ◌&&◌, ◌||◌, true, false, not, Option, none, some, List, [], ◌∷◌,
  ◌++◌, map, ltb, leb, nat_eq, if◌then◌else◌, length, keep_if, any, all, sum_by, Result, ok, err,
  fail, raised, require, or_raise, ◌>>=◌, ◌>>◌, map_results, starts_with,
}
use freesense_os_base.Base.Json.{Json, str, arr, obj, member, done, from_list}
use freesense_os_base.Base.Sort.{leb_text, sorted}
use freesense_os_base.Base.Sets.{Dict, contains, lookup, insert}
use freesense_os_base.Base.Text.{is_empty}
use freesense_os_base.Retention.Runtime.{Runtime, parse_time, canonical_json}

abbrev pub max_delete_objects : ℕ
max_delete_objects = 5000

abbrev pub max_delete_bytes : ℕ
max_delete_bytes = 50 * 1073741824

-- An object of an inventory
pub record Stored : Type 0 where
  pub key : String
  pub size : ℕ
  pub last_modified : String
  pub etag : String

pub record Candidate : Type 0 where
  pub bucket : String
  pub prefix : String
  pub reason : String
  pub object_count : ℕ
  pub bytes : ℕ
  pub last_modified : String
  pub keys : List String

-- `max(values)`
unfoldable pub maximum : List ℕ → Result ℕ
maximum [] = err (raised "ValueError")
maximum (x ∷ []) = ok x
maximum (x ∷ y ∷ rest) = do m ← maximum (y ∷ rest); ok (if ltb x m then m else x)

module _ (rt : Runtime) where
  -- `max(parse_time(item["last_modified"]) for item in objects)`
  unfoldable pub newest_time : List Stored → Result ℕ
  unfolding maximum map_results parse_time
  newest_time objects = do
    times ← map_results (λ o. parse_time rt o.last_modified) objects
    maximum times

  unfoldable pub candidate : String → String → String → List Stored → Result Candidate
  unfolding newest_time sorted
  candidate bucket prefix reason objects = do
    newest ← newest_time objects
    let keys = sorted leb_text (map (λ o. o.key) objects)
    ok record {
      bucket = bucket;
      prefix = prefix;
      reason = reason;
      object_count = length keys;
      bytes = sum_by (λ o. o.size) objects;
      last_modified = rt.isoformat newest;
      keys = keys;
    }

pub record Totals : Type 0 where
  pub candidate_prefixes : ℕ
  pub candidate_objects : ℕ
  pub candidate_bytes : ℕ

abbrev pub objects_of : List Candidate → ℕ
objects_of = sum_by (λ c. c.object_count)

abbrev pub bytes_of : List Candidate → ℕ
bytes_of = sum_by (λ c. c.bytes)

unfoldable pub candidate_totals : List Candidate → Totals
candidate_totals cs = record {
  candidate_prefixes = length cs;
  candidate_objects = objects_of cs;
  candidate_bytes = bytes_of cs;
}

-- The candidates of one bucket
abbrev pub of_bucket : String → List Candidate → List Candidate
of_bucket b = keep_if (λ c. c.bucket == b)

-- What `candidate_group_digest` reads of a candidate
pub record Group : Type 0 where
  pub bucket : String
  pub prefix : String
  pub keys : List String

abbrev pub group_of : Candidate → Group
group_of c = record { bucket = c.bucket; prefix = c.prefix; keys = c.keys }

-- The checks of `candidate_group_digest`
unfoldable pub is_group : Group → Bool
unfolding is_empty
is_group c =
    not (is_empty c.bucket)
    && starts_with c.prefix "v1/"
    && ltb 0 (length c.keys)
    && all (λ k. starts_with k "v1/") c.keys

unfoldable pub group_identity : Group → Json
unfolding from_list sorted
group_identity c = obj (
    member "bucket" (str c.bucket) (
      member "prefix" (str c.prefix)
        (member "keys" (arr (from_list (map str (sorted leb_text c.keys)))) done)))

module _ (rt : Runtime) where
  unfoldable pub group_digest : Group → Result String
  unfolding is_group group_identity canonical_json
  group_digest c = do
    require (is_group c) "retention report has an invalid candidate group"
    ok (rt.sha256 (canonical_json rt (group_identity c)))

  unfoldable pub candidate_group_digest : Candidate → Result String
  unfolding group_digest
  candidate_group_digest c = group_digest (group_of c)

  -- A candidate with its time of last change, the first component of its sort key
  abbrev pub Timed : Type 0
  Timed = ℕ × Candidate

  timed : Candidate → Result Timed
  unfolding parse_time
  timed c = do t ← parse_time rt c.last_modified; ok (t, c)

  -- The key `(time, bucket, prefix)`
  abbrev pub leb_timed : Timed → Timed → Bool
  leb_timed (t, c) (u, d) =
      ltb t u
      || nat_eq t u
        && (not (leb_text d.bucket c.bucket) || c.bucket == d.bucket && leb_text c.prefix d.prefix)

  -- The candidates, oldest first
  unfoldable pub oldest_first : List Candidate → Result (List Candidate)
  unfolding map_results timed sorted
  oldest_first cs = do ts ← map_results timed cs; ok (map (λ (_, c). c) (sorted leb_timed ts))

  -- `{candidate_group_digest(item): item for item in ordered}`
  unfoldable pub indexed_from : Dict Candidate → List Candidate → Result (Dict Candidate)
  unfolding insert candidate_group_digest
  indexed_from d [] = ok d
  indexed_from d (c ∷ cs) = do
    digest ← candidate_group_digest c
    indexed_from (insert digest c d) cs

  -- `[indexed[value] for value in previous_groups]`, `none` where a group is gone
  unfoldable pub pinned_groups : Dict Candidate → List String → Option (List Candidate)
  unfolding lookup
  pinned_groups d [] = some []
  pinned_groups d (g ∷ gs) = elim (lookup g d) [
    | none ↦ none
    | some c ↦ elim (pinned_groups d gs) [ none ↦ none | some cs ↦ some (c ∷ cs) ]
  ]

  -- The candidates whose group is not pinned
  unfoldable pub not_pinned : List String → List Candidate → Result (List Candidate)
  unfolding candidate_group_digest
  not_pinned gs [] = ok []
  not_pinned gs (c ∷ cs) = do
    digest ← candidate_group_digest c
    rest ← not_pinned gs cs
    ok (if contains gs digest then rest else c ∷ rest)

-- The totals of every bucket of the pinned batch are within the caps.
unfoldable pub fits_caps : ℕ → ℕ → List Candidate → Bool
unfolding candidate_totals
fits_caps max_objects max_bytes selected =
    all
      (λ c.
        let totals = candidate_totals (of_bucket c.bucket selected) in
        leb totals.candidate_objects max_objects && leb totals.candidate_bytes max_bytes)
      selected

-- The variables of the greedy loop; a bucket that is not in `usage` has used nothing.
pub record Batch : Type 0 where
  pub selected : List Candidate
  pub deferred : List Candidate
  pub used_objects : String → ℕ
  pub used_bytes : String → ℕ
  pub blocked : List String

abbrev pub no_batch : Batch
no_batch = record {
  selected = [];
  deferred = [];
  used_objects = λ b. 0;
  used_bytes = λ b. 0;
  blocked = [];
}

-- `usage[bucket] += n`
abbrev pub add_usage : (String → ℕ) → String → ℕ → String → ℕ
add_usage used b n j = if b == j then used j + n else used j

-- One round of the loop over `ordered`
unfoldable pub choose : ℕ → ℕ → Batch → Candidate → Batch
choose max_objects max_bytes s c =
    let exceeds =
      ltb max_objects (s.used_objects c.bucket + c.object_count)
      || ltb max_bytes (s.used_bytes c.bucket + c.bytes) in
    if contains s.blocked c.bucket || exceeds
    then record s { blocked = c.bucket ∷ s.blocked; deferred = s.deferred ++ c ∷ [] }
    else record s {
      selected = s.selected ++ c ∷ [];
      used_objects = add_usage s.used_objects c.bucket c.object_count;
      used_bytes = add_usage s.used_bytes c.bucket c.bytes;
    }

unfoldable pub choose_all : ℕ → ℕ → Batch → List Candidate → Batch
unfolding choose
choose_all max_objects max_bytes s [] = s
choose_all max_objects max_bytes s (c ∷ cs) =
    choose_all max_objects max_bytes (choose max_objects max_bytes s c) cs

-- No single group is larger than a whole batch may be.
abbrev pub is_within : ℕ → ℕ → Candidate → Bool
is_within max_objects max_bytes c = leb c.object_count max_objects && leb c.bytes max_bytes

module _ (rt : Runtime) (max_objects max_bytes : ℕ) where
  -- `if previous_groups and all(value in indexed …)`, with the pinned candidates
  abbrev pinned : Option (List String) → Dict Candidate → Option (List Candidate)
  pinned none d = none
  pinned (some []) d = none
  pinned (some (g ∷ gs)) d = pinned_groups rt d (g ∷ gs)

  abbrev or_no_groups : Option (List String) → List String
  or_no_groups none = []
  or_no_groups (some gs) = gs

  -- The last part of `select_deletion_batch`, from the pinned candidates on
  unfoldable pub select_from :
      Option (List Candidate)
      → List String
      → List Candidate
      → Result (List Candidate × List Candidate)
  unfolding not_pinned fits_caps choose_all
  select_from (some selected) groups ordered = do
    deferred ← not_pinned rt groups ordered
    require (fits_caps max_objects max_bytes selected)
        "previous retention batch exceeds the per-run safety cap"
    ok (selected, deferred)
  select_from none groups ordered =
      let s = choose_all max_objects max_bytes no_batch ordered in ok (s.selected, s.deferred)

  unfoldable pub select_deletion_batch :
      List Candidate → Option (List String) → Result (List Candidate × List Candidate)
  unfolding oldest_first indexed_from pinned_groups select_from
  select_deletion_batch candidates previous_groups = do
    ordered ← oldest_first rt candidates
    require (all (is_within max_objects max_bytes) ordered)
        "retention candidate group exceeds the per-run safety cap"
    indexed ← indexed_from rt [] ordered
    require (nat_eq (length indexed) (length ordered))
        "retention candidates contain duplicate groups"
    select_from (pinned previous_groups indexed) (or_no_groups previous_groups) ordered
