-- ===== src/Retention/Confirm.antt =====
-- scripts/r2_retention.py: `confirmation`, which counts the observations of a deletion batch.
pub mod Laws
pub mod Twice
use freesense_os_base.Base.{
  ℕ, zero, suc, ◌+◌, ◌*◌, String, ◌==◌, Bool, ◌&&◌, true, false, not, Option, none, some, List, leb,
  Error, if◌then◌else◌, map_results, map, Result, ok, err, fail, raised, require, or_raise, ◌>>=◌,
  ◌>>◌, starts_with,
}
use freesense_os_base.Base.Json.{
  Json, arr, obj, int, bool, member, done, from_list, ℤ, pos, negsuc, null, str, get, subscript,
  is_object, is_text, is_null, as_int, as_text, is_positive, items,
}
use freesense_os_base.Retention.Runtime.{Runtime, Stamp, parse_time}
use freesense_os_base.Retention.Report.{
  state_schema, is_sha256_text, checked_candidates, candidate_digest, read_group_digest,
}

-- 20 hours in microseconds
abbrev pub minimum_interval : ℕ
minimum_interval = 20 * 3600 * 1000000

pub record State : Type 0 where
  pub candidate_sha256 : String
  pub candidate_groups_sha256 : List String
  pub candidate_objects : Json
  pub candidate_bytes : Json
  pub observations : ℤ
  pub first_observed_at : String
  pub last_observed_at : String
  pub applied : Bool

-- The state as the next run reads it back
unfoldable pub state_json : State → Json
unfolding from_list
state_json s = obj (
    member "schema_version" (str state_schema) (
      member "candidate_sha256" (str s.candidate_sha256) (
        member "candidate_groups_sha256" (arr (from_list (map str s.candidate_groups_sha256))) (
          member "candidate_objects" s.candidate_objects (
            member "candidate_bytes" s.candidate_bytes (
              member "observations" (int s.observations) (
                member "first_observed_at" (str s.first_observed_at) (
                  member "last_observed_at" (str s.last_observed_at)
                    (member "applied" (bool s.applied) done)))))))))

pub record Decision : Type 0 where
  pub ready : Bool
  pub state : State

-- The local variables that a previous state may change
pub record Observed : Type 0 where
  pub first_observed : ℕ
  pub last_observed : ℕ
  pub observations : ℤ
  pub ready : Bool

abbrev pub plus_one : ℤ → ℤ
plus_one (pos n) = pos (n + 1)
plus_one (negsuc zero) = pos 0
plus_one (negsuc (suc n)) = negsuc n

-- `n >= 2`
abbrev pub at_least_two : ℤ → Bool
at_least_two (pos n) = leb 2 n
at_least_two (negsuc n) = false

unfoldable pub positive_int : Json → Option ℤ
positive_int v = elim (as_int v) [ none ↦ none | some n ↦ if is_positive n then some n else none ]

abbrev no_times : {A : Type 0} → Result A → Result A
no_times (ok a) = ok a
no_times (err e) = elim e [
  | Error.exit m ↦ err (Error.exit m)
  | Error.raised x ↦
      if x == "KeyError"
      then fail "previous retention state has no observation times"
      else err (raised x)
]

module _ (rt : Runtime) where
  -- `parse_time(previous[key])`
  unfoldable pub observed_at : String → Json → Result ℕ
  unfolding subscript
  observed_at key previous = do
    value ← subscript key previous
    text ← as_text value
    parse_time rt text

  -- Another day's observation: `count > 0` raises where the count is no number.
  abbrev pub next_time : ℕ → ℕ → Json → ℤ → Result Observed
  next_time now first objects seen = do
    count ← or_raise (as_int objects) (raised "TypeError")
    ok record {
      first_observed = first;
      last_observed = now;
      observations = plus_one seen;
      ready = is_positive count && at_least_two (plus_one seen);
    }

  abbrev pub same_time : ℕ → ℕ → ℤ → Observed
  same_time first last seen = record {
    first_observed = first;
    last_observed = last;
    observations = seen;
    ready = false;
  }

  -- The part under `if previous["candidate_sha256"] == digest`
  unfoldable pub observe_again : ℕ → ℕ → Json → ℤ → Json → Result Observed
  observe_again now interval objects seen previous = do
    last ← no_times (observed_at "last_observed_at" previous)
    first ← no_times (observed_at "first_observed_at" previous)
    if leb (last + interval) now
        then next_time now first objects seen
        else ok (same_time first last seen)

  abbrev pub first_time : ℕ → Observed
  first_time now = record {
    first_observed = now;
    last_observed = now;
    observations = pos 1;
    ready = false;
  }

  unfoldable pub checked_state : ℕ → ℕ → String → Json → Json → Result Observed
  checked_state now interval digest objects previous = do
    require
        (is_object previous
          && is_text state_schema (get "schema_version" previous)
          && is_sha256_text (get "candidate_sha256" previous))
        "previous retention state is invalid"
    seen ←
        or_raise (positive_int (get "observations" previous))
          (Error.exit "previous retention state is invalid")
    if is_text digest (get "candidate_sha256" previous)
        then observe_again now interval objects seen previous
        else ok (first_time now)

  -- The part under `if previous is not None`
  unfoldable pub observe : ℕ → ℕ → String → Json → Json → Result Observed
  observe now interval digest objects previous =
      if is_null previous
      then ok (first_time now)
      else checked_state now interval digest objects previous

  -- The result, put together
  abbrev pub decision : String → List String → Json → Json → Observed → Decision
  decision digest groups objects bytes seen = record {
    ready = seen.ready;
    state = record {
      candidate_sha256 = digest;
      candidate_groups_sha256 = groups;
      candidate_objects = objects;
      candidate_bytes = bytes;
      observations = seen.observations;
      first_observed_at = rt.isoformat seen.first_observed;
      last_observed_at = rt.isoformat seen.last_observed;
      applied = false;
    };
  }

  unfoldable pub confirmation : Json → Json → Stamp → ℕ → Result Decision
  confirmation report previous now interval = do
    require now.has_zone "confirmation time must have a timezone"
    digest ← candidate_digest rt report
    totals ← subscript "totals" report
    objects ← subscript "candidate_objects" totals
    seen ← observe now.utc interval digest objects previous
    candidates ← checked_candidates report
    groups ← map_results (read_group_digest rt) candidates
    bytes ← subscript "candidate_bytes" totals
    ok (decision digest groups objects bytes seen)
