-- ===== src/Retention/Confirm/Laws.antt =====
-- `confirmation` of scripts/r2_retention.py: the steps that a successful run has passed.
use freesense_os_base.Base.{
  ℕ, or_raise-eq-ok, ◌+◌, ◌≤◌, ◌≡◌, ap, sym, ◌∙◌, ok-injective, ◌==◌, String, ◌&&◌, true, some,
  List, leb, leb→le, map_results, inl, inr, Result, ok, err, raised, Error, require, or_raise,
  >>=-eq-ok, require-eq-ok, Bool-cases, arith,
}
use mathlib.Core.Bool.{false≢true}
use freesense_os_base.Base.Json.{
  Json, ℤ, get, subscript, is_object, is_text, is_null, as_int, is_positive,
}
use freesense_os_base.Retention.Runtime.{Runtime, Stamp}
use freesense_os_base.Retention.Report.{
  state_schema, is_sha256_text, checked_candidates, candidate_digest, read_group_digest,
}
use freesense_os_base.Retention.Confirm.{
  Decision, Observed, positive_int, observed_at, no_times, same_time, first_time, observe_again,
  checked_state, observe, confirmation, plus_one, at_least_two, decision,
}

no_times-eq-ok : {A : Type 0} (r : Result A) {a : A} → no_times r ≡ ok a → r ≡ ok a
no_times-eq-ok (ok a) h = h
no_times-eq-ok (err (Error.exit m)) h = absurd (cc h)
no_times-eq-ok (err (Error.raised x)) h = elim (Bool-cases (x == "KeyError")) [
  | inl e ↦ absurd (cc (rw e at h))
  | inr e ↦ absurd (cc (rw e at h))
]

module _ (rt : Runtime) (now interval : ℕ) (objects : Json) where
  -- What has been seen of the same candidates, when they become ready
  pub record Again (previous : Json) (o : Observed) : Type 0 where
    pub last : ℕ
    pub seen : ℤ
    pub count : ℤ
    pub was_last : observed_at rt "last_observed_at" previous ≡ ok last
    pub was_seen : positive_int (get "observations" previous) ≡ some seen
    pub waited : last + interval ≤ now
    pub counted : as_int objects ≡ some count
    pub some_objects : is_positive count ≡ true
    pub is_observations : o.observations ≡ plus_one seen
    pub twice : at_least_two (plus_one seen) ≡ true

  observe_again-ready :
      (seen : ℤ) (previous : Json) (o : Observed)
      → positive_int (get "observations" previous) ≡ some seen
      → observe_again rt now interval objects seen previous ≡ ok o
      → o.ready ≡ true
      → Again previous o
  unfolding observe_again
  observe_again-ready seen previous o was_seen h r =
      let (last, l, h1) = >>=-eq-ok (no_times (observed_at rt "last_observed_at" previous)) _ h in
      let (first, f, h2) =
        >>=-eq-ok (no_times (observed_at rt "first_observed_at" previous)) _ h1 in
      elim (Bool-cases (leb (last + interval) now)) [
        | inr e ↦
            let early : same_time rt first last seen ≡ o = cc (rw e at h2) in
            absurd (false≢true (ap (λ (x : Observed). x.ready) early ∙ r))
        | inl e ↦
            let (count, c, h3) =
              >>=-eq-ok (or_raise (as_int objects) (raised "TypeError")) _ (rw e at h2) in
            let same : Observed.ready o ≡ (is_positive count && at_least_two (plus_one seen)) =
              cc h3 in
            let both : (is_positive count && at_least_two (plus_one seen)) ≡ true = cc (same, r) in
            record {
              last = last;
              seen = seen;
              count = count;
              was_last = no_times-eq-ok _ l;
              was_seen = was_seen;
              waited = leb→le _ _ e;
              counted = or_raise-eq-ok _ _ c;
              some_objects = ground arith;
              is_observations = cc h3;
              twice = ground arith;
            }
      ]

  checked_state-ready :
      (digest : String) (previous : Json) (o : Observed)
      → checked_state rt now interval digest objects previous ≡ ok o
      → o.ready ≡ true
      → (is_text digest (get "candidate_sha256" previous) ≡ true) × Again previous o
  unfolding checked_state
  checked_state-ready digest previous o h r =
      let valid =
        is_object previous
        && is_text state_schema (get "schema_version" previous)
        && is_sha256_text (get "candidate_sha256" previous) in
      let (u, _, h1) = >>=-eq-ok (require valid "previous retention state is invalid") _ h in
      let (seen, s, h2) =
        >>=-eq-ok
          (or_raise (positive_int (get "observations" previous))
            (Error.exit "previous retention state is invalid"))
          _ h1 in
      elim (Bool-cases (is_text digest (get "candidate_sha256" previous))) [
        | inr other ↦
            let first : first_time rt now ≡ o = ok-injective (rw other at h2) in
            absurd (false≢true (ap (λ (x : Observed). x.ready) first ∙ r))
        | inl same ↦
            (same, observe_again-ready seen previous o (or_raise-eq-ok _ _ s) (rw same at h2) r)
      ]

  observe-ready :
      (digest : String) (previous : Json) (o : Observed)
      → observe rt now interval digest objects previous ≡ ok o
      → o.ready ≡ true
      → (is_text digest (get "candidate_sha256" previous) ≡ true) × Again previous o
  unfolding observe
  observe-ready digest previous o h r = elim (Bool-cases (is_null previous)) [
    | inl e ↦
        let first : first_time rt now ≡ o = ok-injective (rw e at h) in
        absurd (false≢true (ap (λ (x : Observed). x.ready) first ∙ r))
    | inr e ↦ checked_state-ready digest previous o (rw e at h) r
  ]

module _ (rt : Runtime) (report previous : Json) (now : Stamp) (interval : ℕ) where
  -- The steps that a successful confirmation has passed
  pub record Confirmed (d : Decision) : Type 0 where
    pub digest : String
    pub totals : Json
    pub objects : Json
    pub bytes : Json
    pub seen : Observed
    pub candidates : List Json
    pub groups : List String
    pub zoned : now.has_zone ≡ true
    pub is_digest : candidate_digest rt report ≡ ok digest
    pub is_totals : subscript "totals" report ≡ ok totals
    pub is_objects : subscript "candidate_objects" totals ≡ ok objects
    pub is_seen : observe rt now.utc interval digest objects previous ≡ ok seen
    pub is_candidates : checked_candidates report ≡ ok candidates
    pub is_groups : map_results (read_group_digest rt) candidates ≡ ok groups
    pub is_bytes : subscript "candidate_bytes" totals ≡ ok bytes
    pub is_decision : decision rt digest groups objects bytes seen ≡ d

  pub confirmed : (d : Decision) → confirmation rt report previous now interval ≡ ok d → Confirmed d
  unfolding confirmation
  confirmed d h =
      let (u, z, h0) = >>=-eq-ok (require now.has_zone _) _ h in
      let (digest, e1, h1) = >>=-eq-ok (candidate_digest rt report) _ h0 in
      let (totals, e2, h2) = >>=-eq-ok (subscript "totals" report) _ h1 in
      let (objects, e3, h3) = >>=-eq-ok (subscript "candidate_objects" totals) _ h2 in
      let (seen, e4, h4) = >>=-eq-ok (observe rt now.utc interval digest objects previous) _ h3 in
      let (candidates, e5, h5) = >>=-eq-ok (checked_candidates report) _ h4 in
      let (groups, e6, h6) = >>=-eq-ok (map_results (read_group_digest rt) candidates) _ h5 in
      let (bytes, e7, h7) = >>=-eq-ok (subscript "candidate_bytes" totals) _ h6 in
      record {
        digest = digest;
        totals = totals;
        objects = objects;
        bytes = bytes;
        seen = seen;
        candidates = candidates;
        groups = groups;
        zoned = require-eq-ok _ _ z;
        is_digest = e1;
        is_totals = e2;
        is_objects = e3;
        is_seen = e4;
        is_candidates = e5;
        is_groups = e6;
        is_bytes = e7;
        is_decision = ok-injective h7;
      }

  -- A report is ready for deletion only if the previous run's state names the digest of exactly
  -- these candidates, its last observation is at least the interval before now, it counts at least
  -- one observation, and the report has at least one candidate object. The new state then counts
  -- one observation more, two at least.
  pub confirmation-ready :
      (d : Decision)
      → confirmation rt report previous now interval ≡ ok d
      → d.ready ≡ true
      → (digest : String) × (candidate_digest rt report ≡ ok digest)
        × (is_text digest (get "candidate_sha256" previous) ≡ true)
        × ((last : ℕ) × (observed_at rt "last_observed_at" previous ≡ ok last)
            × (last + interval ≤ now.utc))
        × ((seen : ℤ) × (positive_int (get "observations" previous) ≡ some seen)
            × (d.state.observations ≡ plus_one seen)
            × (at_least_two d.state.observations ≡ true))
        × ((count : ℤ) × (as_int d.state.candidate_objects ≡ some count)
            × (is_positive count ≡ true))
  confirmation-ready d h r =
      let c = confirmed d h in
      let seen_ready : c.seen.ready ≡ true = ap (λ (x : Decision). x.ready) c.is_decision ∙ r in
      let (same, a) =
        observe-ready rt now.utc interval c.objects c.digest previous c.seen c.is_seen seen_ready in
      let obs : d.state.observations ≡ plus_one a.seen =
        ap (λ (x : Decision). x.state.observations) (sym c.is_decision) ∙ a.is_observations in
      let objs : d.state.candidate_objects ≡ c.objects =
        ap (λ (x : Decision). x.state.candidate_objects) (sym c.is_decision) in
      (
        c.digest,
        c.is_digest,
        same,
        (a.last, a.was_last, a.waited),
        (a.seen, a.was_seen, obs, rw obs a.twice),
        (a.count, rw objs a.counted, a.some_objects),
      )
