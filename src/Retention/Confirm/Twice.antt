-- ===== src/Retention/Confirm/Twice.antt =====
-- `confirmation` of scripts/r2_retention.py over two daily runs.
use freesense_os_base.Base.{
  ℕ, List, ◌+◌, ◌≡◌, refl, ap, subst, ◌∙◌, ok-injective, String, ◌&&◌, true, false, some, leb,
  if◌then◌else◌, inl, inr, ok, >>=-eq-ok, Bool-cases, arith, eq_refl,
}
use freesense_os_base.Base.Json.{Json, pos, null, get, as_int, is_positive, is_object, subscript}
use freesense_os_base.Retention.Keys.{is_sha256}
use freesense_os_base.Retention.Runtime.{Runtime, Stamp, parse_time}
use freesense_os_base.Retention.Report.{
  is_sha256_text, checked_candidates, candidate_digest, identities,
}
use freesense_os_base.Retention.Confirm.{
  State, Decision, Observed, state_json, positive_int, observed_at, same_time, first_time,
  observe_again, checked_state, observe, confirmation, decision,
}
use freesense_os_base.Retention.Confirm.Laws.{Confirmed, confirmed}

-- A later report over the same batch. All else in it may differ, as the time of the report does.
pub record SameBatch (report later : Json) : Type 0 where
  pub is_document : is_object later ≡ true
  pub schema : get "schema_version" later ≡ get "schema_version" report
  pub mode : get "mode" later ≡ get "mode" report
  pub candidates : get "candidates" later ≡ get "candidates" report
  pub totals : subscript "totals" later ≡ subscript "totals" report

module _ (report later : Json) (s : SameBatch report later) where
  checked_candidates-same :
      (cs : List Json)
      → checked_candidates report ≡ ok cs
      → checked_candidates later ≡ checked_candidates report
  unfolding checked_candidates
  checked_candidates-same cs h = elim (Bool-cases (is_object report)) [
    | inl fine ↦ rw (s.is_document, s.schema, s.mode, s.candidates, fine) refl
    | inr bad ↦ absurd (cc (rw (bad, checked_candidates) at h))
  ]

  candidate_digest-same :
      (rt : Runtime) (digest : String)
      → candidate_digest rt report ≡ ok digest
      → candidate_digest rt later ≡ ok digest
  unfolding candidate_digest
  candidate_digest-same rt digest h =
      let (cs, found, _) = >>=-eq-ok (checked_candidates report) _ h in
      rw (checked_candidates-same cs found) h

module _ (rt : Runtime)
    -- The times that `isoformat` writes are read back.
    (read_back : (t : ℕ) → parse_time rt (rt.isoformat t) ≡ ok t)
    -- A SHA-256 is written as 64 lower-case hexadecimal digits.
    (hex : (s : String) → is_sha256 (rt.sha256 s) ≡ true) where
  candidate_digest-IsSha256 :
      (report : Json) (digest : String)
      → candidate_digest rt report ≡ ok digest
      → is_sha256 digest ≡ true
  unfolding candidate_digest
  candidate_digest-IsSha256 report digest h =
      let (cs, _, h1) = >>=-eq-ok (checked_candidates report) _ h in
      let (found, _, h2) = >>=-eq-ok (identities cs) _ h1 in
      let same = ok-injective h2 in rw (← same) (hex _)

  -- What a first observation leaves is seen again by a later run over the same candidates.
  observe-state_json :
      (s : State) (now first interval count : ℕ) (digest : String)
      → is_sha256 digest ≡ true
      → s.candidate_sha256 ≡ digest
      → s.observations ≡ pos 1
      → s.first_observed_at ≡ rt.isoformat first
      → s.last_observed_at ≡ rt.isoformat first
      → as_int s.candidate_objects ≡ some (pos count)
      → observe rt now interval digest s.candidate_objects (state_json s)
        ≡ ok (
            if leb (first + interval) now
            then record {
              first_observed = first;
              last_observed = now;
              observations = pos 2;
              ready = is_positive (pos count);
            }
            else same_time rt first first (pos 1))
  unfolding observe checked_state state_json observe_again observed_at is_sha256_text get
      positive_int
  observe-state_json s now first interval count digest sha e1 e2 e3 e4 e5 =
      rw (e1, e2, e3, e4, sha, eq_refl digest, read_back first)
        (elim (Bool-cases (leb (first + interval) now)) [
          | inl late ↦ rw late (rw e5 (ground arith))
          | inr early ↦ rw early refl
        ])

  abbrev seen_again : ℕ → ℕ → ℕ → ℕ → Observed
  seen_again first now interval count =
      if leb (first + interval) now
      then record {
        first_observed = first;
        last_observed = now;
        observations = pos 2;
        ready = is_positive (pos count);
      }
      else same_time rt first first (pos 1)

  -- What a run `later` makes of the state in `d`, which a run at `now` left
  abbrev pub Repeated : Json → ℕ → Stamp → ℕ → ℕ → Decision → Type 0
  Repeated report now later interval count d =
      (d.ready ≡ false)
      × (d' : Decision) × (confirmation rt report (state_json d.state) later interval ≡ ok d')
      × (d'.ready ≡ (leb (now + interval) later.utc && is_positive (pos count)))
      × (d'.state.observations ≡ (if leb (now + interval) later.utc then pos 2 else pos 1))
      × (d'.state.first_observed_at ≡ d.state.first_observed_at)

  Repeated-first_time :
      (report again : Json) (now later : Stamp) (interval count : ℕ) (d : Decision)
      (c : Confirmed rt report null now interval d)
      → SameBatch report again
      → as_int c.objects ≡ some (pos count)
      → later.has_zone ≡ true
      → Repeated again now.utc later interval count
          (decision rt c.digest c.groups c.objects c.bytes (first_time rt now.utc))
  unfolding confirmation
  Repeated-first_time report again now later interval count d c same counted zoned =
      let o = seen_again now.utc later.utc interval count in
      let before = decision rt c.digest c.groups c.objects c.bytes (first_time rt now.utc) in
      let observed =
        observe-state_json before.state later.utc now.utc interval count c.digest
          (candidate_digest-IsSha256 report c.digest c.is_digest) refl refl refl refl counted in
      (
        refl,
        decision rt c.digest c.groups c.objects c.bytes o,
        rw
            (
              zoned,
              candidate_digest-same report again same rt c.digest c.is_digest,
              same.totals ∙ c.is_totals,
              c.is_objects,
              observed,
              checked_candidates-same report again same _ c.is_candidates ∙ c.is_candidates,
              c.is_groups,
              c.is_bytes,
            )
            refl,
        ground arith,
        ground arith,
        elim (Bool-cases (leb (now.utc + interval) later.utc)) [
          | inl e ↦ rw e refl
          | inr e ↦ rw e refl
        ],
      )

  -- The first run over a report is never ready. A later run over a report with the same candidates and
  -- totals, whatever else it says, given the state that the first one left, is ready exactly when the
  -- interval has passed and there is an object to delete; it then counts two observations, and one if it
  -- came too early. Either way the time of the first observation stays.
  pub confirmation-twice :
      (report again : Json) (now later : Stamp) (interval count : ℕ) (d : Decision)
      → confirmation rt report null now interval ≡ ok d
      → SameBatch report again
      → as_int d.state.candidate_objects ≡ some (pos count)
      → later.has_zone ≡ true
      → Repeated again now.utc later interval count d
  confirmation-twice report again now later interval count d h same counted zoned =
      let c = confirmed rt report null now interval d h in
      let first : first_time rt now.utc ≡ c.seen = ok-injective (unfold observe in c.is_seen) in
      let is_d : decision rt c.digest c.groups c.objects c.bytes (first_time rt now.utc) ≡ d =
        ap (λ o. decision rt c.digest c.groups c.objects c.bytes o) first ∙ c.is_decision in
      let objs : c.objects ≡ d.state.candidate_objects =
        ap (λ (x : Decision). x.state.candidate_objects) is_d in
      subst (Repeated again now.utc later interval count) is_d
        (Repeated-first_time report again now later interval count d c same (rw objs counted) zoned)
