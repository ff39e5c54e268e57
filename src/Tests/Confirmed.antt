-- ===== src/Tests/Confirmed.antt =====
-- Two runs over one report, four time units apart, with an interval of two.
use freesense_os_base.Base.{
  some, ℕ, ◌+◌, ◌≤◌, ◌≡◌, refl, String, true, false, List, [], ◌∷◌, ok, map_results,
}
use freesense_os_base.Base.Text.{size}
use freesense_os_base.Base.Json.{
  Json, null, str, int, arr, obj, pos, ℤ, member, done, from_list, get, subscript, as_int,
  is_positive, is_text,
}
use freesense_os_base.Retention.Runtime.{Stamp, parse_time}
use freesense_os_base.Retention.Report.{candidate_digest, read_group_digest, is_sha256_text}
use freesense_os_base.Retention.Keys.{is_sha256}
use freesense_os_base.Retention.Confirm.{
  Decision, state_json, confirmation, observe, checked_state, observe_again, observed_at,
  positive_int, plus_one, at_least_two,
}
use freesense_os_base.Retention.Confirm.Laws.{confirmation-ready}
use freesense_os_base.Retention.Confirm.Twice.{confirmation-twice, Repeated, SameBatch}
use freesense_os_base.Tests.Sample.{runtime, unary, digest_b, unary_read_back, sha256-IsSha256}

abbrev pub report_with : List Json → Json
report_with candidates = obj (
    member "schema_version" (str "freesense.r2-retention-report/v1") (
      member "mode" (str "two-run-confirmation") (
        member "candidates" (arr (from_list candidates)) (
          member "totals"
            (obj (
              member "candidate_objects" (int (pos 1))
                (member "candidate_bytes" (int (pos 7)) done)))
            done))))

abbrev pub stale : Json
stale = obj (
    member "bucket" (str "build") (
      member "prefix" (str "v1/b/") (
        member "bytes" (int (pos 7))
          (member "keys" (arr (from_list (str "v1/artifacts/b" ∷ []))) done))))

abbrev at : ℕ → Stamp
at t = record { utc = t; has_zone = true }

abbrev first : Decision
first = record {
  ready = false;
  state = record {
    candidate_sha256 = digest_b;
    candidate_groups_sha256 = digest_b ∷ [];
    candidate_objects = int (pos 1);
    candidate_bytes = int (pos 7);
    observations = pos 1;
    first_observed_at = "+";
    last_observed_at = "+";
    applied = false;
  };
}

abbrev second : Decision
second = record {
  ready = true;
  state = record {
    candidate_sha256 = digest_b;
    candidate_groups_sha256 = digest_b ∷ [];
    candidate_objects = int (pos 1);
    candidate_bytes = int (pos 7);
    observations = pos 2;
    first_observed_at = "+";
    last_observed_at = "+++++";
    applied = false;
  };
}

first_run : confirmation runtime (report_with (stale ∷ [])) null (at 1) 2 ≡ ok first
unfolding confirmation candidate_digest subscript observe map_results read_group_digest unary
first_run = refl

second_run :
    confirmation runtime (report_with (stale ∷ [])) (state_json first.state) (at 5) 2 ≡ ok second
unfolding confirmation candidate_digest subscript observe state_json checked_state is_sha256_text
    is_sha256 size positive_int observe_again observed_at parse_time map_results read_group_digest
    unary
second_run = refl

confirmation-ready_example :
    (digest : String) × (candidate_digest runtime (report_with (stale ∷ [])) ≡ ok digest)
    × (is_text digest (get "candidate_sha256" (state_json first.state)) ≡ true)
    × ((last : ℕ) × (observed_at runtime "last_observed_at" (state_json first.state) ≡ ok last)
        × (last + 2 ≤ 5))
    × ((seen : ℤ) × (positive_int (get "observations" (state_json first.state)) ≡ some seen)
        × (second.state.observations ≡ plus_one seen)
        × (at_least_two second.state.observations ≡ true))
    × ((count : ℤ) × (as_int second.state.candidate_objects ≡ some count)
        × (is_positive count ≡ true))
confirmation-ready_example =
    confirmation-ready runtime (report_with (stale ∷ [])) (state_json first.state) (at 5) 2 second
      second_run refl

-- The report of the next day
abbrev next_report : Json
next_report = obj (
    member "generated_at" (str "+++++") (
      member "schema_version" (str "freesense.r2-retention-report/v1") (
        member "mode" (str "two-run-confirmation") (
          member "candidates" (arr (from_list (stale ∷ []))) (
            member "totals"
              (obj (
                member "candidate_objects" (int (pos 1))
                  (member "candidate_bytes" (int (pos 7)) done)))
              done)))))

next_report-SameBatch : SameBatch (report_with (stale ∷ [])) next_report
unfolding get subscript
next_report-SameBatch = record {
  is_document = refl;
  schema = refl;
  mode = refl;
  candidates = refl;
  totals = refl;
}

confirmation-twice_example :
    Repeated runtime unary_read_back sha256-IsSha256 next_report 1 (at 5) 2 1 first
confirmation-twice_example =
    confirmation-twice runtime unary_read_back sha256-IsSha256 (report_with (stale ∷ []))
      next_report (at 1) (at 5) 2 1 first first_run next_report-SameBatch refl refl
