-- ===== src/Retention/Plan/Candidates.antt =====
-- plan_retention of scripts/r2_retention.py, last part: what is old enough to go and not protected,
-- among artifacts, inputs, downloads and smoke markers.
use freesense_os_base.Base.{
  ℕ, String, ◌<>◌, Bool, true, false, Option, none, some, List, [], ◌∷◌, ◌++◌, leb, ltb,
  if◌then◌else◌, Result, ok, ◌>>=◌,
}
use freesense_os_base.Base.Sets.{Dict, contains, lookup}
use freesense_os_base.Base.Text.{strip_prefix}
use freesense_os_base.Retention.Keys.{is_sha256}
use freesense_os_base.Retention.Runtime.{Runtime, parse_time}
use freesense_os_base.Retention.Batch.{Stored, Candidate, candidate, newest_time}
use freesense_os_base.Retention.Marker.{Entry}
use freesense_os_base.Retention.Plan.Inputs.{Policy}

-- `prefix in markers`
abbrev pub is_completed : Dict Entry → String → Bool
is_completed markers prefix = elim (lookup prefix markers) [ none ↦ false | some e ↦ true ]

abbrev pub group_cutoff : Policy → Dict Entry → String → ℕ
group_cutoff p markers prefix =
    if is_completed markers prefix then p.completed_cutoff else p.orphan_cutoff

abbrev group_reason : Dict Entry → String → String
group_reason markers prefix =
    if is_completed markers prefix
    then "expired completed Development artifact"
    else "abandoned incomplete artifact"

module _ (rt : Runtime) (p : Policy) where
  -- The candidate of one artifact group, if it is one
  unfoldable pub artifact_candidate :
      String → Dict Entry → List String → String → List Stored → Result (List Candidate)
  artifact_candidate bucket markers protected prefix objects =
      let aged = (do
        newest ← newest_time rt objects
        c ← candidate rt bucket (prefix <> "/") (group_reason markers prefix) objects
        ok (if ltb (group_cutoff p markers prefix) newest then [] else c ∷ [])) in
      if contains protected prefix then ok [] else aged

  -- The groups, in the order of their prefixes
  unfoldable pub artifact_candidates :
      String → Dict Entry → List String → Dict (List Stored) → Result (List Candidate)
  unfolding artifact_candidate
  artifact_candidates bucket markers protected [] = ok []
  artifact_candidates bucket markers protected ((prefix, objects) ∷ groups) = do
    here ← artifact_candidate bucket markers protected prefix objects
    rest ← artifact_candidates bucket markers protected groups
    ok (here ++ rest)

  -- `re.fullmatch(r"v1/inputs/sha256/([0-9a-f]{64})", key)`
  unfoldable pub input_digest : String → Option String
  input_digest key = elim (strip_prefix "v1/inputs/sha256/" key) [
    | none ↦ none
    | some rest ↦ if is_sha256 rest then some rest else none
  ]

  unfoldable pub input_candidate : String → List String → Stored → Result (List Candidate)
  unfolding input_digest
  input_candidate bucket protected o = elim (input_digest o.key) [
    | none ↦ ok []
    | some digest ↦
        let aged = (do
          time ← parse_time rt o.last_modified
          c ← candidate rt bucket o.key "unreferenced immutable input" (o ∷ [])
          ok (if leb time p.orphan_cutoff then c ∷ [] else [])) in
        if contains protected digest then ok [] else aged
  ]

  unfoldable pub input_candidates : String → List String → List Stored → Result (List Candidate)
  unfolding input_candidate
  input_candidates bucket protected [] = ok []
  input_candidates bucket protected (o ∷ os) = do
    here ← input_candidate bucket protected o
    rest ← input_candidates bucket protected os
    ok (here ++ rest)
