-- ===== src/Retention/Plan/Forever.antt =====
-- plan_retention of scripts/r2_retention.py as a whole: the released Stable builds in a plan.
use freesense_os_base.Base.{
  ◌≡◌, ◌≢◌, ◌∙◌, subst, sym, ap, String, ◌<>◌, Bool, true, false, some, List, [], ◌∷◌, ◌++◌,
  Bool-cases, inl, inr, ok, >>=-eq-ok, ok-injective, All, All-append, All-map_of, require, ltb,
}
use mathlib.Core.Bool.{false≢true}
use text.Mathlib.TextLemmas.{append_cancel_right}
use freesense_os_base.Base.Json.{Json, get, is_object}
use freesense_os_base.Base.Sets.{
  Dict, contains, add_all, lookup, contains-add_all_mono, contains-sorted,
}
use freesense_os_base.Base.Sort.{leb_text, sorted, sorted-All}
use freesense_os_base.Base.Text.{strip_prefix}
use freesense_os_base.Base.Begins.{Begins, Begins-append}
use freesense_os_base.Retention.Runtime.{Runtime}
use freesense_os_base.Retention.Batch.{
  Stored, Candidate, candidate, newest_time, max_delete_objects, max_delete_bytes,
}
use freesense_os_base.Retention.Batch.Members.{select_deletion_batch-All}
use freesense_os_base.Retention.Marker.{Entry}
use freesense_os_base.Retention.Locks.{Locks, lock_identities}
use freesense_os_base.Retention.Plan.{
  Documents, Report, Protected, protected_roots, with_legacy, newest_roots, iso_roots, members_of,
  plan_retention, build_candidates, leb_group, leb_candidate, other_candidates, choose_batch,
  plan_from, plan_markers, Others, no_downloads, release_keys, state_candidate_groups,
}
use freesense_os_base.Retention.Plan.Inputs.{
  Inventory, Settings, Policy, checked_policy, check_inventory, no_groups, group_objects,
  read_markers,
}
use freesense_os_base.Retention.Plan.Roots.{
  Sorted, nothing_sorted, sort_entries, cycle_roots, all_channel_roots,
}
use freesense_os_base.Retention.Plan.Images.{multiarch_roots}
use freesense_os_base.Retention.Plan.Closure.{closure}
use freesense_os_base.Retention.Plan.Closure.Laws.{closure_mono}
use freesense_os_base.Retention.Plan.Candidates.{
  artifact_candidate, artifact_candidates, group_cutoff,
}
use freesense_os_base.Retention.Plan.Candidates.{input_candidates}
use freesense_os_base.Retention.Plan.Downloads.{
  sort_downloads, newest_downloads, release_roots, download_candidates, smoke_of,
}
use freesense_os_base.Retention.Plan.Elsewhere.{
  IsElsewhere, candidate-prefix, input_candidates-IsElsewhere, download_candidates-IsElsewhere,
  smoke_of-IsElsewhere, sort_downloads-AreDownloads,
}
use freesense_os_base.Retention.Plan.Named.{
  group_objects-AreArtifacts, no_groups-AreArtifacts, read_markers-Begins,
}
use freesense_os_base.Retention.Plan.Keeps.{is_forever, sort_entries-forever}

with_legacy_mono :
    (train : Json) (s : Sorted) (ts found : List String) (legacy : Bool) (k : String)
    → contains ts k ≡ true
    → contains (with_legacy train s ts (found, legacy)).protected k ≡ true
unfolding with_legacy
with_legacy_mono train s ts found true k h =
    contains-add_all_mono _ (add_all found ts) k (contains-add_all_mono found ts k h)
with_legacy_mono train s ts found false k h = contains-add_all_mono found ts k h

module _ (p : Policy) (docs : Documents) (build : Inventory) (markers : Dict Entry) where
  protected_roots-forever :
      (locks : Locks) (roots : Protected) (j : String) (e : Entry)
      → lock_identities docs.release_locks ≡ ok locks
      → protected_roots p docs build markers ≡ ok roots
      → lookup j markers ≡ some e
      → is_forever p locks e ≡ true
      → contains roots.protected e.prefix ≡ true
  unfolding protected_roots
  protected_roots-forever locks roots j e l h found forever =
      let (cycle, _, h1) = >>=-eq-ok (cycle_roots p docs.development_cycle) _ h in
      let (locks', l', h2) = >>=-eq-ok (lock_identities docs.release_locks) _ h1 in
      let s = sort_entries p locks' (nothing_sorted cycle) markers in
      let (completion, _, h3) =
        >>=-eq-ok
          (multiarch_roots build docs.release_documents p.development_train
            (members_of (get "architectures" docs.multiarch)))
          _ h2 in
      let (u, _, h4) =
        >>=-eq-ok (require (is_object docs.channels) "signed repository manifest has no channels") _
          h3 in
      let (channels, _, h5) = >>=-eq-ok (all_channel_roots (members_of docs.channels)) _ h4 in
      let protected =
        add_all channels (add_all (newest_roots p s) (add_all completion s.protected)) in
      let (isos, _, h6) = >>=-eq-ok (iso_roots markers protected) _ h5 in
      let same : locks ≡ locks' = ok-injective (sym l ∙ l') in
      let first =
        sort_entries-forever p locks' (nothing_sorted cycle) markers j e found
          (subst (λ x. is_forever p x e ≡ true) same forever) in
      subst (λ (r : Protected). contains r.protected e.prefix ≡ true) (ok-injective h6)
        (with_legacy_mono p.development_train s protected isos.0 isos.1 e.prefix (
          contains-add_all_mono channels _ e.prefix (
            contains-add_all_mono (newest_roots p s) _ e.prefix
              (contains-add_all_mono completion s.protected e.prefix first))))

-- A candidate of another group than `kept`
abbrev pub IsOther : String → Candidate → Type 0
IsOther kept c = c.prefix ≢ kept <> "/"

module _ (rt : Runtime) (p : Policy) (bucket : String) (markers : Dict Entry)
    (protected : List String) (kept : String) where
  module _ (is_kept : contains protected kept ≡ true) where
    artifact_candidate-IsOther :
        (prefix : String) (objects : List Stored) (cs : List Candidate)
        → artifact_candidate rt p bucket markers protected prefix objects ≡ ok cs
        → All (IsOther kept) cs
    unfolding artifact_candidate
    artifact_candidate-IsOther prefix objects cs h = elim (Bool-cases (contains protected prefix)) [
      | inl e ↦ subst (All (IsOther kept)) (ok-injective (rw e at h)) tt
      | inr e ↦
          let (newest, _, h1) = >>=-eq-ok (newest_time rt objects) _ (rw e at h) in
          let (c, made, h2) = >>=-eq-ok (candidate rt bucket (prefix <> "/") _ objects) _ h1 in
          let other : IsOther kept c = λ same.
            let at : prefix ≡ kept =
              append_cancel_right prefix kept "/"
                (sym (candidate-prefix rt bucket (prefix <> "/") _ objects c made) ∙ same) in
            false≢true (sym (subst (λ x. contains protected x ≡ false) at e) ∙ is_kept) in
          elim (Bool-cases (ltb (group_cutoff p markers prefix) newest)) [
            | inl young ↦ subst (All (IsOther kept)) (ok-injective (rw young at h2)) tt
            | inr old ↦ subst (All (IsOther kept)) (ok-injective (rw old at h2)) (other, tt)
          ]
    ]

    artifact_candidates-IsOther :
        (groups : Dict (List Stored)) (cs : List Candidate)
        → artifact_candidates rt p bucket markers protected groups ≡ ok cs
        → All (IsOther kept) cs
    unfolding artifact_candidates
    artifact_candidates-IsOther [] cs h = subst (All (IsOther kept)) (ok-injective h) tt
    artifact_candidates-IsOther ((prefix, objects) ∷ groups) cs h =
        let (here, e, h1) =
          >>=-eq-ok (artifact_candidate rt p bucket markers protected prefix objects) _ h in
        let (rest, e', h2) =
          >>=-eq-ok (artifact_candidates rt p bucket markers protected groups) _ h1 in
        subst (All (IsOther kept)) (ok-injective h2) (
          All-append (IsOther kept) here rest (artifact_candidate-IsOther prefix objects here e)
            (artifact_candidates-IsOther groups rest e'))

-- What a plan says of one artifact that it keeps: its prefix is protected, and no candidate that
-- is eligible, and none of the batch, is its group.
abbrev pub KeepsArtifact : Report → Entry → Type 0
KeepsArtifact report e =
    (contains report.artifact_prefixes e.prefix ≡ true)
    × All (IsOther e.prefix) report.eligible
    × All (IsOther e.prefix) report.candidates

-- What lies outside `v1/artifacts/` is no artifact's group.
IsElsewhere-IsOther :
    (kept : String) (cs : List Candidate)
    → Begins "v1/artifacts/" kept
    → All IsElsewhere cs
    → All (IsOther kept) cs
IsElsewhere-IsOther kept cs b = All-map_of IsElsewhere (IsOther kept) away cs
  where
    away : (c : Candidate) → IsElsewhere c → IsOther kept c
    away c elsewhere same =
        let (rest, begins) = Begins-append "v1/artifacts/" kept "/" b in
        absurd (cc (sym elsewhere ∙ ap (strip_prefix "v1/artifacts/") same ∙ begins))

module _ (rt : Runtime) (p : Policy) (build downloads : Inventory) where
  other_candidates-IsElsewhere :
      (cs : List Candidate) (others : Others)
      → other_candidates rt p build downloads ≡ ok (cs, others)
      → All IsElsewhere cs
  unfolding other_candidates
  other_candidates-IsElsewhere cs others h =
      let d = sort_downloads p.development_train no_downloads downloads.objects in
      let (published, _, h1) = >>=-eq-ok (release_roots build release_keys) _ h in
      let kept =
        add_all published (add_all (newest_downloads p.keep_devel d.generations) d.protected) in
      let (old, eo, h2) =
        >>=-eq-ok (download_candidates rt p downloads.bucket kept (sorted leb_group d.groups)) _
          h1 in
      let ((_, from_build), eb, h3) = >>=-eq-ok (smoke_of rt p build) _ h2 in
      let ((_, from_downloads), ed, h4) = >>=-eq-ok (smoke_of rt p downloads) _ h3 in
      let groups =
        sorted-All leb_group (λ (k, _). Begins "v1/releases/devel/" k) d.groups
          (sort_downloads-AreDownloads p.development_train no_downloads downloads.objects tt) in
      subst (All IsElsewhere) (ap (λ (x : List Candidate × Others). x.0) (ok-injective h4)) (
        All-append IsElsewhere old (from_build ++ from_downloads)
          (download_candidates-IsElsewhere rt p downloads.bucket kept (sorted leb_group d.groups)
            old eo groups)
          (All-append IsElsewhere from_build from_downloads
            (smoke_of-IsElsewhere rt p build _ from_build eb)
            (smoke_of-IsElsewhere rt p downloads _ from_downloads ed)))

module _ (rt : Runtime) (p : Policy) (docs : Documents) (build downloads : Inventory)
    (markers : Dict Entry) where
  -- The candidates of a plan in which one artifact is protected
  build_candidates-IsOther :
      (groups : Dict (List Stored)) (protected : List String) (kept : String) (cs : List Candidate)
      → build_candidates rt p docs build markers groups protected ≡ ok cs
      → contains protected kept ≡ true
      → Begins "v1/artifacts/" kept
      → All (IsOther kept) cs
  unfolding build_candidates
  build_candidates-IsOther groups protected kept cs h is_kept b =
      let (artifacts, ea, h1) =
        >>=-eq-ok
          (artifact_candidates rt p build.bucket markers protected (sorted leb_group groups)) _ h in
      let (inputs, ei, h2) = >>=-eq-ok (input_candidates rt p build.bucket _ build.objects) _ h1 in
      subst (All (IsOther kept)) (ok-injective h2) (
        All-append (IsOther kept) artifacts inputs
          (artifact_candidates-IsOther rt p build.bucket markers protected kept is_kept
            (sorted leb_group groups) artifacts ea)
          (IsElsewhere-IsOther kept inputs b
            (input_candidates-IsElsewhere rt p build.bucket _ build.objects inputs ei)))

  plan_from-keeps :
      (groups : Dict (List Stored)) (protected warnings : List String) (report : Report) (e : Entry)
      → plan_from rt p docs build downloads markers groups protected warnings ≡ ok report
      → contains protected e.prefix ≡ true
      → Begins "v1/artifacts/" e.prefix
      → KeepsArtifact report e
  unfolding plan_from choose_batch
  plan_from-keeps groups protected warnings report e h kept b =
      let (all_build, eb, h1) =
        >>=-eq-ok (build_candidates rt p docs build markers groups protected) _ h in
      let ((others, _), eo, h2) = >>=-eq-ok (other_candidates rt p build downloads) _ h1 in
      let eligible = sorted leb_candidate (all_build ++ others) in
      let (batch, ec, h3) = >>=-eq-ok (choose_batch rt build eligible) _ h2 in
      let (previous, _, chosen) = >>=-eq-ok (state_candidate_groups _) _ ec in
      let all_other : All (IsOther e.prefix) eligible =
        sorted-All leb_candidate (IsOther e.prefix) (all_build ++ others) (
          All-append (IsOther e.prefix) all_build others
            (build_candidates-IsOther groups protected e.prefix all_build eb kept b)
            (IsElsewhere-IsOther e.prefix others b
              (other_candidates-IsElsewhere rt p build downloads others _ eo))) in
      let selected =
        select_deletion_batch-All rt (IsOther e.prefix) max_delete_objects max_delete_bytes eligible
          previous batch.0 batch.1 chosen all_other in
      subst (λ r. KeepsArtifact r e) (ok-injective h3)
        (contains-sorted leb_text protected e.prefix ∙ kept, all_other, selected)

  plan_markers-keeps :
      (groups : Dict (List Stored)) (report : Report) (locks : Locks) (j : String) (e : Entry)
      → plan_markers rt p docs build downloads groups markers ≡ ok report
      → lock_identities docs.release_locks ≡ ok locks
      → lookup j markers ≡ some e
      → is_forever p locks e ≡ true
      → Begins "v1/artifacts/" e.prefix
      → KeepsArtifact report e
  unfolding plan_markers
  plan_markers-keeps groups report locks j e h l found forever =
      let (roots, er, h1) = >>=-eq-ok (protected_roots p docs build markers) _ h in
      plan_from-keeps groups (closure markers roots.protected) roots.warnings report e h1 (
        closure_mono markers roots.protected e.prefix
          (protected_roots-forever p docs build markers locks roots j e l er found forever))

module _ (rt : Runtime) (settings : Settings) (docs : Documents) (build downloads : Inventory) where
  -- In every plan that succeeds, a completed artifact that is kept forever (a Stable image, a
  -- repository that a release lock names, one of a train that is neither Stable's nor Development's)
  -- stands among the report's protected prefixes, and no candidate of the report, neither among the
  -- eligible ones nor in the batch that is to be deleted, is its group.
  pub plan_retention-forever :
      (report : Report) (p : Policy) (locks : Locks) (markers : Dict Entry) (key : String)
      (e : Entry)
      → plan_retention rt settings docs build downloads ≡ ok report
      → checked_policy settings docs.channels ≡ ok p
      → lock_identities docs.release_locks ≡ ok locks
      → read_markers build
          (group_objects no_groups build.objects)
          (group_objects no_groups build.objects).objects
        ≡ ok markers
      → lookup key markers ≡ some e
      → is_forever p locks e ≡ true
      → KeepsArtifact report e
  unfolding plan_retention
  plan_retention-forever report p locks markers key e h is_policy is_locks is_markers is_found
        forever =
      let g = group_objects no_groups build.objects in
      let (p', ep, h1) = >>=-eq-ok (checked_policy settings docs.channels) _ h in
      let (_, _, h2) = >>=-eq-ok (check_inventory build "build") _ h1 in
      let (_, _, h3) = >>=-eq-ok (check_inventory downloads "downloads") _ h2 in
      let (markers', em, h4) = >>=-eq-ok (read_markers build g g.objects) _ h3 in
      let same_p : p' ≡ p = ok-injective (sym ep ∙ is_policy) in
      let same_m : markers' ≡ markers = ok-injective (sym em ∙ is_markers) in
      let h5 =
        subst (λ x. plan_markers rt x docs build downloads g.objects markers' ≡ ok report) same_p
          h4 in
      let h6 =
        subst (λ x. plan_markers rt p docs build downloads g.objects x ≡ ok report) same_m h5 in
      plan_markers-keeps rt p docs build downloads markers g.objects report locks key e h6 is_locks
        is_found forever
        (read_markers-Begins build g
          (group_objects-AreArtifacts no_groups build.objects no_groups-AreArtifacts) g.objects
          markers key e is_markers is_found)
