-- ===== src/Retention/Plan/Elsewhere.antt =====
-- plan_retention of scripts/r2_retention.py: the candidates that are no artifacts (inputs,
-- downloads, smoke markers) have prefixes outside `v1/artifacts/`.
use freesense_os_base.Base.{
  ℕ, zero, suc, ◌==◌, ◌≡◌, refl, sym, ap, subst, String, ◌<>◌, Bool, true, none, some, List, [],
  ◌∷◌, drop, keep_if, All, All-append, Bool-cases, Option-cases, inl, inr, starts_with, ok,
  >>=-eq-ok, ok-injective, map_results, leb,
}
use text.Mathlib.TextEquality.{starts_with_iff}
use freesense_os_base.Base.Text.{strip_prefix}
use freesense_os_base.Base.Begins.{Begins, clash, clash-none, Begins-self}
use freesense_os_base.Base.Json.{Json}
use freesense_os_base.Base.Sets.{Dict, contains, push}
use freesense_os_base.Base.Sort.{sorted, sorted-All}
use freesense_os_base.Retention.Runtime.{Runtime, parse_time}
use freesense_os_base.Retention.Batch.{Stored, Candidate, candidate, newest_time}
use freesense_os_base.Retention.Plan.Inputs.{Inventory, Policy}
use freesense_os_base.Retention.Plan.Candidates.{input_digest, input_candidate, input_candidates}
use freesense_os_base.Retention.Plan.Downloads.{
  DownloadSet, sort_download, sort_downloads, devel_download, download_candidate,
  download_candidates, timed_object, newer_object, smoke_candidate, all_smoke, smoke_of,
}

-- A candidate that is no artifact
abbrev pub IsElsewhere : Candidate → Type 0
IsElsewhere c = strip_prefix "v1/artifacts/" c.prefix ≡ none

artifacts-inputs : clash "v1/artifacts/" "v1/inputs/sha256/" ≡ true
unfolding clash
artifacts-inputs = refl

artifacts-downloads : clash "v1/artifacts/" "v1/releases/devel/" ≡ true
unfolding clash
artifacts-downloads = refl

artifacts-smoke : clash "v1/artifacts/" "v1/smoke/broker/" ≡ true
unfolding clash
artifacts-smoke = refl

-- Every key of the groups is that of a Development download.
abbrev pub AreDownloads : Dict (List Stored) → Type 0
AreDownloads = All (λ (k, _). Begins "v1/releases/devel/" k)

push-AreDownloads :
    (k : String) (o : Stored) (d : Dict (List Stored))
    → Begins "v1/releases/devel/" k
    → AreDownloads d
    → AreDownloads (push k o d)
unfolding push
push-AreDownloads k o [] b h = (b, tt)
push-AreDownloads k o ((j, os) ∷ d) b (here, h) = elim (Bool-cases (j == k)) [
  | inl same ↦ rw same (here, h)
  | inr differs ↦ rw differs (here, push-AreDownloads k o d b h)
]

sort_download-AreDownloads :
    (train : Json) (d : DownloadSet) (o : Stored)
    → AreDownloads d.groups
    → AreDownloads (sort_download train d o).groups
unfolding sort_download
sort_download-AreDownloads train d o h =
    elim (Bool-cases (starts_with o.key "v1/releases/stable/")) [
      | inl stable ↦ rw stable h
      | inr e0 ↦ elim (Option-cases (devel_download o.key)) [
        | inr (r, found) ↦
            rw (e0, found)
              (push-AreDownloads ("v1/releases/devel/" <> r.release <> "/") o d.groups
                (begins r.release) h)
        | inl other ↦ elim (Bool-cases (starts_with o.key "v1/releases/devel/")) [
          | inl devel ↦ rw (e0, other, devel) h
          | inr e1 ↦ elim (Bool-cases (starts_with o.key "v1/smoke/broker/")) [
            | inl smoke ↦ rw (e0, other, e1, smoke) h
            | inr e2 ↦ elim (Bool-cases (starts_with o.key "v1/")) [
              | inl unknown ↦ rw (e0, other, e1, e2, unknown) h
              | inr foreign ↦ rw (e0, other, e1, e2, foreign) h
            ]
          ]
        ]
      ]
    ]
  where
    begins :
        (release : String) → Begins "v1/releases/devel/" ("v1/releases/devel/" <> release <> "/")
    begins release = (release <> "/", Begins-self "v1/releases/devel/" (release <> "/"))

pub sort_downloads-AreDownloads :
    (train : Json) (d : DownloadSet) (os : List Stored)
    → AreDownloads d.groups
    → AreDownloads (sort_downloads train d os).groups
unfolding sort_downloads
sort_downloads-AreDownloads train d [] h = h
sort_downloads-AreDownloads train d (o ∷ os) h =
    sort_downloads-AreDownloads train (sort_download train d o) os
      (sort_download-AreDownloads train d o h)

keep_if-All : (p : Stored → Bool) (os : List Stored) → All (λ o. p o ≡ true) (keep_if p os)
keep_if-All p [] = tt
keep_if-All p (o ∷ os) = elim (Bool-cases (p o)) [
  | inl is_kept ↦ rw is_kept (is_kept, keep_if-All p os)
  | inr dropped ↦ rw dropped (keep_if-All p os)
]

drop-All {ℓ κ} : {A : Type ℓ} (P : A → Type κ) (n : ℕ) (xs : List A) → All P xs → All P (drop n xs)
drop-All P zero xs h = h
drop-All P (suc n) [] h = tt
drop-All P (suc n) (x ∷ xs) (p, h) = drop-All P n xs h

module _ (rt : Runtime) where
  pub candidate-prefix :
      (bucket prefix reason : String) (objects : List Stored) (c : Candidate)
      → candidate rt bucket prefix reason objects ≡ ok c
      → c.prefix ≡ prefix
  unfolding candidate
  candidate-prefix bucket prefix reason objects c h =
      let (newest, _, h1) = >>=-eq-ok (newest_time rt objects) _ h in
      sym (ap (λ (x : Candidate). x.prefix) (ok-injective h1))

  candidate-IsElsewhere :
      (q bucket prefix reason : String) (objects : List Stored) (c : Candidate)
      → clash "v1/artifacts/" q ≡ true
      → Begins q prefix
      → candidate rt bucket prefix reason objects ≡ ok c
      → IsElsewhere c
  candidate-IsElsewhere q bucket prefix reason objects c apart (r, b) h =
      subst (λ s. strip_prefix "v1/artifacts/" s ≡ none)
        (sym (candidate-prefix bucket prefix reason objects c h))
        (clash-none "v1/artifacts/" q prefix r apart b)

  module _ (p : Policy) where
    input_digest-Begins :
        (key digest : String) → input_digest rt p key ≡ some digest → Begins "v1/inputs/sha256/" key
    unfolding input_digest
    input_digest-Begins key digest h = elim (Option-cases (strip_prefix "v1/inputs/sha256/" key)) [
      | inl other ↦ absurd (cc (rw (input_digest, other) at h))
      | inr found ↦ found
    ]

    input_candidate-IsElsewhere :
        (bucket : String) (protected : List String) (o : Stored) (cs : List Candidate)
        → input_candidate rt p bucket protected o ≡ ok cs
        → All IsElsewhere cs
    unfolding input_candidate
    input_candidate-IsElsewhere bucket protected o cs h =
        elim (Option-cases (input_digest rt p o.key)) [
          | inl other ↦ subst (All IsElsewhere) (ok-injective (rw (input_candidate, other) at h)) tt
          | inr (digest, is_input) ↦ elim (Bool-cases (contains protected digest)) [
            | inl is_kept ↦
                subst (All IsElsewhere)
                  (ok-injective (rw (input_candidate, is_input, is_kept) at h)) tt
            | inr free ↦
                let (time, _, h1) =
                  >>=-eq-ok (parse_time rt o.last_modified) _
                    (rw (input_candidate, is_input, free) at h) in
                let (c, made, h2) = >>=-eq-ok (candidate rt bucket o.key _ (o ∷ [])) _ h1 in
                let begins = input_digest-Begins o.key digest is_input in
                elim (Bool-cases (leb time p.orphan_cutoff)) [
                  | inl old ↦ subst (All IsElsewhere) (ok-injective (rw old at h2)) (
                    candidate-IsElsewhere "v1/inputs/sha256/" bucket o.key _ (o ∷ []) c
                        artifacts-inputs begins made,
                    tt,
                  )
                  | inr young ↦ subst (All IsElsewhere) (ok-injective (rw young at h2)) tt
                ]
          ]
        ]

    pub input_candidates-IsElsewhere :
        (bucket : String) (protected : List String) (os : List Stored) (cs : List Candidate)
        → input_candidates rt p bucket protected os ≡ ok cs
        → All IsElsewhere cs
    unfolding input_candidates
    input_candidates-IsElsewhere bucket protected [] cs h =
        subst (All IsElsewhere) (ok-injective h) tt
    input_candidates-IsElsewhere bucket protected (o ∷ os) cs h =
        let (here, e, h1) = >>=-eq-ok (input_candidate rt p bucket protected o) _ h in
        let (rest, e', h2) = >>=-eq-ok (input_candidates rt p bucket protected os) _ h1 in
        subst (All IsElsewhere) (ok-injective h2) (
          All-append IsElsewhere here rest (input_candidate-IsElsewhere bucket protected o here e)
            (input_candidates-IsElsewhere bucket protected os rest e'))

    download_candidate-IsElsewhere :
        (bucket : String) (protected : List String) (prefix : String) (objects : List Stored)
        (cs : List Candidate)
        → download_candidate rt p bucket protected prefix objects ≡ ok cs
        → Begins "v1/releases/devel/" prefix
        → All IsElsewhere cs
    unfolding download_candidate
    download_candidate-IsElsewhere bucket protected prefix objects cs h b =
        elim (Bool-cases (contains protected prefix)) [
          | inl is_kept ↦ subst (All IsElsewhere) (ok-injective (rw is_kept at h)) tt
          | inr free ↦
              let (newest, _, h1) = >>=-eq-ok (newest_time rt objects) _ (rw free at h) in
              let (c, made, h2) = >>=-eq-ok (candidate rt bucket prefix _ objects) _ h1 in
              elim (Bool-cases (leb newest p.completed_cutoff)) [
                | inl old ↦ subst (All IsElsewhere) (ok-injective (rw old at h2)) (
                  candidate-IsElsewhere "v1/releases/devel/" bucket prefix _ objects c
                      artifacts-downloads b made,
                  tt,
                )
                | inr young ↦ subst (All IsElsewhere) (ok-injective (rw young at h2)) tt
              ]
        ]

    pub download_candidates-IsElsewhere :
        (bucket : String) (protected : List String) (groups : Dict (List Stored))
        (cs : List Candidate)
        → download_candidates rt p bucket protected groups ≡ ok cs
        → AreDownloads groups
        → All IsElsewhere cs
    unfolding download_candidates
    download_candidates-IsElsewhere bucket protected [] cs h bs =
        subst (All IsElsewhere) (ok-injective h) tt
    download_candidates-IsElsewhere bucket protected ((prefix, objects) ∷ groups) cs h (b, bs) =
        let (here, e, h1) =
          >>=-eq-ok (download_candidate rt p bucket protected prefix objects) _ h in
        let (rest, e', h2) = >>=-eq-ok (download_candidates rt p bucket protected groups) _ h1 in
        subst (All IsElsewhere) (ok-injective h2) (
          All-append IsElsewhere here rest
            (download_candidate-IsElsewhere bucket protected prefix objects here e b)
            (download_candidates-IsElsewhere bucket protected groups rest e' bs))

    smoke_candidate-IsElsewhere :
        (bucket : String) (t : ℕ) (o : Stored) (cs : List Candidate)
        → smoke_candidate rt p bucket (t, o) ≡ ok cs
        → starts_with o.key "v1/smoke/broker/" ≡ true
        → All IsElsewhere cs
    unfolding smoke_candidate
    smoke_candidate-IsElsewhere bucket t o cs h is_smoke =
        let (rest, at) = (starts_with_iff o.key "v1/smoke/broker/").0 is_smoke in
        let begins : Begins "v1/smoke/broker/" o.key =
          subst (Begins "v1/smoke/broker/") at (rest, Begins-self "v1/smoke/broker/" rest) in
        let (c, made, h1) = >>=-eq-ok (candidate rt bucket o.key _ (o ∷ [])) _ h in
        elim (Bool-cases (leb t p.completed_cutoff)) [
          | inl old ↦ subst (All IsElsewhere) (ok-injective (rw old at h1)) (
            candidate-IsElsewhere "v1/smoke/broker/" bucket o.key _ (o ∷ []) c artifacts-smoke
                begins made,
            tt,
          )
          | inr young ↦ subst (All IsElsewhere) (ok-injective (rw young at h1)) tt
        ]

    all_smoke-IsElsewhere :
        (bucket : String) (ts : List (ℕ × Stored)) (cs : List Candidate)
        → all_smoke rt p bucket ts ≡ ok cs
        → All (λ t. starts_with t.1.key "v1/smoke/broker/" ≡ true) ts
        → All IsElsewhere cs
    unfolding all_smoke
    all_smoke-IsElsewhere bucket [] cs h bs = subst (All IsElsewhere) (ok-injective h) tt
    all_smoke-IsElsewhere bucket ((t, o) ∷ ts) cs h (b, bs) =
        let (here, e, h1) = >>=-eq-ok (smoke_candidate rt p bucket (t, o)) _ h in
        let (rest, e', h2) = >>=-eq-ok (all_smoke rt p bucket ts) _ h1 in
        subst (All IsElsewhere) (ok-injective h2) (
          All-append IsElsewhere here rest (smoke_candidate-IsElsewhere bucket t o here e b)
            (all_smoke-IsElsewhere bucket ts rest e' bs))

    timed_objects-All :
        (P : Stored → Type 0) (os : List Stored) (ts : List (ℕ × Stored))
        → map_results (timed_object rt p) os ≡ ok ts
        → All P os
        → All (λ t. P t.1) ts
    unfolding map_results timed_object
    timed_objects-All P [] ts h ps = subst (All (λ t. P t.1)) (ok-injective h) tt
    timed_objects-All P (o ∷ os) ts h (q, ps) =
        let (t, is_t, h1) = >>=-eq-ok (timed_object rt p o) _ h in
        let (rest, is_rest, h2) = >>=-eq-ok (map_results (timed_object rt p) os) _ h1 in
        let (time, _, same) = >>=-eq-ok (parse_time rt o.last_modified) _ is_t in
        subst (All (λ u. P u.1)) (ok-injective h2) (
          subst P (ap (λ (u : ℕ × Stored). u.1) (ok-injective same)) q,
          timed_objects-All P os rest is_rest ps,
        )

    pub smoke_of-IsElsewhere :
        (i : Inventory) (kept : List String) (cs : List Candidate)
        → smoke_of rt p i ≡ ok (kept, cs)
        → All IsElsewhere cs
    unfolding smoke_of
    smoke_of-IsElsewhere i kept cs h =
        let markers = keep_if (λ (o : Stored). starts_with o.key "v1/smoke/broker/") i.objects in
        let (ts, are_ts, h1) = >>=-eq-ok (map_results (timed_object rt p) markers) _ h in
        let (old, e, h2) =
          >>=-eq-ok (all_smoke rt p i.bucket (drop p.smoke_keep (sorted (newer_object rt p) ts))) _
            h1 in
        let smoke =
          timed_objects-All (λ o. starts_with o.key "v1/smoke/broker/" ≡ true) markers ts are_ts
            (keep_if-All _ i.objects) in
        subst (All IsElsewhere) (ap (λ (x : List String × List Candidate). x.1) (ok-injective h2)) (
          all_smoke-IsElsewhere i.bucket _ old e
            (drop-All _ p.smoke_keep _ (sorted-All (newer_object rt p) _ ts smoke)))
