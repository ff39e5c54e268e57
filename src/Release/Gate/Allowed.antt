-- ===== src/Release/Gate/Allowed.antt =====
-- scripts/stable_gate.py: what holds where the gate finds no error.
use freesense_os_base.Base.{
  ℕ, ◌≡◌, refl, subst, ap, ◌∙◌, String, ◌<>◌, Bool, ◌&&◌, ◌||◌, true, false, Option, none, some,
  List, [], ◌∷◌, ◌++◌, arith, Bool-cases, inl, inr, ◌⊎◌, if◌then◌else◌, Result, ok, require,
  require-eq-ok, ◌>>=◌, >>=-eq-ok, ok-injective, nat_eq, length,
}
use freesense_os_base.Base.Json.{
  ℤ, Json, str, get, subscript, is_null, as_text, null, bool, int, arr, obj,
}
use freesense_os_base.Base.Sets.{Dict, contains}
use freesense_os_base.Delta.Worklist.{names}
use freesense_os_base.Release.Lock.{truthy, is_same, load}
use freesense_os_base.Release.Withdrawn.{withdrawn}
use freesense_os_base.Release.Gate.{
  World, maintenance_branch, has_waited, hours_of, on_branch, check_source, check_source_list,
  check_sources, live_stable, published_at, check_wait, check_soak, check_complete, system_url,
  packages_url, check_candidate, check_candidates, check_seal, gate, is_some_text, withdrawn_errors,
}

append_nil : (xs ys : List String) → xs ++ ys ≡ [] → (xs ≡ []) × (ys ≡ [])
append_nil [] ys h = (refl, h)
append_nil (x ∷ xs) ys h = cc h

no_error : (b : Bool) (message : String) → (if b then message ∷ [] else []) ≡ [] → b ≡ false
no_error false message h = refl
no_error true message h = cc h

no_error_not : (b : Bool) (message : String) → (if b then [] else message ∷ []) ≡ [] → b ≡ true
no_error_not true message h = refl
no_error_not false message h = cc h

as_text-eq-ok : (v : Json) (s : String) → as_text v ≡ ok s → v ≡ str s
as_text-eq-ok (str t) s h = ap str (ok-injective h)
as_text-eq-ok null s h = cc h
as_text-eq-ok (bool b) s h = cc h
as_text-eq-ok (int n) s h = cc h
as_text-eq-ok (arr es) s h = cc h
as_text-eq-ok (obj ms) s h = cc h

module _ (w : World) where
  -- The commit that the lock names for the repository is on the branch.
  abbrev pub IsOnBranch : Json → String → String × String → Type 0
  IsOnBranch lock branch (key, repository) =
      (sha : String) × (subscript key lock ≡ ok (str sha))
      × (on_branch w repository sha branch ≡ ok true)

  check_source-IsOnBranch :
      (lock : Json) (branch key repository : String)
      → check_source w lock branch key repository ≡ ok []
      → IsOnBranch lock branch (key, repository)
  unfolding check_source
  check_source-IsOnBranch lock branch key repository h =
      let (commit, is_commit, h1) = >>=-eq-ok (subscript key lock) _ h in
      let (sha, is_sha, h2) = >>=-eq-ok (as_text commit) _ h1 in
      let (there, is_there, h3) = >>=-eq-ok (on_branch w repository sha branch) _ h2 in
      (
        sha,
        is_commit ∙ ap ok (as_text-eq-ok commit sha is_sha),
        is_there ∙ ap ok (no_error_not there _ (ok-injective h3)),
      )

  -- All three sources are on the branch.
  pub record AllOnBranch (lock : Json) (branch : String) : Type 0 where
    pub source : IsOnBranch lock branch ("source_sha", "freesense")
    pub system_ports : IsOnBranch lock branch ("system_ports_sha", "freesense-system-ports")
    pub packages : IsOnBranch lock branch ("packages_sha", "freesense-packages")

  check_source_list-first :
      (lock : Json) (branch key repository : String) (rest : List (String × String))
      → check_source_list w lock branch ((key, repository) ∷ rest) ≡ ok []
      → IsOnBranch lock branch (key, repository) × (check_source_list w lock branch rest ≡ ok [])
  unfolding check_source_list
  check_source_list-first lock branch key repository rest h =
      let (errors, first, h1) = >>=-eq-ok (check_source w lock branch key repository) _ h in
      let (more, others, h2) = >>=-eq-ok (check_source_list w lock branch rest) _ h1 in
      let (none_here, none_there) = append_nil errors more (ok-injective h2) in
      (
        check_source-IsOnBranch lock branch key repository (first ∙ ap ok none_here),
        others ∙ ap ok none_there,
      )

  check_sources-AllOnBranch :
      (lock : Json) (train : String)
      → check_sources w lock train ≡ ok []
      → AllOnBranch lock (maintenance_branch train)
  unfolding check_sources
  check_sources-AllOnBranch lock train h =
      let branch = maintenance_branch train in
      let (a, h1) =
        check_source_list-first lock branch "source_sha" "freesense"
          (("system_ports_sha", "freesense-system-ports")
            ∷ ("packages_sha", "freesense-packages")
            ∷ [])
          h in
      let (b, h2) =
        check_source_list-first lock branch "system_ports_sha" "freesense-system-ports"
          (("packages_sha", "freesense-packages") ∷ []) h1 in
      let (c, _) = check_source_list-first lock branch "packages_sha" "freesense-packages" [] h2 in
      record { source = a; system_ports = b; packages = c }

  -- The same version is live already, or a reason overrides.
  abbrev is_exempt : Json → Json → Json → Bool
  is_exempt release lock live =
      is_same release (get "version" live) || truthy (get "soak_override" lock)

  -- Nothing is live, the same version is or a reason overrides, or the hours have passed.
  abbrev pub IsSoaked : Json → Json → ℤ → ℕ → Type 0
  IsSoaked lock live hours now =
      (is_null live ≡ true)
      ⊎ ((release : Json) × (subscript "release" lock ≡ ok release)
          × ((is_exempt release lock live ≡ true)
              ⊎ ((published : ℕ) × (published_at w live ≡ ok published)
                  × (has_waited hours published now ≡ true))))

  check_soak-IsSoaked :
      (lock live : Json) (hours : ℤ) (now : ℕ)
      → check_soak w lock live hours now ≡ ok []
      → IsSoaked lock live hours now
  unfolding check_soak check_wait
  check_soak-IsSoaked lock live hours now h = elim (Bool-cases (is_null live)) [
    | inl nothing ↦ inl nothing
    | inr something ↦
        let h0 : (subscript "release" lock >>= λ release.
        if is_exempt release lock live then ok [] else check_wait w live hours now)
            ≡ ok [] =
          rw (something, check_soak) at h in
        let (release, is_release, h1) = >>=-eq-ok (subscript "release" lock) _ h0 in
        elim (Bool-cases (is_exempt release lock live)) [
          | inl free ↦ inr (release, is_release, inl free)
          | inr bound ↦
              let h2 : check_wait w live hours now ≡ ok [] =
                subst (λ b. (if b then ok [] else check_wait w live hours now) ≡ ok []) bound h1 in
              let (published, is_published, h3) = >>=-eq-ok (published_at w live) _ h2 in
              inr (
                release,
                is_release,
                inr (
                  published,
                  is_published,
                  no_error_not (has_waited hours published now) _ (ok-injective h3),
                ),
              )
        ]
  ]

  -- The completion markers of both components are there.
  abbrev pub IsCandidate : String → String → String → String → Type 0
  IsCandidate base train system packages =
      (a b : Json) × (w.fetch (system_url w base system) ≡ ok (some a))
      × (w.fetch (packages_url w base train packages) ≡ ok (some b))

  unfoldable pub AreCandidates : String → String → List String → List String → Type 0
  AreCandidates base train (system ∷ systems) (packages ∷ others) =
      IsCandidate base train system packages × AreCandidates base train systems others
  AreCandidates base train _ _ = Unit

  check_complete-some :
      (label url : String)
      → check_complete w label url ≡ ok []
      → (marker : Json) × (w.fetch url ≡ ok (some marker))
  unfolding check_complete
  check_complete-some label url h =
      let (marker, fetched, h1) = >>=-eq-ok (w.fetch url) _ h in go marker fetched (ok-injective h1)
    where
      go :
          (o : Option Json)
          → w.fetch url ≡ ok o
          → (elim o [
            | none ↦
                ("the " <> label <> " candidate " <> url
                  <> " is not complete; run stage=candidate first (R3)")
                ∷ []
            | some found ↦ []
          ])
            ≡ []
          → (marker : Json) × (w.fetch url ≡ ok (some marker))
      go none fetched e = cc e
      go (some found) fetched e = (found, fetched)

  check_candidate-IsCandidate :
      (base train system packages : String)
      → check_candidate w base train system packages ≡ ok []
      → IsCandidate base train system packages
  unfolding check_candidate
  check_candidate-IsCandidate base train system packages h =
      let (errors, first, h1) =
        >>=-eq-ok (check_complete w "System" (system_url w base system)) _ h in
      let (more, second, h2) =
        >>=-eq-ok (check_complete w "Optional Packages" (packages_url w base train packages)) _
          h1 in
      let (none_here, none_there) = append_nil errors more (ok-injective h2) in
      let (a, is_a) =
        check_complete-some "System" (system_url w base system) (first ∙ ap ok none_here) in
      let (b, is_b) =
        check_complete-some "Optional Packages" (packages_url w base train packages)
          (second ∙ ap ok none_there) in
      (a, b, is_a, is_b)

  check_candidates-AreCandidates :
      (base train : String) (systems others : List String)
      → check_candidates w base train systems others ≡ ok []
      → AreCandidates base train systems others
  unfolding check_candidates AreCandidates
  check_candidates-AreCandidates base train [] others h = tt
  check_candidates-AreCandidates base train (system ∷ systems) [] h = tt
  check_candidates-AreCandidates base train (system ∷ systems) (packages ∷ others) h =
      let (errors, first, h1) = >>=-eq-ok (check_candidate w base train system packages) _ h in
      let (more, rest, h2) = >>=-eq-ok (check_candidates w base train systems others) _ h1 in
      let (none_here, none_there) = append_nil errors more (ok-injective h2) in
      (
        check_candidate-IsCandidate base train system packages (first ∙ ap ok none_here),
        check_candidates-AreCandidates base train systems others (rest ∙ ap ok none_there),
      )

  -- What a seal needs on top
  pub record Sealable (policy lock : Json) (train : String) (systems others : List String) (now : ℕ)
      : Type 0 where
    pub base : String
    pub is_base : subscript "public_base_url" policy ≡ ok (str base)
    pub one_each : nat_eq (length systems) (length others) ≡ true
    pub complete : AreCandidates base train systems others
    pub live : Json
    pub is_live : live_stable w base ≡ ok live
    pub hours : ℤ
    pub is_hours : (subscript "stable_soak_hours" policy >>= hours_of) ≡ ok hours
    pub soaked : IsSoaked lock live hours now

  check_seal-Sealable :
      (policy lock : Json) (train : String) (systems others : List String) (now : ℕ)
      → check_seal w policy lock train systems others now ≡ ok []
      → Sealable policy lock train systems others now
  unfolding check_seal
  check_seal-Sealable policy lock train systems others now h =
      let (value, is_value, h1) = >>=-eq-ok (subscript "public_base_url" policy) _ h in
      let (base, is_base, h2) = >>=-eq-ok (as_text value) _ h1 in
      let (_, paired, h3) =
        >>=-eq-ok (require (nat_eq (length systems) (length others) && is_some_text w systems) _) _
          h2 in
      let (errors, candidates, h4) =
        >>=-eq-ok (check_candidates w base train systems others) _ h3 in
      let (live, is_live, h5) = >>=-eq-ok (live_stable w base) _ h4 in
      let (soak, is_soak, h6) = >>=-eq-ok (subscript "stable_soak_hours" policy) _ h5 in
      let (hours, is_hours, h7) = >>=-eq-ok (hours_of soak) _ h6 in
      let (more, waited, h8) = >>=-eq-ok (check_soak w lock live hours now) _ h7 in
      let (none_here, none_there) = append_nil errors more (ok-injective h8) in
      let both : (nat_eq (length systems) (length others) && is_some_text w systems) ≡ true =
        require-eq-ok _ _ paired in
      record {
        base = base;
        is_base = is_value ∙ ap ok (as_text-eq-ok value base is_base);
        one_each = ground arith;
        complete =
            check_candidates-AreCandidates base train systems others (candidates ∙ ap ok none_here);
        live = live;
        is_live = is_live;
        hours = hours;
        is_hours = ap (λ (r : Result Json). r >>= hours_of) is_soak ∙ is_hours;
        soaked = check_soak-IsSoaked lock live hours now (waited ∙ ap ok none_there);
      }

  -- What the gate has checked of a seal
  pub record Allowed (policy : Json) (release : String) (document : Json) (pulled : Option Json)
      (systems others : List String) (now : ℕ) : Type 0 where
    pub lock : Json
    pub is_lock : load policy release document ≡ ok lock
    pub train : String
    pub is_train : subscript "package_train" lock ≡ ok (str train)
    pub gone : Dict Json
    pub is_gone : withdrawn pulled ≡ ok gone
    pub not_withdrawn : contains (names gone) release ≡ false
    pub sources : AllOnBranch lock (maintenance_branch train)
    pub seal : Sealable policy lock train systems others now

-- Where the gate finds no error at the seal stage: the release has a valid lock and is not withdrawn;
-- its three source commits are on the maintenance branch of its train; for each pair of fingerprints
-- both completion markers exist; and nothing is live, the same version is, a reason overrides the
-- wait, or the policy's hours have passed since the live release was published.
pub gate-Allowed :
    (w : World) (policy : Json) (release : String) (document : Json) (pulled : Option Json)
    (systems others : List String) (now : ℕ)
    → gate w policy release true document pulled systems others now ≡ ok []
    → Allowed w policy release document pulled systems others now
unfolding gate
gate-Allowed w policy release document pulled systems others now h =
    let (lock, is_lock, h1) = >>=-eq-ok (load policy release document) _ h in
    let (value, is_value, h2) = >>=-eq-ok (subscript "package_train" lock) _ h1 in
    let (train, is_train, h3) = >>=-eq-ok (as_text value) _ h2 in
    let (gone, is_gone, h4) = >>=-eq-ok (withdrawn pulled) _ h3 in
    let (sources, is_sources, h5) = >>=-eq-ok (check_sources w lock train) _ h4 in
    let (sealing, is_sealing, h6) =
      >>=-eq-ok (check_seal w policy lock train systems others now) _ h5 in
    let (none_withdrawn, rest) =
      append_nil (withdrawn_errors gone release) (sources ++ sealing) (ok-injective h6) in
    let (no_source, no_seal) = append_nil sources sealing rest in
    record {
      lock = lock;
      is_lock = is_lock;
      train = train;
      is_train = is_value ∙ ap ok (as_text-eq-ok value train is_train);
      gone = gone;
      is_gone = is_gone;
      not_withdrawn = no_error (contains (names gone) release) _ none_withdrawn;
      sources = check_sources-AllOnBranch w lock train (is_sources ∙ ap ok no_source);
      seal =
          check_seal-Sealable w policy lock train systems others now (is_sealing ∙ ap ok no_seal);
    }
