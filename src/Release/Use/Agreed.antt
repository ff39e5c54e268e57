-- ===== src/Release/Use/Agreed.antt =====
-- scripts/release_lock.py: `sources`, `check_pin` and `policy_for` on a lock that `validate` accepts.
use freesense_os_base.Base.{
  ◌≡◌, refl, sym, subst, ap, ◌∙◌, String, ◌==◌, Bool, ◌&&◌, ◌||◌, not, true, false, some, ◌++◌,
  arith, eq_iff, Bool-cases, Option-cases, inl, inr, if◌then◌else◌, ok, require, >>=-eq-ok,
  ok-injective,
}
use freesense_os_base.Base.Json.{
  Json, Members, done, member, null, bool, int, str, arr, obj, get, find, subscript, is_text,
  is_null, text_where,
}
use freesense_os_base.Base.Sets.{contains}
use freesense_os_base.Retention.Keys.{is_sha256, is_commit}
use freesense_os_base.Release.Lock.{is_same, is_int, is_input, validate}
use freesense_os_base.Release.Lock.Sealed.{Sealed, validate-Sealed}
use freesense_os_base.Release.Use.{
  targets, Sources, sources, update, spread, policy_for, is_int_of, Pin, pin_commit, sealed_jail,
  differs, differing, is_none_left, check_pin,
}

subscript-get : (k : String) (v w : Json) → subscript k v ≡ ok w → get k v ≡ w
unfolding subscript get
subscript-get k (obj ms) w h = elim (Option-cases (find k ms)) [
  | inl absent ↦ cc (rw (absent, subscript) at h)
  | inr (x, found) ↦
      let same : ok x ≡ ok w = rw (found, subscript) at h in rw (found, get) (ok-injective same)
]
subscript-get k (str s) w h = cc h
subscript-get k null w h = cc h
subscript-get k (bool b) w h = cc h
subscript-get k (int n) w h = cc h
subscript-get k (arr es) w h = cc h

-- A member that is a text is there.
subscript-text_where :
    (p : String → Bool) (k : String) (v : Json)
    → text_where p (get k v) ≡ true
    → subscript k v ≡ ok (get k v)
unfolding subscript get
subscript-text_where p k (obj ms) h = elim (Option-cases (find k ms)) [
  | inl absent ↦
      let nothing : get k (obj ms) ≡ null = rw (absent, get) refl in
      let h0 : text_where p null ≡ true = subst (λ x. text_where p x ≡ true) nothing h in cc h0
  | inr (x, found) ↦ rw (found, subscript, get) refl
]
subscript-text_where p k (str s) h = cc h
subscript-text_where p k null h = cc h
subscript-text_where p k (bool b) h = cc h
subscript-text_where p k (int n) h = cc h
subscript-text_where p k (arr es) h = cc h

-- So is one that is not null.
subscript-there : (k : String) (v : Json) → is_null (get k v) ≡ false → subscript k v ≡ ok (get k v)
unfolding subscript get
subscript-there k (obj ms) h = elim (Option-cases (find k ms)) [
  | inl absent ↦
      let nothing : get k (obj ms) ≡ null = rw (absent, get) refl in
      let h0 : is_null null ≡ false = subst (λ x. is_null x ≡ false) nothing h in cc h0
  | inr (x, found) ↦ rw (found, subscript, get) refl
]
subscript-there k (str s) h = cc h
subscript-there k null h = cc h
subscript-there k (bool b) h = cc h
subscript-there k (int n) h = cc h
subscript-there k (arr es) h = cc h

subscript-int : (k : String) (v : Json) → is_int (get k v) ≡ true → subscript k v ≡ ok (get k v)
subscript-int k v h = subscript-there k v (not_null (get k v) h)
  where
    not_null : (w : Json) → is_int w ≡ true → is_null w ≡ false
    not_null null e = cc e
    not_null (str s) e = refl
    not_null (bool b) e = refl
    not_null (int n) e = refl
    not_null (arr es) e = refl
    not_null (obj ms) e = refl

-- What `sources` reads of a lock
abbrev pub named_sources : Json → Sources
named_sources lock = record {
  source = get "source_sha" lock;
  system_ports = get "system_ports_sha" lock;
  packages = get "packages_sha" lock;
}

-- On a lock that `validate` accepts, `sources` returns the members `source_sha`, `system_ports_sha` and
-- `packages_sha` of the lock as `source`, `system_ports` and `packages`, and each is a commit.
pub sources-eq-ok :
    (document : Json) (release : String) (lock : Json)
    → validate document release ≡ ok lock
    → (sources lock ≡ ok (named_sources lock))
      × (text_where is_commit (get "source_sha" lock) ≡ true)
      × (text_where is_commit (get "system_ports_sha" lock) ≡ true)
      × (text_where is_commit (get "packages_sha" lock) ≡ true)
unfolding sources
sources-eq-ok document release lock h =
    let (same, d) = validate-Sealed document release lock h in
    let s = subst (λ x. Sealed x release) (sym same) d in
    let all_commits = s.commits in
    let first : text_where is_commit (get "source_sha" lock) ≡ true = ground arith in
    let second : text_where is_commit (get "system_ports_sha" lock) ≡ true = ground arith in
    let third : text_where is_commit (get "packages_sha" lock) ≡ true = ground arith in
    (
      rw
          (
            subscript-text_where is_commit "source_sha" lock first,
            subscript-text_where is_commit "system_ports_sha" lock second,
            subscript-text_where is_commit "packages_sha" lock third,
          )
          refl,
      first,
      second,
      third,
    )

pub find-update :
    (k j : String) (v : Json) (ms : Members)
    → find k (update j v ms) ≡ (if j == k then some v else find k ms)
unfolding find update
find-update k j v done = ground arith
find-update k j v (member i w ms) = ground (arith, find-update k j v ms)

get-update :
    (k j : String) (v : Json) (ms : Members)
    → get k (obj (update j v ms)) ≡ (if j == k then v else get k (obj ms))
unfolding get
get-update k j v ms = elim (Bool-cases (j == k)) [
  | inl here ↦ rw (find-update k j v ms, here) refl
  | inr other ↦ rw (find-update k j v ms, other) refl
]

get-update_other :
    (k j : String) (v : Json) (ms : Members)
    → (j == k) ≡ false
    → get k (obj (update j v ms)) ≡ get k (obj ms)
get-update_other k j v ms other =
    subst (λ b. get k (obj (update j v ms)) ≡ (if b then v else get k (obj ms))) other
      (get-update k j v ms)

spread-eq-ok : (v : Json) (ms : Members) → spread v ≡ ok ms → v ≡ obj ms
spread-eq-ok (obj ns) ms h = ap obj (ok-injective h)
spread-eq-ok (str s) ms h = cc h
spread-eq-ok null ms h = cc h
spread-eq-ok (bool b) ms h = cc h
spread-eq-ok (int n) ms h = cc h
spread-eq-ok (arr es) ms h = cc h

-- The policy of a sealed release has the lock's train, and the lock's version as the one that is
-- developed; each other member is the policy's, and each other member of `release` is too.
pub policy_for_lem :
    (policy lock out : Json) (k j : String)
    → policy_for policy lock ≡ ok out
    → (k == "package_train" || k == "release") ≡ false
    → (j == "development_version") ≡ false
    → (get "package_train" out ≡ get "package_train" lock)
      × (get "development_version" (get "release" out) ≡ get "release" lock)
      × (get k out ≡ get k policy)
      × (get j (get "release" out) ≡ get j (get "release" policy))
unfolding policy_for
policy_for_lem policy lock out k j h other_key other_member =
    let (ms, is_ms, h1) = >>=-eq-ok (spread policy) _ h in
    let (train, is_train, h2) = >>=-eq-ok (subscript "package_train" lock) _ h1 in
    let (old, is_old, h3) = >>=-eq-ok (subscript "release" policy) _ h2 in
    let (rs, is_rs, h4) = >>=-eq-ok (spread old) _ h3 in
    let (version, is_version, h5) = >>=-eq-ok (subscript "release" lock) _ h4 in
    let new_release = update "development_version" version rs in
    let with_train = update "package_train" train ms in
    let is_policy = spread-eq-ok policy ms is_ms in
    let old_eq = subscript-get "release" policy old is_old ∙ spread-eq-ok old rs is_rs in
    let release_eq = get-update "release" "release" (obj new_release) with_train in
    let keys : (("release" == k) ≡ false) × (("package_train" == k) ≡ false) = (
      ground (arith, eq_iff k "release", eq_iff "release" k),
      ground (arith, eq_iff k "package_train", eq_iff "package_train" k),
    ) in
    let members : ("development_version" == j) ≡ false =
      ground (arith, eq_iff j "development_version", eq_iff "development_version" j) in
    subst
      (λ x.
        (get "package_train" x ≡ get "package_train" lock)
        × (get "development_version" (get "release" x) ≡ get "release" lock)
        × (get k x ≡ get k policy)
        × (get j (get "release" x) ≡ get j (get "release" policy)))
      (ok-injective h5)
      (
        get-update "package_train" "release" (obj new_release) with_train
            ∙ get-update "package_train" "package_train" train ms
            ∙ sym (subscript-get "package_train" lock train is_train),
        ap (get "development_version") release_eq
            ∙ get-update "development_version" "development_version" version rs
            ∙ sym (subscript-get "release" lock version is_version),
        get-update_other k "release" (obj new_release) with_train keys.0
            ∙ get-update_other k "package_train" train ms keys.1
            ∙ ap (get k) (sym is_policy),
        ap (get j) release_eq
            ∙ get-update_other j "development_version" version rs members
            ∙ ap (get j) (sym old_eq),
      )

-- The jail seed that a target's build uses
abbrev pub jail_of : String → Json → Json
jail_of target lock = get "jail_object" (if target == "amd64" then lock else get "arm64" lock)

-- A commit that the pin document names
abbrev pub commit_of : String → Pin → Json
commit_of repository pin = get "commit" (get repository pin.document)

-- The six inputs in which lock and pin agree
abbrev pub agrees : String → Json → Pin → Bool
agrees target lock pin =
    is_same (get "freebsd_source_sha" lock) (commit_of "freebsd_source" pin)
    && is_same (get "freebsd_ports_sha" lock) (commit_of "freebsd_ports" pin)
    && is_int_of pin.osversion (get "freebsd_osversion" lock)
    && is_text pin.jail_object (jail_of target lock)
    && is_text pin.worker_image_sha256 (get "worker_image_sha256" lock)
    && is_text pin.worker_tools_sha256 (get "worker_tools_sha256" lock)

is_none_left-differs :
    (a b c d e f : Bool) (p q r s t u : String)
    → is_none_left
        (differs p a ++ differs q b ++ differs r c ++ differs s d ++ differs t e ++ differs u f)
      ≡ (a && b && c && d && e && f)
is_none_left-differs false b c d e f p q r s t u = refl
is_none_left-differs true false c d e f p q r s t u = refl
is_none_left-differs true true false d e f p q r s t u = refl
is_none_left-differs true true true false e f p q r s t u = refl
is_none_left-differs true true true true false f p q r s t u = refl
is_none_left-differs true true true true true false p q r s t u = refl
is_none_left-differs true true true true true true p q r s t u = refl

sealed_jail-eq-ok :
    (target : String) (lock : Json) (release : String)
    → Sealed lock release
    → (target == "amd64" || not (is_null (get "arm64" lock))) ≡ true
    → sealed_jail target lock ≡ ok (jail_of target lock)
unfolding sealed_jail
sealed_jail-eq-ok target lock release s h = elim (Bool-cases (target == "amd64")) [
  | inl main ↦ rw main (subscript-text_where is_input "jail_object" lock s.jail)
  | inr other ↦
      let has_arm64 : is_null (get "arm64" lock) ≡ false = ground arith in
      let jail : text_where is_input (get "jail_object" (get "arm64" lock)) ≡ true =
        ground (arith, s.arm64) in
      rw (other, subscript-there "arm64" lock has_arm64)
        (subscript-text_where is_input "jail_object" (get "arm64" lock) jail)
]

has_commit-there : (v : Json) → text_where is_commit (get "commit" v) ≡ true → is_null v ≡ false
unfolding get
has_commit-there null e = cc e
has_commit-there (str s) e = refl
has_commit-there (bool b) e = refl
has_commit-there (int n) e = refl
has_commit-there (arr es) e = refl
has_commit-there (obj ms) e = refl

pin_commit-eq-ok :
    (repository : String) (pin : Pin)
    → text_where is_commit (commit_of repository pin) ≡ true
    → pin_commit repository pin ≡ ok (commit_of repository pin)
unfolding pin_commit
pin_commit-eq-ok repository pin h =
    rw (subscript-there repository pin.document (has_commit-there (get repository pin.document) h))
      (subscript-text_where is_commit "commit" (get repository pin.document) h)

-- On a lock that `validate` accepts, for a target that it ships, and with a pin document that names two
-- commits, `check_pin` raises nothing but its own refusal, which it does exactly if one of six inputs
-- differs from the pin. An `arm64` member that is null is excluded.
pub check_pin_lem :
    (document : Json) (release : String) (lock : Json) (target : String) (pin : Pin)
    → validate document release ≡ ok lock
    → contains (targets lock) target ≡ true
    → (target == "amd64" || not (is_null (get "arm64" lock))) ≡ true
    → text_where is_commit (commit_of "freebsd_source" pin) ≡ true
    → text_where is_commit (commit_of "freebsd_ports" pin) ≡ true
    → check_pin target lock pin
      ≡ require (agrees target lock pin) "release lock differs from the active FreeBSD pin: "
unfolding check_pin differing
check_pin_lem document release lock target pin h shipped sealed has_source has_ports =
    let (same, d) = validate-Sealed document release lock h in
    let s = subst (λ x. Sealed x release) (sym same) d in
    let all_commits = s.commits in
    let all_workers = s.workers in
    let source : text_where is_commit (get "freebsd_source_sha" lock) ≡ true = ground arith in
    let ports : text_where is_commit (get "freebsd_ports_sha" lock) ≡ true = ground arith in
    let image : text_where is_sha256 (get "worker_image_sha256" lock) ≡ true = ground arith in
    let tools : text_where is_sha256 (get "worker_tools_sha256" lock) ≡ true = ground arith in
    rw
      (
        shipped,
        sealed_jail-eq-ok target lock release s sealed,
        subscript-text_where is_commit "freebsd_source_sha" lock source,
        subscript-text_where is_commit "freebsd_ports_sha" lock ports,
        pin_commit-eq-ok "freebsd_source" pin has_source,
        pin_commit-eq-ok "freebsd_ports" pin has_ports,
        subscript-int "freebsd_osversion" lock s.osversion,
        subscript-text_where is_sha256 "worker_image_sha256" lock image,
        subscript-text_where is_sha256 "worker_tools_sha256" lock tools,
      )
      (ap (λ b. require b "release lock differs from the active FreeBSD pin: ")
        (is_none_left-differs
          (is_same (get "freebsd_source_sha" lock) (commit_of "freebsd_source" pin))
          (is_same (get "freebsd_ports_sha" lock) (commit_of "freebsd_ports" pin))
          (is_int_of pin.osversion (get "freebsd_osversion" lock))
          (is_text pin.jail_object (jail_of target lock))
          (is_text pin.worker_image_sha256 (get "worker_image_sha256" lock))
          (is_text pin.worker_tools_sha256 (get "worker_tools_sha256" lock)) _ _ _ _ _ _))
