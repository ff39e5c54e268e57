-- ===== src/Release/Lock/Sealed.antt =====
-- scripts/release_lock.py: what a lock has that `validate` accepts, and the last check of `load`.
use freesense_os_base.Base.{
  ◌≡◌, refl, sym, subst, ap, ◌∙◌, String, ◌<>◌, Bool, ◌&&◌, ◌||◌, true, false, some, List, [], ◌∷◌,
  arith, eq_iff, eq_refl, Option-cases, inl, inr, all, Result, ok, err, require, require-eq-ok,
  ◌>>=◌, ◌>>◌, >>=-eq-ok, ok-injective,
}
use mathlib.Core.Bool.{false≢true}
use freesense_os_base.Base.Json.{
  Json, Elements, null, bool, int, str, arr, obj, get, find, is_text, is_null, text_where,
}
use freesense_os_base.Base.Text.{all_chars, size, strip_prefix}
use freesense_os_base.Retention.Keys.{is_sha256, is_commit}
use freesense_os_base.Delta.Records.{has_exactly}
use freesense_os_base.Release.Lock.{
  train_of, get_or, full_match, is_input, check_input, check_inputs, commit_keys, worker_keys,
  check_arm64, check_notes, check_identity, check_named, truthy, is_allowed_override, is_int,
  check_sealed_inputs, validate, is_of_train, is_same, load,
}

pub is_text-eq : (t : String) (v : Json) → is_text t v ≡ true → v ≡ str t
is_text-eq t (str s) h = ap str ((eq_iff s t).0 h)
is_text-eq t null h = cc h
is_text-eq t (bool b) h = cc h
is_text-eq t (int n) h = cc h
is_text-eq t (arr es) h = cc h
is_text-eq t (obj ms) h = cc h

full_match-eq-ok :
    (p : String → Bool) (v : Json) {b : Bool} → full_match p v ≡ ok b → text_where p v ≡ b
full_match-eq-ok p (str s) h = ok-injective h
full_match-eq-ok p null h = cc h
full_match-eq-ok p (bool b) h = cc h
full_match-eq-ok p (int n) h = cc h
full_match-eq-ok p (arr es) h = cc h
full_match-eq-ok p (obj ms) h = cc h

-- An expression that the empty text does not match is matched by a member that is there.
text_where-get_or :
    (p : String → Bool) (k : String) (v : Json)
    → p "" ≡ false
    → text_where p (get_or (str "") k v) ≡ true
    → text_where p (get k v) ≡ true
unfolding get_or get
text_where-get_or p k (obj ms) e h = elim (Option-cases (find k ms)) [
  | inl absent ↦
      let nothing : get_or (str "") k (obj ms) ≡ str "" = rw (absent, get_or) refl in
      absurd (false≢true (sym e ∙ subst (λ x. text_where p x ≡ true) nothing h))
  | inr (v, found) ↦
      let same : get_or (str "") k (obj ms) ≡ get k (obj ms) = rw (found, get_or) refl in
      subst (λ x. text_where p x ≡ true) same h
]
text_where-get_or p k (str s) e h = absurd (false≢true (sym e ∙ h))
text_where-get_or p k null e h = absurd (false≢true (sym e ∙ h))
text_where-get_or p k (bool b) e h = absurd (false≢true (sym e ∙ h))
text_where-get_or p k (int n) e h = absurd (false≢true (sym e ∙ h))
text_where-get_or p k (arr es) e h = absurd (false≢true (sym e ∙ h))

check_inputs-all :
    (p : String → Bool) (lock : Json) (keys : List String)
    → p "" ≡ false
    → check_inputs p lock keys ≡ ok tt
    → all (λ k. text_where p (get k lock)) keys ≡ true
unfolding check_inputs check_input
check_inputs-all p lock [] e h = refl
check_inputs-all p lock (key ∷ keys) e h =
    let (_, first, rest) = >>=-eq-ok (check_input p lock key) (λ u. check_inputs p lock keys) h in
    let (m, matched, required) = >>=-eq-ok (full_match p (get_or (str "") key lock)) _ first in
    let is_match =
      full_match-eq-ok p (get_or (str "") key lock) matched ∙ require-eq-ok m _ required in
    let here = text_where-get_or p key lock e is_match in
    ground (arith, here, check_inputs-all p lock keys e rest)

-- What `validate` has checked of a lock
pub record Sealed (lock : Json) (release : String) : Type 0 where
  pub train : String
  pub is_train : train_of release ≡ some train
  pub of_release : get "release" lock ≡ str release
  pub of_train : get "package_train" lock ≡ str train
  pub commits : all (λ k. text_where is_commit (get k lock)) commit_keys ≡ true
  pub workers : all (λ k. text_where is_sha256 (get k lock)) worker_keys ≡ true
  pub jail : text_where is_input (get "jail_object" lock) ≡ true
  pub osversion : is_int (get "freebsd_osversion" lock) ≡ true
  pub arm64 :
      (is_null (get "arm64" lock) || text_where is_input (get "jail_object" (get "arm64" lock)))
      ≡ true

check_arm64-jail :
    (v : Json)
    → check_arm64 v ≡ ok tt
    → (is_null v || text_where is_input (get "jail_object" v)) ≡ true
unfolding check_arm64 is_input strip_prefix
check_arm64-jail null h = refl
check_arm64-jail (obj ms) h =
    let (_, _, h1) = >>=-eq-ok (require (has_exactly ("jail_object" ∷ []) (obj ms)) _) _ h in
    let (m, matched, required) =
      >>=-eq-ok (full_match is_input (get_or (str "") "jail_object" (obj ms))) _ h1 in
    text_where-get_or is_input "jail_object" (obj ms) refl (
      full_match-eq-ok is_input (get_or (str "") "jail_object" (obj ms)) matched
      ∙ require-eq-ok m _ required)
check_arm64-jail (str s) h = cc h
check_arm64-jail (bool b) h = cc h
check_arm64-jail (int n) h = cc h
check_arm64-jail (arr es) h = cc h

sealed_inputs :
    (lock : Json)
    → check_sealed_inputs lock ≡ ok tt
    → (all (λ k. text_where is_commit (get k lock)) commit_keys ≡ true)
      × (all (λ k. text_where is_sha256 (get k lock)) worker_keys ≡ true)
      × (text_where is_input (get "jail_object" lock) ≡ true)
      × (is_int (get "freebsd_osversion" lock) ≡ true)
unfolding check_sealed_inputs is_input strip_prefix is_commit is_sha256 all_chars size
sealed_inputs lock h =
    let (_, c, h1) = >>=-eq-ok (check_inputs is_commit lock commit_keys) _ h in
    let (_, w, h2) = >>=-eq-ok (check_inputs is_sha256 lock worker_keys) _ h1 in
    let (m, matched, h3) =
      >>=-eq-ok (full_match is_input (get_or (str "") "jail_object" lock)) _ h2 in
    let (_, required, h4) = >>=-eq-ok (require m _) _ h3 in
    (
      check_inputs-all is_commit lock commit_keys refl c,
      check_inputs-all is_sha256 lock worker_keys refl w,
      text_where-get_or is_input "jail_object" lock refl (
          full_match-eq-ok is_input (get_or (str "") "jail_object" lock) matched
          ∙ require-eq-ok m _ required),
      require-eq-ok (is_int (get "freebsd_osversion" lock)) _ h4,
    )

record Named (lock : Json) (release : String) : Type 0 where
  train : String
  is_train : train_of release ≡ some train
  of_release : get "release" lock ≡ str release
  of_train : get "package_train" lock ≡ str train

check_named-Named :
    (lock : Json) (release train : String)
    → train_of release ≡ some train
    → check_named lock release train ≡ ok tt
    → Named lock release
unfolding check_named
check_named-Named lock release train is_train h =
    let (_, _, h1) =
      >>=-eq-ok
        (require
          (is_text "freesense.release-lock/v1" (get "schema_version" lock)
            && truthy (get "sealed" lock))
          _)
        _ h in
    let versions =
      is_text release (get "release" lock)
      && is_text (release <> "-RELEASE") (get "product_version" lock) in
    let (_, named, h2) = >>=-eq-ok (require versions _) _ h1 in
    let both : versions ≡ true = require-eq-ok versions _ named in
    record {
      train = train;
      is_train = is_train;
      of_release = is_text-eq release (get "release" lock) (ground arith);
      of_train = is_text-eq train (get "package_train" lock) (require-eq-ok _ _ h2);
    }

check_identity-Named :
    (lock : Json) (release : String) → check_identity lock release ≡ ok tt → Named lock release
unfolding check_identity
check_identity-Named lock release h = elim (Option-cases (train_of release)) [
  | inl absent ↦ cc (rw (absent, check_identity) at h)
  | inr (train, is_train) ↦
      check_named-Named lock release train is_train (rw (is_train, check_identity) at h)
]

-- What `validate` lets pass is the document itself, with the release's own number and train, five
-- commits, two worker digests, an integer OSVERSION and a jail seed, and another jail seed where `arm64` is not null.
pub validate-Sealed :
    (lock : Json) (release : String) (checked : Json)
    → validate lock release ≡ ok checked
    → (checked ≡ lock) × Sealed lock release
unfolding validate
validate-Sealed lock release checked h =
    let (_, identity, h1) = >>=-eq-ok (check_identity lock release) _ h in
    let (_, inputs, h2) = >>=-eq-ok (check_sealed_inputs lock) _ h1 in
    let (_, arm64, h3) = >>=-eq-ok (check_arm64 (get "arm64" lock)) _ h2 in
    let (_, _, h4) = >>=-eq-ok (check_notes (get_or (arr Elements.stop) "notes" lock)) _ h3 in
    let (_, _, h5) = >>=-eq-ok (require (is_allowed_override (get "soak_override" lock)) _) _ h4 in
    let named = check_identity-Named lock release identity in
    let (commits, workers, jail, osversion) = sealed_inputs lock inputs in
    (
      sym (ok-injective h5),
      record {
        train = named.train;
        is_train = named.is_train;
        of_release = named.of_release;
        of_train = named.of_train;
        commits = commits;
        workers = workers;
        jail = jail;
        osversion = osversion;
        arm64 = check_arm64-jail (get "arm64" lock) arm64;
      },
    )

is_of_train-eq :
    (stable : Json) (release train : String)
    → train_of release ≡ some train
    → is_of_train stable release ≡ true
    → stable ≡ str train
unfolding is_of_train
is_of_train-eq stable release train e h = is_text-eq train stable (rw (e, is_of_train) at h)

-- The last check of `load` never fails: the release's own train has been compared with the policy's
-- before, and `validate` compares the lock's train with the release's.
pub load_lem :
    (policy : Json) (release : String) (document : Json)
    → load policy release document ≡ (
        require
          (is_of_train (get "stable_train" (get "release" policy)) release)
          "--release must be an exact "
        >> validate document release)
unfolding load
load_lem policy release document =
    let stable = get "stable_train" (get "release" policy) in
    go (is_of_train stable release) (validate document release) refl refl
  where
    go :
        (b : Bool) (checked : Result Json)
        → is_of_train (get "stable_train" (get "release" policy)) release ≡ b
        → validate document release ≡ checked
        → (require b "--release must be an exact "
            >> (checked >>= λ lock.
                (require
                    (is_same (get "package_train" lock) (get "stable_train" (get "release" policy)))
                    "release lock package train does not match Stable policy"
                  >> ok lock)))
          ≡ (require b "--release must be an exact " >> checked)
    go false checked e v = refl
    go true (err x) e v = refl
    go true (ok lock) e v =
        let (same, s) = validate-Sealed document release lock v in
        let is_stable =
          is_of_train-eq (get "stable_train" (get "release" policy)) release s.train s.is_train e in
        let own : get "package_train" lock ≡ str s.train =
          ap (get "package_train") same ∙ s.of_train in
        rw (own, is_stable) (rw (eq_refl s.train) refl)
