-- ===== src/Tools/Verify/Packages.antt =====
-- scripts/resolve_worker_tools.py: the packages that `verify_manifest_downloads` checks, and checks again.
use freesense_os_base.Base.{
  suc, ◌≡◌, refl, sym, subst, ap, ◌∙◌, String, ◌==◌, true, false, List, [], ◌∷◌, map, All, arith,
  eq_iff, eq_refl, Bool-cases, inl, inr, ok, >>=-eq-ok, ok-injective, length,
}
use freesense_os_base.Base.Text.{is_hex_of_size}
use freesense_os_base.Base.Json.{Json, Members, int, str, arr, obj, get}
use freesense_os_base.Base.Sets.{contains, distinct}
use freesense_os_base.Tools.Verify.{
  Disk, put, same_texts, agrees_with_seal, file_size, Verified, verify_package, verify_packages,
}
use freesense_os_base.Tools.Verify.Put.{get-put, get-put_other, put-put}
use freesense_os_base.Tools.Verify.Genuine.{Genuine, Found, verify_package-Found, Found-Genuine}

as_object :
    (disk : Disk) (seen_names : List String) (package_json : Json) (v : Verified)
    → verify_package disk seen_names package_json ≡ ok v
    → (ms : Members) × (package_json ≡ obj ms)
unfolding verify_package
as_object disk seen_names (obj ms) v h = (ms, refl)
as_object disk seen_names Json.null v h = absurd (cc h)
as_object disk seen_names (Json.bool b) v h = absurd (cc h)
as_object disk seen_names (int n) v h = absurd (cc h)
as_object disk seen_names (str s) v h = absurd (cc h)
as_object disk seen_names (arr es) v h = absurd (cc h)

Package-Found :
    (disk : Disk) (seen_names : List String) (package_json : Json) (v : Verified)
    → verify_package disk seen_names package_json ≡ ok v
    → (ms : Members) × Found disk seen_names ms v
Package-Found disk seen_names package_json v h =
    let (ms, same) = as_object disk seen_names package_json v h in
    (
      ms,
      verify_package-Found disk seen_names ms v
          (subst (λ j. verify_package disk seen_names j ≡ ok v) same h),
    )

abbrev pub names_of : List Verified → List String
names_of = map (λ v. v.name)

abbrev pub sealed_of : List Verified → List Json
sealed_of = map (λ v. v.sealed)

-- The packages that are checked after some names
pub record Checked (disk : Disk) (seen_names : List String) (vs : List Verified) : Type 0 where
  pub genuine : All (Genuine disk) vs
  pub apart : distinct (names_of vs) ≡ true
  pub new : (n : String) → contains (names_of vs) n ≡ true → contains seen_names n ≡ false

pub verify_packages-Checked :
    (disk : Disk) (seen_names : List String) (packages : List Json) (vs : List Verified)
    → verify_packages disk seen_names packages ≡ ok vs
    → Checked disk seen_names vs
unfolding verify_packages distinct
verify_packages-Checked disk seen_names [] vs h =
    subst (Checked disk seen_names) (ok-injective h)
      (record { genuine = tt; apart = refl; new = λ n m. cc m })
verify_packages-Checked disk seen_names (j ∷ packages) vs h =
    let (v, is_v, h1) = >>=-eq-ok (verify_package disk seen_names j) _ h in
    let (rest, is_rest, h2) =
      >>=-eq-ok (verify_packages disk (v.name ∷ seen_names) packages) _ h1 in
    let (ms, found) = Package-Found disk seen_names j v is_v in
    let c = verify_packages-Checked disk (v.name ∷ seen_names) packages rest is_rest in
    let alone : contains (names_of rest) v.name ≡ false =
      elim (Bool-cases (contains (names_of rest) v.name)) [
        | inl again ↦ let not_seen = c.new v.name again in ground (arith, eq_refl v.name)
        | inr fine ↦ fine
      ] in
    subst (Checked disk seen_names) (ok-injective h2) (record {
      genuine = (Found-Genuine disk seen_names ms v found, c.genuine);
      apart = rw (alone, c.apart) refl;
      new = λ n m. elim (Bool-cases (v.name == n)) [
        | inl here ↦ subst (λ k. contains seen_names k ≡ false) ((eq_iff v.name n).0 here) found.new
        | inr other ↦
            let later : contains (names_of rest) n ≡ true = ground arith in
            ground (arith, c.new n later)
      ];
    })

module _ (disk : Disk) (hexed : (path : String) → is_hex_of_size 64 (disk.sha256 path) ≡ true) where
  agrees_lem : (path : String) → agrees_with_seal (disk.sha256 path) (str (disk.sha256 path)) ≡ true
  agrees_lem path = rw (hexed path, eq_refl (disk.sha256 path)) refl

  -- A sealed package passes again, and is not changed.
  replay :
      (seen_names : List String) (ms : Members) (v : Verified)
      → Found disk seen_names ms v
      → verify_package disk seen_names v.sealed ≡ ok v
  unfolding verify_package file_size
  replay seen_names ms v f =
      let seal = str (disk.sha256 v.local_file) in
      let same : (j : String)
          → ("sha256" == j) ≡ false
          → get j (obj (put "sha256" seal ms)) ≡ get j (obj ms) =
        λ j other. get-put_other j "sha256" seal ms other in
      subst (λ j. verify_package disk seen_names j ≡ ok v) f.is_sealed
        (rw
          (
            same "name" refl,
            same "version" refl,
            same "local_file" refl,
            same "checksum" refl,
            same "size" refl,
            get-put "sha256" seal ms,
            f.named,
            f.versioned,
            f.new,
            f.is_path,
            f.located,
            f.is_text_checksum,
            f.is_size,
            f.downloaded,
            agrees_lem v.local_file,
            put-put "sha256" seal ms,
            f.is_sealed,
          )
          refl)

  pub replay_all :
      (seen_names : List String) (packages : List Json) (vs : List Verified)
      → verify_packages disk seen_names packages ≡ ok vs
      → verify_packages disk seen_names (sealed_of vs) ≡ ok vs
  unfolding verify_packages
  replay_all seen_names [] vs h =
      subst (λ ws. verify_packages disk seen_names (sealed_of ws) ≡ ok ws) (ok-injective h) refl
  replay_all seen_names (j ∷ packages) vs h =
      let (v, is_v, h1) = >>=-eq-ok (verify_package disk seen_names j) _ h in
      let (rest, is_rest, h2) =
        >>=-eq-ok (verify_packages disk (v.name ∷ seen_names) packages) _ h1 in
      let (ms, found) = Package-Found disk seen_names j v is_v in
      subst (λ ws. verify_packages disk seen_names (sealed_of ws) ≡ ok ws) (ok-injective h2)
        (rw (replay seen_names ms v found, replay_all (v.name ∷ seen_names) packages rest is_rest)
          refl)

pub length-verify_packages :
    (disk : Disk) (seen_names : List String) (packages : List Json) (vs : List Verified)
    → verify_packages disk seen_names packages ≡ ok vs
    → length (sealed_of vs) ≡ length packages
unfolding verify_packages
length-verify_packages disk seen_names [] vs h =
    ap (λ ws. length (sealed_of ws)) (sym (ok-injective h))
length-verify_packages disk seen_names (j ∷ packages) vs h =
    let (v, is_v, h1) = >>=-eq-ok (verify_package disk seen_names j) _ h in
    let (rest, is_rest, h2) =
      >>=-eq-ok (verify_packages disk (v.name ∷ seen_names) packages) _ h1 in
    ap (λ ws. length (sealed_of ws)) (sym (ok-injective h2))
    ∙ ap suc (length-verify_packages disk (v.name ∷ seen_names) packages rest is_rest)

pub same_texts-eq : (ss ts : List String) → same_texts ss ts ≡ true → ss ≡ ts
same_texts-eq [] [] h = refl
same_texts-eq [] (t ∷ ts) h = absurd (cc h)
same_texts-eq (s ∷ ss) [] h = absurd (cc h)
same_texts-eq (s ∷ ss) (t ∷ ts) h =
    let first : s ≡ t = (eq_iff s t).0 (ground arith) in
    rw (first, same_texts-eq ss ts (ground arith)) refl
