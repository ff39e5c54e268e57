-- ===== src/Tools/Verify/Genuine.antt =====
-- scripts/resolve_worker_tools.py: what `verify_manifest_downloads` finds for a package.
use freesense_os_base.Base.{
  ℕ, zero, suc, ltb, ◌≡◌, refl, sym, subst, ap, ◌∙◌, String, ◌==◌, ◌<>◌, ◌&&◌, not, true, false,
  some, List, nat_eq, arith, eq_iff, Bool-cases, inl, inr, ok, >>=-eq-ok, ok-injective, or_raise,
  or_raise-eq-ok,
}
use freesense_os_base.Base.Text.{size}
use freesense_os_base.Base.Json.{Json, Members, ℤ, pos, negsuc, int, str, obj, get, is_text}
use freesense_os_base.Base.Sets.{contains}
use freesense_os_base.Delta.Safe.{safe_name, safe_version, is_safe_name}
use freesense_os_base.Release.Lock.Sealed.{is_text-eq}
use freesense_os_base.Delta.Records.{check, check-eq-ok}
use freesense_os_base.Tools.Verify.{
  Disk, digest_file, checksum_of, check_size, verify_download, put, is_text_value, agrees_with_seal,
  file_size, Verified, verify_package,
}
use freesense_os_base.Tools.Verify.Put.{get-put, get-put_other}

-- The file that `verify_download` has checked
pub record Intact (disk : Disk) (path : String) (checksum : Json) (size : ℕ) : Type 0 where
  pub is_file : disk.lstat path ≡ some (record { is_regular = true; st_size = size })
  pub checksum_type : ℕ
  pub expected : String
  pub is_checksum : checksum_of checksum ≡ ok (checksum_type, expected)
  pub is_digest : digest_file disk path checksum_type ≡ expected

nat_eq-eq : (a b : ℕ) → nat_eq a b ≡ true → a ≡ b
nat_eq-eq a b h = ground arith

verify_download-Intact :
    (disk : Disk) (path : String) (checksum : Json) (n : ℕ) (sha256 : String)
    → verify_download disk path checksum (some (pos (suc n))) ≡ ok sha256
    → Intact disk path checksum (suc n) × (disk.sha256 path ≡ sha256)
unfolding verify_download check_size
verify_download-Intact disk path checksum n sha256 h =
    let (stat, is_stat, h1) = >>=-eq-ok (or_raise (disk.lstat path) _) _ h in
    let (_, regular, h2) = >>=-eq-ok (check stat.is_regular _) _ h1 in
    let (_, sized, h3) = >>=-eq-ok (check (nat_eq stat.st_size (suc n)) _) _ h2 in
    let (parts, is_parts, h4) = >>=-eq-ok (checksum_of checksum) _ h3 in
    let (_, same, h5) = >>=-eq-ok (check (digest_file disk path parts.0 == parts.1) _) _ h4 in
    (
      record {
        is_file =
            or_raise-eq-ok _ _ is_stat
            ∙ rw
                (
                  sym (check-eq-ok _ _ regular),
                  sym (nat_eq-eq stat.st_size (suc n) (check-eq-ok _ _ sized)),
                )
                refl;
        checksum_type = parts.0;
        expected = parts.1;
        is_checksum = is_parts;
        is_digest = (eq_iff _ _).0 (check-eq-ok _ _ same);
      },
      ok-injective h5,
    )

-- A package of the sealed manifest, and its file
pub record Genuine (disk : Disk) (v : Verified) : Type 0 where
  pub size : ℕ
  pub is_size : get "size" v.sealed ≡ int (pos size)
  pub named : get "name" v.sealed ≡ str v.name
  pub located : get "local_file" v.sealed ≡ str v.local_file
  pub intact : Intact disk v.local_file (get "checksum" v.sealed) size
  pub seal : get "sha256" v.sealed ≡ str (disk.sha256 v.local_file)

file_size-eq :
    (value : Json) (z : ℤ)
    → file_size value ≡ ok z
    → (n : ℕ) × (value ≡ int (pos (suc n))) × (z ≡ pos (suc n))
unfolding file_size
file_size-eq (int (pos (suc n))) z h = (n, refl, sym (ok-injective h))
file_size-eq (int (pos zero)) z h = absurd (cc h)
file_size-eq (int (negsuc n)) z h = absurd (cc h)
file_size-eq Json.null z h = absurd (cc h)
file_size-eq (Json.bool b) z h = absurd (cc h)
file_size-eq (str s) z h = absurd (cc h)
file_size-eq (Json.arr es) z h = absurd (cc h)
file_size-eq (obj ms) z h = absurd (cc h)

safe_name-eq : (value : Json) (s : String) → safe_name value ≡ ok s → value ≡ str s
unfolding safe_name
safe_name-eq (str t) s h = elim (Bool-cases (not (ltb 255 (size t)) && is_safe_name t)) [
  | inl fine ↦ ap str (ok-injective (rw (fine, safe_name) at h))
  | inr bad ↦ absurd (cc (rw (bad, safe_name) at h))
]
safe_name-eq Json.null s h = absurd (cc h)
safe_name-eq (Json.bool b) s h = absurd (cc h)
safe_name-eq (int n) s h = absurd (cc h)
safe_name-eq (Json.arr es) s h = absurd (cc h)
safe_name-eq (obj ms) s h = absurd (cc h)

-- What `verify_package` has found, and what it makes of it
pub record Found (disk : Disk) (seen_names : List String) (ms : Members) (v : Verified)
    : Type 0 where
  pub named : safe_name (get "name" (obj ms)) ≡ ok v.name
  pub version : String
  pub versioned : safe_version (get "version" (obj ms)) ≡ ok version
  pub new : contains seen_names v.name ≡ false
  pub is_path : ("All/" <> v.name <> "-" <> version <> ".pkg") ≡ v.local_file
  pub located : is_text v.local_file (get "local_file" (obj ms)) ≡ true
  pub is_text_checksum : is_text_value (get "checksum" (obj ms)) ≡ true
  pub size : ℕ
  pub is_size : get "size" (obj ms) ≡ int (pos (suc size))
  pub downloaded :
      verify_download disk v.local_file (get "checksum" (obj ms)) (some (pos (suc size)))
      ≡ ok (disk.sha256 v.local_file)
  pub agrees : agrees_with_seal (disk.sha256 v.local_file) (get "sha256" (obj ms)) ≡ true
  pub is_sealed : obj (put "sha256" (str (disk.sha256 v.local_file)) ms) ≡ v.sealed

pub verify_package-Found :
    (disk : Disk) (seen_names : List String) (ms : Members) (v : Verified)
    → verify_package disk seen_names (obj ms) ≡ ok v
    → Found disk seen_names ms v
unfolding verify_package
verify_package-Found disk seen_names ms v h =
    let (name, named, h1) = >>=-eq-ok (safe_name (get "name" (obj ms))) _ h in
    let (version, versioned, h2) = >>=-eq-ok (safe_version (get "version" (obj ms))) _ h1 in
    let (_, new, h3) = >>=-eq-ok (check (not (contains seen_names name)) _) _ h2 in
    let path = "All/" <> name <> "-" <> version <> ".pkg" in
    let (_, located, h4) = >>=-eq-ok (check (is_text path (get "local_file" (obj ms))) _) _ h3 in
    let (_, texted, h5) = >>=-eq-ok (check (is_text_value (get "checksum" (obj ms))) _) _ h4 in
    let (z, sized, h6) = >>=-eq-ok (file_size (get "size" (obj ms))) _ h5 in
    let (sha256, downloaded, h7) =
      >>=-eq-ok (verify_download disk path (get "checksum" (obj ms)) (some z)) _ h6 in
    let (_, agrees, h8) =
      >>=-eq-ok (check (agrees_with_seal sha256 (get "sha256" (obj ms))) _) _ h7 in
    let (n, is_size, is_z) = file_size-eq (get "size" (obj ms)) z sized in
    let got =
      subst (λ i. verify_download disk path (get "checksum" (obj ms)) (some i) ≡ ok sha256) is_z
        downloaded in
    let is_sha = (verify_download-Intact disk path (get "checksum" (obj ms)) n sha256 got).1 in
    subst (Found disk seen_names ms) (ok-injective h8) (record {
      named = named;
      version = version;
      versioned = versioned;
      new = ground (arith, check-eq-ok _ _ new);
      is_path = refl;
      located = check-eq-ok _ _ located;
      is_text_checksum = check-eq-ok _ _ texted;
      size = n;
      is_size = is_size;
      downloaded = got ∙ ap ok (sym is_sha);
      agrees =
          subst (λ t. agrees_with_seal t (get "sha256" (obj ms)) ≡ true) (sym is_sha)
            (check-eq-ok _ _ agrees);
      is_sealed = ap (λ t. obj (put "sha256" (str t) ms)) is_sha;
    })

pub Found-Genuine :
    (disk : Disk) (seen_names : List String) (ms : Members) (v : Verified)
    → Found disk seen_names ms v
    → Genuine disk v
Found-Genuine disk seen_names ms v f =
    let seal = str (disk.sha256 v.local_file) in
    let at : (j : String) (value : Json)
        → ("sha256" == j) ≡ false
        → get j (obj ms) ≡ value
        → get j v.sealed ≡ value =
      λ j value other e.
        ap (get j) (sym f.is_sealed) ∙ get-put_other j "sha256" seal ms other ∙ e in
    record {
      size = suc f.size;
      is_size = at "size" _ refl f.is_size;
      named = at "name" _ refl (safe_name-eq (get "name" (obj ms)) v.name f.named);
      located =
          at "local_file" _ refl (is_text-eq v.local_file (get "local_file" (obj ms)) f.located);
      intact =
          subst (λ c. Intact disk v.local_file c (suc f.size)) (sym (at "checksum" _ refl refl))
            (verify_download-Intact disk v.local_file (get "checksum" (obj ms)) f.size
              (disk.sha256 v.local_file) f.downloaded).0;
      seal = ap (get "sha256") (sym f.is_sealed) ∙ get-put "sha256" seal ms;
    }
