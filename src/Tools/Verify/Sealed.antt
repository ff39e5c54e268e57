-- ===== src/Tools/Verify/Sealed.antt =====
-- scripts/resolve_worker_tools.py: the manifest that `verify_manifest_downloads` seals.
use freesense_os_base.Base.{
  ◌≡◌, refl, sym, subst, ap, ◌∙◌, String, ◌==◌, ◌&&◌, true, false, List, [], All, arith, ok,
  >>=-eq-ok, ok-injective, length,
}
use mathlib.Core.List.{Perm}
use mathlib.Core.List.Perm
use freesense_os_base.Base.Text.{is_hex_of_size}
use freesense_os_base.Base.Sort.{leb_text, sorted, sorted-Perm}
use freesense_os_base.Base.Json.{
  Json, Members, pos, int, str, arr, obj, get, items, from_list, is_array,
}
use freesense_os_base.Base.Sets.{distinct}
use freesense_os_base.Delta.Records.{check, check-eq-ok}
use freesense_os_base.Release.Use.{is_int_of, spread}
use freesense_os_base.Tools.Verify.{
  Disk, put, is_list_of, same_texts, check_header, check_packages, Verified, verify_packages,
  files_of, verify_manifest_downloads,
}
use freesense_os_base.Tools.Verify.Put.{get-put, get-put_other, put-put, elements-from_list}
use freesense_os_base.Tools.Verify.Genuine.{Genuine}
use freesense_os_base.Tools.Verify.Packages.{
  names_of, sealed_of, verify_packages-Checked, replay_all, length-verify_packages, same_texts-eq,
}

-- The manifest after its packages are sealed
abbrev sealed_manifest : Members → List Verified → Json
sealed_manifest members vs = obj (put "packages" (arr (from_list (sealed_of vs))) members)

get-sealed_manifest :
    (members : Members) (vs : List Verified) (k : String)
    → ("packages" == k) ≡ false
    → get k (sealed_manifest members vs) ≡ get k (obj members)
get-sealed_manifest members vs k other =
    get-put_other k "packages" (arr (from_list (sealed_of vs))) members other

check_header_lem :
    (members : Members) (vs : List Verified)
    → check_header (sealed_manifest members vs) ≡ check_header (obj members)
unfolding check_header
check_header_lem members vs =
    let same = get-sealed_manifest members vs in
    rw
      (
        same "schema_version" refl,
        same "architecture" refl,
        same "abi" refl,
        same "roots" refl,
        same "commands" refl,
        same "ports_sha" refl,
        same "osversion" refl,
      )
      refl

check_packages_lem :
    (members : Members) (vs : List Verified) (packages : List Json)
    → check_packages (obj members) ≡ ok packages
    → length (sealed_of vs) ≡ length packages
    → check_packages (sealed_manifest members vs) ≡ ok (sealed_of vs)
unfolding check_packages items
check_packages_lem members vs packages h same_length =
    let same = get-sealed_manifest members vs in
    let (_, listed, h1) =
      >>=-eq-ok
        (check
          (is_array (get "packages" (obj members)) && is_array (get "install_order" (obj members)))
          _)
        _ h in
    let (found, _, h2) = >>=-eq-ok (items (get "packages" (obj members))) _ h1 in
    let (_, counted, h3) =
      >>=-eq-ok (check (is_int_of (pos (length found)) (get "package_count" (obj members))) _) _
        h2 in
    let ordered : is_array (get "install_order" (obj members)) ≡ true =
      ground (arith, check-eq-ok _ _ listed) in
    let count : is_int_of (pos (length (sealed_of vs))) (get "package_count" (obj members)) ≡ true =
      ap (λ n. is_int_of (pos n) (get "package_count" (obj members)))
        (same_length ∙ ap length (sym (ok-injective h3)))
      ∙ check-eq-ok _ _ counted in
    rw
      (
        get-put "packages" (arr (from_list (sealed_of vs))) members,
        same "install_order" refl,
        ordered,
        elements-from_list (sealed_of vs),
        same "package_count" refl,
        count,
      )
      refl

record Run (disk : Disk) (manifest sealed : Json) : Type 0 where
  members : Members
  is_object : manifest ≡ obj members
  header : check_header (obj members) ≡ ok tt
  packages : List Json
  is_packages : check_packages (obj members) ≡ ok packages
  verified : List Verified
  is_verified : verify_packages disk [] packages ≡ ok verified
  ordered : is_list_of (files_of verified) (get "install_order" (obj members)) ≡ true
  exact : same_texts (sorted leb_text disk.listing) (sorted leb_text (files_of verified)) ≡ true
  is_sealed : sealed_manifest members verified ≡ sealed

spread-eq : (value : Json) (ms : Members) → spread value ≡ ok ms → value ≡ obj ms
spread-eq (obj ms) ns h = ap obj (ok-injective h)
spread-eq Json.null ms h = absurd (cc h)
spread-eq (Json.bool b) ms h = absurd (cc h)
spread-eq (int n) ms h = absurd (cc h)
spread-eq (str s) ms h = absurd (cc h)
spread-eq (arr es) ms h = absurd (cc h)

verify_manifest_downloads-Run :
    (disk : Disk) (manifest sealed : Json)
    → verify_manifest_downloads disk manifest ≡ ok sealed
    → Run disk manifest sealed
unfolding verify_manifest_downloads
verify_manifest_downloads-Run disk manifest sealed h =
    let (_, header, h1) = >>=-eq-ok (check_header manifest) _ h in
    let (packages, is_packages, h2) = >>=-eq-ok (check_packages manifest) _ h1 in
    let (verified, is_verified, h3) = >>=-eq-ok (verify_packages disk [] packages) _ h2 in
    let (_, ordered, h4) =
      >>=-eq-ok (check (is_list_of (files_of verified) (get "install_order" manifest)) _) _ h3 in
    let (_, exact, h5) =
      >>=-eq-ok
        (check (same_texts (sorted leb_text disk.listing) (sorted leb_text (files_of verified))) _)
        _ h4 in
    let (members, is_members, h6) = >>=-eq-ok (spread manifest) _ h5 in
    let same = spread-eq manifest members is_members in
    record {
      members = members;
      is_object = same;
      header = subst (λ m. check_header m ≡ ok tt) same header;
      packages = packages;
      is_packages = subst (λ m. check_packages m ≡ ok packages) same is_packages;
      verified = verified;
      is_verified = is_verified;
      ordered =
          subst (λ m. is_list_of (files_of verified) (get "install_order" m) ≡ true) same
            (check-eq-ok _ _ ordered);
      exact = check-eq-ok _ _ exact;
      is_sealed = ok-injective h6;
    }

-- What a sealed manifest promises to the worker that installs its files
pub record Sealing (disk : Disk) (manifest sealed : Json) : Type 0 where
  pub header : check_header sealed ≡ ok tt
  pub kept : (k : String) → ("packages" == k) ≡ false → get k sealed ≡ get k manifest
  pub verified : List Verified
  pub listed : get "packages" sealed ≡ arr (from_list (sealed_of verified))
  pub genuine : All (Genuine disk) verified
  pub one_each : distinct (names_of verified) ≡ true
  pub ordered : is_list_of (files_of verified) (get "install_order" sealed) ≡ true
  pub exact : Perm disk.listing (files_of verified)

-- Where `verify_manifest_downloads` returns, each package of the sealed manifest has its own regular file,
-- of the size and the checksum that it lists, and carries the SHA-256 of that file; no name stands twice;
-- the files are those of the install order, and the directory has just these; all other members of the
-- manifest are kept, and pass the checks on them.
pub verify_manifest_downloads-Sealing :
    (disk : Disk) (manifest sealed : Json)
    → verify_manifest_downloads disk manifest ≡ ok sealed
    → Sealing disk manifest sealed
verify_manifest_downloads-Sealing disk manifest sealed h =
    let r = verify_manifest_downloads-Run disk manifest sealed h in
    let c = verify_packages-Checked disk [] r.packages r.verified r.is_verified in
    let get_other = get-sealed_manifest r.members r.verified in
    subst (λ m. Sealing disk m sealed) (sym r.is_object)
      (subst (Sealing disk (obj r.members)) r.is_sealed (record {
        header = check_header_lem r.members r.verified ∙ r.header;
        kept = get_other;
        verified = r.verified;
        listed = get-put "packages" (arr (from_list (sealed_of r.verified))) r.members;
        genuine = c.genuine;
        one_each = c.apart;
        ordered =
            ap (is_list_of (files_of r.verified)) (get_other "install_order" refl) ∙ r.ordered;
        exact = Perm.trans (Perm.symm (sorted-Perm leb_text disk.listing)) (
            subst (λ l. Perm l (files_of r.verified)) (sym (same_texts-eq _ _ r.exact))
              (sorted-Perm leb_text (files_of r.verified)));
      }))

-- Where a SHA-256 has 64 hexadecimal digits: a sealed manifest passes again on the same directory, and is
-- not changed.
pub verify_manifest_downloads-again :
    (disk : Disk) (manifest sealed : Json)
    → ((path : String) → is_hex_of_size 64 (disk.sha256 path) ≡ true)
    → verify_manifest_downloads disk manifest ≡ ok sealed
    → verify_manifest_downloads disk sealed ≡ ok sealed
unfolding verify_manifest_downloads
verify_manifest_downloads-again disk manifest sealed hexed h =
    let r = verify_manifest_downloads-Run disk manifest sealed h in
    let packages = arr (from_list (sealed_of r.verified)) in
    subst (λ m. verify_manifest_downloads disk m ≡ ok m) r.is_sealed
      (rw
        (
          check_header_lem r.members r.verified,
          r.header,
          check_packages_lem r.members r.verified r.packages r.is_packages
              (length-verify_packages disk [] r.packages r.verified r.is_verified),
          replay_all disk hexed [] r.packages r.verified r.is_verified,
          get-sealed_manifest r.members r.verified "install_order" refl,
          r.ordered,
          r.exact,
          put-put "packages" packages r.members,
        )
        refl)
