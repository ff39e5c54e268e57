-- ===== src/Tests/Downloaded.antt =====
-- A manifest of one worker tool, downloaded and not yet sealed.
use freesense_os_base.Base.{
  ℕ, zero, suc, ◌≡◌, refl, arith, String, true, none, some, List, [], ◌∷◌, All, ok, err, raised,
  if◌then◌else◌, ◌==◌, map,
}
use freesense_os_base.Base.Text.{is_hex_of_size, all_chars, size}
use freesense_os_base.Base.Json.{
  Json, Members, str, obj, arr, int, pos, member, done, item, stop, from_list, items,
}
use freesense_os_base.Tests.Sample.{digest_a, digest_b}
use freesense_os_base.Tools.Resolve.{root_names, commands}
use freesense_os_base.Tools.Zbase32.{zbase32}
use freesense_os_base.Tools.Zbase32.Read.{bytes_of, values_of, IsByte, bytes_of-zbase32}
use freesense_os_base.Tools.Verify.{Disk, verify_manifest_downloads}
use freesense_os_base.Tools.Verify.Sealed.{
  Sealing, verify_manifest_downloads-Sealing, verify_manifest_downloads-again,
}
use freesense_os_base.Release.Use.{int_eq}

abbrev seven_bytes : List ℕ
seven_bytes = 255 ∷ 0 ∷ 17 ∷ 128 ∷ 200 ∷ 3 ∷ 90 ∷ []

zbase32_run : zbase32 seven_bytes ≡ "98ynbyn3dosy"
unfolding zbase32
zbase32_run = refl

seven_bytes-IsByte : All IsByte seven_bytes
seven_bytes-IsByte = (
  omega arith,
  (omega arith, (omega arith, (omega arith, (omega arith, (omega arith, (omega arith, tt)))))),
)

bytes_of-zbase32_example : bytes_of (values_of (zbase32 seven_bytes)) ≡ seven_bytes
bytes_of-zbase32_example = bytes_of-zbase32 seven_bytes seven_bytes-IsByte

abbrev repeated : ℕ → List ℕ
repeated zero = []
repeated (suc n) = 170 ∷ repeated n

-- The digest of each file is thirty-two bytes, `aa` each in hexadecimal.
abbrev disk : Disk
disk = record {
  lstat = λ path.
      if path == "All/jq-1.pkg" then some (record { is_regular = true; st_size = 5 }) else none;
  digest = λ checksum_type path. repeated 32;
  sha256 = λ path. digest_b;
  listing = "All/jq-1.pkg" ∷ [];
}

-- A package with these members at its end
abbrev jq : Members → Json
jq seal = obj (
    member "name" (str "jq") (
      member "version" (str "1") (
        member "local_file" (str "All/jq-1.pkg")
          (member "checksum" (str digest_a) (member "size" (int (pos 5)) seal)))))

abbrev manifest : String → Members → Json
manifest order seal = obj (
    member "schema_version" (str "freesense.worker-tools/v1") (
      member "roots" (arr (from_list (map str root_names))) (
        member "commands" (arr (from_list (map str commands))) (
          member "ports_sha" (str "0123456789012345678901234567890123456789") (
            member "osversion" (int (pos 1600001)) (
              member "packages" (arr (item (jq seal) stop)) (
                member "install_order" (arr (item (str order) stop))
                  (member "package_count" (int (pos 1)) done))))))))

abbrev unsealed : Json
unsealed = manifest "All/jq-1.pkg" done

abbrev sealed : Json
sealed = manifest "All/jq-1.pkg" (member "sha256" (str digest_b) done)

verify_run : verify_manifest_downloads disk unsealed ≡ ok sealed
unfolding verify_manifest_downloads items int_eq
verify_run = refl

other_seal :
    verify_manifest_downloads disk (manifest "All/jq-1.pkg" (member "sha256" (str digest_a) done))
    ≡ err (raised "sealed SHA-256 mismatch for ")
unfolding verify_manifest_downloads items int_eq
other_seal = refl

other_order :
    verify_manifest_downloads disk (manifest "All/git-1.pkg" done)
    ≡ err (raised "worker-tool install order does not match its package list")
unfolding verify_manifest_downloads items int_eq
other_order = refl

verify_manifest_downloads-Sealing_example : Sealing disk unsealed sealed
verify_manifest_downloads-Sealing_example =
    verify_manifest_downloads-Sealing disk unsealed sealed verify_run

hexed : (path : String) → is_hex_of_size 64 (disk.sha256 path) ≡ true
unfolding all_chars size
hexed path = refl

verify_manifest_downloads-again_example : verify_manifest_downloads disk sealed ≡ ok sealed
verify_manifest_downloads-again_example =
    verify_manifest_downloads-again disk unsealed sealed hexed verify_run
