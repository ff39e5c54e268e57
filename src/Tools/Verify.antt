-- ===== src/Tools/Verify.antt =====
-- scripts/resolve_worker_tools.py: `verify_download` and `verify_manifest_downloads`, which check the
-- downloaded packages against the manifest and seal it with their SHA-256.
pub mod Put
pub mod Genuine
pub mod Packages
pub mod Sealed
use Prim.Native.Nat.{◌%◌}
use freesense_os_base.Base.{
  ℕ, zero, suc, ◌+◌, ◌*◌, ◌/◌, String, ◌==◌, ◌<>◌, Bool, ◌&&◌, ◌||◌, not, true, false, Option, none,
  some, List, [], ◌∷◌, ◌++◌, leb, nat_eq, if◌then◌else◌, Result, ok, err, raised, ◌>>=◌, ◌>>◌,
  or_raise, length, map,
}
use freesense_os_base.Base.Text.{is_hex_of_size, all_chars, size}
use freesense_os_base.Base.Json.{
  Json, Members, ℤ, pos, negsuc, int, str, arr, obj, member, done, get, find, items, elements,
  from_list, is_object, is_array, is_text,
}
use freesense_os_base.Base.Sets.{contains}
use freesense_os_base.Base.Sort.{leb_text, sorted}
use freesense_os_base.Delta.Safe.{safe_name, safe_version, parse_checksum, split_on}
use freesense_os_base.Delta.Records.{check}
use freesense_os_base.Release.Use.{is_int_of, spread, update}
use freesense_os_base.Retention.Locks.{decimal}
use freesense_os_base.Tools.Resolve.{Profile, worker_profile, abi_of}
use freesense_os_base.Tools.Zbase32.{zbase32}

-- What `lstat` says of a file
pub record Stat : Type 0 where
  pub is_regular : Bool
  pub st_size : ℕ

-- The download directory, and the digests of its files, by their paths from there. The digest of a
-- checksum type is that of `hashlib`: SHA-256 for 0 and 1, BLAKE2b for 2, BLAKE2s for 5.
pub record Disk : Type 0 where
  pub lstat : String → Option Stat
  pub digest : ℕ → String → List ℕ
  pub sha256 : String → String
  -- `(directory / "All").glob("*.pkg")`, those that are files
  pub listing : List String

abbrev hex_digits : String
hex_digits = "0123456789abcdef"

abbrev pick : ℕ → String → String
pick value String.[] = String.[]
pick zero (String.◌∷◌ c s) = String.◌∷◌ c String.[]
pick (suc value) (String.◌∷◌ c s) = pick value s

-- `raw.hex()`
unfoldable pub hex : List ℕ → String
hex [] = ""
hex (byte ∷ bytes) = pick (byte / 16) hex_digits <> pick (byte % 16) hex_digits <> hex bytes

-- `encoded` of `_digest_file`
unfoldable pub digest_file : Disk → String → ℕ → String
unfolding hex zbase32
digest_file disk path checksum_type =
    let raw = disk.digest checksum_type path in
    if nat_eq checksum_type 1 then hex raw else zbase32 raw

-- The type and the digest of a checksum that `parse_checksum` accepts
abbrev typed : List String → ℕ × String
typed (t ∷ digest ∷ rest) = (decimal 0 t, digest)
typed (digest ∷ []) = (1, digest)
typed [] = (1, "")

unfoldable pub checksum_of : Json → Result (ℕ × String)
unfolding parse_checksum split_on decimal
checksum_of (str s) = do parse_checksum (str s); ok (typed (split_on b'$' s))
checksum_of value = do parse_checksum value; err (raised "invalid package checksum")

-- The checks on `expected_size`
unfoldable pub check_size : Option ℤ → ℕ → Result (Unit {0})
check_size none st_size = ok tt
check_size (some (pos (suc n))) st_size =
    check (nat_eq st_size (suc n)) "downloaded package size mismatch: "
check_size (some _) st_size = err (raised "invalid expected package size")

unfoldable pub verify_download : Disk → String → Json → Option ℤ → Result String
unfolding check_size checksum_of digest_file
verify_download disk path checksum expected_size = do
  metadata ← or_raise (disk.lstat path) (raised "downloaded package is missing: ")
  check metadata.is_regular "downloaded package is not a regular file: "
  check_size expected_size metadata.st_size
  (checksum_type, expected) ← checksum_of checksum
  check (digest_file disk path checksum_type == expected) "downloaded package checksum mismatch: "
  ok (disk.sha256 path)

unfoldable pub replace : String → Json → Members → Members
replace k v done = done
replace k v (member j w ms) = member j (if j == k then v else w) (replace k v ms)

-- `package[key] = value`, which keeps the place of a key
unfoldable pub put : String → Json → Members → Members
unfolding find replace update
put k v ms = elim (find k ms) [ none ↦ update k v ms | some w ↦ replace k v ms ]

-- `value == list(texts)`
unfoldable pub is_texts : List String → List Json → Bool
is_texts [] [] = true
is_texts (t ∷ ts) (v ∷ vs) = is_text t v && is_texts ts vs
is_texts [] (v ∷ vs) = false
is_texts (t ∷ ts) [] = false

abbrev pub is_list_of : List String → Json → Bool
is_list_of ts (arr es) = is_texts ts (elements es)
is_list_of ts _ = false

-- `OSVERSION.fullmatch(str(value))` of an integer that is no `bool`
abbrev pub is_osversion_number : Json → Bool
is_osversion_number (int (pos n)) = leb 1600000 n && leb n 1699999
is_osversion_number _ = false

-- `worker_profile(value)`
unfoldable pub architecture_of : Json → Result (Option String)
architecture_of Json.null = ok none
architecture_of (str s) = ok (some s)
architecture_of _ = err (raised "unsupported worker architecture")

abbrev pub is_ports_commit : Json → Bool
is_ports_commit (str s) = is_hex_of_size 40 s
is_ports_commit _ = false

-- `abi` is checked for a given architecture only.
unfoldable pub is_abi_of : Option String → Json → Bool
is_abi_of none abi = true
is_abi_of (some architecture) abi = is_text (abi_of architecture) abi

-- The checks of a manifest before its packages
unfoldable pub check_header : Json → Result (Unit {0})
unfolding get architecture_of worker_profile is_abi_of is_texts all_chars size elements
check_header manifest = do
  check (is_object manifest && is_text "freesense.worker-tools/v1" (get "schema_version" manifest))
      "invalid worker-tool manifest schema"
  architecture ← architecture_of (get "architecture" manifest)
  profile ← worker_profile architecture
  check (is_abi_of architecture (get "abi" manifest)) "worker-tool manifest ABI mismatch"
  check (is_list_of profile.roots (get "roots" manifest))
      "worker-tool manifest has unexpected roots"
  check (is_list_of profile.commands (get "commands" manifest))
      "worker-tool manifest has unexpected command checks"
  check (is_ports_commit (get "ports_sha" manifest))
      "worker-tool manifest has an invalid ports commit"
  check (is_osversion_number (get "osversion" manifest))
      "worker-tool manifest has an invalid OSVERSION"

-- The checks of its packages, which it returns
unfoldable pub check_packages : Json → Result (List Json)
unfolding get elements
check_packages manifest = do
  check (is_array (get "packages" manifest) && is_array (get "install_order" manifest))
      "invalid worker-tool manifest package list"
  packages ← items (get "packages" manifest)
  check (is_int_of (pos (length packages)) (get "package_count" manifest))
      "worker-tool manifest package count mismatch"
  ok packages

-- `size` of a package: a positive integer that is no `bool`
unfoldable pub file_size : Json → Result ℤ
file_size (int (pos (suc n))) = ok (pos (suc n))
file_size _ = err (raised "invalid size for ")

abbrev pub is_text_value : Json → Bool
is_text_value (str s) = true
is_text_value _ = false

-- The seal of a package, where it has one, is the digest of its file.
abbrev pub agrees_with_seal : String → Json → Bool
agrees_with_seal sha256 Json.null = true
agrees_with_seal sha256 (str s) = is_hex_of_size 64 s && s == sha256
agrees_with_seal sha256 _ = false

-- A package that is checked
pub record Verified : Type 0 where
  pub name : String
  pub local_file : String
  pub sealed : Json

-- The body of the loop over the packages. The package has its seal at once.
unfoldable pub verify_package : Disk → List String → Json → Result Verified
unfolding get safe_name safe_version file_size verify_download all_chars size put
verify_package disk seen_names (obj ms) = do
  name ← safe_name (get "name" (obj ms))
  version ← safe_version (get "version" (obj ms))
  check (not (contains seen_names name)) "duplicate worker-tool package "
  let local_file = "All/" <> name <> "-" <> version <> ".pkg"
  check (is_text local_file (get "local_file" (obj ms))) "invalid local package filename for "
  check (is_text_value (get "checksum" (obj ms))) "invalid checksum for "
  size ← file_size (get "size" (obj ms))
  sha256 ← verify_download disk local_file (get "checksum" (obj ms)) (some size)
  check (agrees_with_seal sha256 (get "sha256" (obj ms))) "sealed SHA-256 mismatch for "
  ok (record { name = name; local_file = local_file; sealed = obj (put "sha256" (str sha256) ms) })
verify_package disk seen_names _ = err (raised "invalid worker-tool manifest package")

unfoldable pub verify_packages : Disk → List String → List Json → Result (List Verified)
unfolding verify_package
verify_packages disk seen_names [] = ok []
verify_packages disk seen_names (package_json ∷ packages) = do
  v ← verify_package disk seen_names package_json
  rest ← verify_packages disk (v.name ∷ seen_names) packages
  ok (v ∷ rest)

abbrev pub files_of : List Verified → List String
files_of = map (λ v. v.local_file)

abbrev same_texts : List String → List String → Bool
same_texts [] [] = true
same_texts (s ∷ ss) (t ∷ ts) = s == t && same_texts ss ts
same_texts [] (t ∷ ts) = false
same_texts (s ∷ ss) [] = false

-- `verify_manifest_downloads`, which returns the manifest that it has sealed
unfoldable pub verify_manifest_downloads : Disk → Json → Result Json
unfolding check_header check_packages verify_packages is_texts elements sorted put from_list get
verify_manifest_downloads disk manifest = do
  check_header manifest
  packages ← check_packages manifest
  verified ← verify_packages disk [] packages
  check (is_list_of (files_of verified) (get "install_order" manifest))
      "worker-tool install order does not match its package list"
  check (same_texts (sorted leb_text disk.listing) (sorted leb_text (files_of verified)))
      "download directory does not contain the exact worker-tool closure"
  members ← spread manifest
  ok (obj (put "packages" (arr (from_list (map (λ v. v.sealed) verified))) members))
