-- ===== src/Tools/Catalog.antt =====
-- scripts/resolve_worker_tools.py: `_parse_package`, `_parse_catalog` and `read_catalog`.
pub mod Keyed
use Prim.Native.Char.{code}
use freesense_os_base.Base.{
  ℕ, suc, ◌^◌, String, ◌==◌, Bool, ◌&&◌, ◌||◌, not, true, false, Option, none, some, List, [], ◌∷◌,
  ◌++◌, ltb, leb, nat_eq, if◌then◌else◌, Result, ok, err, raised, or_raise, ◌>>=◌, ◌>>◌,
  map_results,
}
use freesense_os_base.Base.Text.{is_digit, all_chars, strip_prefix, is_hex_of_size, size}
use freesense_os_base.Base.Json.{Json, Members, int, pos, str, obj, done, get, is_object, is_text}
use freesense_os_base.Base.Sets.{Dict, contains, add, lookup, insert}
use freesense_os_base.Base.Sort.{leb_text, sorted}
use freesense_os_base.Delta.Safe.{
  safe_name, safe_version, safe_origin, safe_remote_path, parse_checksum,
}
use freesense_os_base.Delta.Worklist.{member_keys, names}
use freesense_os_base.Delta.Records.{check}
use freesense_os_base.Retention.Locks.{decimal}
use freesense_os_base.Release.Lock.{get_or}
use freesense_os_base.Release.Use.{has_key}

-- What a package record says of a dependency
pub record Dependency : Type 0 where
  pub name : String
  pub version : String
  pub origin : String

-- `Package`. A build time is its instant.
pub record Package : Type 0 where
  pub name : String
  pub version : String
  pub origin : String
  pub remote_path : String
  pub checksum : Json
  pub size : ℕ
  pub dependencies : List Dependency
  pub built_at : ℕ
  pub ports_commit : String
  pub osversion : Option ℕ

-- What the script takes from Python's library
pub record Reader : Type 0 where
  -- `json.loads(line, …)`; `none` where it raises, as it does at a key that stands twice
  pub loads : String → Option Json
  -- `datetime.strptime(text, "%Y-%m-%dT%H:%M:%S%z")`; `none` where it raises
  pub strptime : String → Option ℕ

-- `0 < size < 2**63`, for an integer that is no `bool`
unfoldable pub package_size : Json → Result ℕ
package_size (int (pos (suc n))) =
    if ltb (suc n) 9223372036854775808 then ok (suc n) else err (raised "invalid package size in ")
package_size _ = err (raised "invalid package size in ")

-- The body of the loop over the dependencies
unfoldable pub parse_dependency : Json → String → Result Dependency
unfolding get has_key
parse_dependency raw key = do
  name ← safe_name (str key)
  let dependency = get key raw
  check (is_object dependency) "invalid dependency "
  check (not (has_key "name" dependency) || is_text name (get "name" dependency))
      "dependency name mismatch for "
  version ← safe_version (get "version" dependency)
  origin ← safe_origin (get "origin" dependency)
  ok (record { name = name; version = version; origin = origin })

unfoldable pub parse_dependencies : Json → Result (List Dependency)
unfolding parse_dependency member_keys
parse_dependencies (obj ms) =
    map_results (parse_dependency (obj ms)) (sorted leb_text (member_keys ms))
parse_dependencies _ = err (raised "invalid dependencies in ")

-- `SHA1.fullmatch(value)` of a text
unfoldable pub ports_commit_of : Json → Result String
unfolding all_chars size
ports_commit_of (str s) =
    if is_hex_of_size 40 s then ok s else err (raised "invalid package ports commit in ")
ports_commit_of _ = err (raised "invalid package ports commit in ")

-- `OSVERSION.fullmatch(text)`
unfoldable pub is_osversion : String → Bool
unfolding strip_prefix all_chars size
is_osversion s = elim (strip_prefix "16" s) [
  | none ↦ false
  | some rest ↦ all_chars is_digit rest && nat_eq (size rest) 5
]

unfoldable pub osversion_of : Json → Result (Option ℕ)
unfolding is_osversion decimal
osversion_of Json.null = ok none
osversion_of (str s) =
    if is_osversion s then ok (some (decimal 0 s)) else err (raised "invalid package OSVERSION in ")
osversion_of _ = err (raised "invalid package OSVERSION in ")

unfoldable pub built_at_of : Reader → Json → Result ℕ
built_at_of reader (str s) =
    or_raise (reader.strptime s) (raised "invalid package build timestamp in ")
built_at_of reader _ = err (raised "invalid package build timestamp in ")

unfoldable pub parse_package : Reader → Json → Result Package
unfolding package_size parse_dependencies ports_commit_of osversion_of built_at_of get get_or
parse_package reader entry = do
  check (is_object entry) "package record at line "
  name ← safe_name (get "name" entry)
  version ← safe_version (get "version" entry)
  origin ← safe_origin (get "origin" entry)
  remote_path ← safe_remote_path (get "repopath" entry)
  parse_checksum (get "sum" entry)
  size ← package_size (get "pkgsize" entry)
  dependencies ← parse_dependencies (get_or (obj done) "deps" entry)
  let annotations = get "annotations" entry
  check (is_object annotations) "invalid annotations in "
  built_at ← built_at_of reader (get "build_timestamp" annotations)
  ports_commit ← ports_commit_of (get "ports_top_git_hash" annotations)
  osversion ← osversion_of (get "FreeBSD_version" annotations)
  ok (record {
    name = name;
    version = version;
    origin = origin;
    remote_path = remote_path;
    checksum = get "sum" entry;
    size = size;
    dependencies = dependencies;
    built_at = built_at;
    ports_commit = ports_commit;
    osversion = osversion;
  })

-- A character that `strip` removes
is_space : ℕ → Bool
is_space c =
    (leb 9 c && leb c 13)
    || (leb 28 c && leb c 32)
    || nat_eq c 0x85
    || nat_eq c 0xa0
    || nat_eq c 0x1680
    || (leb 0x2000 c && leb c 0x200a)
    || nat_eq c 0x2028
    || nat_eq c 0x2029
    || nat_eq c 0x202f
    || nat_eq c 0x205f
    || nat_eq c 0x3000

-- `not line.strip()`
unfoldable pub is_blank : String → Bool
unfolding is_space all_chars
is_blank = all_chars is_space

unfoldable pub load_line : Reader → String → Result Json
load_line reader line = or_raise (reader.loads line) (raised "invalid JSON in ")

-- The locals of `_parse_catalog`
pub record Catalog : Type 0 where
  pub packages : Dict Package
  pub all_packages : List Package
  pub duplicate_names : List String
  pub remote_paths : Dict String

abbrev pub empty_catalog : Catalog
empty_catalog = record { packages = []; all_packages = []; duplicate_names = []; remote_paths = [] }

-- `packages.setdefault(name, package)`
unfoldable pub set_default : Package → Dict Package → Dict Package
set_default pkg packages =
    if contains (names packages) pkg.name then packages else packages ++ (pkg.name, pkg) ∷ []

-- The locals with one package more, which has a path of its own
unfoldable pub filed : Catalog → Package → Catalog
unfolding set_default
filed c pkg = record {
  packages = set_default pkg c.packages;
  all_packages = c.all_packages ++ pkg ∷ [];
  duplicate_names =
      if contains (names c.packages) pkg.name
      then add pkg.name c.duplicate_names
      else c.duplicate_names;
  remote_paths = insert pkg.remote_path pkg.name c.remote_paths;
}

-- The body of the loop, once the package is parsed
unfoldable pub add_package : Catalog → Package → Result Catalog
unfolding filed lookup
add_package c pkg = elim (lookup pkg.remote_path c.remote_paths) [
  | some previous ↦
      if previous == pkg.name
      then err (raised "duplicate package name ")
      else err (raised "duplicate repository path ")
  | none ↦ ok (filed c pkg)
]

unfoldable pub add_lines : Reader → Catalog → List String → Result Catalog
unfolding is_blank load_line parse_package add_package
add_lines reader c [] = ok c
add_lines reader c (line ∷ lines) = elim (is_blank line) [
  | true ↦ add_lines reader c lines
  | false ↦ do
    entry ← load_line reader line
    pkg ← parse_package reader entry
    more ← add_package c pkg
    add_lines reader more lines
]

abbrev pub has_packages : List Package → Bool
has_packages [] = false
has_packages (p ∷ ps) = true

unfoldable pub parse_catalog : Reader → List String → Result Catalog
unfolding add_lines
parse_catalog reader lines = do
  c ← add_lines reader empty_catalog lines
  check (has_packages c.all_packages) "package catalog is empty"
  ok c

abbrev is_empty_list : List String → Bool
is_empty_list [] = true
is_empty_list (n ∷ ns) = false

unfoldable pub read_catalog : Reader → List String → Result (Dict Package)
unfolding parse_catalog
read_catalog reader lines = do
  c ← parse_catalog reader lines
  check (is_empty_list c.duplicate_names) "duplicate package name "
  ok c.packages
