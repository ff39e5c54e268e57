-- ===== src/Tools/Resolve.antt =====
-- scripts/resolve_worker_tools.py: `worker_profile`, `_select_ports_commit` and `resolve_worker_tools`.
pub mod Installable
use freesense_os_base.Base.{
  ℕ, String, ◌==◌, ◌<>◌, Bool, ◌&&◌, ◌||◌, not, true, false, Option, none, some, List, [], ◌∷◌,
  ◌++◌, map, ltb, nat_eq, keep_if, if◌then◌else◌, Result, ok, err, raised, ◌>>=◌, ◌>>◌, length, all,
}
use freesense_os_base.Base.Json.{Json, str, arr, obj, get, is_object, is_array, text_where}
use freesense_os_base.Base.Sets.{Dict, contains, add_all, lookup, push}
use freesense_os_base.Delta.Records.{check}
use freesense_os_base.Tools.Catalog.{
  Reader, Dependency, Package, is_blank, load_line, parse_catalog,
}
use freesense_os_base.Tools.Order.{dependency_order}

abbrev pub root_names : List String
root_names =
    "gtar" ∷ "git-tiny" ∷ "rclone" ∷ "jq" ∷ "poudriere-devel" ∷ "xmlstarlet" ∷ "qemu-user-static"
    ∷ "qemu-tools" ∷ []

abbrev pub commands : List String
commands =
    "gtar" ∷ "git" ∷ "rclone" ∷ "jq" ∷ "poudriere" ∷ "xml" ∷ "indexinfo" ∷ "qemu-aarch64-static"
    ∷ "qemu-img" ∷ []

pub record Profile : Type 0 where
  pub roots : List String
  pub commands : List String

unfoldable pub worker_profile : Option String → Result Profile
worker_profile none = ok (record { roots = root_names; commands = commands })
worker_profile (some architecture) =
    if architecture == "arm64"
    then ok (record {
      roots = keep_if (λ n. not (n == "qemu-user-static")) root_names ++ "python311" ∷ [];
      commands = keep_if (λ c. not (c == "qemu-aarch64-static")) commands ++ "python3.11" ∷ [];
    })
    else if architecture == "amd64"
    then ok (record {
      roots = root_names ++ "python311" ∷ [];
      commands = commands ++ "python3.11" ∷ [];
    })
    else err (raised "unsupported worker architecture")

-- `max(package.built_at for package in package_list)`
unfoldable pub newest_build : List Package → ℕ
newest_build [] = 0
newest_build (p ∷ ps) =
    let rest = newest_build ps in if ltb rest p.built_at then p.built_at else rest

abbrev only : List String → String → Result String
only (s ∷ []) message = ok s
only _ message = err (raised message)

unfoldable pub select_ports_commit : List Package → Result String
unfolding newest_build add_all
select_ports_commit packages =
    only
      (add_all
        (map (λ p. p.ports_commit)
          (keep_if (λ p. nat_eq p.built_at (newest_build packages)) packages))
        [])
      "newest package generation has ambiguous ports commits"

-- A value that a set or a dictionary cannot hold makes it raise.
abbrev is_hashable : Json → Bool
is_hashable v = not (is_object v || is_array v)

-- `native_abis.setdefault(record.get("name"), set()).add(record.get("abi"))`. Only names that are texts
-- are looked up.
unfoldable pub add_abi : Json → Dict (List Json) → Result (Dict (List Json))
add_abi entry abis = do
  (if is_object entry then ok tt else err (raised "AttributeError"))
  (if is_hashable (get "name" entry) && is_hashable (get "abi" entry)
      then ok tt
      else err (raised "TypeError"))
  ok (elim (get "name" entry) [ str name ↦ push name (get "abi" entry) abis | _ ↦ abis ])

unfoldable pub native_abis : Reader → Dict (List Json) → List String → Result (Dict (List Json))
unfolding add_abi is_blank load_line
native_abis reader abis [] = ok abis
native_abis reader abis (line ∷ lines) = elim (is_blank line) [
  | true ↦ native_abis reader abis lines
  | false ↦ do
    entry ← load_line reader line
    more ← add_abi entry abis
    native_abis reader more lines
]

abbrev pub abi_of : String → String
abi_of architecture = "FreeBSD:16:" <> (if architecture == "arm64" then "aarch64" else "amd64")

-- The catalogue records of the name, one at least, are all for the ABI or for each.
unfoldable pub has_native_abi : Dict (List Json) → String → Package → Bool
unfolding lookup
has_native_abi abis abi pkg = elim (lookup pkg.name abis) [
  | none ↦ false
  | some values ↦ all (text_where (contains (abi ∷ "FreeBSD:16:*" ∷ []))) values
]

-- `{package.osversion for package in order if package.osversion is not None}`, of one element
unfoldable pub same_osversion : Option ℕ → List Package → Result ℕ
same_osversion none [] =
    err (raised "worker-tool closure has inconsistent package OSVERSION values")
same_osversion (some n) [] = ok n
same_osversion seen (p ∷ ps) = elim p.osversion [
  | none ↦ same_osversion seen ps
  | some n ↦ elim seen [
    | none ↦ same_osversion (some n) ps
    | some m ↦
        let rest = same_osversion (some m) ps in
        if nat_eq m n
        then rest
        else err (raised "worker-tool closure has inconsistent package OSVERSION values")
  ]
]

-- A package of the result
pub record Resolved : Type 0 where
  pub name : String
  pub version : String
  pub origin : String
  pub remote_path : String
  pub local_file : String
  pub checksum : Json
  pub size : ℕ
  pub dependencies : List Dependency

abbrev pub resolved : Package → Resolved
resolved p = record {
  name = p.name;
  version = p.version;
  origin = p.origin;
  remote_path = p.remote_path;
  local_file = "All/" <> p.name <> "-" <> p.version <> ".pkg";
  checksum = p.checksum;
  size = p.size;
  dependencies = p.dependencies;
}

-- The loop over the order
unfoldable pub resolve_all : List String → List Package → Result (List Resolved)
resolve_all local_files [] = ok []
resolve_all local_files (p ∷ ps) = do
  let r = resolved p
  check (not (contains local_files r.local_file)) "duplicate deterministic package filename "
  rest ← resolve_all (r.local_file ∷ local_files) ps
  ok (r ∷ rest)

pub record ToolPlan : Type 0 where
  pub schema_version : String
  pub ports_sha : String
  pub osversion : ℕ
  pub roots : List String
  pub commands : List String
  pub native : Option (String × String)
  pub package_count : ℕ
  pub packages : List Resolved
  pub install_order : List String

-- The records of each name by their ABI, which are read for a given architecture only
unfoldable pub abis_for : Reader → Option String → List String → Result (Dict (List Json))
unfolding native_abis
abis_for reader none lines = ok []
abis_for reader (some architecture) lines = native_abis reader [] lines

unfoldable pub are_native : Option String → Dict (List Json) → List Package → Bool
unfolding has_native_abi
are_native none abis order = true
are_native (some architecture) abis order = all (has_native_abi abis (abi_of architecture)) order

unfoldable pub resolve_worker_tools : Reader → List String → Option String → Result ToolPlan
unfolding worker_profile abis_for parse_catalog select_ports_commit dependency_order are_native
    same_osversion resolve_all
resolve_worker_tools reader lines architecture = do
  profile ← worker_profile architecture
  abis ← abis_for reader architecture lines
  catalog ← parse_catalog reader lines
  ports_sha ← select_ports_commit catalog.all_packages
  order ← dependency_order catalog.packages catalog.duplicate_names profile.roots
  check (are_native architecture abis order)
      "worker-tool closure contains a foreign or ambiguous ABI"
  osversion ← same_osversion none order
  packages ← resolve_all [] order
  ok (record {
    schema_version = "freesense.worker-tools/v1";
    ports_sha = ports_sha;
    osversion = osversion;
    roots = profile.roots;
    commands = profile.commands;
    native = elim architecture [ none ↦ none | some a ↦ some (a, abi_of a) ];
    package_count = length packages;
    packages = packages;
    install_order = map (λ p. p.local_file) packages;
  })
