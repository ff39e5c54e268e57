-- ===== src/Delta/Mirror.antt =====
-- scripts/mirror_plan.py: the frozen mirror's manifest for one architecture. The digests of the two
-- documents are left out.
pub mod Roots
pub mod Bounded
use Prim.Native.Char.{Char, code}
use freesense_os_base.Base.{
  ℕ, zero, suc, String, ◌==◌, ◌<>◌, starts_with, Bool, ◌&&◌, ◌||◌, not, true, false, Option, none,
  some, List, [], ◌∷◌, ◌++◌, map, any, if◌then◌else◌, Result, ok, err, raised, ◌>>=◌, ◌>>◌, all,
  length, ltb, leb, map_results, keep_if,
}
use freesense_os_base.Base.Json.{
  Json, Members, ℤ, pos, int, str, obj, member, done, get, is_object, is_text, as_text, text_where,
}
use freesense_os_base.Base.Sets.{Dict, contains, add_all, lookup}
use freesense_os_base.Base.Sort.{leb_text, sorted}
use freesense_os_base.Base.Text.{is_digit, all_chars, is_empty, strip_prefix}
use freesense_os_base.Delta.Safe.{
  safe_name, safe_version, safe_origin, safe_remote_path, parse_checksum,
}
use freesense_os_base.Delta.Worklist.{names}
use freesense_os_base.Delta.Records.{check, has_exactly, catalogue_index}
use freesense_os_base.Delta.Layers.{Delta, Ported, both, minus}
use freesense_os_base.Delta.Mirror.Roots.{ComponentRoots, component_roots, origin_texts}

-- `ceilings[architecture]`
pub record Bounds : Type 0 where
  pub max_delta : ℕ
  pub min_mirror : ℕ
  pub max_churn : ℕ

abbrev pub architectures : List String
architectures = "amd64" ∷ "arm64" ∷ []

-- `ARCHES[architecture]`
abbrev pub abi_of : String → Result String
abi_of a =
    if a == "amd64"
    then ok "FreeBSD:16:amd64"
    else if a == "arm64"
    then ok "FreeBSD:16:aarch64"
    else err (raised "KeyError")

-- `SUFFIX.fullmatch(value)`
unfoldable pub is_suffix : Json → Bool
unfolding strip_prefix is_empty all_chars
is_suffix (str s) = elim (strip_prefix "-" s) [
  | none ↦ false
  | some rest ↦
      not (is_empty rest) && all_chars (λ c. is_digit c || (leb b'a' c && leb c b'z')) rest
]
is_suffix _ = false

abbrev bound_text : String
bound_text = "each architecture needs max_delta, min_mirror and max_churn"

-- `type(bound) is int and bound >= 1`
unfoldable pub bound_of : Json → Result ℕ
bound_of (int (pos (suc n))) = ok (suc n)
bound_of _ = err (raised bound_text)

-- The bounds of one architecture
unfoldable pub bounds_of : Json → Result Bounds
unfolding bound_of
bounds_of value = do
  check (has_exactly ("max_delta" ∷ "min_mirror" ∷ "max_churn" ∷ []) value) bound_text
  max_delta ← bound_of (get "max_delta" value)
  min_mirror ← bound_of (get "min_mirror" value)
  max_churn ← bound_of (get "max_churn" value)
  ok (record { max_delta = max_delta; min_mirror = min_mirror; max_churn = max_churn })

unfoldable pub ceilings_of : Members → Result (Dict Bounds)
unfolding bounds_of
ceilings_of done = ok []
ceilings_of (member architecture value ms) = do
  bounds ← bounds_of value
  rest ← ceilings_of ms
  ok ((architecture, bounds) ∷ rest)

abbrev ceilings_in : Json → Result (Dict Bounds)
ceilings_in (obj ms) = ceilings_of ms
ceilings_in _ = err (raised "mirror policy must bound every architecture")

-- `policy`
unfoldable pub policy : Json → Result (Dict Bounds)
unfolding ceilings_of is_suffix
policy document = do
  check (is_text "freesense.mirror-policy/v1" (get "schema_version" document))
      "invalid mirror policy"
  check (is_suffix (get "delta_suffix" document)) "mirror policy has no usable delta suffix"
  check (has_exactly architectures (get "ceilings" document))
      "mirror policy must bound every architecture"
  ceilings_in (get "ceilings" document)

-- A package of the mirror
pub record Mirrored : Type 0 where
  pub name : String
  pub version : String
  pub origin : String
  pub abi : String
  pub file : String
  pub upstream_path : String
  pub upstream_checksum : Json
  pub size : ℕ
  pub catalog_sha256 : String

-- `type(size) is int and size >= 1`
abbrev pub usable_size : Json → Result ℕ
usable_size (int (pos (suc n))) = ok (suc n)
usable_size _ = err (raised "upstream package has no usable size: ")

-- `entry`
unfoldable pub entry : String → Json → String → String → Result Mirrored
entry name upstream abi catalog_sha256 = do
  parse_checksum (get "sum" upstream)
  size ← usable_size (get "pkgsize" upstream)
  safe ← safe_name (str name)
  version ← safe_version (get "version" upstream)
  origin ← safe_origin (get "origin" upstream)
  path ← safe_remote_path (get "repopath" upstream)
  ok (record {
    name = safe;
    version = version;
    origin = origin;
    abi = abi;
    file = "All/" <> name <> "-" <> version <> ".pkg";
    upstream_path = path;
    upstream_checksum = get "sum" upstream;
    size = size;
    catalog_sha256 = catalog_sha256;
  })

-- `entry(name, upstream[name], …)`
unfoldable pub mirror_one : Dict Json → String → String → String → Result Mirrored
unfolding entry lookup
mirror_one upstream abi catalog_sha256 name = elim (lookup name upstream) [
  | none ↦ err (raised "KeyError")
  | some up ↦ entry name up abi catalog_sha256
]

-- `unclaimed`
unfoldable pub unclaimed : List String → Dict Json → String → Result (Unit {0})
unclaimed wanted upstream suffix = do
  check (not (any (λ n. contains (names upstream) (n <> suffix)) wanted))
      "upstream already publishes the renamed packages: "
  check (not (any (λ n. starts_with n "FreeSense") (names upstream)))
      "upstream publishes FreeSense-named packages: "

pub record MirrorCounts : Type 0 where
  pub mirror : ℕ
  pub delta : ℕ
  pub churn : ℕ

-- The document that `plan` returns, less its two digests
pub record MirrorPlan : Type 0 where
  pub schema_version : String
  pub abi : String
  pub architecture : String
  pub ports_commit : String
  pub catalog_sha256 : String
  pub packages : List Mirrored
  pub delta_roots : List String
  pub component_roots : ComponentRoots
  pub delta_packages : List String
  pub collisions : List Ported
  pub counts : MirrorCounts

abbrev pub names_of_packages : List Mirrored → List String
names_of_packages = map (λ m. m.name)

-- `{item["name"] for item in delta["build"]}`
abbrev pub delta_names : Delta → List String
delta_names delta = add_all (map (λ b. b.name) delta.build) []

-- `ceilings[architecture]`
unfoldable pub bounds_at : Dict Bounds → String → Result Bounds
unfolding lookup
bounds_at ceilings a = elim (lookup a ceilings) [ none ↦ err (raised "KeyError") | some b ↦ ok b ]

-- The checks on the size of the result
unfoldable pub check_bounds : Bounds → ℕ → ℕ → ℕ → Result (Unit {0})
check_bounds bound delta mirror churn = do
  check (not (ltb bound.max_delta delta)) "delta exceeds its ceiling"
  check (not (ltb mirror bound.min_mirror)) "mirror is below its floor"
  check (not (ltb bound.max_churn churn)) "upstream drift exceeds its ceiling"

-- The layers that the delta claims
unfoldable pub check_layers : Delta → String → Dict Json → Result (Unit {0})
check_layers delta suffix upstream = do
  check (not (any (contains (delta_names delta)) delta.take))
      "delta closure claims the same package on both layers"
  check (all (contains (names upstream)) delta.take)
      "the closure needs packages upstream does not publish: "
  unclaimed (delta_names delta ++ map (λ p. p.name) delta.collisions) upstream suffix

unfoldable pub plan :
    Delta → List Json → String → String → String → Dict Bounds → String → Result MirrorPlan
unfolding bounds_at check_bounds check_layers mirror_one
plan delta catalogue architecture catalog_sha256 ports_commit ceilings suffix = do
  check (delta.schema_version == "freesense.delta-closure/v1") "invalid delta closure document"
  abi ← abi_of architecture
  check (is_text abi delta.abi) "delta closure is for a different architecture"
  upstream ← catalogue_index catalogue
  check_layers delta suffix upstream
  mirror ←
      map_results (mirror_one upstream abi catalog_sha256) (sorted leb_text (add_all delta.take []))
  bound ← bounds_at ceilings architecture
  check_bounds bound (length (delta_names delta)) (length mirror) (length delta.churn)
  check (contains (names_of_packages mirror) "pkg")
      "mirror is missing packages the build cannot start without: "
  origins ← map_results (λ b. as_text b.origin) delta.build
  roots ← component_roots delta
  ok (record {
    schema_version = "freesense.mirror-plan/v1";
    abi = abi;
    architecture = architecture;
    ports_commit = ports_commit;
    catalog_sha256 = catalog_sha256;
    packages = mirror;
    delta_roots = sorted leb_text (add_all origins []);
    component_roots = roots;
    delta_packages = sorted leb_text (delta_names delta);
    collisions = delta.collisions;
    counts = record {
      mirror = length mirror;
      delta = length (delta_names delta);
      churn = length delta.churn;
    };
  })
