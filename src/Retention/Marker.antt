-- ===== src/Retention/Marker.antt =====
-- scripts/r2_retention.py: completion markers (`marker_identity`) and the newest completed builds of
-- each architecture (`keep_newest_per_architecture`).
use freesense_os_base.Base.{
  ℕ, suc, String, ◌==◌, Bool, ◌&&◌, ◌||◌, not, false, Option, none, some, List, [], ◌∷◌, map, ltb,
  nat_eq, any, all, take, if◌then◌else◌, Result, ok, Error, require, or_raise, ◌>>=◌, ◌>>◌,
}
use freesense_os_base.Base.Json.{
  Json, int, pos, str, arr, get, elements, is_object, is_text, is_null, text_where,
}
use freesense_os_base.Base.Sets.{Dict, add_all, push}
use freesense_os_base.Base.Sort.{leb_text, sorted}
use freesense_os_base.Base.Text.{strip_prefix, is_empty}
use freesense_os_base.Retention.Keys.{Classified, is_sha256, is_commit}
use freesense_os_base.Retention.Report.{is_sha256_text}

pub record Entry : Type 0 where
  pub prefix : String
  pub kind : String
  pub train : Option String
  pub fingerprint : String
  pub generation : ℕ
  pub marker : Json

-- `isinstance(generation, int) and not isinstance(generation, bool) and generation > 0`
unfoldable pub generation_of : Json → Option ℕ
generation_of (int (pos (suc n))) = some (suc n)
generation_of _ = none

-- `value in {a, b}`
abbrev pub is_one_of : List String → Json → Bool
is_one_of [] v = false
is_one_of (t ∷ ts) v = is_text t v || is_one_of ts v

-- `PORTS_COMMIT.fullmatch(str(value))`, on texts
abbrev is_commit_text : Json → Bool
is_commit_text = text_where is_commit

-- `PLAN_INPUT.fullmatch(value)` on a text: `inputs/sha256/` and 64 hexadecimal digits
unfoldable pub is_plan_input : String → Bool
is_plan_input s = elim (strip_prefix "inputs/sha256/" s) [
  | none ↦ false
  | some rest ↦ is_sha256 rest
]

system_marker : String → Json → Json → Result (Unit {0})
system_marker fingerprint marker inputs = do
  require
      (is_text "freesense.artifact/v1" (get "schema_version" marker)
        && is_text "system" (get "stage" marker))
      "repository completion marker has an invalid schema: "
  require (is_text fingerprint (get "system" inputs))
      "System completion marker has an invalid closure: "

-- `value == train`, where the train is a text or `None`
abbrev is_train_of : Option String → Json → Bool
is_train_of none v = is_null v
is_train_of (some t) v = is_text t v

packages_marker : Option String → Json → Json → Result (Unit {0})
packages_marker train marker inputs = do
  require
      (is_text "freesense.artifact/v1" (get "schema_version" marker)
        && is_text "packages" (get "stage" marker))
      "repository completion marker has an invalid schema: "
  require (is_train_of train (get "package_train" inputs))
      "Packages completion marker has an invalid train: "

iso_marker : Json → Json → Result (Unit {0})
iso_marker marker inputs =
    let schema = get "schema_version" marker in
    let legacy = is_text "freesense.iso/v1" schema && is_null (get "packages" inputs) in
    let current =
      is_one_of ("freesense.iso/v2" ∷ "freesense.installer/v1" ∷ []) schema
      && is_sha256_text (get "packages" inputs) in
    require
      ((legacy || current)
        && is_sha256_text (get "system" marker)
        && is_one_of ("stable" ∷ "devel" ∷ []) (get "channel" inputs))
      "ISO completion marker has an invalid closure: "

mirror_marker : Json → Json → Result (Unit {0})
mirror_marker marker inputs =
    require
      (is_text "freesense.artifact/v1" (get "schema_version" marker)
        && is_text "mirror" (get "stage" marker)
        && is_one_of ("amd64" ∷ "arm64" ∷ []) (get "architecture" marker)
        && is_commit_text (get "ports_commit" inputs)
        && is_sha256_text (get "catalog_sha256" inputs)
        && text_where is_plan_input (get "mirror_plan" inputs))
      "mirror completion marker has an invalid closure: "

-- `{item.get("format") for item in files if isinstance(item, dict)} == {"qcow2", "raw"}`
has_both_formats : List Json → Bool
has_both_formats files =
    all (λ f. not (is_object f) || is_one_of ("qcow2" ∷ "raw" ∷ []) (get "format" f)) files
    && any (λ f. is_text "qcow2" (get "format" f)) files
    && any (λ f. is_text "raw" (get "format" f)) files

is_image_files : Json → Bool
unfolding has_both_formats
is_image_files (arr files) = has_both_formats (elements files)
is_image_files _ = false

cloud_marker : Json → Json → Result (Unit {0})
unfolding is_image_files
cloud_marker marker inputs =
    require
      (is_text "freesense.cloud-image/v1" (get "schema_version" marker)
        && is_sha256_text (get "bundle_fingerprint" marker)
        && is_one_of ("stable" ∷ "devel" ∷ []) (get "channel" marker)
        && is_image_files (get "files" marker)
        && is_sha256_text (get "system" inputs)
        && is_sha256_text (get "packages" inputs))
      "cloud completion marker has an invalid closure: "

appliance_marker : Json → Json → Result (Unit {0})
appliance_marker marker inputs =
    require
      (is_text "freesense.appliance/v1" (get "schema_version" marker)
        && is_text "arm64" (get "architecture" marker)
        && is_text "aarch64" (get "package_arch" marker)
        && is_text "ufs" (get "filesystem" marker)
        && is_text "img" (get "format" marker)
        && is_text "xz" (get "compression" marker)
        && is_text "mbr" (get "partition_scheme" marker)
        && is_one_of ("unverified" ∷ "verified" ∷ []) (get "hardware_verification" marker)
        && is_sha256_text (get "bundle_fingerprint" marker)
        && is_sha256_text (get "system" inputs)
        && is_sha256_text (get "packages" inputs))
      "appliance completion marker has an invalid closure: "

-- The checks of one kind of artifact; what is none of the first five kinds is an appliance image.
unfoldable pub check_marker : Classified → Json → Json → Result (Unit {0})
unfolding system_marker packages_marker iso_marker mirror_marker cloud_marker appliance_marker
check_marker c marker inputs =
    if c.kind == "system"
    then system_marker c.fingerprint marker inputs
    else if c.kind == "packages"
    then packages_marker c.train marker inputs
    else if c.kind == "iso"
    then iso_marker marker inputs
    else if c.kind == "mirror"
    then mirror_marker marker inputs
    else if c.kind == "cloud"
    then cloud_marker marker inputs
    else appliance_marker marker inputs

unfoldable pub marker_identity : Classified → Json → Result Entry
marker_identity c marker = do
  require (is_object marker) "completion marker is not an object: "
  let inputs = get "inputs" marker
  require (is_text c.fingerprint (get "fingerprint" marker) && is_object inputs)
      "completion marker conflicts with its artifact identity: "
  generation ←
      or_raise (generation_of (get "generation" marker))
        (Error.exit "completion marker conflicts with its artifact identity: ")
  check_marker c marker inputs
  ok record {
    prefix = c.prefix;
    kind = c.kind;
    train = c.train;
    fingerprint = c.fingerprint;
    generation = generation;
    marker = marker;
  }

-- `marker.get("architecture") or "amd64"`; a marker names a text or nothing.
unfoldable pub architecture_of : Json → String
architecture_of (str s) = if is_empty s then "amd64" else s
architecture_of _ = "amd64"

unfoldable pub by_architecture : List Entry → Dict (List Entry) → Dict (List Entry)
unfolding architecture_of push
by_architecture [] d = d
by_architecture (e ∷ es) d =
    by_architecture es (push (architecture_of (get "architecture" e.marker)) e d)

-- The key `(generation, prefix)`, in reverse
unfoldable pub is_newer : Entry → Entry → Bool
is_newer a b =
    ltb b.generation a.generation || nat_eq a.generation b.generation && leb_text b.prefix a.prefix

-- The prefixes of the newest entries of every group
unfoldable pub newest_prefixes : ℕ → Dict (List Entry) → List String → List String
unfolding sorted is_newer add_all
newest_prefixes keep [] kept = kept
newest_prefixes keep ((_, es) ∷ groups) kept =
    newest_prefixes keep groups
      (add_all (map (λ e. e.prefix) (take keep (sorted is_newer es))) kept)

unfoldable pub keep_newest_per_architecture : List Entry → ℕ → List String
unfolding by_architecture newest_prefixes
keep_newest_per_architecture entries keep = newest_prefixes keep (by_architecture entries []) []
