-- ===== src/Tests/Layered.antt =====
-- Four packages: FreeSense changes `lib` and `app` needs it, while `pkg` needs `ca` alone.
use freesense_os_base.Base.{
  ◌≡◌, refl, sym, subst, arith, some, eq_iff, Bool-cases, inl, inr, ◌==◌, String, Bool, true, false,
  ◌||◌, ◌&&◌, not, List, [], ◌∷◌, ok, map_results,
}
use freesense_os_base.Base.Json.{
  Json, Members, Elements, bool, str, arr, obj, int, pos, member, done, stop, elements, find, get,
  items, subscript,
}
use freesense_os_base.Base.Sets.{Dict, contains, add, add_all, insert, lookup, push, remove}
use freesense_os_base.Delta.Worklist.{
  names, dependents, reachable, add_parent, add_to, deps_of, force, force_all, force_one,
  member_keys, push_all, reach, reverse_deps,
}
use freesense_os_base.Delta.Worklist.Forced.{dependents_closed}
use freesense_os_base.Delta.Worklist.Parents.{depends}
use freesense_os_base.Delta.Layers
use freesense_os_base.Delta.Layers.{Delta}
use freesense_os_base.Delta.Mirror
use freesense_os_base.Delta.Mirror.{Bounds, Mirrored, MirrorPlan}
use freesense_os_base.Delta.Records.{
  requirement_records, add_record, add_records, catalogue_index, check_header, index_all,
  index_name, packages_of, publish, published, remove_all, root_names,
}
use freesense_os_base.Tests.Sample.{digest_a}
use freesense_os_base.Delta.Safe.{
  checksum_length, is_safe_name, is_safe_segment, is_safe_version, options, parse_checksum,
  safe_name, safe_origin, safe_remote_path, safe_version, split_on,
}
use freesense_os_base.Delta.Classify.{
  churn, churn_one, classify, classify_all, divergence, eligibility, reason_after, same_options,
  upstream_options, upstream_reason,
}
use freesense_os_base.Base.Sort.{insert_sorted, sorted}
use freesense_os_base.Base.Text.{
  all_chars, ends_with, includes, is_empty, lower, size, strip_prefix,
}
use freesense_os_base.Delta.Mirror.Roots.{component_roots, origin_texts, resolve_component, share}
use freesense_os_base.Delta.Worklist.Seen.{Known, IsClosed}
use freesense_os_base.Delta.Worklist.Reached.{Covers, Member, reachable_lem}
use freesense_os_base.Delta.Worklist.Forced.{dependents_least}
use freesense_os_base.Delta.Records.{has_dependencies}
use freesense_os_base.Delta.Layers.Complete.{has_dependencies-IsComplete}
use freesense_os_base.Delta.Layers.Apart.{AreApart, plan-AreApart, built_names}
use freesense_os_base.Delta.Mirror.Bounded.{Sound, plan-Sound, mirror_closed}

abbrev flags : Bool → Members → Members
flags overlay rest = member "overlay" (bool overlay) (
    member "custom_patches" (bool false) (
      member "non_options_knobs" (bool false)
        (member "kernel_sensitive" (bool false) (member "base_package" (bool false) rest))))

abbrev port : String → String → Bool → Members → Json
port name origin overlay deps = obj (
    member "name" (str name) (
      member "origin" (str origin) (
        member "version" (str "1") (
          member "abi" (str "FreeBSD:16:amd64")
            (member "deps" (obj deps) (member "options" (obj done) (flags overlay done)))))))

abbrev lib : Json
lib = port "lib" "devel/lib" true done

abbrev app : Json
app = port "app" "www/app" false (member "lib" (obj done) done)

abbrev tool : Json
tool = port "pkg" "ports-mgmt/pkg" false (member "ca" (obj done) done)

abbrev ca : Json
ca = port "ca" "security/ca" false done

abbrev requirements : Json
requirements = obj (
    member "schema_version" (str "freesense.package-requirements/v1") (
      member "abi" (str "FreeBSD:16:amd64") (
        member "roots"
          (obj (
            member "system" (arr (Elements.item (str "app") stop))
              (member "packages" (arr (Elements.item (str "pkg") stop)) done)))
          (member "packages"
            (arr
              (Elements.item lib (Elements.item app (Elements.item tool (Elements.item ca stop)))))
            done))))

abbrev upstream : String → String → String → Json
upstream name origin path = obj (
    member "name" (str name) (
      member "version" (str "1") (
        member "origin" (str origin) (
          member "sum" (str digest_a) (
            member "pkgsize" (int (pos 7))
              (member "repopath" (str path) (member "options" (obj done) done)))))))

abbrev catalogue : List Json
catalogue =
    upstream "pkg" "ports-mgmt/pkg" "All/pkg-1.pkg"
    ∷ upstream "ca" "security/ca" "All/ca-1.pkg"
    ∷ obj (member "name" (str "app") (member "version" (str "2") done))
    ∷ []

abbrev records : Dict Json
records = ("lib", lib) ∷ ("app", app) ∷ ("pkg", tool) ∷ ("ca", ca) ∷ []

abbrev ceilings : Dict Bounds
ceilings = ("amd64", record { max_delta = 2; min_mirror = 1; max_churn = 1 }) ∷ []

abbrev delta : Delta
delta = record {
  schema_version = "freesense.delta-closure/v1";
  abi = str "FreeBSD:16:amd64";
  build =
      record { name = "app"; origin = str "www/app"; cause = "reverse-dependency" }
      ∷ record { name = "lib"; origin = str "devel/lib"; cause = "overlay" }
      ∷ [];
  take = "ca" ∷ "pkg" ∷ [];
  system = "app" ∷ "lib" ∷ [];
  optional = [];
  collisions = record { name = "app"; origin = str "www/app" } ∷ [];
  churn = [];
  counts = record {
    records = 4;
    customized = 1;
    cascade = 1;
    build = 2;
    take = 2;
    causes = ("overlay", 1) ∷ [];
  };
}

abbrev mirrored : String → String → String → Mirrored
mirrored name origin path = record {
  name = name;
  version = "1";
  origin = origin;
  abi = "FreeBSD:16:amd64";
  file = path;
  upstream_path = path;
  upstream_checksum = str digest_a;
  size = 7;
  catalog_sha256 = digest_a;
}

abbrev document : MirrorPlan
document = record {
  schema_version = "freesense.mirror-plan/v1";
  abi = "FreeBSD:16:amd64";
  architecture = "amd64";
  ports_commit = "c";
  catalog_sha256 = digest_a;
  packages =
      mirrored "ca" "security/ca" "All/ca-1.pkg"
      ∷ mirrored "pkg" "ports-mgmt/pkg" "All/pkg-1.pkg"
      ∷ [];
  delta_roots = "devel/lib" ∷ "www/app" ∷ [];
  component_roots = record { system = "devel/lib" ∷ "www/app" ∷ []; optional = [] };
  delta_packages = "app" ∷ "lib" ∷ [];
  collisions = record { name = "app"; origin = str "www/app" } ∷ [];
  counts = record { mirror = 2; delta = 2; churn = 0 };
}

records_run : requirement_records requirements ≡ ok records
unfolding requirement_records member_keys items add_record safe_name safe_origin safe_version
    options deps_of
records_run = refl

plan_run : Layers.plan requirements catalogue [] ≡ ok delta
unfolding Layers.plan Layers.layers requirement_records member_keys items add_record safe_name
    safe_origin safe_version options deps_of classify sorted eligibility published insert
    Layers.delta_of reachable map_results elements find get subscript add add_all lookup remove
    insert_sorted all_chars ends_with is_empty lower size churn churn_one classify_all divergence
    reason_after same_options upstream_options upstream_reason Layers.built Layers.cause_counts
    Layers.origin_of Layers.ported add_records check_header index_name packages_of publish
    remove_all root_names is_safe_name is_safe_version split_on add_parent add_to dependents force
    force_all force_one push_all reach reverse_deps
plan_run = refl

mirror_run : Mirror.plan delta catalogue "amd64" digest_a "c" ceilings "-fs" ≡ ok document
unfolding Mirror.plan catalogue_index get add_all add insert Mirror.unclaimed map_results sorted
    parse_checksum safe_name safe_version safe_origin safe_remote_path strip_prefix origin_texts
    component_roots push find lookup remove insert_sorted all_chars ends_with includes is_empty size
    resolve_component share Mirror.bounds_at Mirror.check_bounds Mirror.check_layers Mirror.entry
    Mirror.mirror_one index_all index_name remove_all checksum_length is_safe_name is_safe_segment
    is_safe_version split_on
mirror_run = refl

app_start : (contains ("lib" ∷ []) "lib" || contains (dependents records ("lib" ∷ [])) "lib") ≡ true
app_start = refl

lib_used : depends records "app" "lib" ≡ true
unfolding depends deps_of get
lib_used = refl

dependents_closed_example :
    (contains ("lib" ∷ []) "app" || contains (dependents records ("lib" ∷ [])) "app") ≡ true
dependents_closed_example = dependents_closed records ("lib" ∷ []) "lib" "app" lib_used app_start

abbrev both_names : List String
both_names = "lib" ∷ "app" ∷ []

start_held : (k : String) → contains ("lib" ∷ []) k ≡ true → contains both_names k ≡ true
start_held k h = ground arith

lib_parents : (n : String) → depends records n "lib" ≡ true → contains both_names n ≡ true
unfolding depends deps_of get
lib_parents n h = ground arith

app_parents : (n : String) → depends records n "app" ≡ true → contains both_names n ≡ true
unfolding depends deps_of get
app_parents n h = cc h

both_closed :
    (n d : String)
    → depends records n d ≡ true
    → contains both_names d ≡ true
    → contains both_names n ≡ true
both_closed n d h held = elim (Bool-cases ("lib" == d)) [
  | inl here ↦
      lib_parents n (subst (λ x. depends records n x ≡ true) (sym ((eq_iff "lib" d).0 here)) h)
  | inr other ↦
      let is_app : ("app" == d) ≡ true = ground arith in
      app_parents n (subst (λ x. depends records n x ≡ true) (sym ((eq_iff "app" d).0 is_app)) h)
]

app_held : contains (dependents records ("lib" ∷ [])) "app" ≡ true
unfolding dependents force_all lookup get add
app_held = refl

dependents_least_example : contains both_names "app" ≡ true
dependents_least_example =
    dependents_least records ("lib" ∷ []) both_names start_held both_closed "app" app_held

all_recorded : has_dependencies records ≡ true
unfolding deps_of get
all_recorded = refl

lib_deps :
    (d : String) (r : Json)
    → some lib ≡ some r
    → contains (deps_of r) d ≡ true
    → contains both_names d ≡ true
unfolding deps_of get
lib_deps d r e h =
    let same : lib ≡ r = cc e in
    let none_of : contains (deps_of lib) d ≡ true =
      subst (λ x. contains (deps_of x) d ≡ true) (sym same) h in
    cc none_of

app_deps :
    (d : String) (r : Json)
    → some app ≡ some r
    → contains (deps_of r) d ≡ true
    → contains both_names d ≡ true
unfolding deps_of get
app_deps d r e h =
    let same : app ≡ r = cc e in
    let one : contains (deps_of app) d ≡ true =
      subst (λ x. contains (deps_of x) d ≡ true) (sym same) h in
    ground arith

records-IsClosed : IsClosed records both_names
unfolding lookup
records-IsClosed n d r held found of = elim (Bool-cases ("lib" == n)) [
  | inl here ↦
      lib_deps d r (subst (λ x. lookup x records ≡ some r) (sym ((eq_iff "lib" n).0 here)) found) of
  | inr other ↦
      let is_app : ("app" == n) ≡ true = ground arith in
      app_deps d r (subst (λ x. lookup x records ≡ some r) (sym ((eq_iff "app" n).0 is_app)) found)
        of
]

app-Known : Covers (Known records) ("app" ∷ [])
unfolding lookup
app-Known k h =
    let is_app : ("app" == k) ≡ true = ground arith in
    subst (Known records) ((eq_iff "app" k).0 is_app) (app, refl)

app-Member : Covers (Member both_names) ("app" ∷ [])
app-Member k h = ground arith

reachable_lem_example :
    (seen : List String) × (reachable records ("app" ∷ []) ≡ ok seen)
    × Covers (Member seen) ("app" ∷ [])
    × IsClosed records seen
    × Covers (Member both_names) seen
reachable_lem_example =
    reachable_lem records ("app" ∷ []) both_names (has_dependencies-IsComplete records all_recorded)
      app-Known app-Member records-IsClosed

plan-AreApart_example : AreApart requirements catalogue [] delta
plan-AreApart_example = plan-AreApart requirements catalogue [] delta plan_run

plan-Sound_example : Sound delta "amd64" ceilings document
plan-Sound_example =
    plan-Sound delta catalogue "amd64" digest_a "c" ceilings "-fs" document mirror_run

pkg_mirrored : contains (Mirror.names_of_packages document.packages) "pkg" ≡ true
pkg_mirrored = refl

ca_used : depends records "pkg" "ca" ≡ true
unfolding depends deps_of get
ca_used = refl

mirror_closed_example :
    ((k : String)
      → contains (Mirror.names_of_packages document.packages) k
        ≡ (contains (names records) k && not (contains (built_names delta) k)))
    × (contains (Mirror.names_of_packages document.packages) "ca" ≡ true)
    × (contains (built_names delta) "ca" ≡ false)
mirror_closed_example =
    mirror_closed requirements catalogue [] delta "amd64" digest_a "c" ceilings "-fs" document
      records "pkg" "ca" records_run plan_run mirror_run pkg_mirrored ca_used
