-- ===== src/Tests/Tooled.antt =====
-- A catalogue of the worker's tools, in which `rclone` needs `jq`.
use freesense_os_base.Base.{
  ◌≡◌, refl, sym, subst, arith, String, ◌==◌, ◌<>◌, true, some, List, [], ◌∷◌, all, eq_iff,
  Bool-cases, inl, inr, ok, err, raised, if◌then◌else◌, map_results,
}
use freesense_os_base.Base.Json.{Json, Members, str, obj, int, pos, member, done}
use freesense_os_base.Base.Sets.{contains, lookup, add, insert, push}
use freesense_os_base.Tools.Catalog.{Reader, Dependency, Package, Catalog, parse_catalog}
use freesense_os_base.Tools.Catalog.Keyed.{Filed, parse_catalog-Filed}
use freesense_os_base.Tools.Order.{dependency_order}
use freesense_os_base.Tools.Order.Walked.{names_of, IsKeyed}
use freesense_os_base.Tools.Order.Ordered.{Ordered, dependency_order-Ordered}
use freesense_os_base.Tools.Order.Needed.{IsClosed, wanted, dependency_order_least}
use freesense_os_base.Tools.Order.Ends.{Ends, dependency_order-Ends}
use freesense_os_base.Tools.Resolve.{Resolved, ToolPlan, resolve_worker_tools}
use freesense_os_base.Tools.Resolve.Installable.{Installable, resolve_worker_tools-Installable}
use freesense_os_base.Tests.Sample.{digest_a}
use freesense_os_base.Delta.Safe.{
  parse_checksum, safe_name, safe_origin, safe_remote_path, safe_version,
}
use freesense_os_base.Base.Sort.{sorted}

abbrev commit : String
commit = "0123456789012345678901234567890123456789"

abbrev need : String → Members
need name =
    member name (obj (member "version" (str "1") (member "origin" (str ("x/" <> name)) done))) done

abbrev entry : String → Members → Json
entry name deps = obj (
    member "name" (str name) (
      member "version" (str "1") (
        member "origin" (str ("x/" <> name)) (
          member "repopath" (str ("All/" <> name <> "-1.pkg")) (
            member "sum" (str digest_a) (
              member "pkgsize" (int (pos 5)) (
                member "abi" (str "FreeBSD:16:amd64") (
                  member "deps" (obj deps) (
                    member "annotations"
                      (obj (
                        member "build_timestamp" (str "t") (
                          member "ports_top_git_hash" (str commit)
                            (member "FreeBSD_version" (str "1600001") done))))
                      done)))))))))

-- A line is the name of its package.
abbrev reader : Reader
reader = record {
  loads = λ line. some (entry line (if line == "rclone" then need "jq" else done));
  strptime = λ s. some 7;
}

abbrev jq_needed : List Dependency
jq_needed = record { name = "jq"; version = "1"; origin = "x/jq" } ∷ []

abbrev parsed : String → List Dependency → Package
parsed name deps = record {
  name = name;
  version = "1";
  origin = "x/" <> name;
  remote_path = "All/" <> name <> "-1.pkg";
  checksum = str digest_a;
  size = 5;
  dependencies = deps;
  built_at = 7;
  ports_commit = commit;
  osversion = some 1600001;
}

abbrev rclone : Package
rclone = parsed "rclone" jq_needed

abbrev jq : Package
jq = parsed "jq" []

abbrev catalog : Catalog
catalog = record {
  packages = ("rclone", rclone) ∷ ("jq", jq) ∷ [];
  all_packages = rclone ∷ jq ∷ [];
  duplicate_names = [];
  remote_paths = ("All/rclone-1.pkg", "rclone") ∷ ("All/jq-1.pkg", "jq") ∷ [];
}

abbrev tool : String → List Dependency → Resolved
tool name deps = record {
  name = name;
  version = "1";
  origin = "x/" <> name;
  remote_path = "All/" <> name <> "-1.pkg";
  local_file = "All/" <> name <> "-1.pkg";
  checksum = str digest_a;
  size = 5;
  dependencies = deps;
}

abbrev plan : ToolPlan
plan = record {
  schema_version = "freesense.worker-tools/v1";
  ports_sha = commit;
  osversion = 1600001;
  roots =
      "gtar" ∷ "git-tiny" ∷ "rclone" ∷ "jq" ∷ "poudriere-devel" ∷ "xmlstarlet" ∷ "qemu-user-static"
      ∷ "qemu-tools" ∷ "python311" ∷ [];
  commands =
      "gtar" ∷ "git" ∷ "rclone" ∷ "jq" ∷ "poudriere" ∷ "xml" ∷ "indexinfo" ∷ "qemu-aarch64-static"
      ∷ "qemu-img" ∷ "python3.11" ∷ [];
  native = some ("amd64", "FreeBSD:16:amd64");
  package_count = 9;
  packages =
      tool "gtar" []
      ∷ tool "git-tiny" []
      ∷ tool "jq" []
      ∷ tool "rclone" jq_needed
      ∷ tool "poudriere-devel" []
      ∷ tool "xmlstarlet" []
      ∷ tool "qemu-user-static" []
      ∷ tool "qemu-tools" []
      ∷ tool "python311" []
      ∷ [];
  install_order =
      "All/gtar-1.pkg" ∷ "All/git-tiny-1.pkg" ∷ "All/jq-1.pkg" ∷ "All/rclone-1.pkg"
      ∷ "All/poudriere-devel-1.pkg" ∷ "All/xmlstarlet-1.pkg" ∷ "All/qemu-user-static-1.pkg"
      ∷ "All/qemu-tools-1.pkg" ∷ "All/python311-1.pkg" ∷ [];
}

catalog_run : parse_catalog reader ("rclone" ∷ " " ∷ "jq" ∷ []) ≡ ok catalog
unfolding parse_catalog safe_name safe_version safe_origin safe_remote_path parse_checksum
    map_results sorted insert
catalog_run = refl

order_run : dependency_order catalog.packages [] ("rclone" ∷ []) ≡ ok (jq ∷ rclone ∷ [])
unfolding dependency_order insert
order_run = refl

cycle_run :
    dependency_order
      (("rclone", rclone)
        ∷ ("jq", parsed "jq" (record { name = "rclone"; version = "1"; origin = "x/rclone" } ∷ []))
        ∷ [])
      []
      ("rclone" ∷ [])
    ≡ err (raised "dependency cycle: ")
unfolding dependency_order insert
cycle_run = refl

resolve_run : resolve_worker_tools reader plan.roots (some "amd64") ≡ ok plan
unfolding resolve_worker_tools safe_name safe_version safe_origin safe_remote_path parse_checksum
    map_results sorted insert add push
resolve_run = refl

parse_catalog-Filed_example : Filed catalog
parse_catalog-Filed_example =
    parse_catalog-Filed reader ("rclone" ∷ " " ∷ "jq" ∷ []) catalog catalog_run

sample-IsKeyed : IsKeyed catalog.packages
sample-IsKeyed = (parse_catalog-Filed reader ("rclone" ∷ " " ∷ "jq" ∷ []) catalog catalog_run).keyed

dependency_order-Ordered_example : Ordered catalog.packages [] ("rclone" ∷ []) (jq ∷ rclone ∷ [])
dependency_order-Ordered_example =
    dependency_order-Ordered catalog.packages [] ("rclone" ∷ []) (jq ∷ rclone ∷ []) sample-IsKeyed
      order_run

abbrev both : List String
both = "rclone" ∷ "jq" ∷ []

rclone_wants :
    (p : Package) → some rclone ≡ some p → all (contains both) (wanted p.dependencies) ≡ true
rclone_wants p e =
    let same : rclone ≡ p = cc e in
    subst (λ (x : Package). all (contains both) (wanted x.dependencies) ≡ true) same refl

jq_wants : (p : Package) → some jq ≡ some p → all (contains both) (wanted p.dependencies) ≡ true
jq_wants p e =
    let same : jq ≡ p = cc e in
    subst (λ (x : Package). all (contains both) (wanted x.dependencies) ≡ true) same refl

both-IsClosed : IsClosed catalog.packages both
unfolding lookup
both-IsClosed n p held found = elim (Bool-cases ("rclone" == n)) [
  | inl here ↦
      rclone_wants p
        (subst (λ x. lookup x catalog.packages ≡ some p) (sym ((eq_iff "rclone" n).0 here)) found)
  | inr other ↦
      let is_jq : ("jq" == n) ≡ true = ground arith in
      jq_wants p
        (subst (λ x. lookup x catalog.packages ≡ some p) (sym ((eq_iff "jq" n).0 is_jq)) found)
]

dependency_order_least_example : all (contains both) (names_of (jq ∷ rclone ∷ [])) ≡ true
dependency_order_least_example =
    dependency_order_least catalog.packages [] ("rclone" ∷ []) both (jq ∷ rclone ∷ [])
      sample-IsKeyed both-IsClosed refl order_run

dependency_order-Ends_example : Ends (dependency_order catalog.packages [] ("rclone" ∷ []))
dependency_order-Ends_example = dependency_order-Ends catalog.packages [] ("rclone" ∷ [])

resolve_worker_tools-Installable_example : Installable reader plan.roots (some "amd64") plan
resolve_worker_tools-Installable_example =
    resolve_worker_tools-Installable reader plan.roots (some "amd64") plan resolve_run
