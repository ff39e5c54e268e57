-- ===== src/Tests/Released.antt =====
-- The sealed lock of one release, which ships both architectures.
use freesense_os_base.Base.{
  ◌≡◌, refl, String, ◌==◌, ◌||◌, not, true, some, List, [], ◌∷◌, ok, require, ◌>>◌,
}
use freesense_os_base.Base.Json.{
  Json, Elements, bool, str, arr, obj, int, pos, member, done, stop, get, items, is_null,
  text_where,
}
use freesense_os_base.Base.Sets.{contains}
use freesense_os_base.Base.Text.{size}
use freesense_os_base.Retention.Keys.{is_commit}
use freesense_os_base.Release.Lock.{validate, load, is_of_train}
use freesense_os_base.Release.Lock.Sealed.{Sealed, validate-Sealed, load_lem}
use freesense_os_base.Release.Use.{targets, sources, policy_for, Pin, check_pin}
use freesense_os_base.Release.Use.Agreed.{
  named_sources, commit_of, sources-eq-ok, policy_for_lem, check_pin_lem, agrees,
}
use freesense_os_base.Release.Withdrawn.{withdrawn}
use freesense_os_base.Release.Withdrawn.Listed.{Listed, withdrawn-Listed}
use freesense_os_base.Tests.Sample.{digest_a}
use freesense_os_base.Delta.Worklist.{member_keys}

abbrev commit : String
commit = "0123456789012345678901234567890123456789"

abbrev jail : String
jail = "inputs/sha256/0123456789012345678901234567890123456789012345678901234567890123"

abbrev pub lock : Json
lock = obj (
    member "schema_version" (str "freesense.release-lock/v1") (
      member "sealed" (bool true) (
        member "release" (str "1.0.2") (
          member "product_version" (str "1.0.2-RELEASE") (
            member "package_train" (str "1.0") (
              member "source_sha" (str commit) (
                member "system_ports_sha" (str commit) (
                  member "packages_sha" (str commit) (
                    member "freebsd_source_sha" (str commit) (
                      member "freebsd_ports_sha" (str commit) (
                        member "worker_image_sha256" (str digest_a) (
                          member "worker_tools_sha256" (str digest_a) (
                            member "jail_object" (str jail) (
                              member "freebsd_osversion" (int (pos 1600000)) (
                                member "arm64" (obj (member "jail_object" (str jail) done))
                                  done)))))))))))))))

abbrev policy : Json
policy = obj (
    member "package_train" (str "1.1") (
      member "state" (str "s") (
        member "release" (obj (member "stable_train" (str "1.0") (member "line" (str "x") done)))
          done)))

abbrev sealed_policy : Json
sealed_policy = obj (
    member "package_train" (str "1.1") (
      member "state" (str "s") (
        member "release" (obj (member "stable_train" (str "1.0") (member "line" (str "x") done))) (
          member "package_train" (str "1.0") (
            member "release"
              (obj (
                member "stable_train" (str "1.0")
                  (member "line" (str "x") (member "development_version" (str "1.0.2") done))))
              done)))))

abbrev pin : Pin
pin = record {
  document = obj (
      member "freebsd_source" (obj (member "commit" (str commit) done))
        (member "freebsd_ports" (obj (member "commit" (str commit) done)) done));
  osversion = pos 1600000;
  jail_object = jail;
  worker_image_sha256 = digest_a;
  worker_tools_sha256 = digest_a;
}

abbrev pulled : Json
pulled = obj (
    member "release" (str "1.0.1") (
      member "date" (str "2025-01-31")
        (member "reason" (str "broken") (member "superseded_by" (str "1.0.2") done))))

abbrev pub list : Json
list = obj (
    member "schema_version" (str "freesense.withdrawn-releases/v1")
      (member "withdrawn" (arr (Elements.item pulled stop)) done))

validate_run : validate lock "1.0.2" ≡ ok lock
unfolding validate get is_commit member_keys
validate_run = refl

load_run : load policy "1.0.2" lock ≡ ok lock
unfolding load get is_commit member_keys
load_run = refl

policy_run : policy_for policy lock ≡ ok sealed_policy
unfolding policy_for
policy_run = refl

withdrawn_run : withdrawn (some list) ≡ ok (("1.0.1", pulled) ∷ [])
unfolding withdrawn get items member_keys
withdrawn_run = refl

arm64_shipped : contains (targets lock) "arm64" ≡ true
unfolding targets
arm64_shipped = refl

arm64_sealed : ("arm64" == "amd64" || not (is_null (get "arm64" lock))) ≡ true
unfolding get
arm64_sealed = refl

pin_source : text_where is_commit (commit_of "freebsd_source" pin) ≡ true
unfolding get is_commit size
pin_source = refl

pin_ports : text_where is_commit (commit_of "freebsd_ports" pin) ≡ true
unfolding get is_commit size
pin_ports = refl

validate-Sealed_example : (lock ≡ lock) × Sealed lock "1.0.2"
validate-Sealed_example = validate-Sealed lock "1.0.2" lock validate_run

load_lem_example : load policy "1.0.2" lock ≡ (
    require
      (is_of_train (get "stable_train" (get "release" policy)) "1.0.2")
      "--release must be an exact "
    >> validate lock "1.0.2")
load_lem_example = load_lem policy "1.0.2" lock

sources-eq-ok_example :
    (sources lock ≡ ok (named_sources lock))
    × (text_where is_commit (get "source_sha" lock) ≡ true)
    × (text_where is_commit (get "system_ports_sha" lock) ≡ true)
    × (text_where is_commit (get "packages_sha" lock) ≡ true)
sources-eq-ok_example = sources-eq-ok lock "1.0.2" lock validate_run

policy_for_lem_example :
    (get "package_train" sealed_policy ≡ get "package_train" lock)
    × (get "development_version" (get "release" sealed_policy) ≡ get "release" lock)
    × (get "state" sealed_policy ≡ get "state" policy)
    × (get "line" (get "release" sealed_policy) ≡ get "line" (get "release" policy))
policy_for_lem_example =
    policy_for_lem policy lock sealed_policy "state" "line" policy_run refl refl

check_pin_lem_example :
    check_pin "arm64" lock pin
    ≡ require (agrees "arm64" lock pin) "release lock differs from the active FreeBSD pin: "
check_pin_lem_example =
    check_pin_lem lock "1.0.2" lock "arm64" pin validate_run arm64_shipped arm64_sealed pin_source
      pin_ports

withdrawn-Listed_example :
    (entries : List Json) × (items (get "withdrawn" list) ≡ ok entries)
    × Listed entries (("1.0.1", pulled) ∷ [])
withdrawn-Listed_example = withdrawn-Listed list (("1.0.1", pulled) ∷ []) withdrawn_run
