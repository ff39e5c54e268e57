-- ===== src/Release/Use.antt =====
-- scripts/release_lock.py: what the planners read of a lock: `targets`, `sources`, `policy_for`, `check_pin`.
use freesense_os_base.Base.{
  String, ◌==◌, Bool, true, false, none, some, List, [], ◌∷◌, ◌++◌, if◌then◌else◌, Result, ok, err,
  raised, require, ◌>>=◌, ◌>>◌, nat_eq,
}
use freesense_os_base.Base.Json.{
  ℤ, pos, negsuc, Json, Members, obj, done, member, find, subscript, is_text, as_int,
}
use freesense_os_base.Base.Sets.{contains}
use freesense_os_base.Release.Lock.{is_same}
pub mod Agreed

-- `"arm64" in lock`
unfoldable pub has_key : String → Json → Bool
unfolding find
has_key k (obj ms) = elim (find k ms) [ none ↦ false | some v ↦ true ]
has_key k _ = false

unfoldable pub targets : Json → List String
unfolding has_key
targets lock = if has_key "arm64" lock then "amd64" ∷ "arm64" ∷ [] else "amd64" ∷ []

pub record Sources : Type 0 where
  pub source : Json
  pub system_ports : Json
  pub packages : Json

unfoldable pub sources : Json → Result Sources
unfolding subscript
sources lock = do
  source ← subscript "source_sha" lock
  system_ports ← subscript "system_ports_sha" lock
  packages ← subscript "packages_sha" lock
  ok (record { source = source; system_ports = system_ports; packages = packages })

-- `{**members, key: value}`: the last value of a key counts.
unfoldable pub update : String → Json → Members → Members
update k v done = member k v done
update k v (member j w ms) = member j w (update k v ms)

-- `**value`, which a value that is no dictionary makes raise
abbrev pub spread : Json → Result Members
spread (obj ms) = ok ms
spread _ = err (raised "TypeError")

unfoldable pub policy_for : Json → Json → Result Json
unfolding subscript update
policy_for policy lock = do
  members ← spread policy
  train ← subscript "package_train" lock
  old ← subscript "release" policy
  release_members ← spread old
  version ← subscript "release" lock
  ok (
      obj (
        update "release" (obj (update "development_version" version release_members))
          (update "package_train" train members)))

-- `a == b` on integers
unfoldable pub int_eq : ℤ → ℤ → Bool
int_eq (pos m) (pos n) = nat_eq m n
int_eq (negsuc m) (negsuc n) = nat_eq m n
int_eq _ _ = false

abbrev pub is_int_of : ℤ → Json → Bool
is_int_of n value = elim (as_int value) [ none ↦ false | some m ↦ int_eq m n ]

-- The active pin: its document, and the arguments that `check_pin` takes by name
pub record Pin : Type 0 where
  pub document : Json
  pub osversion : ℤ
  pub jail_object : String
  pub worker_image_sha256 : String
  pub worker_tools_sha256 : String

-- `lock["jail_object"] if target == "amd64" else lock["arm64"]["jail_object"]`
unfoldable pub sealed_jail : String → Json → Result Json
unfolding subscript
sealed_jail target lock =
    if target == "amd64"
    then subscript "jail_object" lock
    else (subscript "arm64" lock >>= λ arm64. subscript "jail_object" arm64)

-- `pin[repository]["commit"]`
unfoldable pub pin_commit : String → Pin → Result Json
unfolding subscript
pin_commit repository pin = do
  repository_pin ← subscript repository pin.document
  subscript "commit" repository_pin

abbrev pub differs : String → Bool → List String
differs name same = if same then [] else name ∷ []

-- The names of the inputs in which the lock differs from the pin
unfoldable pub differing : String → Json → Pin → Result (List String)
unfolding sealed_jail int_eq subscript pin_commit
differing target lock pin = do
  jail ← sealed_jail target lock
  source ← subscript "freebsd_source_sha" lock
  pin_source ← pin_commit "freebsd_source" pin
  ports ← subscript "freebsd_ports_sha" lock
  pin_ports ← pin_commit "freebsd_ports" pin
  osversion ← subscript "freebsd_osversion" lock
  image ← subscript "worker_image_sha256" lock
  tools ← subscript "worker_tools_sha256" lock
  ok (
      differs "FreeBSD source" (is_same source pin_source)
      ++ differs "FreeBSD ports" (is_same ports pin_ports)
      ++ differs "OSVERSION" (is_int_of pin.osversion osversion)
      ++ differs "jail seed" (is_text pin.jail_object jail)
      ++ differs "worker image" (is_text pin.worker_image_sha256 image)
      ++ differs "worker tools" (is_text pin.worker_tools_sha256 tools))

abbrev pub is_none_left : List String → Bool
is_none_left [] = true
is_none_left (n ∷ ns) = false

unfoldable pub check_pin : String → Json → Pin → Result (Unit {0})
unfolding targets differing
check_pin target lock pin = do
  require (contains (targets lock) target) "release lock does not ship "
  names ← differing target lock pin
  require (is_none_left names) "release lock differs from the active FreeBSD pin: "
