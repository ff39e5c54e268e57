-- ===== src/Retention/Plan/Closure.antt =====
-- plan_retention of scripts/r2_retention.py: the repositories that protected artifacts refer to are
-- protected with them, over any number of steps.
pub mod Laws
use freesense_os_base.Base.{
  ℕ, zero, suc, ◌+◌, String, ◌==◌, ◌<>◌, Bool, ◌&&◌, ◌||◌, not, true, false, Option, none, some,
  List, [], ◌∷◌, ◌++◌, map, length, nat_eq, if◌then◌else◌, Result, ok, err, fail, Error, raised,
  require, ◌>>=◌, ◌>>◌,
}
use freesense_os_base.Base.Json.{Json, str, null, get, is_text}
use freesense_os_base.Base.Sets.{Dict, add, add_all, contains, lookup}
use freesense_os_base.Base.Text.{is_empty}
use freesense_os_base.Retention.Keys.{is_sha256, is_train}
use freesense_os_base.Retention.Marker.{Entry}
use freesense_os_base.Retention.Plan.Roots.{has_key}

-- `isinstance(value, str) and SHA256.fullmatch(value)`: the System repository that a value names
system_reference : Json → List String
system_reference (str s) = if is_sha256 s then ("v1/artifacts/system/" <> s) ∷ [] else []
system_reference _ = []

packages_reference : Json → Json → List String
packages_reference (str s) (str train) =
    if is_sha256 s && not (is_empty train)
    then ("v1/artifacts/packages/" <> train <> "/" <> s) ∷ []
    else []
packages_reference _ _ = []

abbrev is_image : Entry → Bool
is_image e = e.kind == "iso" || e.kind == "cloud" || e.kind == "appliance"

-- The prefixes that the marker of an artifact refers to
unfoldable pub references : Entry → List String
unfolding system_reference packages_reference
references e =
    let inputs = get "inputs" e.marker in
    if e.kind == "packages"
    then system_reference (get "built_against_system" inputs)
      ++ system_reference (get "system" inputs)
    else if is_image e
    then system_reference
        (if has_key "system" e.marker then get "system" e.marker else get "system" inputs)
      ++ packages_reference (get "packages" inputs) (get "package_train" inputs)
    else []

-- The references of a prefix, none where it has no marker
unfoldable pub references_of : Dict Entry → String → List String
references_of markers prefix = elim (lookup prefix markers) [ none ↦ [] | some e ↦ references e ]

-- The body of the `for prefix in list(protected_prefixes)` loop, over the copy of the set
unfoldable pub close_once : Dict Entry → List String → List String → List String
unfolding add_all references_of
close_once markers [] protected = protected
close_once markers (p ∷ ps) protected =
    close_once markers ps (add_all (references_of markers p) protected)

-- The `while changed` loop. A round changes the set exactly if it grows.
unfoldable pub close : ℕ → Dict Entry → List String → List String
unfolding close_once
close zero markers protected = protected
close (suc fuel) markers protected =
    let next = close_once markers protected protected in
    let rest = close fuel markers next in
    if nat_eq (length protected) (length next) then protected else rest

-- Every reference of every marker: a round adds nothing else.
unfoldable pub all_references : Dict Entry → List String
unfolding references
all_references [] = []
all_references ((_, e) ∷ es) = references e ++ all_references es

-- The fuel is one more than the references there are to add.
unfoldable pub closure : Dict Entry → List String → List String
closure markers protected = close (suc (length (all_references markers))) markers protected
