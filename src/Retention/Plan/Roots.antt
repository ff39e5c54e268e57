-- ===== src/Retention/Plan/Roots.antt =====
-- plan_retention of scripts/r2_retention.py, second part: the artifacts that are protected at once,
-- and the completed builds that compete for the places left.
use freesense_os_base.Base.{
  String, ◌==◌, ◌<>◌, Bool, not, nat_eq, ◌&&◌, ◌||◌, true, false, Option, none, some, List, [], ◌∷◌,
  ◌++◌, if◌then◌else◌, Result, ok, fail, require, ◌>>=◌, ◌>>◌,
}
use freesense_os_base.Base.Json.{
  Json, Members, member, done, int, pos, negsuc, arr, stop, item, str, bool, obj, null, get, as_int,
  is_object, is_text, is_null, find,
}
use freesense_os_base.Base.Sets.{Dict, add}
use freesense_os_base.Retention.Keys.{is_sha256, is_train}
use freesense_os_base.Retention.Marker.{Entry}
use freesense_os_base.Retention.Locks.{Locks, is_locked, frozen, component_prefix}
use freesense_os_base.Retention.Plan.Inputs.{Policy}

-- A train in an f-string: a text, or `None`
abbrev pub train_text : Json → String
train_text (str s) = s
train_text _ = "None"

abbrev pub has_key : String → Json → Bool
has_key k (obj ms) = elim (find k ms) [ none ↦ false | some v ↦ true ]
has_key k _ = false

-- `set(value) == {"amd64", "arm64"}` on a dictionary
abbrev only_arches : Members → Bool
only_arches done = true
only_arches (member k v ms) = (k == "amd64" || k == "arm64") && only_arches ms

unfoldable pub has_both_arches : Json → Bool
has_both_arches (obj ms) = only_arches ms && has_key "amd64" (obj ms) && has_key "arm64" (obj ms)
has_both_arches _ = false

-- `bool(cycle.get("superseded", False))`
abbrev is_superseded : Json → Bool
is_superseded null = false
is_superseded (bool b) = b
is_superseded (int (pos n)) = not (nat_eq n 0)
is_superseded (int (negsuc n)) = true
is_superseded (str s) = not (s == "")
is_superseded (arr stop) = false
is_superseded (arr (item v es)) = true
is_superseded (obj done) = false
is_superseded (obj (member k v ms)) = true

fingerprint_of : Json → String → Result String
fingerprint_of (str s) message = if is_sha256 s then ok s else fail message
fingerprint_of _ message = fail message

-- The System and the Packages repository that a cycle plans for one architecture
cycle_target : String → Json → String → Result (List String)
unfolding fingerprint_of
cycle_target development_train targets arch = do
  let plan = get arch targets
  system ←
      fingerprint_of (get "system" (get "system" plan))
        "active Development cycle has invalid identity"
  packages ←
      fingerprint_of (get "packages" (get "packages" plan))
        "active Development cycle has invalid identity"
  ok (
      ("v1/artifacts/system/" <> system)
      ∷ ("v1/artifacts/packages/" <> development_train <> "/" <> packages)
      ∷ [])

-- The roots of the active Development cycle
unfoldable pub cycle_roots : Policy → Json → Result (List String)
unfolding cycle_target
cycle_roots p cycle =
    let amd64 =
      cycle_target (train_text p.development_train) (get "targets" (get "plan" cycle)) "amd64" in
    let arm64 =
      cycle_target (train_text p.development_train) (get "targets" (get "plan" cycle)) "arm64" in
    let roots = (do first ← amd64; second ← arm64; ok (first ++ second)) in
    if is_null cycle then ok [] else do
      require
          (is_object cycle
            && is_text "freesense.development-cycle/v1" (get "schema_version" cycle)
            && (elim (as_int (get "generation" cycle)) [ none ↦ false | some n ↦ true ])
            && is_object (get "plan" cycle)
            && has_both_arches (get "architectures" cycle))
          "invalid active Development cycle retention root"
      if is_superseded (get "superseded" cycle) then ok [] else roots

-- The completed builds by what becomes of them
pub record Sorted : Type 0 where
  pub protected : List String
  pub rolling_system : List Entry
  pub rolling_packages : List Entry
  pub devel_system : List Entry
  pub devel_packages : List Entry
  pub mirrors : List Entry
  pub isos : List Entry
  pub clouds : List Entry
  pub appliances : List Entry
  pub warnings : List String

abbrev pub nothing_sorted : List String → Sorted
nothing_sorted roots = record {
  protected = roots;
  rolling_system = [];
  rolling_packages = [];
  devel_system = [];
  devel_packages = [];
  mirrors = [];
  isos = [];
  clouds = [];
  appliances = [];
  warnings = [];
}

-- `train == policy_train`, each a text or `None`
abbrev pub same_train : Json → Json → Bool
same_train (str s) t = is_text s t
same_train null t = is_null t
same_train _ t = false

abbrev pub train_json : Option String → Json
train_json none = null
train_json (some t) = str t

unfoldable pub protect : String → Sorted → Sorted
protect prefix s = record s { protected = add prefix s.protected }

-- A System repository
unfoldable pub sort_system : Policy → Locks → Sorted → Entry → Sorted
unfolding protect
sort_system p locks s e =
    let inputs = get "inputs" e.marker in
    let train = get "package_train" inputs in
    if same_train train p.stable_train
    then (if is_locked (get "source" inputs) (get "freebsd" inputs) locks.systems
        then protect e.prefix s
        else record s { rolling_system = s.rolling_system ++ e ∷ [] })
    else if same_train train p.development_train
    then record s { devel_system = s.devel_system ++ e ∷ [] }
    else if frozen p.stable_train train
    then protect e.prefix s
    else let kept = protect e.prefix s in
      record kept {
        warnings =
            kept.warnings
            ++ ("protected System artifact with unknown package train at " <> e.prefix) ∷ [];
      }

-- An Optional Packages repository
unfoldable pub sort_packages : Policy → Locks → Sorted → Entry → Sorted
unfolding protect
sort_packages p locks s e =
    let inputs = get "inputs" e.marker in
    let train = train_json e.train in
    if same_train train p.stable_train
    then (if is_locked (get "packages" inputs) (get "freebsd" inputs) locks.packages
        then protect e.prefix s
        else record s { rolling_packages = s.rolling_packages ++ e ∷ [] })
    else if same_train train p.development_train
    then record s { devel_packages = s.devel_packages ++ e ∷ [] }
    else if frozen p.stable_train train
    then protect e.prefix s
    else let kept = protect e.prefix s in
      record kept {
        warnings =
            kept.warnings
            ++ ("protected Packages artifact with unknown train at " <> e.prefix) ∷ [];
      }

-- An image or a mirror
unfoldable pub sort_image : Sorted → Entry → Sorted
unfolding protect
sort_image s e =
    if is_text "stable" (get "channel" (get "inputs" e.marker))
    then protect e.prefix s
    else if e.kind == "mirror"
    then record s { mirrors = s.mirrors ++ e ∷ [] }
    else if e.kind == "iso"
    then record s { isos = s.isos ++ e ∷ [] }
    else if e.kind == "cloud"
    then record s { clouds = s.clouds ++ e ∷ [] }
    else record s { appliances = s.appliances ++ e ∷ [] }

unfoldable pub sort_entry : Policy → Locks → Sorted → Entry → Sorted
unfolding sort_system sort_packages sort_image
sort_entry p locks s e =
    if e.kind == "system"
    then sort_system p locks s e
    else if e.kind == "packages"
    then sort_packages p locks s e
    else sort_image s e

unfoldable pub sort_entries : Policy → Locks → Sorted → Dict Entry → Sorted
unfolding sort_entry
sort_entries p locks s [] = s
sort_entries p locks s ((_, e) ∷ es) = sort_entries p locks (sort_entry p locks s e) es

-- The components that one signed channel names
unfoldable pub channel_roots : Json → Result (List String)
channel_roots channel = do
  require (is_object channel) "signed channel is invalid"
  train ← train_of (get "package_train" channel)
  system ← component_prefix (get "system" channel) "system" train
  packages ← component_prefix (get "packages" channel) "packages" train
  ok (to_list system ++ to_list packages)
  where
    train_of : Json → Result String
    train_of (str s) =
        if is_train s then ok s else fail "signed channel has an invalid package train"
    train_of _ = fail "signed channel has an invalid package train"

    to_list : Option String → List String
    to_list none = []
    to_list (some s) = s ∷ []

-- `for channel_name, channel in channels.items()`
unfoldable pub all_channel_roots : Members → Result (List String)
unfolding channel_roots
all_channel_roots done = ok []
all_channel_roots (member name channel ms) = do
  here ← channel_roots channel
  rest ← all_channel_roots ms
  ok (here ++ rest)
