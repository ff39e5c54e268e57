-- ===== src/Retention/Plan/Inputs.antt =====
-- plan_retention of scripts/r2_retention.py, first part: the checked policy, the inventories, the
-- groups of artifact objects and their completion markers.
use freesense_os_base.Base.{
  ℕ, suc, ◌-◌, String, ◌==◌, ◌<>◌, ◌&&◌, Option, none, some, List, [], ◌∷◌, leb, any, if◌then◌else◌,
  Result, ok, err, fail, Error, raised, require, or_raise, ◌>>=◌, ◌>>◌,
}
use freesense_os_base.Base.Json.{Json, ℤ, pos, negsuc, str, null, get}
use freesense_os_base.Base.Sets.{Dict, lookup, insert, push}
use freesense_os_base.Retention.Keys.{Classified, classify_artifact_key, is_train}
use freesense_os_base.Retention.Runtime.{Stamp}
use freesense_os_base.Retention.Batch.{Stored}
use freesense_os_base.Retention.Marker.{Entry, marker_identity}

-- An inventory as `snapshot` writes it
pub record Inventory : Type 0 where
  pub schema_version : String
  pub kind : String
  pub bucket : String
  pub objects : List Stored
  pub documents : Dict Json
  pub document_hashes : Dict String

-- The arguments of `plan_retention` that are numbers, times or trains. Times are microseconds.
pub record Settings : Type 0 where
  pub now : Stamp
  pub keep_devel : ℤ
  pub keep_mirrors : ℤ
  pub smoke_keep : ℤ
  pub grace : ℤ
  pub completed_grace : ℤ
  pub stable_train : Option String
  pub development_train : Option String

-- The same, checked
pub record Policy : Type 0 where
  pub keep_devel : ℕ
  pub keep_mirrors : ℕ
  pub smoke_keep : ℕ
  pub orphan_cutoff : ℕ
  pub completed_cutoff : ℕ
  pub stable_train : Json
  pub development_train : Json

-- `if n < 1: fail(message)`
unfoldable pub at_least_one : ℤ → String → Result ℕ
at_least_one (pos (suc n)) message = ok (suc n)
at_least_one _ message = fail message

unfoldable pub not_negative : ℤ → Result ℕ
not_negative (pos n) = ok n
not_negative (negsuc n) = fail "retention grace periods cannot be negative"

-- `now - grace`, which raises before `datetime.min`
unfoldable pub cutoff : ℕ → ℕ → Result ℕ
cutoff now grace = if leb grace now then ok (now - grace) else err (raised "OverflowError")

train_or_channel : Option String → String → Json → Json
train_or_channel (some train) name channels = str train
train_or_channel none name channels = get "package_train" (get name channels)

check_train : Json → String → Result (Unit {0})
check_train null message = ok tt
check_train (str s) message = require (is_train s) message
check_train _ message = fail message

unfoldable pub checked_policy : Settings → Json → Result Policy
unfolding train_or_channel check_train
checked_policy s channels = do
  keep_devel ←
      at_least_one s.keep_devel "Development retention must keep at least one completed build"
  keep_mirrors ←
      at_least_one s.keep_mirrors "mirror retention must keep at least one mirror per architecture"
  require s.now.has_zone "retention planning time must have a timezone"
  grace ← not_negative s.grace
  completed_grace ← not_negative s.completed_grace
  smoke_keep ← at_least_one s.smoke_keep "retention must keep at least one smoke marker per bucket"
  let stable = train_or_channel s.stable_train "stable" channels
  let development = train_or_channel s.development_train "devel" channels
  check_train stable "retention has an invalid Stable train policy"
  check_train development "retention has an invalid Development train policy"
  orphan_cutoff ← cutoff s.now.utc grace
  completed_cutoff ← cutoff s.now.utc completed_grace
  ok record {
    keep_devel = keep_devel;
    keep_mirrors = keep_mirrors;
    smoke_keep = smoke_keep;
    orphan_cutoff = orphan_cutoff;
    completed_cutoff = completed_cutoff;
    stable_train = stable;
    development_train = development;
  }

abbrev pub inventory_schema : String
inventory_schema = "freesense.r2-inventory/v1"

unfoldable pub check_inventory : Inventory → String → Result (Unit {0})
check_inventory i kind =
    require (i.schema_version == inventory_schema && i.kind == kind) "invalid inventory"

-- The artifact groups, and what the key of each says
pub record Groups : Type 0 where
  pub objects : Dict (List Stored)
  pub identities : Dict Classified

unfoldable pub group_object : Groups → Stored → Groups
group_object g o = elim (classify_artifact_key o.key) [
  | none ↦ g
  | some c ↦ record {
    objects = push c.prefix o g.objects;
    identities = insert c.prefix c g.identities;
  }
]

unfoldable pub group_objects : Groups → List Stored → Groups
unfolding group_object
group_objects g [] = g
group_objects g (o ∷ os) = group_objects (group_object g o) os

abbrev pub no_groups : Groups
no_groups = record { objects = []; identities = [] }

-- The marker of one group, checked; `none` where the group has no `complete.json`
unfoldable pub read_marker : Inventory → Groups → String → List Stored → Result (Option Entry)
unfolding lookup
read_marker build g prefix objects =
    let marker_key = prefix <> "/complete.json" in
    let checked = (do
      document ←
          or_raise (lookup marker_key build.documents)
            (Error.exit "inventory omitted completion marker ")
      identity ← or_raise (lookup prefix g.identities) (raised "KeyError")
      entry ← marker_identity identity document
      ok (some entry)) in
    if any (λ o. o.key == marker_key) objects then checked else ok none

abbrev pub and_entry : String → Option Entry → Dict Entry → Dict Entry
and_entry prefix none rest = rest
and_entry prefix (some e) rest = (prefix, e) ∷ rest

-- The completed groups, in the order of the groups
unfoldable pub read_markers : Inventory → Groups → Dict (List Stored) → Result (Dict Entry)
unfolding read_marker
read_markers build g [] = ok []
read_markers build g ((prefix, objects) ∷ groups) = do
  found ← read_marker build g prefix objects
  rest ← read_markers build g groups
  ok (and_entry prefix found rest)
