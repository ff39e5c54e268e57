-- ===== src/Release/Gate.antt =====
-- scripts/stable_gate.py: the release-policy gate of both stages, and `maintenance_branch` of
-- scripts/stable_refresh.py.
use freesense_os_base.Base.{
  ℕ, zero, suc, ◌+◌, ◌*◌, String, ◌==◌, ◌<>◌, Bool, ◌&&◌, ◌||◌, not, true, false, Option, none,
  some, List, [], ◌∷◌, ◌++◌, leb, nat_eq, length, if◌then◌else◌, Result, ok, err, raised, fail,
  require, ◌>>=◌, ◌>>◌,
}
use Prim.Native.Char.{code}
use freesense_os_base.Base.Json.{
  ℤ, pos, negsuc, Json, Elements, str, null, get, subscript, is_text, is_null, as_int, as_text,
}
use freesense_os_base.Base.Sets.{Dict, contains}
use freesense_os_base.Delta.Worklist.{names}
use freesense_os_base.Retention.Runtime.{Stamp, replace_zulu}
use freesense_os_base.Release.Lock.{truthy, is_same, load}
use freesense_os_base.Release.Withdrawn.{withdrawn}
pub mod Allowed

-- What the gate takes from outside: `fetch_json`, where `none` is a page that does not exist, the JSON
-- document in a base64 text, and `datetime.fromisoformat`.
pub record World : Type 0 where
  pub fetch : String → Result (Option Json)
  pub decode : Json → Result Json
  pub fromisoformat : String → Option Stamp

-- `train.replace(".", "_")`
unfoldable pub underscored : String → String
underscored String.[] = String.[]
underscored (String.◌∷◌ c s) =
    let rest = underscored s in if nat_eq (code c) b'.' then "_" <> rest else String.◌∷◌ c rest

unfoldable pub maintenance_branch : String → String
unfolding underscored
maintenance_branch train = "RELENG_" <> underscored train

-- `SOURCES`
abbrev pub source_repositories : List (String × String)
source_repositories =
    ("source_sha", "freesense")
    ∷ ("system_ports_sha", "freesense-system-ports")
    ∷ ("packages_sha", "freesense-packages")
    ∷ []

-- `text[:n]`
unfoldable pub first_chars : ℕ → String → String
first_chars zero s = String.[]
first_chars (suc n) String.[] = String.[]
first_chars (suc n) (String.◌∷◌ c s) = String.◌∷◌ c (first_chars n s)

-- The zone is needed to subtract the time from `now`.
abbrev pub utc_of : Option Stamp → Result ℕ
utc_of none = err (raised "ValueError")
utc_of (some t) = if t.has_zone then ok t.utc else err (raised "TypeError")

-- `(now - published).total_seconds() / 3600 >= soak_hours`, in microseconds
unfoldable pub has_waited : ℤ → ℕ → ℕ → Bool
has_waited (pos hours) published now = leb (published + hours * 3600000000) now
has_waited (negsuc hours) published now = leb published (now + suc hours * 3600000000)

abbrev is_ahead : Option Json → Bool
is_ahead none = false
is_ahead (some compare) =
    is_text "ahead" (get "status" compare) || is_text "identical" (get "status" compare)

-- `int(policy["stable_soak_hours"])` of an integer
abbrev pub hours_of : Json → Result ℤ
hours_of value = elim (as_int value) [ none ↦ err (raised "ValueError") | some n ↦ ok n ]

abbrev pub withdrawn_errors : Dict Json → String → List String
withdrawn_errors gone release =
    if contains (names gone) release
    then (release <> " is withdrawn; ship the next patch number instead (R2)") ∷ []
    else []

module _ (w : World) where
  unfoldable pub on_branch : String → String → String → Result Bool
  on_branch repository sha branch = do
    compare ← w.fetch (
        "https://api.github.com/repos/FreeSense-org/" <> repository <> "/compare/" <> sha <> "..."
        <> branch)
    ok (is_ahead compare)

  -- The test on one source, and what it adds to the errors
  unfoldable pub check_source : Json → String → String → String → Result (List String)
  unfolding on_branch subscript first_chars
  check_source lock branch key repository = do
    commit ← subscript key lock
    sha ← as_text commit
    there ← on_branch repository sha branch
    ok (
        if there
        then []
        else (repository <> "@" <> first_chars 12 sha <> " is not on " <> branch <> " (R1)") ∷ [])

  unfoldable pub check_source_list : Json → String → List (String × String) → Result (List String)
  unfolding check_source
  check_source_list lock branch [] = ok []
  check_source_list lock branch ((key, repository) ∷ rest) = do
    errors ← check_source lock branch key repository
    more ← check_source_list lock branch rest
    ok (errors ++ more)

  unfoldable pub check_sources : Json → String → Result (List String)
  unfolding check_source_list maintenance_branch
  check_sources lock train = check_source_list lock (maintenance_branch train) source_repositories

  unfoldable pub live_stable : String → Result Json
  unfolding subscript
  live_stable public_base_url = do
    envelope ← w.fetch (public_base_url <> "/repos.amd64.manifest.json")
    elim envelope [
      | none ↦ ok null
      | some found ↦ do
        payload ← subscript "payload" found
        document ← w.decode payload
        ok (get "stable" (get "channels" document))
    ]

  -- `datetime.fromisoformat(live["system"]["published_at"].replace("Z", "+00:00"))`
  unfoldable pub published_at : Json → Result ℕ
  unfolding subscript replace_zulu
  published_at live = do
    system ← subscript "system" live
    value ← subscript "published_at" system
    text ← as_text value
    utc_of (w.fromisoformat (replace_zulu text))

  unfoldable pub check_wait : Json → ℤ → ℕ → Result (List String)
  unfolding published_at has_waited
  check_wait live soak_hours now = do
    published ← published_at live
    ok (if has_waited soak_hours published now then [] else "Stable " ∷ [])

  unfoldable pub check_soak : Json → Json → ℤ → ℕ → Result (List String)
  unfolding check_wait subscript truthy
  check_soak lock live soak_hours now = if is_null live then ok [] else do
    release ← subscript "release" lock
    (if is_same release (get "version" live) || truthy (get "soak_override" lock)
        then ok []
        else check_wait live soak_hours now)

  -- The completion marker of one component is there, or an error says so.
  unfoldable pub check_complete : String → String → Result (List String)
  check_complete label url = do
    marker ← w.fetch url
    ok (elim marker [
      | none ↦
          ("the " <> label <> " candidate " <> url
            <> " is not complete; run stage=candidate first (R3)")
          ∷ []
      | some found ↦ []
    ])

  abbrev pub system_url : String → String → String
  system_url base system = base <> "/artifacts/system/" <> system <> "/complete.json"

  abbrev pub packages_url : String → String → String → String
  packages_url base train packages =
      base <> "/artifacts/packages/" <> train <> "/" <> packages <> "/complete.json"

  unfoldable pub check_candidate : String → String → String → String → Result (List String)
  unfolding check_complete
  check_candidate public_base_url train system packages = do
    errors ← check_complete "System" (system_url public_base_url system)
    more ← check_complete "Optional Packages" (packages_url public_base_url train packages)
    ok (errors ++ more)

  -- The pairs of `zip(args.system, args.packages)`, which have one length
  unfoldable pub check_candidates :
      String → String → List String → List String → Result (List String)
  unfolding check_candidate
  check_candidates base train (system ∷ systems) (packages ∷ others) = do
    errors ← check_candidate base train system packages
    more ← check_candidates base train systems others
    ok (errors ++ more)
  check_candidates base train _ _ = ok []

  abbrev pub is_some_text : List String → Bool
  is_some_text [] = false
  is_some_text (s ∷ ss) = true

  -- What the seal stage checks on top
  unfoldable pub check_seal :
      Json → Json → String → List String → List String → ℕ → Result (List String)
  unfolding check_candidates check_soak live_stable subscript
  check_seal policy lock train systems packages now = do
    value ← subscript "public_base_url" policy
    base ← as_text value
    require (nat_eq (length systems) (length packages) && is_some_text systems)
        "the seal gate needs one --system and --packages per architecture"
    errors ← check_candidates base train systems packages
    live ← live_stable base
    soak ← subscript "stable_soak_hours" policy
    hours ← hours_of soak
    more ← check_soak lock live hours now
    ok (errors ++ more)

  -- `main`, up to the output: the errors that it collects
  unfoldable pub gate :
      Json
      → String
      → Bool
      → Json
      → Option Json
      → List String
      → List String
      → ℕ
      → Result (List String)
  unfolding load withdrawn check_sources check_seal subscript
  gate policy release is_seal document pulled systems packages now = do
    lock ← load policy release document
    value ← subscript "package_train" lock
    train ← as_text value
    gone ← withdrawn pulled
    sources ← check_sources lock train
    sealing ← (if is_seal then check_seal policy lock train systems packages now else ok [])
    ok (withdrawn_errors gone release ++ (sources ++ sealing))
