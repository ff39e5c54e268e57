-- ===== src/Release/Lock.antt =====
-- scripts/release_lock.py: `validate` and `load`.
use freesense_os_base.Base.{
  ℕ, String, ◌<>◌, Bool, ◌&&◌, ◌||◌, not, true, false, Option, none, some, List, [], ◌∷◌, ltb, leb,
  length, if◌then◌else◌, Result, ok, err, raised, fail, require, ◌>>=◌, ◌>>◌,
}
use freesense_os_base.Base.Json.{
  pos, Json, Elements, Members, null, bool, int, str, arr, obj, get, find, elements, is_text,
  is_null, as_int, text_where,
}
use freesense_os_base.Base.Text.{span, is_digit, is_empty, size, strip_prefix, all_chars}
use freesense_os_base.Base.Sets.{contains}
use freesense_os_base.Delta.Records.{has_exactly}
use freesense_os_base.Retention.Keys.{is_sha256, is_commit}
pub mod Sealed

-- `[0-9]+` and then `.`: the digits and what follows
unfoldable pub take_number : String → Option (String × String)
unfolding span is_empty strip_prefix
take_number s =
    let (digits, rest) = span is_digit s in
    if is_empty digits
    then none
    else elim (strip_prefix "." rest) [ none ↦ none | some tail ↦ some (digits, tail) ]

-- `RELEASE.fullmatch(release)`: the train `f"{match.group(1)}.{match.group(2)}"` of the match
unfoldable pub train_of : String → Option String
unfolding take_number all_chars is_empty
train_of release = elim (take_number release) [
  | none ↦ none
  | some (major, rest) ↦ elim (take_number rest) [
    | none ↦ none
    | some (minor, patch) ↦
        if not (is_empty patch) && all_chars is_digit patch
        then some (major <> "." <> minor)
        else none
  ]
]

-- `bool(value)`
unfoldable pub truthy : Json → Bool
unfolding is_empty
truthy null = false
truthy (bool b) = b
truthy (int (pos ℕ.zero)) = false
truthy (int _) = true
truthy (str s) = not (is_empty s)
truthy (arr Elements.stop) = false
truthy (arr _) = true
truthy (obj Members.done) = false
truthy (obj _) = true

-- `value.get(key, default)` on a dictionary
unfoldable pub get_or : Json → String → Json → Json
unfolding find
get_or default k (obj ms) = elim (find k ms) [ none ↦ default | some v ↦ v ]
get_or default k _ = default

-- `expression.fullmatch(value)`, which a value that is no text makes raise
abbrev pub full_match : (String → Bool) → Json → Result Bool
full_match p (str s) = ok (p s)
full_match p _ = err (raised "TypeError")

-- `inputs/sha256/[0-9a-f]{64}`
unfoldable pub is_input : String → Bool
unfolding strip_prefix is_sha256
is_input s = elim (strip_prefix "inputs/sha256/" s) [
  | none ↦ false
  | some digest ↦ is_sha256 digest
]

-- `if not expression.fullmatch(lock.get(key, "")): raise SystemExit(…)`
unfoldable pub check_input : (String → Bool) → Json → String → Result (Unit {0})
unfolding get_or
check_input p lock key = do
  matches ← full_match p (get_or (str "") key lock)
  require matches "invalid release input "

unfoldable pub check_inputs : (String → Bool) → Json → List String → Result (Unit {0})
unfolding check_input
check_inputs p lock [] = ok tt
check_inputs p lock (key ∷ keys) = check_input p lock key >> check_inputs p lock keys

abbrev pub commit_keys : List String
commit_keys =
    "source_sha" ∷ "system_ports_sha" ∷ "packages_sha" ∷ "freebsd_source_sha" ∷ "freebsd_ports_sha"
    ∷ []

abbrev pub worker_keys : List String
worker_keys = "worker_image_sha256" ∷ "worker_tools_sha256" ∷ []

-- The `arm64` member, where it is not `None`
unfoldable pub check_arm64 : Json → Result (Unit {0})
unfolding get_or is_input
check_arm64 null = ok tt
check_arm64 value = do
  require (has_exactly ("jail_object" ∷ []) value) "invalid release input arm64"
  matches ← full_match is_input (get_or (str "") "jail_object" value)
  require matches "invalid release input arm64"

abbrev pub note_types : List String
note_types =
    "security" ∷ "fix" ∷ "feature" ∷ "ui" ∷ "package" ∷ "documentation" ∷ "build" ∷ "other" ∷ []

-- `note["type"] in NOTE_TYPES`: a value that cannot be hashed raises.
unfoldable pub is_note_type : Json → Result Bool
is_note_type (str s) = ok (contains note_types s)
is_note_type (arr es) = err (raised "TypeError")
is_note_type (obj ms) = err (raised "TypeError")
is_note_type _ = ok false

-- `isinstance(value, str) and 0 < len(value) <= limit`
unfoldable pub is_short_text : ℕ → Json → Bool
unfolding size
is_short_text limit = text_where (λ s. ltb 0 (size s) && leb (size s) limit)

abbrev notes_text : String
notes_text = "invalid release notes: up to 10 {type, title} entries"

unfoldable pub check_note : Json → Result (Unit {0})
unfolding is_note_type is_short_text
check_note note = do
  require (has_exactly ("type" ∷ "title" ∷ []) note) notes_text
  known ← is_note_type (get "type" note)
  require known notes_text
  require (is_short_text 180 (get "title" note)) notes_text

check_all_notes : List Json → Result (Unit {0})
unfolding check_note
check_all_notes [] = ok tt
check_all_notes (note ∷ notes) = check_note note >> check_all_notes notes

unfoldable pub check_notes : Json → Result (Unit {0})
unfolding check_all_notes elements
check_notes (arr notes) = do
  require (not (ltb 10 (length (elements notes)))) notes_text
  check_all_notes (elements notes)
check_notes _ = fail notes_text

-- The checks on the version and train of a lock
unfoldable pub check_named : Json → String → String → Result (Unit {0})
unfolding truthy
check_named lock release train = do
  require
      (is_text "freesense.release-lock/v1" (get "schema_version" lock)
        && truthy (get "sealed" lock))
      "release lock is not sealed"
  require
      (is_text release (get "release" lock)
        && is_text (release <> "-RELEASE") (get "product_version" lock))
      "release lock version does not match the requested release"
  require (is_text train (get "package_train" lock))
      "release lock package train does not match its version"

unfoldable pub check_identity : Json → String → Result (Unit {0})
unfolding train_of check_named
check_identity lock release = elim (train_of release) [
  | none ↦ fail "invalid release number "
  | some train ↦ check_named lock release train
]

abbrev pub is_int : Json → Bool
is_int value = elim (as_int value) [ none ↦ false | some n ↦ true ]

-- The checks on the inputs that a lock names
unfoldable pub check_sealed_inputs : Json → Result (Unit {0})
unfolding check_inputs is_input get_or
check_sealed_inputs lock = do
  check_inputs is_commit lock commit_keys
  check_inputs is_sha256 lock worker_keys
  jail ← full_match is_input (get_or (str "") "jail_object" lock)
  require jail "invalid release input jail_object"
  require (is_int (get "freebsd_osversion" lock)) "release lock has no exact OSVERSION"

abbrev pub is_allowed_override : Json → Bool
is_allowed_override value = is_null value || is_short_text 180 value

unfoldable pub validate : Json → String → Result Json
unfolding check_identity check_sealed_inputs check_arm64 check_notes is_short_text get_or
validate lock release = do
  check_identity lock release
  check_sealed_inputs lock
  check_arm64 (get "arm64" lock)
  check_notes (get_or (arr Elements.stop) "notes" lock)
  require (is_allowed_override (get "soak_override" lock))
      "invalid soak_override: a reason of up to 180 characters"
  ok lock

-- The release is one of the train: `match is not None and f"…" == stable_train`
unfoldable pub is_of_train : Json → String → Bool
unfolding train_of
is_of_train stable_train release = elim (train_of release) [
  | none ↦ false
  | some train ↦ is_text train stable_train
]

-- The two values are one text. A lock's train is a text where `validate` returns.
abbrev pub is_same : Json → Json → Bool
is_same (str s) value = is_text s value
is_same _ value = false

-- `load`, over the document that the file of the release holds
unfoldable pub load : Json → String → Json → Result Json
unfolding is_of_train validate
load policy release document = do
  require (is_of_train (get "stable_train" (get "release" policy)) release)
      "--release must be an exact "
  lock ← validate document release
  require (is_same (get "package_train" lock) (get "stable_train" (get "release" policy)))
      "release lock package train does not match Stable policy"
  ok lock
