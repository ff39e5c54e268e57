-- ===== src/Retention/Locks.antt =====
-- scripts/r2_retention.py: release trains, release locks and withdrawn releases, the components of a
-- channel, and the SHA-256 texts that a document holds.
use freesense_os_base.Base.{
  ℕ, ◌+◌, ◌*◌, ◌-◌, String, ◌==◌, ◌<>◌, Bool, ◌&&◌, ◌||◌, not, false, Option, none, some, List, [],
  ◌∷◌, ltb, nat_eq, any, if◌then◌else◌, Result, ok, fail, require, ◌>>=◌, ◌>>◌,
}
use Prim.Native.Char.{code}
use freesense_os_base.Base.Json.{
  Json, Elements, Members, stop, item, done, member, str, arr, obj, get, items, is_object, is_array,
  is_text,
}
use freesense_os_base.Base.Sets.{add_all, contains}
use freesense_os_base.Base.Text.{strip_prefix, span, is_digit}
use freesense_os_base.Retention.Keys.{is_sha256, is_commit, is_train}

-- `int(digits)`, after the digits so far
unfoldable pub decimal : ℕ → String → ℕ
decimal n String.[] = n
decimal n (String.◌∷◌ c s) = decimal (10 * n + (code c - b'0')) s

-- The numbers of a train, such as 1.10
unfoldable pub train_numbers : String → ℕ × ℕ
unfolding decimal
train_numbers s =
    let (major, rest) = span is_digit s in
    elim (strip_prefix "." rest) [
      | none ↦ (decimal 0 major, 0)
      | some minor ↦ (decimal 0 major, decimal 0 minor)
    ]

unfoldable pub train_key : Json → Option (ℕ × ℕ)
train_key (str s) = if is_train s then some (train_numbers s) else none
train_key _ = none

-- `a < b` on pairs
abbrev pub ltb_pair : ℕ × ℕ → ℕ × ℕ → Bool
ltb_pair (a, b) (c, d) = ltb a c || nat_eq a c && ltb b d

abbrev is_older : Option (ℕ × ℕ) → Option (ℕ × ℕ) → Bool
is_older (some t) (some current) = ltb_pair t current
is_older _ _ = false

-- `frozen(train)` in `plan_retention`: an earlier line than Stable
unfoldable pub frozen : Json → Json → Bool
frozen stable_train train = is_older (train_key train) (train_key stable_train)

-- The train of a release such as 1.1.0-g5: `".".join(release.split(".")[:2])`
unfoldable pub until_dot : String → String × Option String
until_dot String.[] = (String.[], none)
until_dot (String.◌∷◌ c s) =
    let (head, rest) = until_dot s in
    if nat_eq (code c) b'.' then (String.[], some s) else (String.◌∷◌ c head, rest)

unfoldable pub release_train : String → String
release_train release =
    let (first, rest) = until_dot release in
    elim rest [
      | none ↦ first
      | some tail ↦ let (second, more) = until_dot tail in first <> "." <> second
    ]

-- A release lock's commits
pub record Locks : Type 0 where
  pub systems : List (String × String)
  pub packages : List (String × String)

commit_of : Json → Result String
commit_of (str s) = if is_commit s then ok s else fail "release lock has an invalid commit"
commit_of _ = fail "release lock has an invalid commit"

unfoldable pub lock_identities : List Json → Result Locks
unfolding commit_of
lock_identities [] = ok (record { systems = []; packages = [] })
lock_identities (lock ∷ locks) = do
  freebsd ← commit_of (get "freebsd_source_sha" lock)
  source ← commit_of (get "source_sha" lock)
  packages ← commit_of (get "packages_sha" lock)
  rest ← lock_identities locks
  ok record {
    systems = (source, freebsd) ∷ rest.systems;
    packages = (packages, freebsd) ∷ rest.packages;
  }

-- `(a, b) in identities`, for two values of a marker
unfoldable pub is_locked : Json → Json → List (String × String) → Bool
is_locked a b ids = any (λ (s, t). is_text s a && is_text t b) ids

-- The prefix of a component of a signed channel
unfoldable pub component_prefix : Json → String → String → Result (Option String)
component_prefix component kind package_train =
    if not (is_object component)
    then ok none
    else let prefix_of = (λ (fingerprint : String).
      if kind == "system"
      then "v1/artifacts/system/" <> fingerprint
      else "v1/artifacts/packages/" <> package_train <> "/" <> fingerprint) in
      go (get "fingerprint" component) prefix_of
  where
    go : Json → (String → String) → Result (Option String)
    go (str s) prefix_of =
        if is_sha256 s
        then ok (some (prefix_of s))
        else fail "signed channel component has an invalid fingerprint"
    go _ prefix_of = fail "signed channel component has an invalid fingerprint"

-- The digits of a text that is a SHA-256 or `inputs/sha256/` before one
unfoldable pub sha256_of_text : String → List String
sha256_of_text s = if is_sha256 s then s ∷ [] else elim (strip_prefix "inputs/sha256/" s) [
  | none ↦ []
  | some rest ↦ if is_sha256 rest then rest ∷ [] else []
]

-- `collect_sha256`: the set `output` with every SHA-256 of the document
unfoldable mutual
  pub collect_sha256 : Json → List String → List String
  collect_sha256 (str s) output = add_all (sha256_of_text s) output
  collect_sha256 (arr es) output = collect_elements es output
  collect_sha256 (obj ms) output = collect_members ms output
  collect_sha256 _ output = output

  pub collect_elements : Elements → List String → List String
  collect_elements stop output = output
  collect_elements (item v es) output = collect_elements es (collect_sha256 v output)

  pub collect_members : Members → List String → List String
  collect_members done output = output
  collect_members (member k v ms) output = collect_members ms (collect_sha256 v output)

-- The entries of `releases/withdrawn.json`
unfoldable pub withdrawn_releases : Option Json → Result (List String)
withdrawn_releases none = ok []
withdrawn_releases (some document) = do
  require (is_array (get "withdrawn" document)) "withdrawn.json has an invalid release list"
  entries ← items (get "withdrawn" document)
  names entries
  where
    name_of : Json → Result String
    name_of (str s) = ok s
    name_of _ = fail "withdrawn.json has an invalid release list"

    names : List Json → Result (List String)
    names [] = ok []
    names (e ∷ es) = do name ← name_of (get "release" e); rest ← names es; ok (name ∷ rest)

-- A file of `config/releases`: its stem and its document
abbrev pub LockFile : Type 0
LockFile = String × Json

-- `release_locks`: every lock that is not withdrawn, over the files in the order of their names
unfoldable pub locks_of : List String → List LockFile → Result (List Json)
locks_of withdrawn [] = ok []
locks_of withdrawn ((stem, document) ∷ files) =
    let rest = locks_of withdrawn files in
    if stem == "withdrawn" || contains withdrawn stem then rest else do
      require (is_object document && is_text stem (get "release" document))
          "release lock does not name its own release"
      more ← rest
      ok (document ∷ more)

unfoldable pub release_locks : Option Json → List LockFile → Result (List Json)
release_locks withdrawn files = do names ← withdrawn_releases withdrawn; locks_of names files
