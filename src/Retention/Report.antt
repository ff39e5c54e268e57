-- ===== src/Retention/Report.antt =====
-- scripts/r2_retention.py: the retention report as the `confirm` and `delete` commands read it back,
-- and the digest of its candidates.
use freesense_os_base.Base.{
  ◌^◌, String, ◌==◌, Bool, ◌&&◌, ◌||◌, not, false, none, some, List, [], ◌∷◌, ◌++◌, map, leb, ltb,
  if◌then◌else◌, Result, ok, err, fail, raised, require, ◌>>=◌, ◌>>◌, starts_with,
}
use freesense_os_base.Base.Json.{
  Json, str, arr, obj, int, pos, member, done, from_list, get, items, texts, is_object, is_array,
  is_text, elements,
}
use freesense_os_base.Base.Sort.{leb_text, sorted}
use freesense_os_base.Base.Text.{is_empty}
use freesense_os_base.Retention.Keys.{is_sha256}
use freesense_os_base.Retention.Runtime.{Runtime, canonical_json}
use freesense_os_base.Retention.Batch.{group_digest}

abbrev pub report_schema : String
report_schema = "freesense.r2-retention-report/v1"

abbrev pub state_schema : String
state_schema = "freesense.r2-retention-state/v1"

-- `SHA256.fullmatch(str(value))`: the digits of a number with 64 of them match too.
unfoldable pub is_sha256_text : Json → Bool
is_sha256_text (str s) = is_sha256 s
is_sha256_text (int (pos n)) = leb (10 ^ 63) n && ltb n (10 ^ 64)
is_sha256_text _ = false

-- An object that the report names
pub record Identity : Type 0 where
  pub bucket : String
  pub key : String

abbrev leb_identity : Identity → Identity → Bool
leb_identity a b = not (leb_text b.bucket a.bucket) || a.bucket == b.bucket && leb_text a.key b.key

identity_json : Identity → Json
identity_json i = obj (member "bucket" (str i.bucket) (member "key" (str i.key) done))

-- The inner loop, over the keys of one candidate
unfoldable pub identify_keys : String → List Json → Result (List Identity)
identify_keys bucket [] = ok []
identify_keys bucket (str key ∷ keys) = do
  require (starts_with key "v1/") "retention report candidate has an invalid key"
  rest ← identify_keys bucket keys
  ok (record { bucket = bucket; key = key } ∷ rest)
identify_keys bucket (_ ∷ keys) = fail "retention report candidate has an invalid key"

bucket_of : Json → Result String
unfolding is_empty
bucket_of (str b) = if is_empty b then fail "retention report candidate has no bucket" else ok b
bucket_of _ = fail "retention report candidate has no bucket"

identify : Json → Result (List Identity)
unfolding get bucket_of items identify_keys
identify candidate = do
  require (is_object candidate && is_array (get "keys" candidate))
      "retention report has an invalid candidate"
  bucket ← bucket_of (get "bucket" candidate)
  keys ← items (get "keys" candidate)
  identify_keys bucket keys

-- The objects of all candidates, in the report's order
unfoldable pub identities : List Json → Result (List Identity)
unfolding identify
identities [] = ok []
identities (c ∷ cs) = do here ← identify c; rest ← identities cs; ok (here ++ rest)

-- The first check of `candidate_digest`; `report.get` on anything but a dictionary raises.
unfoldable pub checked_candidates : Json → Result (List Json)
unfolding get items
checked_candidates report = if not (is_object report) then err (raised "AttributeError") else do
  require
      (is_text report_schema (get "schema_version" report)
        && is_text "two-run-confirmation" (get "mode" report)
        && is_array (get "candidates" report))
      "invalid retention report"
  items (get "candidates" report)

module _ (rt : Runtime) where
  unfoldable pub candidate_digest : Json → Result String
  unfolding checked_candidates identities identity_json from_list sorted canonical_json
  candidate_digest report = do
    candidates ← checked_candidates report
    found ← identities candidates
    ok (
        rt.sha256
          (canonical_json rt (arr (from_list (map identity_json (sorted leb_identity found))))))

  -- `candidate_group_digest` of a candidate that was read back
  group_of_fields : Json → Json → Json → Result String
  unfolding texts group_digest items
  group_of_fields (str bucket) (str prefix) (arr keys) = elim (texts (elements keys)) [
    | none ↦ fail "retention report has an invalid candidate group"
    | some ks ↦ group_digest rt (record { bucket = bucket; prefix = prefix; keys = ks })
  ]
  group_of_fields _ _ _ = fail "retention report has an invalid candidate group"

  unfoldable pub read_group_digest : Json → Result String
  unfolding group_of_fields get
  read_group_digest candidate =
      group_of_fields (get "bucket" candidate) (get "prefix" candidate) (get "keys" candidate)
