-- ===== src/Retention/Plan/Downloads.antt =====
-- plan_retention of scripts/r2_retention.py: Development downloads and broker smoke markers.
use freesense_os_base.Base.{
  ℕ, suc, String, ◌==◌, ◌<>◌, Bool, ◌&&◌, ◌||◌, not, true, false, Option, none, some, List, [], ◌∷◌,
  ◌++◌, map, take, drop, leb, ltb, nat_eq, keep_if, if◌then◌else◌, Result, ok, fail, require, ◌>>=◌,
  ◌>>◌, map_results, starts_with,
}
use freesense_os_base.Base.Json.{Json, str, null, get, is_object, is_text}
use freesense_os_base.Base.Sets.{Dict, add, contains, lookup, push, insert}
use freesense_os_base.Base.Sort.{leb_text, sorted}
use freesense_os_base.Base.Text.{strip_prefix, span, take_class, is_digit, is_empty}
use freesense_os_base.Retention.Runtime.{Runtime, parse_time}
use freesense_os_base.Retention.Batch.{Stored, Candidate, candidate, newest_time}
use freesense_os_base.Retention.Locks.{decimal, release_train}
use freesense_os_base.Retention.Plan.Inputs.{Inventory, Policy}
use freesense_os_base.Retention.Plan.Roots.{has_key}

-- `[0-9]+\.[0-9]+\.[0-9]+` at the front of the text: the match and the rest
take_version : String → Option (String × String)
take_version s =
    let (a, r1) = span is_digit s in
    elim (strip_prefix "." r1) [
      | none ↦ none
      | some r2 ↦
          let (b, r3) = span is_digit r2 in
          elim (strip_prefix "." r3) [
            | none ↦ none
            | some r4 ↦
                let (c, r5) = span is_digit r4 in
                if is_empty a || is_empty b || is_empty c
                then none
                else some (a <> "." <> b <> "." <> c, r5)
          ]
    ]

-- `-g` or `-dev\.[0-9]{8}\.`
take_label : String → Option (String × String)
take_label s = elim (strip_prefix "-g" s) [
  | some rest ↦ some ("-g", rest)
  | none ↦ elim (strip_prefix "-dev." s) [
    | none ↦ none
    | some r1 ↦ elim (take_class is_digit 8 r1) [
      | none ↦ none
      | some (day, r2) ↦ elim (strip_prefix "." r2) [
        | none ↦ none
        | some r3 ↦ some ("-dev." <> day <> ".", r3)
      ]
    ]
  ]
]

pub record Release : Type 0 where
  pub release : String
  pub generation : ℕ
  pub rest : String

-- `[1-9][0-9]*` does not begin with 0.
unfoldable pub take_release : String → Option Release
unfolding take_version take_label
take_release s = elim (take_version s) [
  | none ↦ none
  | some (version, r1) ↦ elim (take_label r1) [
    | none ↦ none
    | some (label, r2) ↦
        let (digits, r3) = span is_digit r2 in
        if is_empty digits || starts_with digits "0"
        then none
        else some record {
          release = version <> label <> digits;
          generation = decimal 0 digits;
          rest = r3;
        }
  ]
]

-- `DEVEL_DOWNLOAD.match(key)`
unfoldable pub devel_download : String → Option Release
unfolding take_release
devel_download key = elim (strip_prefix "v1/releases/devel/" key) [
  | none ↦ none
  | some path ↦ elim (take_release path) [
    | none ↦ none
    | some r ↦ if starts_with r.rest "/" then some r else none
  ]
]

-- `re.fullmatch(r"[0-9]+\.[0-9]+\.[0-9]+(?:-g|-dev\.[0-9]{8}\.)[1-9][0-9]*", release_id)`
unfoldable pub is_release_id : String → Bool
unfolding take_release
is_release_id s = elim (take_release s) [ none ↦ false | some r ↦ is_empty r.rest ]

-- The downloads by release; a generation of another train than Development's is none (-1).
pub record DownloadSet : Type 0 where
  pub groups : Dict (List Stored)
  pub generations : Dict (Option ℕ)
  pub protected : List String
  pub warnings : List String

-- `release_train(release) == development_train`, or there is no such train
unfoldable pub is_current : Json → String → Bool
is_current (str t) release = release_train release == t
is_current _ release = true

unfoldable pub sort_download : Json → DownloadSet → Stored → DownloadSet
sort_download train d o =
    if starts_with o.key "v1/releases/stable/"
    then record d { protected = add "v1/releases/stable/" d.protected }
    else elim (devel_download o.key) [
      | some r ↦
          let prefix = "v1/releases/devel/" <> r.release <> "/" in
          record d {
            groups = push prefix o d.groups;
            generations =
                insert prefix (if is_current train r.release then some r.generation else none)
                  d.generations;
          }
      | none ↦
          if starts_with o.key "v1/releases/devel/"
          then record d {
            protected = add o.key d.protected;
            warnings =
                d.warnings ++ ("protected unrecognized Development download object " <> o.key) ∷ [];
          }
          else if starts_with o.key "v1/smoke/broker/"
          then d
          else if starts_with o.key "v1/"
          then record d { protected = add o.key d.protected }
          else d
    ]

unfoldable pub sort_downloads : Json → DownloadSet → List Stored → DownloadSet
unfolding sort_download
sort_downloads train d [] = d
sort_downloads train d (o ∷ os) = sort_downloads train (sort_download train d o) os

-- `-1` sorts before every generation.
abbrev rank : Option ℕ → ℕ
rank none = 0
rank (some n) = suc n

abbrev is_rated : String × Option ℕ → Bool
is_rated (_, none) = false
is_rated (_, some n) = true

newer_download : String × Option ℕ → String × Option ℕ → Bool
newer_download (a, m) (b, n) = ltb (rank n) (rank m) || nat_eq (rank m) (rank n) && leb_text b a

-- The prefixes of the newest `keep` downloads of the current train
unfoldable pub newest_downloads : ℕ → Dict (Option ℕ) → List String
unfolding newer_download sorted
newest_downloads keep generations =
    map (λ (prefix, _). prefix) (keep_if is_rated (take keep (sorted newer_download generations)))

-- The download that one published release document names
release_root : Json → Result (List String)
release_root null = ok []
release_root document = do
  require (is_object document && is_text "devel" (get "channel" document))
      "Development release document is invalid"
  id ← id_of (get "release_id" document)
  require (not (has_key "architecture" document) || is_arch (get "architecture" document))
      "Development release document has an invalid architecture"
  ok (("v1/releases/devel/" <> id <> "/") ∷ [])
  where
    id_of : Json → Result String
    id_of (str s) =
        if is_release_id s
        then ok s
        else fail "Development release document has an invalid release ID"
    id_of _ = fail "Development release document has an invalid release ID"

    is_arch : Json → Bool
    is_arch v = is_text "amd64" v || is_text "arm64" v

abbrev document_or_null : Option Json → Json
document_or_null none = null
document_or_null (some d) = d

unfoldable pub release_roots : Inventory → List String → Result (List String)
unfolding release_root
release_roots build [] = ok []
release_roots build (key ∷ keys) = do
  here ← release_root (document_or_null (lookup key build.documents))
  rest ← release_roots build keys
  ok (here ++ rest)

module _ (rt : Runtime) (p : Policy) where
  unfoldable pub download_candidate :
      String → List String → String → List Stored → Result (List Candidate)
  download_candidate bucket protected prefix objects =
      let aged = (do
        newest ← newest_time rt objects
        c ← candidate rt bucket prefix "expired Development download" objects
        ok (if leb newest p.completed_cutoff then c ∷ [] else [])) in
      if contains protected prefix then ok [] else aged

  unfoldable pub download_candidates :
      String → List String → Dict (List Stored) → Result (List Candidate)
  unfolding download_candidate
  download_candidates bucket protected [] = ok []
  download_candidates bucket protected ((prefix, objects) ∷ groups) = do
    here ← download_candidate bucket protected prefix objects
    rest ← download_candidates bucket protected groups
    ok (here ++ rest)

  unfoldable pub timed_object : Stored → Result (ℕ × Stored)
  timed_object o = do t ← parse_time rt o.last_modified; ok (t, o)

  unfoldable pub newer_object : ℕ × Stored → ℕ × Stored → Bool
  newer_object (t, a) (u, b) = ltb u t || nat_eq t u && leb_text b.key a.key

  unfoldable pub smoke_candidate : String → ℕ × Stored → Result (List Candidate)
  smoke_candidate bucket (t, o) = do
    c ← candidate rt bucket o.key "superseded broker smoke marker" (o ∷ [])
    ok (if leb t p.completed_cutoff then c ∷ [] else [])

  unfoldable pub all_smoke : String → List (ℕ × Stored) → Result (List Candidate)
  unfolding smoke_candidate
  all_smoke bucket [] = ok []
  all_smoke bucket (o ∷ os) = do
    here ← smoke_candidate bucket o
    rest ← all_smoke bucket os
    ok (here ++ rest)

  -- The smoke markers of one inventory: those that are kept, and the candidates
  unfoldable pub smoke_of : Inventory → Result (List String × List Candidate)
  unfolding timed_object newer_object all_smoke
  smoke_of i = do
    timed ← map_results timed_object (keep_if (λ o. starts_with o.key "v1/smoke/broker/") i.objects)
    let smoke = sorted newer_object timed
    superseded ← all_smoke i.bucket (drop p.smoke_keep smoke)
    ok (map (λ (_, o). i.bucket <> "/" <> o.key) (take p.smoke_keep smoke), superseded)
