-- ===== src/Retention/Plan/Images.antt =====
-- plan_retention of scripts/r2_retention.py: the roots of a multiarch completion, and the release
-- bundles of Development images.
use freesense_os_base.Base.{
  ℕ, String, ◌==◌, ◌<>◌, Bool, ◌&&◌, ◌||◌, not, true, false, Option, none, some, List, [], ◌∷◌,
  ◌++◌, map, take, ltb, nat_eq, if◌then◌else◌, Result, ok, err, raised, require, ◌>>=◌, ◌>>◌,
}
use freesense_os_base.Base.Json.{
  Json, Members, member, done, str, arr, null, get, elements, is_object,
}
use freesense_os_base.Base.Sets.{Dict, lookup}
use freesense_os_base.Base.Sort.{leb_text, sorted}
use freesense_os_base.Retention.Keys.{is_sha256}
use freesense_os_base.Retention.Marker.{Entry}
use freesense_os_base.Retention.Plan.Inputs.{Inventory}
use freesense_os_base.Retention.Plan.Roots.{has_key, train_text}

-- `{"installer": "iso", "cloud": "cloud", "appliance": "appliance"}.get(kind)`
stage_of : Json → Option String
stage_of (str k) =
    if k == "installer"
    then some "iso"
    else if k == "cloud"
    then some "cloud"
    else if k == "appliance"
    then some "appliance"
    else none
stage_of _ = none

abbrev prefix_of : Option String → Json → List String
prefix_of (some stage) (str fp) =
    if is_sha256 fp then ("v1/artifacts/" <> stage <> "/" <> fp) ∷ [] else []
prefix_of _ _ = []

-- The image that one artifact of a release document names
artifact_root : Json → List String
unfolding stage_of
artifact_root a = prefix_of (stage_of (get "kind" a)) (
    if has_key "artifact_fingerprint" a
    then get "artifact_fingerprint" a
    else get "build_fingerprint" a)

unfoldable pub artifact_roots : List Json → List String
unfolding artifact_root
artifact_roots [] = []
artifact_roots (a ∷ as_) = artifact_root a ++ artifact_roots as_

-- `doc_hash and expected_hash and doc_hash != expected_hash`, negated
hash_agrees : Option String → Json → Bool
hash_agrees (some h) (str expected) = h == "" || expected == "" || h == expected
hash_agrees _ _ = true

-- The release document of an architecture: the one that was handed over, or the inventory's
release_document : Inventory → Dict Json → String → Json → Result Json
unfolding hash_agrees
release_document build handed arch value =
    let key = "v1/releases/devel." <> arch <> ".json" in
    let checked : Json → Result Json = λ d. (do
      require (hash_agrees (lookup key build.document_hashes) (get "release_document_sha256" value))
          "release document differs from authoritative multiarch completion"
      ok d) in
    elim (lookup arch handed) [
      | some d ↦ if is_object d then checked d else ok null
      | none ↦ elim (lookup key build.documents) [ none ↦ ok null | some d ↦ checked d ]
    ]

abbrev value_text : Json → String
value_text (str s) = s
value_text _ = "None"

-- The roots of one architecture of the completion
unfoldable pub multiarch_arch_roots :
    Inventory → Dict Json → Json → String → Json → Result (List String)
unfolding release_document
multiarch_arch_roots build handed development_train arch value = do
  document ← release_document build handed arch value
  let components =
      ("v1/artifacts/system/" <> value_text (get "system_fingerprint" value))
      ∷ ("v1/artifacts/packages/"
          <> train_text development_train
          <> "/"
          <> value_text (get "packages_fingerprint" value))
      ∷ []
  images ← listed (get "artifacts" document)
  ok (components ++ images)
  where
    listed : Json → Result (List String)
    listed null = ok []
    listed (arr es) = ok (artifact_roots (elements es))
    listed _ = err (raised "TypeError")

-- `for arch, value in multiarch["architectures"].items()`
unfoldable pub multiarch_roots : Inventory → Dict Json → Json → Members → Result (List String)
unfolding multiarch_arch_roots
multiarch_roots build handed train done = ok []
multiarch_roots build handed train (member arch value ms) = do
  here ← multiarch_arch_roots build handed train arch value
  rest ← multiarch_roots build handed train ms
  ok (here ++ rest)

-- A release bundle: images that are kept or dropped together
pub record Bundle : Type 0 where
  pub generation : ℕ
  pub entries : List Entry

-- The bundle's name, or the image's own where it is from before bundles
unfoldable pub bundle_of : Entry → String
bundle_of e = go (get "bundle_fingerprint" e.marker)
  where
    go : Json → String
    go (str s) = if is_sha256 s then s else "legacy:" <> e.prefix
    go _ = "legacy:" <> e.prefix

abbrev larger : ℕ → ℕ → ℕ
larger a b = if ltb a b then b else a

unfoldable pub add_bundle : String → Entry → Dict Bundle → Dict Bundle
add_bundle name e [] = (name, record { generation = e.generation; entries = e ∷ [] }) ∷ []
add_bundle name e ((other, b) ∷ bs) =
    if other == name
    then (
      other,
      record { generation = larger b.generation e.generation; entries = b.entries ++ e ∷ [] },
    )
      ∷ bs
    else (other, b) ∷ add_bundle name e bs

unfoldable pub bundle_all : List Entry → Dict Bundle → Dict Bundle
unfolding add_bundle bundle_of
bundle_all [] bs = bs
bundle_all (e ∷ es) bs = bundle_all es (add_bundle (bundle_of e) e bs)

-- `xs <= ys` on lists of texts
abbrev pub leb_texts : List String → List String → Bool
leb_texts [] ys = true
leb_texts (x ∷ xs) [] = false
leb_texts (x ∷ xs) (y ∷ ys) = not (leb_text y x) || x == y && leb_texts xs ys

bundle_prefixes : Bundle → List String
bundle_prefixes b = map (λ e. e.prefix) b.entries

-- The key `(generation, sorted prefixes)`, in reverse
newer_bundle : Bundle → Bundle → Bool
unfolding bundle_prefixes
newer_bundle a b =
    ltb b.generation a.generation
    || nat_eq a.generation b.generation
      && leb_texts (sorted leb_text (bundle_prefixes b)) (sorted leb_text (bundle_prefixes a))

abbrev all_prefixes : List Bundle → List String
all_prefixes [] = []
all_prefixes (b ∷ bs) = map (λ e. e.prefix) b.entries ++ all_prefixes bs

-- The prefixes of the newest `keep` bundles
unfoldable pub newest_bundles : ℕ → List Entry → List String
unfolding bundle_all newer_bundle sorted
newest_bundles keep images =
    all_prefixes (take keep (sorted newer_bundle (map (λ (_, b). b) (bundle_all images []))))
