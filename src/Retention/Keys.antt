-- ===== src/Retention/Keys.antt =====
-- scripts/r2_retention.py: the regular expressions and prefixes by which object keys are told apart.
use freesense_os_base.Base.{
  String, ◌<>◌, Bool, ◌&&◌, ◌||◌, false, not, Option, none, some, if◌then◌else◌, ◌≡◌, ◌∙◌, sym, ap,
  subst, Option-cases, inl, inr,
}
use text.Mathlib.TextLemmas.{append_assoc}
use freesense_os_base.Base.Begins.{Begins, Begins-self}
use freesense_os_base.Base.Text.{
  is_digit, is_hex, is_not_newline, strip_prefix, all_chars, is_empty, take_class, span,
  is_hex_of_size,
}

-- `SHA256.fullmatch(value)`
unfoldable pub is_sha256 : String → Bool
unfolding all_chars
is_sha256 s = is_hex_of_size 64 s

-- `PORTS_COMMIT.fullmatch(value)`
unfoldable pub is_commit : String → Bool
unfolding all_chars
is_commit s = is_hex_of_size 40 s

-- `.+` on the whole text
abbrev is_relative : String → Bool
is_relative s = not (is_empty s) && all_chars is_not_newline s

pub record Classified : Type 0 where
  pub kind : String
  pub prefix : String
  pub train : Option String
  pub fingerprint : String

-- `(?P<fingerprint>[0-9a-f]{64})/(?P<relative>.+)$`
unfoldable pub fingerprint_path : String → Option String
unfolding take_class strip_prefix is_empty all_chars
fingerprint_path s = elim (take_class is_hex 64 s) [
  | none ↦ none
  | some (fingerprint, rest) ↦ elim (strip_prefix "/" rest) [
    | none ↦ none
    | some relative ↦ if is_relative relative then some fingerprint else none
  ]
]

-- `(?P<train>[0-9]+\.[0-9]+)` at the front of the text: the match and the rest
unfoldable pub take_train : String → Option (String × String)
unfolding span is_empty strip_prefix
take_train s =
    let (major, after_major) = span is_digit s in
    elim (strip_prefix "." after_major) [
      | none ↦ none
      | some tail ↦
          let (minor, rest) = span is_digit tail in
          if is_empty major || is_empty minor then none else some (major <> "." <> minor, rest)
    ]

-- A key of `v1/artifacts/<kind>/<fingerprint>/<relative>`
classify_plain : String → String → Option Classified
unfolding strip_prefix fingerprint_path
classify_plain kind key = elim (strip_prefix ("v1/artifacts/" <> kind <> "/") key) [
  | none ↦ none
  | some path ↦ elim (fingerprint_path path) [
    | none ↦ none
    | some fingerprint ↦ some record {
      kind = kind;
      prefix = "v1/artifacts/" <> kind <> "/" <> fingerprint;
      train = none;
      fingerprint = fingerprint;
    }
  ]
]

-- A key of `v1/artifacts/packages/<train>/<fingerprint>/<relative>`
classify_packages : String → Option Classified
unfolding strip_prefix take_train fingerprint_path
classify_packages key = elim (strip_prefix "v1/artifacts/packages/" key) [
  | none ↦ none
  | some path ↦ elim (take_train path) [
    | none ↦ none
    | some (train, tail) ↦ elim (strip_prefix "/" tail) [
      | none ↦ none
      | some rest ↦ elim (fingerprint_path rest) [
        | none ↦ none
        | some fingerprint ↦ some record {
          kind = "packages";
          prefix = "v1/artifacts/packages/" <> train <> "/" <> fingerprint;
          train = some train;
          fingerprint = fingerprint;
        }
      ]
    ]
  ]
]

abbrev or_try : Option Classified → Option Classified → Option Classified
or_try (some c) other = some c
or_try none other = other

-- `classify_artifact_key`: the patterns in the order in which they are tried
unfoldable pub classify_artifact_key : String → Option Classified
unfolding classify_plain classify_packages
classify_artifact_key key = or_try (classify_plain "system" key) (
    or_try (classify_packages key) (
      or_try (classify_plain "iso" key) (
        or_try (classify_plain "cloud" key)
          (or_try (classify_plain "appliance" key) (classify_plain "mirror" key)))))

-- `re.fullmatch(r"[0-9]+\.[0-9]+", train)`
unfoldable pub is_train : String → Bool
unfolding take_train is_empty
is_train s = elim (take_train s) [ none ↦ false | some (m, rest) ↦ is_empty rest ]

-- What a classified key names lies under `v1/artifacts/`.
abbrev IsUnderArtifacts : Option Classified → Type 0
IsUnderArtifacts o = (c : Classified) → o ≡ some c → Begins "v1/artifacts/" c.prefix

abbrev option_prefix : Option Classified → String
option_prefix none = ""
option_prefix (some c) = c.prefix

under :
    (t : String) (c : Classified)
    → "v1/artifacts/" <> t ≡ c.prefix
    → Begins "v1/artifacts/" c.prefix
under t c same = subst (Begins "v1/artifacts/") same (t, Begins-self "v1/artifacts/" t)

classify_plain-Begins : (kind key : String) → IsUnderArtifacts (classify_plain kind key)
unfolding classify_plain
classify_plain-Begins kind key c h =
    elim (Option-cases (strip_prefix ("v1/artifacts/" <> kind <> "/") key)) [
      | inl other ↦ absurd (cc (rw (classify_plain, other) at h))
      | inr (path, is_path) ↦ elim (Option-cases (fingerprint_path path)) [
        | inl other ↦ absurd (cc (rw (classify_plain, is_path, other) at h))
        | inr (fp, is_fp) ↦
            under (kind <> "/" <> fp) c
              (ap option_prefix (rw (classify_plain, is_path, is_fp) at h))
      ]
    ]

classify_packages-Begins : (key : String) → IsUnderArtifacts (classify_packages key)
unfolding classify_packages
classify_packages-Begins key c h = elim (Option-cases (strip_prefix "v1/artifacts/packages/" key)) [
  | inl e ↦ absurd (cc (rw (classify_packages, e) at h))
  | inr (path, e1) ↦ elim (Option-cases (take_train path)) [
    | inl e ↦ absurd (cc (rw (classify_packages, e1, e) at h))
    | inr ((train, tail), e2) ↦ elim (Option-cases (strip_prefix "/" tail)) [
      | inl e ↦ absurd (cc (rw (classify_packages, e1, e2, e) at h))
      | inr (rest, e3) ↦ elim (Option-cases (fingerprint_path rest)) [
        | inl e ↦ absurd (cc (rw (classify_packages, e1, e2, e3, e) at h))
        | inr (fp, e4) ↦ under ("packages/" <> train <> "/" <> fp) c (
            sym (append_assoc "v1/artifacts/" "packages/" (train <> "/" <> fp))
            ∙ ap option_prefix (rw (classify_packages, e1, e2, e3, e4) at h))
      ]
    ]
  ]
]

or_try-Begins :
    (a b : Option Classified)
    → IsUnderArtifacts a
    → IsUnderArtifacts b
    → IsUnderArtifacts (or_try a b)
or_try-Begins none b f g = g
or_try-Begins (some c) b f g = f

pub classify_artifact_key-Begins : (key : String) → IsUnderArtifacts (classify_artifact_key key)
unfolding classify_artifact_key
classify_artifact_key-Begins key = or_try-Begins _ _ (classify_plain-Begins "system" key) (
    or_try-Begins _ _ (classify_packages-Begins key) (
      or_try-Begins _ _ (classify_plain-Begins "iso" key) (
        or_try-Begins _ _ (classify_plain-Begins "cloud" key) (
          or_try-Begins _ _ (classify_plain-Begins "appliance" key)
            (classify_plain-Begins "mirror" key)))))
