-- ===== src/Delta/Classify.antt =====
-- scripts/delta_closure.py: why FreeSense builds a package itself (`eligibility`, `classify`), and
-- the drift of the mirror (`churn`).
use freesense_os_base.Base.{
  String, ◌==◌, starts_with, Bool, ◌&&◌, ◌||◌, not, true, false, Option, none, some, List, [], ◌∷◌,
  ◌++◌, if◌then◌else◌, Result, ok, err, raised, ◌>>=◌, ◌>>◌, all,
}
use freesense_os_base.Base.Json.{
  Json, bool, str, obj, done, get, find, as_text, is_text, text_where, subscript,
}
use freesense_os_base.Base.Sets.{Dict, contains, lookup}
use freesense_os_base.Base.Sort.{leb_text, sorted}
use freesense_os_base.Base.Text.{lower, ends_with}
use freesense_os_base.Delta.Safe.{options, split_on}
use freesense_os_base.Delta.Records.{check}

-- `FLAGS` of scripts/binary_seed.py
abbrev flags : List String
flags =
    "overlay" ∷ "custom_patches" ∷ "non_options_knobs" ∷ "kernel_sensitive" ∷ "base_package" ∷ []

abbrev source_only_flags : List String
source_only_flags = "overlay" ∷ "non_options_knobs" ∷ "kernel_sensitive" ∷ "base_package" ∷ []

abbrev is_bool : Json → Bool
is_bool (bool b) = true
is_bool _ = false

abbrev is_set : Json → Bool
is_set (bool b) = b
is_set _ = false

-- The first flag that is set, "" where none is
first_flag : Json → List String → String
first_flag r [] = ""
first_flag r (f ∷ fs) = let rest = first_flag r fs in if is_set (get f r) then f else rest

-- `origin.split("/")[1]`
abbrev second : List String → Result String
second (a ∷ b ∷ ps) = ok b
second _ = err (raised "IndexError")

unfoldable pub eligibility : Json → Result String
unfolding first_flag lower ends_with split_on
eligibility r = do
  check (all (λ f. is_bool (get f r)) flags) "missing explicit eligibility audit: "
  name_text ← as_text (get "name" r)
  origin_text ← as_text (get "origin" r)
  let name = lower name_text
  port ← second (split_on b'/' (lower origin_text))
  ok (
      if starts_with name "freesense"
        || starts_with name "freebsd-"
        || starts_with port "freesense"
        || ends_with "-kmod" name
        || name == "world"
        || name == "kernel"
      then "freesense-own"
      else first_flag r source_only_flags)

abbrev bool_eq : Bool → Bool → Bool
bool_eq true b = b
bool_eq false b = not b

abbrev has_option : Dict Bool → String × Bool → Bool
has_option d (k, v) = elim (lookup k d) [ none ↦ false | some w ↦ bool_eq v w ]

-- `==` on two dictionaries of OPTIONS
unfoldable pub same_options : Dict Bool → Dict Bool → Bool
unfolding lookup
same_options a b = all (has_option b) a && all (has_option a) b

-- `upstream.get("options", {})`
unfoldable pub upstream_options : Json → Json
unfolding find
upstream_options (obj ms) = elim (find "options" ms) [ none ↦ obj done | some v ↦ v ]
upstream_options _ = obj done

-- `upstream.get("version") == record["version"]`, where the latter is a text
abbrev pub same_version : Json → Json → Bool
same_version up r = elim (get "version" r) [ str v ↦ is_text v (get "version" up) | _ ↦ false ]

-- The comparison with the published package, "" where there is nothing to say
unfoldable pub divergence : Json → Json → Result String
unfolding same_options upstream_options
divergence up r = elim (same_version up r) [
  | false ↦ ok ""
  | true ↦ options (upstream_options up) >>= λ theirs. options (get "options" r) >>= λ ours.
      ok (if same_options theirs ours then "" else "options-divergence")
]

-- What the upstream catalogue says of a record that nothing else has claimed
unfoldable pub upstream_reason : Json → Option Json → Result String
unfolding divergence
upstream_reason r none = ok "absent-upstream"
upstream_reason r (some up) = divergence up r

-- What follows in the loop of `classify` where `eligibility` gave this reason
unfoldable pub reason_after : List String → Dict Json → String → Json → String → Result String
unfolding upstream_reason
reason_after overridden upstream name r reason =
    if not (reason == "")
    then ok reason
    else if text_where (contains overridden) (get "origin" r)
    then ok "options-override"
    else upstream_reason r (lookup name upstream)

-- The loop over the sorted records
unfoldable pub classify_all : List String → Dict Json → Dict Json → Result (Dict String)
unfolding reason_after
classify_all overridden upstream [] = ok []
classify_all overridden upstream ((name, r) ∷ records) = do
  own ← eligibility r
  reason ← reason_after overridden upstream name r own
  rest ← classify_all overridden upstream records
  ok (if reason == "" then rest else (name, reason) ∷ rest)

abbrev pub leb_name : {V : Type 0} → String × V → String × V → Bool
leb_name a b = leb_text a.0 b.0

-- `overridden` is the result of `overrides(make_conf)`.
unfoldable pub classify : Dict Json → List String → Dict Json → Result (Dict String)
unfolding classify_all
classify records overridden upstream = classify_all overridden upstream (sorted leb_name records)

pub record Churned : Type 0 where
  pub name : String
  pub ports : Json
  pub mirror : Json

unfoldable pub churn_one : Dict Json → List String → String → Json → Result (List Churned)
churn_one upstream build name r =
    if contains build name then ok [] else elim (lookup name upstream) [
      | none ↦ ok []
      | some up ↦
          if same_version up r
          then ok []
          else subscript "version" up >>= λ mirror.
              ok (record { name = name; ports = get "version" r; mirror = mirror } ∷ [])
    ]

unfoldable pub churn : Dict Json → Dict Json → List String → Result (List Churned)
unfolding churn_one
churn records upstream build = go (sorted leb_name records)
  where
    go : Dict Json → Result (List Churned)
    go [] = ok []
    go ((name, r) ∷ es) = do here ← churn_one upstream build name r; rest ← go es; ok (here ++ rest)
