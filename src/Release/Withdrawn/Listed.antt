-- ===== src/Release/Withdrawn/Listed.antt =====
-- scripts/release_lock.py: the releases that `withdrawn` returns, against the document.
use freesense_os_base.Base.{
  ◌≡◌, refl, sym, subst, ap, ◌∙◌, String, Bool, ◌&&◌, true, false, some, List, [], ◌∷◌, ◌++◌, map,
  arith, eq_refl, Bool-cases, inl, inr, all, ok, require, require-eq-ok, >>=-eq-ok, ok-injective,
}
use freesense_os_base.Base.Json.{
  Json, null, bool, int, str, arr, obj, get, items, is_text, is_array, is_object,
}
use freesense_os_base.Base.Sets.{distinct, distinct-append, Dict, contains}
use freesense_os_base.Delta.Worklist.{names}
use freesense_os_base.Release.Withdrawn.{
  is_valid_entry, add_named, add_entry, add_entries, withdrawn,
}

abbrev pub values : Dict Json → List Json
values = map (λ e. e.1)

-- The entry is well formed and stands under its own release.
abbrev pub is_listed : String × Json → Bool
is_listed (release, entry) = is_text release (get "release" entry) && is_valid_entry entry

-- The entries in their order, each valid and under its own release, and no release twice
pub record Listed (entries : List Json) (found : Dict Json) : Type 0 where
  pub in_order : values found ≡ entries
  pub valid : all is_listed found ≡ true
  pub apart : distinct (names found) ≡ true

names-append :
    (d : Dict Json) (n : String) (v : Json) → names (d ++ (n, v) ∷ []) ≡ names d ++ n ∷ []
names-append [] n v = refl
names-append ((m, w) ∷ d) n v = ap (λ l. m ∷ l) (names-append d n v)

values-append :
    (d : Dict Json) (n : String) (v : Json) → values (d ++ (n, v) ∷ []) ≡ values d ++ v ∷ []
values-append [] n v = refl
values-append ((m, w) ∷ d) n v = ap (λ l. w ∷ l) (values-append d n v)

all-append_one :
    (d : Dict Json) (e : String × Json)
    → all is_listed (d ++ e ∷ []) ≡ (all is_listed d && is_listed e)
all-append_one [] e = ground arith
all-append_one (x ∷ d) e = ground (arith, all-append_one d e)

-- One round puts the entry last, under its release.
record Added (found : Dict Json) (entry : Json) (more : Dict Json) : Type 0 where
  release : String
  is_release : get "release" entry ≡ str release
  is_new : contains (names found) release ≡ false
  is_more : found ++ (release, entry) ∷ [] ≡ more
  is_valid : is_valid_entry entry ≡ true

add_named-str :
    (found : Dict Json) (entry v : Json) (more : Dict Json)
    → add_named found entry v ≡ ok more
    → (release : String) × (v ≡ str release)
      × (contains (names found) release ≡ false)
      × (found ++ (release, entry) ∷ [] ≡ more)
unfolding add_named
add_named-str found entry (str release) more h =
    elim (Bool-cases (contains (names found) release)) [
      | inl old ↦ cc (rw (old, add_named) at h)
      | inr new ↦ (release, refl, new, ok-injective (rw (new, add_named) at h))
    ]
add_named-str found entry null more h = cc h
add_named-str found entry (bool b) more h = cc h
add_named-str found entry (int n) more h = cc h
add_named-str found entry (arr es) more h = cc h
add_named-str found entry (obj ms) more h = cc h

add_entry-Added :
    (found : Dict Json) (entry : Json) (more : Dict Json)
    → add_entry found entry ≡ ok more
    → Added found entry more
unfolding add_entry
add_entry-Added found entry more h =
    let (_, valid, h1) = >>=-eq-ok (require (is_valid_entry entry) _) _ h in
    let (release, is_release, new, is_more) =
      add_named-str found entry (get "release" entry) more h1 in
    record {
      release = release;
      is_release = is_release;
      is_new = new;
      is_more = is_more;
      is_valid = require-eq-ok (is_valid_entry entry) _ valid;
    }

append_one :
    (es : List Json) (e : Json) (more : List Json) → (es ++ e ∷ []) ++ more ≡ es ++ e ∷ more
append_one [] e more = refl
append_one (x ∷ es) e more = ap (λ l. x ∷ l) (append_one es e more)

append_none : (es : List Json) → es ++ [] ≡ es
append_none [] = refl
append_none (e ∷ es) = ap (λ l. e ∷ l) (append_none es)

add_entries-Listed :
    (before entries : List Json) (found more : Dict Json)
    → add_entries found entries ≡ ok more
    → Listed before found
    → Listed (before ++ entries) more
unfolding add_entries
add_entries-Listed before [] found more h l =
    subst (Listed (before ++ [])) (ok-injective h)
      (subst (λ es. Listed es found) (sym (append_none before)) l)
add_entries-Listed before (entry ∷ entries) found more h l =
    let (next, first, rest) = >>=-eq-ok (add_entry found entry) (λ d. add_entries d entries) h in
    let a = add_entry-Added found entry next first in
    let at_end = found ++ (a.release, entry) ∷ [] in
    let own : is_text a.release (get "release" entry) ≡ true =
      subst (λ v. is_text a.release v ≡ true) (sym a.is_release) (eq_refl a.release) in
    let listed : is_listed (a.release, entry) ≡ true = ground (arith, own, a.is_valid) in
    let is_listed_next : Listed (before ++ entry ∷ []) at_end = record {
      in_order = values-append found a.release entry ∙ ap (λ es. es ++ entry ∷ []) l.in_order;
      valid = rw (all-append_one found (a.release, entry), l.valid) listed;
      apart =
          rw
            (
              names-append found a.release entry,
              distinct-append (names found) a.release,
              l.apart,
              a.is_new,
            )
            refl;
    } in
    subst (λ es. Listed es more) (append_one before entry entries)
      (add_entries-Listed (before ++ entry ∷ []) entries next more rest
        (subst (Listed (before ++ entry ∷ [])) a.is_more is_listed_next))

-- Where `withdrawn` accepts a document, its result has the entries of the document, all of them and in
-- their order, each one valid and under its own release number, and no release twice.
pub withdrawn-Listed :
    (document : Json) (found : Dict Json)
    → withdrawn (some document) ≡ ok found
    → (entries : List Json) × (items (get "withdrawn" document) ≡ ok entries) × Listed entries found
unfolding withdrawn distinct
withdrawn-Listed document found h = elim (Bool-cases (is_object document)) [
  | inr other ↦ cc (rw (other, withdrawn) at h)
  | inl object ↦
      let (_, _, h1) =
        >>=-eq-ok
          (require
            (is_text "freesense.withdrawn-releases/v1" (get "schema_version" document)
              && is_array (get "withdrawn" document))
            _)
          _ (rw (object, withdrawn) at h) in
      let (entries, is_entries, h2) = >>=-eq-ok (items (get "withdrawn" document)) _ h1 in
      (
        entries,
        is_entries,
        add_entries-Listed [] entries [] found h2
            (record { in_order = refl; valid = refl; apart = refl }),
      )
]
