-- ===== src/Delta/Records.antt =====
-- scripts/delta_closure.py: the requirement records, and the published upstream packages
-- (`published`, and `catalogue_index` of scripts/mirror_plan.py).
use freesense_os_base.Base.{
  ◌≡◌, refl, String, Bool, ◌&&◌, not, true, false, Option, none, some, List, [], ◌∷◌, ◌++◌,
  if◌then◌else◌, Result, ok, err, raised, ◌>>=◌, ◌>>◌, all,
}
use freesense_os_base.Base.Json.{
  Json, Elements, str, arr, obj, get, find, items, elements, is_text, is_object, text_where,
}
use freesense_os_base.Base.Sets.{Dict, contains, add, insert, remove}
use freesense_os_base.Delta.Safe.{safe_name, safe_origin, safe_version, options}
use freesense_os_base.Delta.Worklist.{deps_of, keys_of, names}

-- A `ValueError`, by the text of its message before the first interpolated value
abbrev pub value_error {ℓ} : {A : Type ℓ} → String → Result A
value_error message = err (raised message)

abbrev pub check : Bool → String → Result (Unit {0})
check true message = ok tt
check false message = err (raised message)

pub check-eq-ok : (b : Bool) (message : String) {u : Unit {0}} → check b message ≡ ok u → b ≡ true
check-eq-ok true message h = refl
check-eq-ok false message h = cc h

-- `set(value) == {…}` on a dictionary
abbrev pub has_exactly : List String → Json → Bool
has_exactly wanted value =
    is_object value
    && all (contains wanted) (keys_of value)
    && all (contains (keys_of value)) wanted

-- `ARCHES.values()`
abbrev pub abis : List String
abis = "FreeBSD:16:amd64" ∷ "FreeBSD:16:aarch64" ∷ []

abbrev is_full_list : Json → Bool
is_full_list (arr (Elements.item v es)) = true
is_full_list _ = false

-- `value.get(key, [])`, iterated
abbrev items_or_none : Option Json → Result (List Json)
items_or_none none = ok []
items_or_none (some v) = items v

-- `requirements.get("packages", [])`
unfoldable pub packages_of : Json → Result (List Json)
unfolding find
packages_of (obj ms) = items_or_none (find "packages" ms)
packages_of _ = err (raised "AttributeError")

-- The body of the loop over the packages
unfoldable pub add_record : Json → Dict Json → Json → Result (Dict Json)
add_record abi records r = do
  name ← safe_name (get "name" r)
  origin ← safe_origin (get "origin" r)
  version ← safe_version (get "version" r)
  check (not (contains (names records) name) && text_where (λ a. is_text a abi) (get "abi" r))
      "duplicate or cross-architecture requirement"
  check (is_object (get "deps" r)) "requirements must record an explicit dependency map"
  known ← options (get "options" r)
  ok (records ++ (name, r) ∷ [])

unfoldable pub add_records : Json → Dict Json → List Json → Result (Dict Json)
add_records abi records [] = ok records
add_records abi records (r ∷ rs) = do next ← add_record abi records r; add_records abi next rs

abbrev pub is_filled : Dict Json → Bool
is_filled [] = false
is_filled (e ∷ es) = true

-- Every dependency is a record.
abbrev pub has_dependencies : Dict Json → Bool
has_dependencies records = all (λ e. all (contains (names records)) (deps_of e.1)) records

abbrev pub elements_of : Json → List Json
elements_of (arr es) = elements es
elements_of _ = []

abbrev pub strings : List Json → List String
strings [] = []
strings (str s ∷ vs) = s ∷ strings vs
strings (_ ∷ vs) = strings vs

-- `requirements["roots"][component]`
unfoldable pub root_names : String → Json → List String
root_names component requirements = strings (elements_of (get component (get "roots" requirements)))

-- `all(name in records for name in names)`
abbrev pub are_records : Dict Json → Json → Bool
are_records records names_json =
    all (text_where (contains (names records))) (elements_of names_json)

unfoldable pub check_header : Json → Result (Unit {0})
unfolding get
check_header requirements =
    let roots = get "roots" requirements in
    check
      (is_text "freesense.package-requirements/v1" (get "schema_version" requirements)
        && text_where (contains abis) (get "abi" requirements)
        && has_exactly ("system" ∷ "packages" ∷ []) roots
        && is_full_list (get "system" roots)
        && is_full_list (get "packages" roots))
      "requirements must cover System and Optional Packages for one known ABI"

unfoldable pub requirement_records : Json → Result (Dict Json)
unfolding check_header packages_of add_records
requirement_records requirements = do
  check_header requirements
  packages ← packages_of requirements
  records ← add_records (get "abi" requirements) [] packages
  check (is_filled records) "empty requirements"
  check (has_dependencies records) "requirements have an incomplete dependency closure"
  check
      (are_records records (get "system" (get "roots" requirements))
        && are_records records (get "packages" (get "roots" requirements)))
      "root missing from evaluated requirements"
  ok records

-- The locals `catalogue` (or `index`) and `ambiguous`
pub record Indexing : Type 0 where
  pub catalogue : Dict Json
  pub ambiguous : List String

abbrev pub nothing_indexed : Indexing
nothing_indexed = record { catalogue = []; ambiguous = [] }

-- The body of the loop, for a record of this name
unfoldable pub index_name : Indexing → String → Json → Indexing
index_name i name r = record {
  catalogue = insert name r i.catalogue;
  ambiguous = if contains (names i.catalogue) name then add name i.ambiguous else i.ambiguous;
}

-- `for name in ambiguous: del catalogue[name]`
unfoldable pub remove_all : List String → Dict Json → Dict Json
remove_all [] d = d
remove_all (n ∷ ns) d = remove_all ns (remove n d)

-- `published` keys a record without a text for its name by what it has; no name is looked up there.
unfoldable pub publish : Indexing → List Json → Indexing
unfolding index_name
publish i [] = i
publish i (r ∷ rs) = publish (elim (get "name" r) [ str name ↦ index_name i name r | _ ↦ i ]) rs

unfoldable pub published : List Json → Dict Json
unfolding publish remove_all
published rs = let i = publish nothing_indexed rs in remove_all i.ambiguous i.catalogue

-- `catalogue_index` refuses such a record.
unfoldable pub index_all : Indexing → List Json → Result Indexing
unfolding index_name
index_all i [] = ok i
index_all i (r ∷ rs) = elim (get "name" r) [
  | str name ↦ index_all (index_name i name r) rs
  | _ ↦ value_error "catalogue record has no name"
]

unfoldable pub catalogue_index : List Json → Result (Dict Json)
unfolding index_all remove_all
catalogue_index rs = do i ← index_all nothing_indexed rs; ok (remove_all i.ambiguous i.catalogue)
