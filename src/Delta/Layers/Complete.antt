-- ===== src/Delta/Layers/Complete.antt =====
-- `requirement_records` of scripts/delta_closure.py: what holds of the records that it returns.
use freesense_os_base.Base.{
  ◌≡◌, refl, subst, String, ◌==◌, Bool, ◌&&◌, true, some, List, [], ◌∷◌, all, arith, eq_iff,
  Bool-cases, inl, inr, ok, >>=-eq-ok, ok-injective,
}
use freesense_os_base.Base.Json.{Json, str, arr, get, text_where}
use freesense_os_base.Base.Sets.{Dict, contains, lookup}
use freesense_os_base.Delta.Worklist.{deps_of, names}
use freesense_os_base.Delta.Worklist.Seen.{Known, IsComplete}
use freesense_os_base.Delta.Worklist.Parents.{depends}
use freesense_os_base.Delta.Records.{
  check, check-eq-ok, check_header, packages_of, add_records, is_filled, has_dependencies,
  are_records, elements_of, strings, root_names, requirement_records,
}

pub names-Known :
    (records : Dict Json) (n : String) → contains (names records) n ≡ true → Known records n
unfolding lookup
names-Known [] n h = cc h
names-Known ((m, r) ∷ records) n h = elim (Bool-cases (m == n)) [
  | inl here ↦ (r, rw here refl)
  | inr later ↦ let (q, found) = names-Known records n (ground arith) in (q, rw later found)
]

all-contains :
    (p : String → Bool) (ds : List String) (d : String)
    → all p ds ≡ true
    → contains ds d ≡ true
    → p d ≡ true
all-contains p [] d h m = cc m
all-contains p (e ∷ ds) d h m = elim (Bool-cases (e == d)) [
  | inl here ↦ subst (λ x. p x ≡ true) ((eq_iff e d).0 here) (ground arith)
  | inr later ↦ all-contains p ds d (ground arith) (ground arith)
]

all-lookup :
    (p : Json → Bool) (records : Dict Json) (n : String) (r : Json)
    → all (λ e. p e.1) records ≡ true
    → lookup n records ≡ some r
    → p r ≡ true
unfolding lookup
all-lookup p [] n r h found = cc found
all-lookup p ((m, q) ∷ records) n r h found = elim (Bool-cases (m == n)) [
  | inl here ↦
      let same : some q ≡ some r = rw here at found in
      let q_is_r : q ≡ r = cc same in subst (λ x. p x ≡ true) q_is_r (ground arith)
  | inr later ↦ all-lookup p records n r (ground arith) (rw later at found)
]

pub has_dependencies-IsComplete :
    (records : Dict Json) → has_dependencies records ≡ true → IsComplete records
has_dependencies-IsComplete records h n d r found dep = names-Known records d (
    all-contains (contains (names records)) (deps_of r) d
      (all-lookup (λ q. all (contains (names records)) (deps_of q)) records n r h found) dep)

has_dependencies-depends :
    (known : List String) (records : Dict Json) (n d : String)
    → all (λ e. all (contains known) (deps_of e.1)) records ≡ true
    → depends records n d ≡ true
    → contains known d ≡ true
unfolding depends
has_dependencies-depends known [] n d h edge = cc edge
has_dependencies-depends known ((m, r) ∷ records) n d h edge =
    elim (Bool-cases (contains (deps_of r) d)) [
      | inl here ↦ all-contains (contains known) (deps_of r) d (ground arith) here
      | inr later ↦ has_dependencies-depends known records n d (ground arith) (ground arith)
    ]

strings-contains :
    (p : String → Bool) (vs : List Json) (n : String)
    → all (text_where p) vs ≡ true
    → contains (strings vs) n ≡ true
    → p n ≡ true
strings-contains p [] n h m = cc m
strings-contains p (str s ∷ vs) n h m = elim (Bool-cases (s == n)) [
  | inl here ↦ subst (λ x. p x ≡ true) ((eq_iff s n).0 here) (ground arith)
  | inr later ↦ strings-contains p vs n (ground arith) (ground arith)
]
strings-contains p (Json.null ∷ vs) n h m = cc h
strings-contains p (Json.bool b ∷ vs) n h m = cc h
strings-contains p (Json.int i ∷ vs) n h m = cc h
strings-contains p (arr es ∷ vs) n h m = cc h
strings-contains p (Json.obj ms ∷ vs) n h m = cc h

-- What holds of the records of a document that passes
pub record Checked (requirements : Json) (records : Dict Json) : Type 0 where
  pub complete : IsComplete records
  pub edges : (n d : String) → depends records n d ≡ true → contains (names records) d ≡ true
  pub system : (k : String) → contains (root_names "system" requirements) k ≡ true → Known records k
  pub packages :
      (k : String) → contains (root_names "packages" requirements) k ≡ true → Known records k

pub requirement_records-Checked :
    (requirements : Json) (records : Dict Json)
    → requirement_records requirements ≡ ok records
    → Checked requirements records
unfolding requirement_records root_names
requirement_records-Checked requirements records h =
    let (_, _, h1) = >>=-eq-ok (check_header requirements) _ h in
    let (packages, _, h2) = >>=-eq-ok (packages_of requirements) _ h1 in
    let (rs, _, h3) = >>=-eq-ok (add_records (get "abi" requirements) [] packages) _ h2 in
    let (_, _, h4) = >>=-eq-ok (check (is_filled rs) _) _ h3 in
    let (_, closed, h5) = >>=-eq-ok (check (has_dependencies rs) _) _ h4 in
    let (_, roots, h6) =
      >>=-eq-ok
        (check
          (are_records rs (get "system" (get "roots" requirements))
            && are_records rs (get "packages" (get "roots" requirements)))
          "root missing from evaluated requirements")
        _ h5 in
    let all_roots = check-eq-ok _ _ roots in
    let known : (vs : Json)
        → are_records rs vs ≡ true
        → (k : String) → contains (strings (elements_of vs)) k ≡ true
        → Known rs k =
      λ vs are k m.
        names-Known rs k (strings-contains (contains (names rs)) (elements_of vs) k are m) in
    subst (Checked requirements) (ok-injective h6) (record {
      complete = has_dependencies-IsComplete rs (check-eq-ok _ _ closed);
      edges = λ n d. has_dependencies-depends (names rs) rs n d (check-eq-ok _ _ closed);
      system = known _ (ground (arith, all_roots));
      packages = known _ (ground (arith, all_roots));
    })
