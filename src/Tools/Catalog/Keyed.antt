-- ===== src/Tools/Catalog/Keyed.antt =====
-- scripts/resolve_worker_tools.py: how `_parse_catalog` files the packages.
use freesense_os_base.Base.{
  ℕ, ◌+◌, ◌≡◌, refl, sym, subst, ap, ◌∙◌, String, ◌==◌, ◌&&◌, ◌||◌, true, some, List, [], ◌∷◌, ◌++◌,
  ltb, length, keep_if, keep_if-append, length-append, arith, eq_iff, Bool-cases, Option-cases, inl,
  inr, if◌then◌else◌, ok, ◌>>=◌, >>=-eq-ok, ok-injective, ◌⊎◌,
}
use freesense_os_base.Base.Sets.{Dict, contains, contains-append, contains-add, lookup, add}
use freesense_os_base.Delta.Worklist.{names}
use freesense_os_base.Delta.Records.{check}
use freesense_os_base.Tools.Catalog.{
  Reader, Package, Catalog, empty_catalog, set_default, filed, add_package, add_lines, is_blank,
  load_line, parse_package, has_packages, parse_catalog,
}

-- How many packages have the name
abbrev pub occurs : String → List Package → ℕ
occurs n ps = length (keep_if (λ p. p.name == n) ps)

occurs-append :
    (n : String) (ps : List Package) (p : Package)
    → occurs n (ps ++ p ∷ []) ≡ occurs n ps + occurs n (p ∷ [])
occurs-append n ps p =
    ap length (keep_if-append (λ q. q.name == n) ps (p ∷ []))
    ∙ length-append (keep_if (λ q. q.name == n) ps) (keep_if (λ q. q.name == n) (p ∷ []))

-- Each package is filed under its own name; the names filed are those that occur; and the duplicate
-- names are those that occur twice or more.
pub record Filed (c : Catalog) : Type 0 where
  pub keyed : (n : String) (p : Package) → lookup n c.packages ≡ some p → p.name ≡ n
  pub present : (n : String) → contains (names c.packages) n ≡ ltb 0 (occurs n c.all_packages)
  pub repeated : (n : String) → contains c.duplicate_names n ≡ ltb 1 (occurs n c.all_packages)

lookup-append_one :
    (n m : String) (d : Dict Package) (p q : Package)
    → lookup n (d ++ (m, p) ∷ []) ≡ some q
    → (lookup n d ≡ some q) ⊎ ((m ≡ n) × (p ≡ q))
unfolding lookup
lookup-append_one n m [] p q h = elim (Bool-cases (m == n)) [
  | inl here ↦
      let same : some p ≡ some q = rw (here, lookup) at h in inr ((eq_iff m n).0 here, cc same)
  | inr other ↦ cc (rw (other, lookup) at h)
]
lookup-append_one n m ((j, r) ∷ d) p q h = elim (Bool-cases (j == n)) [
  | inl here ↦ inl (rw (here, lookup) (rw (here, lookup) at h))
  | inr other ↦
      let rest : lookup n (d ++ (m, p) ∷ []) ≡ some q = rw (other, lookup) at h in
      elim (lookup-append_one n m d p q rest) [
        | inl old ↦ inl (rw (other, lookup) old)
        | inr new ↦ inr new
      ]
]

names-append_one :
    (d : Dict Package) (m : String) (p : Package) → names (d ++ (m, p) ∷ []) ≡ names d ++ m ∷ []
names-append_one [] m p = refl
names-append_one ((j, r) ∷ d) m p = ap (λ l. j ∷ l) (names-append_one d m p)

set_default-keyed :
    (p : Package) (d : Dict Package)
    → ((n : String) (q : Package) → lookup n d ≡ some q → q.name ≡ n)
    → (n : String) (q : Package) → lookup n (set_default p d) ≡ some q
    → q.name ≡ n
unfolding set_default
set_default-keyed p d keyed n q h = elim (Bool-cases (contains (names d) p.name)) [
  | inl old ↦ keyed n q (rw (old, set_default) at h)
  | inr new ↦ elim (lookup-append_one n p.name d p q (rw (new, set_default) at h)) [
    | inl before ↦ keyed n q before
    | inr (same, is_p) ↦ ap (λ (x : Package). x.name) (sym is_p) ∙ same
  ]
]

set_default-names :
    (p : Package) (d : Dict Package) (n : String)
    → contains (names (set_default p d)) n ≡ (contains (names d) n || p.name == n)
unfolding set_default
set_default-names p d n = elim (Bool-cases (contains (names d) p.name)) [
  | inl old ↦ elim (Bool-cases (p.name == n)) [
    | inl here ↦
        let held = subst (λ m. contains (names d) m ≡ true) ((eq_iff p.name n).0 here) old in
        rw (old, here, held) refl
    | inr other ↦ rw (old, other) (ground arith)
  ]
  | inr new ↦ rw new (
      ap (λ l. contains l n) (names-append_one d p.name p)
      ∙ contains-append (names d) (p.name ∷ []) n
      ∙ ground arith)
]

-- One name more among the duplicates, where it is filed already
duplicates-add :
    (p : Package) (c : Catalog) (n : String)
    → contains
        (if contains (names c.packages) p.name
          then add p.name c.duplicate_names
          else c.duplicate_names)
        n
      ≡ (contains c.duplicate_names n || contains (names c.packages) n && p.name == n)
duplicates-add p c n = elim (Bool-cases (p.name == n)) [
  | inl here ↦
      let same : contains (names c.packages) p.name ≡ contains (names c.packages) n =
        ap (contains (names c.packages)) ((eq_iff p.name n).0 here) in
      ground (arith, contains-add p.name c.duplicate_names n, same)
  | inr other ↦ ground (arith, contains-add p.name c.duplicate_names n)
]

add_package-Filed :
    (c : Catalog) (p : Package) (more : Catalog) → add_package c p ≡ ok more → Filed c → Filed more
unfolding add_package filed
add_package-Filed c p more h f = elim (Option-cases (lookup p.remote_path c.remote_paths)) [
  | inr (previous, found) ↦ elim (Bool-cases (previous == p.name)) [
    | inl same ↦ absurd (cc (rw (found, same, add_package) at h))
    | inr other ↦ absurd (cc (rw (found, other, add_package) at h))
  ]
  | inl absent ↦
      let e : ok (filed c p) ≡ ok more = rw (absent, add_package) at h in
      subst Filed (ok-injective e) (record {
        keyed = set_default-keyed p c.packages f.keyed;
        present = λ n.
            set_default-names p c.packages n
            ∙ ground (arith, f.present n, occurs-append n c.all_packages p);
        repeated = λ n.
            duplicates-add p c n
            ∙ ground (arith, f.present n, f.repeated n, occurs-append n c.all_packages p);
      })
]

add_lines-Filed :
    (reader : Reader) (c : Catalog) (lines : List String) (more : Catalog)
    → add_lines reader c lines ≡ ok more
    → Filed c
    → Filed more
unfolding add_lines
add_lines-Filed reader c [] more h f = subst Filed (ok-injective h) f
add_lines-Filed reader c (line ∷ lines) more h f = elim (Bool-cases (is_blank line)) [
  | inl blank ↦ add_lines-Filed reader c lines more (rw (blank, add_lines) at h) f
  | inr filled ↦
      let h0 : (load_line reader line >>= λ entry.
      parse_package reader entry >>= λ p. add_package c p >>= λ next. add_lines reader next lines)
          ≡ ok more =
        rw (filled, add_lines) at h in
      let (entry, _, h1) = >>=-eq-ok (load_line reader line) _ h0 in
      let (p, _, h2) = >>=-eq-ok (parse_package reader entry) _ h1 in
      let (next, added, h3) = >>=-eq-ok (add_package c p) _ h2 in
      add_lines-Filed reader next lines more h3 (add_package-Filed c p next added f)
]

-- A catalogue that `_parse_catalog` accepts files each package under its own name, has each name that
-- occurs, and lists as duplicates exactly the names that occur more than once.
pub parse_catalog-Filed :
    (reader : Reader) (lines : List String) (c : Catalog)
    → parse_catalog reader lines ≡ ok c
    → Filed c
unfolding parse_catalog lookup
parse_catalog-Filed reader lines c h =
    let (d, added, h1) = >>=-eq-ok (add_lines reader empty_catalog lines) _ h in
    let (_, _, h2) = >>=-eq-ok (check (has_packages d.all_packages) _) _ h1 in
    subst Filed (ok-injective h2) (
      add_lines-Filed reader empty_catalog lines d added
        (record { keyed = λ n p e. absurd (cc e); present = λ n. refl; repeated = λ n. refl }))
