-- ===== src/Tools/Resolve/Installable.antt =====
-- scripts/resolve_worker_tools.py: the plan that `resolve_worker_tools` returns.
use freesense_os_base.Base.{
  ℕ, ◌≡◌, refl, sym, subst, ap, ◌∙◌, String, ◌==◌, not, true, false, Option, none, some, List, [],
  ◌∷◌, map, ltb, All, All-map_of, arith, eq_iff, eq_refl, Bool-cases, inl, inr, ok, >>=-eq-ok,
  ok-injective,
}
use freesense_os_base.Base.Json.{Json}
use freesense_os_base.Base.Sets.{Dict, contains, lookup, distinct}
use freesense_os_base.Delta.Worklist.{names}
use freesense_os_base.Delta.Records.{check, check-eq-ok}
use freesense_os_base.Tools.Catalog.{Reader, Package, Catalog, parse_catalog}
use freesense_os_base.Tools.Catalog.Keyed.{occurs, Filed, parse_catalog-Filed}
use freesense_os_base.Tools.Order.{dependency_order}
use freesense_os_base.Tools.Order.Walked.{IsCatalogued}
use freesense_os_base.Tools.Order.Ordered.{Ordered, dependency_order-Ordered}
use freesense_os_base.Tools.Resolve.{
  Profile, worker_profile, Resolved, resolved, resolve_all, ToolPlan, abis_for, are_native,
  select_ports_commit, same_osversion, resolve_worker_tools,
}

abbrev pub files : List Resolved → List String
files = map (λ r. r.local_file)

record Described (local_files : List String) (ps : List Package) (rs : List Resolved) : Type 0 where
  same : rs ≡ map resolved ps
  apart : distinct (files rs) ≡ true
  new : (f : String) → contains (files rs) f ≡ true → contains local_files f ≡ false

resolve_all-Described :
    (local_files : List String) (ps : List Package) (rs : List Resolved)
    → resolve_all local_files ps ≡ ok rs
    → Described local_files ps rs
unfolding resolve_all distinct
resolve_all-Described local_files [] rs h =
    subst (Described local_files []) (ok-injective h)
      (record { same = refl; apart = refl; new = λ f m. cc m })
resolve_all-Described local_files (p ∷ ps) rs h =
    let file = (resolved p).local_file in
    let (_, checked, h1) = >>=-eq-ok (check (not (contains local_files file)) _) _ h in
    let (rest, is_rest, h2) = >>=-eq-ok (resolve_all (file ∷ local_files) ps) _ h1 in
    let d = resolve_all-Described (file ∷ local_files) ps rest is_rest in
    let free : contains local_files file ≡ false =
      ground (arith, check-eq-ok (not (contains local_files file)) _ checked) in
    let alone : contains (files rest) file ≡ false =
      elim (Bool-cases (contains (files rest) file)) [
        | inl again ↦ let no_file = d.new file again in ground (arith, eq_refl file)
        | inr fine ↦ fine
      ] in
    subst (Described local_files (p ∷ ps)) (ok-injective h2) (record {
      same = ap (λ l. resolved p ∷ l) d.same;
      apart = rw (alone, d.apart) refl;
      new = λ f m. elim (Bool-cases (file == f)) [
        | inl here ↦ subst (λ g. contains local_files g ≡ false) ((eq_iff file f).0 here) free
        | inr other ↦
            let later : contains (files rest) f ≡ true = ground arith in
            ground (arith, d.new f later)
      ];
    })

lookup-contains :
    (n : String) (d : Dict Package) (p : Package)
    → lookup n d ≡ some p
    → contains (names d) n ≡ true
unfolding lookup
lookup-contains n [] p h = cc h
lookup-contains n ((m, q) ∷ d) p h = ground (arith, lookup-contains n d p)

-- A name that is filed and is no duplicate occurs once.
occurs_once :
    (c : Catalog)
    → Filed c
    → (n : String) (p : Package) → lookup n c.packages ≡ some p
    → contains c.duplicate_names n ≡ false
    → occurs n c.all_packages ≡ 1
occurs_once c f n p found clear =
    let one : ltb 0 (occurs n c.all_packages) ≡ true =
      sym (f.present n) ∙ lookup-contains n c.packages p found in
    let not_two : ltb 1 (occurs n c.all_packages) ≡ false = sym (f.repeated n) ∙ clear in
    just_one (occurs n c.all_packages) one not_two
  where
    just_one : (k : ℕ) → ltb 0 k ≡ true → ltb 1 k ≡ false → k ≡ 1
    just_one k a b = ground arith

-- What the plan promises to the worker that installs its packages
pub record Installable (reader : Reader) (lines : List String) (architecture : Option String)
    (plan : ToolPlan) : Type 0 where
  pub profile : Profile
  pub is_profile : worker_profile architecture ≡ ok profile
  pub catalog : Catalog
  pub is_catalog : parse_catalog reader lines ≡ ok catalog
  pub order : List Package
  pub described : plan.packages ≡ map resolved order
  pub installs : plan.install_order ≡ files plan.packages
  pub one_file : distinct plan.install_order ≡ true
  pub ordered : Ordered catalog.packages catalog.duplicate_names profile.roots order
  pub once : All (λ p. occurs p.name catalog.all_packages ≡ 1) order
  pub abis : Dict (List Json)
  pub is_abis : abis_for reader architecture lines ≡ ok abis
  pub native : are_native architecture abis order ≡ true

-- A plan that succeeds lists the packages of a dependency order of the catalogue: each after all that it
-- depends on, in the versions asked for, each the only package of its name, with the roots of the
-- worker's profile among them, each under a file name of its own, and, for a given architecture, each
-- native to it.
pub resolve_worker_tools-Installable :
    (reader : Reader) (lines : List String) (architecture : Option String) (plan : ToolPlan)
    → resolve_worker_tools reader lines architecture ≡ ok plan
    → Installable reader lines architecture plan
unfolding resolve_worker_tools
resolve_worker_tools-Installable reader lines architecture plan h =
    let (profile, is_profile, h1) = >>=-eq-ok (worker_profile architecture) _ h in
    let (abis, is_abis, h2) = >>=-eq-ok (abis_for reader architecture lines) _ h1 in
    let (catalog, is_catalog, h3) = >>=-eq-ok (parse_catalog reader lines) _ h2 in
    let (ports_sha, _, h4) = >>=-eq-ok (select_ports_commit catalog.all_packages) _ h3 in
    let (order, is_order, h5) =
      >>=-eq-ok (dependency_order catalog.packages catalog.duplicate_names profile.roots) _ h4 in
    let (_, native, h6) = >>=-eq-ok (check (are_native architecture abis order) _) _ h5 in
    let (osversion, _, h7) = >>=-eq-ok (same_osversion none order) _ h6 in
    let (packages, is_packages, h8) = >>=-eq-ok (resolve_all [] order) _ h7 in
    let f = parse_catalog-Filed reader lines catalog is_catalog in
    let o =
      dependency_order-Ordered catalog.packages catalog.duplicate_names profile.roots order f.keyed
        is_order in
    let d = resolve_all-Described [] order packages is_packages in
    let same : packages ≡ plan.packages = ap (λ (x : ToolPlan). x.packages) (ok-injective h8) in
    let install : files packages ≡ plan.install_order =
      ap (λ (x : ToolPlan). x.install_order) (ok-injective h8) in
    record {
      profile = profile;
      is_profile = is_profile;
      catalog = catalog;
      is_catalog = is_catalog;
      order = order;
      described = sym same ∙ d.same;
      installs = sym install ∙ ap files same;
      one_file = subst (λ l. distinct l ≡ true) install d.apart;
      ordered = o;
      once =
          All-map_of (IsCatalogued catalog.packages catalog.duplicate_names)
            (λ p. occurs p.name catalog.all_packages ≡ 1)
            (λ p c. occurs_once catalog f p.name p c.0 c.1) order o.catalogued;
      abis = abis;
      is_abis = is_abis;
      native = check-eq-ok (are_native architecture abis order) _ native;
    }
