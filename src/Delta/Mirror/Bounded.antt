-- ===== src/Delta/Mirror/Bounded.antt =====
-- `plan` of scripts/mirror_plan.py: its result against the delta, the bounds and the requirements.
use freesense_os_base.Base.{
  ℕ, ◌≤◌, ◌≡◌, refl, sym, subst, ap, ◌∙◌, String, ◌==◌, Bool, ◌&&◌, not, true, false, Option, none,
  some, List, [], ◌∷◌, any, arith, eq_iff, ok, err, raised, >>=-eq-ok, ok-injective, map_results,
  length, Bool-cases, inl, inr,
}
use freesense_os_base.Base.Json.{Json, str, get, is_text, as_text}
use freesense_os_base.Base.Sort.{leb_text, sorted}
use freesense_os_base.Base.Sets.{Dict, contains, lookup, add_all, contains-sorted, contains-add_all}
use freesense_os_base.Delta.Safe.{
  safe_name, safe_version, safe_origin, safe_remote_path, parse_checksum,
}
use freesense_os_base.Delta.Worklist.{names}
use freesense_os_base.Delta.Worklist.Parents.{depends}
use freesense_os_base.Delta.Records.{check, check-eq-ok, catalogue_index, requirement_records}
use freesense_os_base.Delta.Layers.{Delta, Built}
use freesense_os_base.Delta.Layers
use freesense_os_base.Delta.Layers.Apart.{plan-AreApart, built_names}
use freesense_os_base.Delta.Mirror.{
  Bounds, Mirrored, MirrorPlan, entry, usable_size, abi_of, names_of_packages, delta_names,
  bounds_at, check_bounds, check_layers, mirror_one, plan,
}
use freesense_os_base.Delta.Mirror.Roots.{component_roots}

bounds_at-eq-ok :
    (ceilings : Dict Bounds) (a : String) {b : Bounds}
    → bounds_at ceilings a ≡ ok b
    → lookup a ceilings ≡ some b
unfolding bounds_at
bounds_at-eq-ok ceilings a h = ground arith

-- The size of the result is within the bounds.
abbrev pub IsWithin : Bounds → ℕ → ℕ → ℕ → Type 0
IsWithin bound delta mirror churn =
    (delta ≤ bound.max_delta) × (bound.min_mirror ≤ mirror) × (churn ≤ bound.max_churn)

check_bounds-IsWithin :
    (bound : Bounds) (delta mirror churn : ℕ) {u : Unit {0}}
    → check_bounds bound delta mirror churn ≡ ok u
    → IsWithin bound delta mirror churn
unfolding check_bounds
check_bounds-IsWithin bound delta mirror churn h = ground arith

any-none :
    (p : String → Bool) (xs : List String) (x : String)
    → any p xs ≡ false
    → contains xs x ≡ true
    → p x ≡ false
any-none p [] x h m = cc m
any-none p (y ∷ ys) x h m = elim (Bool-cases (y == x)) [
  | inl here ↦ subst (λ z. p z ≡ false) ((eq_iff y x).0 here) (ground arith)
  | inr later ↦ any-none p ys x (ground arith) (ground arith)
]

check_layers_apart :
    (delta : Delta) (suffix : String) (upstream : Dict Json) {u : Unit {0}}
    → check_layers delta suffix upstream ≡ ok u
    → (n : String) → contains delta.take n ≡ true
    → contains (delta_names delta) n ≡ false
unfolding check_layers
check_layers_apart delta suffix upstream h n m =
    let (_, apart, _) =
      >>=-eq-ok (check (not (any (contains (delta_names delta)) delta.take)) _) _ h in
    let none_both = check-eq-ok _ _ apart in
    any-none (contains (delta_names delta)) delta.take n (ground arith) m

safe_name-eq-ok : (n : String) {s : String} → safe_name (str n) ≡ ok s → n ≡ s
unfolding safe_name
safe_name-eq-ok n h = ground arith

mirror_one-name :
    (upstream : Dict Json) (abi sha n : String) (m : Mirrored)
    → mirror_one upstream abi sha n ≡ ok m
    → m.name ≡ n
unfolding mirror_one entry
mirror_one-name upstream abi sha n m h = go (lookup n upstream) h
  where
    go :
        (o : Option Json)
        → (elim o [ none ↦ err (raised "KeyError") | some up ↦ entry n up abi sha ]) ≡ ok m
        → m.name ≡ n
    go none e = cc e
    go (some up) e =
        let (_, _, h1) = >>=-eq-ok (parse_checksum (get "sum" up)) _ e in
        let (size, _, h2) = >>=-eq-ok (usable_size (get "pkgsize" up)) _ h1 in
        let (safe, is_safe, h3) = >>=-eq-ok (safe_name (str n)) _ h2 in
        let (version, _, h4) = >>=-eq-ok (safe_version (get "version" up)) _ h3 in
        let (origin, _, h5) = >>=-eq-ok (safe_origin (get "origin" up)) _ h4 in
        let (path, _, h6) = >>=-eq-ok (safe_remote_path (get "repopath" up)) _ h5 in
        sym (ap (λ (x : Mirrored). x.name) (ok-injective h6)) ∙ sym (safe_name-eq-ok n is_safe)

mirror_names :
    (upstream : Dict Json) (abi sha : String) (ns : List String) (ms : List Mirrored)
    → map_results (mirror_one upstream abi sha) ns ≡ ok ms
    → names_of_packages ms ≡ ns
unfolding map_results
mirror_names upstream abi sha [] ms h = subst (λ x. names_of_packages x ≡ []) (ok-injective h) refl
mirror_names upstream abi sha (n ∷ ns) ms h =
    let (m, is_m, h1) = >>=-eq-ok (mirror_one upstream abi sha n) _ h in
    let (rest, is_rest, h2) = >>=-eq-ok (map_results (mirror_one upstream abi sha) ns) _ h1 in
    subst (λ x. names_of_packages x ≡ n ∷ ns) (ok-injective h2)
      (ap (λ k. k ∷ names_of_packages rest) (mirror_one-name upstream abi sha n m is_m)
        ∙ ap (λ l. n ∷ l) (mirror_names upstream abi sha ns rest is_rest))

-- What a mirror plan promises
pub record Sound (delta : Delta) (architecture : String) (ceilings : Dict Bounds) (doc : MirrorPlan)
    : Type 0 where
  pub bound : Bounds
  pub is_bound : lookup architecture ceilings ≡ some bound
  pub within :
      IsWithin bound (length (delta_names delta)) (length doc.packages) (length delta.churn)
  pub mirrored : (n : String) → contains (names_of_packages doc.packages) n ≡ contains delta.take n
  pub apart : (n : String) → contains delta.take n ≡ true → contains (delta_names delta) n ≡ false
  pub bootable : contains (names_of_packages doc.packages) "pkg" ≡ true

-- A mirror plan that succeeds holds exactly the packages that the delta takes, none of them a package
-- that it builds, with `pkg` among them; the sizes of delta, mirror and drift respect the bounds that
-- the policy sets for the architecture.
pub plan-Sound :
    (delta : Delta) (catalogue : List Json) (architecture sha ports : String)
    (ceilings : Dict Bounds) (suffix : String) (doc : MirrorPlan)
    → plan delta catalogue architecture sha ports ceilings suffix ≡ ok doc
    → Sound delta architecture ceilings doc
unfolding plan
plan-Sound delta catalogue architecture sha ports ceilings suffix doc h =
    let (_, _, h1) =
      >>=-eq-ok (check (delta.schema_version == "freesense.delta-closure/v1") _) _ h in
    let (abi, _, h2) = >>=-eq-ok (abi_of architecture) _ h1 in
    let (_, _, h3) = >>=-eq-ok (check (is_text abi delta.abi) _) _ h2 in
    let (upstream, _, h4) = >>=-eq-ok (catalogue_index catalogue) _ h3 in
    let (_, layered, h5) = >>=-eq-ok (check_layers delta suffix upstream) _ h4 in
    let (ms, is_ms, h6) =
      >>=-eq-ok
        (map_results (mirror_one upstream abi sha) (sorted leb_text (add_all delta.take []))) _
        h5 in
    let (bound, is_bound, h7) = >>=-eq-ok (bounds_at ceilings architecture) _ h6 in
    let (_, bounded, h8) =
      >>=-eq-ok (check_bounds bound (length (delta_names delta)) (length ms) (length delta.churn)) _
        h7 in
    let (_, required, h9) = >>=-eq-ok (check (contains (names_of_packages ms) "pkg") _) _ h8 in
    let (_, _, h10) = >>=-eq-ok (map_results (λ (b : Built). as_text b.origin) delta.build) _ h9 in
    let (_, _, h11) = >>=-eq-ok (component_roots delta) _ h10 in
    let same : ms ≡ doc.packages = ap (λ (x : MirrorPlan). x.packages) (ok-injective h11) in
    record {
      bound = bound;
      is_bound = bounds_at-eq-ok ceilings architecture is_bound;
      within =
          subst
            (λ (x : List Mirrored).
              IsWithin bound (length (delta_names delta)) (length x) (length delta.churn))
            same
            (check_bounds-IsWithin bound (length (delta_names delta)) (length ms)
              (length delta.churn) bounded);
      mirrored = λ n.
          ap (λ (x : List Mirrored). contains (names_of_packages x) n) (sym same)
          ∙ ap (λ l. contains l n)
              (mirror_names upstream abi sha (sorted leb_text (add_all delta.take [])) ms is_ms)
          ∙ contains-sorted leb_text (add_all delta.take []) n
          ∙ ground (arith, contains-add_all delta.take [] n);
      apart = check_layers_apart delta suffix upstream layered;
      bootable =
          subst (λ (x : List Mirrored). contains (names_of_packages x) "pkg" ≡ true) same
            (check-eq-ok _ _ required);
    }

-- From the requirements to the mirror: where both planners succeed, a recorded package is mirrored
-- exactly if it is not built, and each dependency of a mirrored package is mirrored and not built.
pub mirror_closed :
    (requirements : Json) (catalogue : List Json) (overridden : List String) (delta : Delta)
    (architecture sha ports : String) (ceilings : Dict Bounds) (suffix : String) (doc : MirrorPlan)
    (records : Dict Json) (n m : String)
    → requirement_records requirements ≡ ok records
    → Layers.plan requirements catalogue overridden ≡ ok delta
    → plan delta catalogue architecture sha ports ceilings suffix ≡ ok doc
    → contains (names_of_packages doc.packages) n ≡ true
    → depends records n m ≡ true
    → ((k : String)
        → contains (names_of_packages doc.packages) k
          ≡ (contains (names records) k && not (contains (built_names delta) k)))
      × (contains (names_of_packages doc.packages) m ≡ true)
      × (contains (built_names delta) m ≡ false)
mirror_closed requirements catalogue overridden delta architecture sha ports ceilings suffix doc
      records n m is_records h k taken edge =
    let a = plan-AreApart requirements catalogue overridden delta h in
    let s = plan-Sound delta catalogue architecture sha ports ceilings suffix doc k in
    let same : a.records ≡ records = ok-injective (sym a.is_records ∙ is_records) in
    let split : (j : String)
        → contains (names_of_packages doc.packages) j
          ≡ (contains (names records) j && not (contains (built_names delta) j)) =
      λ j.
        s.mirrored j
        ∙ a.split j
        ∙ ap (λ (x : Dict Json). contains (names x) j && not (contains (built_names delta) j))
            same in
    let mirrored : contains (names_of_packages doc.packages) m ≡ true =
      s.mirrored m
      ∙ a.independent n m (sym (s.mirrored n) ∙ taken)
          (subst (λ x. depends x n m ≡ true) (sym same) edge) in
    (split, mirrored, ground (arith, split m, mirrored))
