-- ===== src/Tools/Order/Ordered.antt =====
-- scripts/resolve_worker_tools.py: the order that `_dependency_order` returns.
use freesense_os_base.Base.{
  ℕ, zero, suc, ◌≡◌, refl, sym, subst, String, ◌==◌, true, false, Option, none, some, List, [], ◌∷◌,
  all, All, arith, eq_iff, inl, inr, Result, ok, raised, >>=-eq-ok, ok-injective, or_raise,
  or_raise-eq-ok, length,
}
use freesense_os_base.Base.Sets.{Dict, contains, lookup, lookup-insert, distinct}
use freesense_os_base.Delta.Records.{check, check-eq-ok}
use freesense_os_base.Tools.Catalog.{Dependency, Package}
use freesense_os_base.Tools.Order.{
  Mark, Walk, not_started, enter, leave, check_dependency, visit_all, visit, visit_roots,
  dependency_order,
}
use freesense_os_base.Tools.Order.Steps.{visit-eq-ok}
use freesense_os_base.Tools.Order.Walked.{
  is_provided, is_installable, names_of, IsKeyed, Keeps, IsFinished, IsCatalogued, Sound,
  not_started-Sound, enter-Sound, enter-Keeps, leave-Keeps, leave-Sound,
}

module _ (packages : Dict Package) (ambiguous : List String) (keyed : IsKeyed packages) where
  -- What a call that visits a package leaves
  record Visited (name : String) (v w : Walk) : Type 0 where
    sound : Sound packages ambiguous w
    keeps : Keeps v w
    is_finished : IsFinished w name

  abbrev VisitsWell : (String → Option String → Walk → Result Walk) → Type 0
  VisitsWell call =
      (name : String) (by : Option String) (v w : Walk)
      → call name by v ≡ ok w
      → Sound packages ambiguous v
      → Visited name v w

  -- What the loop over the dependencies leaves
  record Provided (ds : List Dependency) (v w : Walk) : Type 0 where
    sound : Sound packages ambiguous w
    keeps : Keeps v w
    provided : all (is_provided w.order) ds ≡ true

  record Matching (d : Dependency) : Type 0 where
    found : Package
    is_found : lookup d.name packages ≡ some found
    version : found.version ≡ d.version
    origin : found.origin ≡ d.origin

  check_dependency-Matching :
      (d : Dependency) → check_dependency packages ambiguous d ≡ ok tt → Matching d
  unfolding check_dependency
  check_dependency-Matching d h =
      let (p, is_p, h1) =
        >>=-eq-ok (or_raise (lookup d.name packages) (raised "missing dependency ")) _ h in
      let (_, version, origin) = >>=-eq-ok (check (p.version == d.version) _) _ h1 in
      record {
        found = p;
        is_found = or_raise-eq-ok (lookup d.name packages) (raised "missing dependency ") is_p;
        version = (eq_iff p.version d.version).0 (check-eq-ok (p.version == d.version) _ version);
        origin = (eq_iff p.origin d.origin).0 (check-eq-ok (p.origin == d.origin) _ origin);
      }

  visit_all-Provided :
      (call : String → Option String → Walk → Result Walk) (by : String) (ds : List Dependency)
      (v w : Walk)
      → VisitsWell call
      → visit_all packages ambiguous call by ds v ≡ ok w
      → Sound packages ambiguous v
      → Provided ds v w
  unfolding visit_all
  visit_all-Provided call by [] v w well h s =
      subst (Provided [] v) (ok-injective h)
        (record { sound = s; keeps = λ n k e. e; provided = refl })
  visit_all-Provided call by (d ∷ ds) v w well h s =
      let (_, checked, h1) = >>=-eq-ok (check_dependency packages ambiguous d) _ h in
      let (next, visited, h2) = >>=-eq-ok (call d.name (some by) v) _ h1 in
      let m = check_dependency-Matching d checked in
      let a = well d.name (some by) v next visited s in
      let b = visit_all-Provided call by ds next w well h2 a.sound in
      let here : is_provided w.order d ≡ true =
        b.sound.filed d m.found (b.keeps d.name Mark.finished a.is_finished) m.is_found m.version
          m.origin in
      record {
        sound = b.sound;
        keeps = λ n k e. b.keeps n k (a.keeps n k e);
        provided = ground (arith, here, b.provided);
      }

  -- A package that is not marked: its dependencies, and then itself
  visit_new-Visited :
      (name : String) (p : Package) (v next : Walk)
      → lookup name v.state ≡ none
      → lookup name packages ≡ some p
      → contains ambiguous name ≡ false
      → Provided p.dependencies (enter name v) next
      → Visited name v (leave name p next)
  unfolding enter leave
  visit_new-Visited name p v next new known clear b =
      let same : p.name ≡ name = keyed name p known in
      let at : (P : String → Type 0) → P name → P p.name = λ P h. subst P (sym same) h in
      let active : lookup name next.state ≡ some Mark.active =
        b.keeps name Mark.active (
          ground (arith, lookup-insert name name Mark.active v.state, (eq_iff name name).1 refl)) in
      record {
        sound =
            subst (λ n. Sound packages ambiguous (leave n p next)) same
              (leave-Sound packages ambiguous p next
                (at (λ n. lookup n next.state ≡ some Mark.active) active)
                (at (λ n. lookup n packages ≡ some p) known)
                (at (λ n. contains ambiguous n ≡ false) clear) b.provided b.sound);
        keeps =
            leave-Keeps packages ambiguous name p v next new
              (λ n k h. b.keeps n k (enter-Keeps packages ambiguous name v new n k h));
        is_finished =
            ground
              (arith, lookup-insert name name Mark.finished next.state, (eq_iff name name).1 refl);
      }

  visit-VisitsWell : (fuel : ℕ) → VisitsWell (visit packages ambiguous fuel)
  unfolding visit
  visit-VisitsWell zero name by v w h s = cc h
  visit-VisitsWell (suc fuel) name by v w h s =
      elim (visit-eq-ok packages ambiguous fuel name by v w h) [
        | inl (old, same) ↦
            subst (Visited name v) same
              (record { sound = s; keeps = λ n k e. e; is_finished = old })
        | inr (p, a, next, visited, is_w) ↦ subst (Visited name v) is_w (
            visit_new-Visited name p v next a.new a.known a.clear (
              visit_all-Provided (visit packages ambiguous fuel) p.name p.dependencies
                (enter name v) next (visit-VisitsWell fuel) visited
                (enter-Sound packages ambiguous name v a.new s)))
      ]

  record Rooted (roots : List String) (v w : Walk) : Type 0 where
    sound : Sound packages ambiguous w
    keeps : Keeps v w
    rooted : all (contains (names_of w.order)) roots ≡ true

  visit_roots-Rooted :
      (fuel : ℕ) (roots : List String) (v w : Walk)
      → visit_roots packages ambiguous fuel roots v ≡ ok w
      → Sound packages ambiguous v
      → Rooted roots v w
  unfolding visit_roots
  visit_roots-Rooted fuel [] v w h s =
      subst (Rooted [] v) (ok-injective h) (record { sound = s; keeps = λ n k e. e; rooted = refl })
  visit_roots-Rooted fuel (root ∷ roots) v w h s =
      let (next, visited, h1) = >>=-eq-ok (visit packages ambiguous fuel root none v) _ h in
      let a = visit-VisitsWell fuel root none v next visited s in
      let b = visit_roots-Rooted fuel roots next w h1 a.sound in
      let here = b.sound.listed root (b.keeps root Mark.finished a.is_finished) in
      record {
        sound = b.sound;
        keeps = λ n k e. b.keeps n k (a.keeps n k e);
        rooted = ground (arith, here, b.rooted);
      }

-- What an installer may rely on
pub record Ordered (packages : Dict Package) (ambiguous roots : List String) (order : List Package)
    : Type 0 where
  pub installable : is_installable [] order ≡ true
  pub apart : distinct (names_of order) ≡ true
  pub catalogued : All (IsCatalogued packages ambiguous) order
  pub rooted : all (contains (names_of order)) roots ≡ true

-- Where `_dependency_order` returns, over a catalogue that files each package under its name: each
-- package finds all its dependencies before it, in the version and from the origin that it asks for; no
-- name stands twice; each is the one package that the catalogue has by that name; and the roots are there.
pub dependency_order-Ordered :
    (packages : Dict Package) (ambiguous roots : List String) (order : List Package)
    → IsKeyed packages
    → dependency_order packages ambiguous roots ≡ ok order
    → Ordered packages ambiguous roots order
unfolding dependency_order
dependency_order-Ordered packages ambiguous roots order keyed h =
    let (w, walked, h1) =
      >>=-eq-ok (visit_roots packages ambiguous (suc (length packages)) roots not_started) _ h in
    let r =
      visit_roots-Rooted packages ambiguous keyed (suc (length packages)) roots not_started w walked
        (not_started-Sound packages ambiguous) in
    subst (Ordered packages ambiguous roots) (ok-injective h1) (record {
      installable = r.sound.installable;
      apart = r.sound.apart;
      catalogued = r.sound.catalogued;
      rooted = r.rooted;
    })
