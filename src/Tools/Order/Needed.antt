-- ===== src/Tools/Order/Needed.antt =====
-- scripts/resolve_worker_tools.py: `_dependency_order` visits nothing without need.
use freesense_os_base.Base.{
  ℕ, zero, suc, ◌≡◌, refl, sym, subst, String, true, Option, none, some, List, [], ◌∷◌, ◌++◌, all,
  map, arith, inl, inr, Result, ok, >>=-eq-ok, ok-injective, length,
}
use freesense_os_base.Base.Sets.{Dict, contains, lookup}
use freesense_os_base.Tools.Catalog.{Dependency, Package}
use freesense_os_base.Tools.Order.{
  Walk, not_started, enter, leave, check_dependency, visit_all, visit, visit_roots,
  dependency_order,
}
use freesense_os_base.Tools.Order.Steps.{visit-eq-ok}
use freesense_os_base.Tools.Order.Walked.{names_of, IsKeyed}

abbrev pub wanted : List Dependency → List String
wanted = map (λ d. d.name)

-- A set of names that has the dependencies of its members
abbrev pub IsClosed : Dict Package → List String → Type 0
IsClosed packages q =
    (n : String) (p : Package)
    → contains q n ≡ true
    → lookup n packages ≡ some p
    → all (contains q) (wanted p.dependencies) ≡ true

module _ (packages : Dict Package) (ambiguous q : List String) (keyed : IsKeyed packages)
    (closed : IsClosed packages q) where
  abbrev IsWithin : Walk → Type 0
  IsWithin w = all (contains q) (names_of w.order) ≡ true

  abbrev StaysWithin : (String → Option String → Walk → Result Walk) → Type 0
  StaysWithin call =
      (name : String) (by : Option String) (v w : Walk)
      → call name by v ≡ ok w
      → contains q name ≡ true
      → IsWithin v
      → IsWithin w

  visit_all-StaysWithin :
      (call : String → Option String → Walk → Result Walk) (by : String) (ds : List Dependency)
      (v w : Walk)
      → StaysWithin call
      → visit_all packages ambiguous call by ds v ≡ ok w
      → all (contains q) (wanted ds) ≡ true
      → IsWithin v
      → IsWithin w
  unfolding visit_all
  visit_all-StaysWithin call by [] v w stays h m i = subst IsWithin (ok-injective h) i
  visit_all-StaysWithin call by (d ∷ ds) v w stays h m i =
      let (_, _, h1) = >>=-eq-ok (check_dependency packages ambiguous d) _ h in
      let (next, visited, h2) = >>=-eq-ok (call d.name (some by) v) _ h1 in
      visit_all-StaysWithin call by ds next w stays h2 (ground arith)
        (stays d.name (some by) v next visited (ground arith) i)

  leave-IsWithin :
      (name : String) (p : Package) (w : Walk)
      → contains q p.name ≡ true
      → IsWithin w
      → IsWithin (leave name p w)
  unfolding leave
  leave-IsWithin name p w m i = go w.order i
    where
      go :
          (ps : List Package)
          → all (contains q) (names_of ps) ≡ true
          → all (contains q) (names_of (ps ++ p ∷ [])) ≡ true
      go [] h = ground arith
      go (x ∷ ps) h = ground (arith, go ps)

  visit-StaysWithin : (fuel : ℕ) → StaysWithin (visit packages ambiguous fuel)
  unfolding visit enter
  visit-StaysWithin zero name by v w h m i = cc h
  visit-StaysWithin (suc fuel) name by v w h m i =
      elim (visit-eq-ok packages ambiguous fuel name by v w h) [
        | inl (old, same) ↦ subst IsWithin same i
        | inr (p, a, next, visited, is_w) ↦ subst IsWithin is_w (
            leave-IsWithin name p next
              (subst (λ n. contains q n ≡ true) (sym (keyed name p a.known)) m)
              (visit_all-StaysWithin (visit packages ambiguous fuel) p.name p.dependencies
                (enter name v) next (visit-StaysWithin fuel) visited (closed name p m a.known) i))
      ]

  visit_roots-IsWithin :
      (fuel : ℕ) (roots : List String) (v w : Walk)
      → visit_roots packages ambiguous fuel roots v ≡ ok w
      → all (contains q) roots ≡ true
      → IsWithin v
      → IsWithin w
  unfolding visit_roots
  visit_roots-IsWithin fuel [] v w h m i = subst IsWithin (ok-injective h) i
  visit_roots-IsWithin fuel (root ∷ roots) v w h m i =
      let (next, visited, h1) = >>=-eq-ok (visit packages ambiguous fuel root none v) _ h in
      visit_roots-IsWithin fuel roots next w h1 (ground arith)
        (visit-StaysWithin fuel root none v next visited (ground arith) i)

-- Nothing is ordered without need: over a catalogue that files each package under its name, every set
-- that has the roots and the dependencies of its members has each name of the order.
pub dependency_order_least :
    (packages : Dict Package) (ambiguous roots q : List String) (order : List Package)
    → IsKeyed packages
    → IsClosed packages q
    → all (contains q) roots ≡ true
    → dependency_order packages ambiguous roots ≡ ok order
    → all (contains q) (names_of order) ≡ true
unfolding dependency_order
dependency_order_least packages ambiguous roots q order keyed closed start h =
    let (w, walked, h1) =
      >>=-eq-ok (visit_roots packages ambiguous (suc (length packages)) roots not_started) _ h in
    subst (λ o. all (contains q) (names_of o) ≡ true) (ok-injective h1)
      (visit_roots-IsWithin packages ambiguous q keyed closed (suc (length packages)) roots
        not_started w walked start refl)
