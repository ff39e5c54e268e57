-- ===== src/Tools/Order/Ends.antt =====
-- scripts/resolve_worker_tools.py: the walk of `_dependency_order` ends within its fuel.
use freesense_os_base.Base.{
  ℕ, zero, suc, ◌≤◌, ◌<◌, ◌≡◌, refl, sym, subst, String, ◌==◌, Bool, true, false, Option, none,
  some, List, [], ◌∷◌, arith, eq_iff, Bool-cases, inl, inr, Result, Error, ok, err, raised, ◌>>=◌,
  >>=-eq-ok, ok-injective, length, if◌then◌else◌, or_raise,
}
use freesense_os_base.Base.Sets.{Dict, contains, lookup, insert, lookup-insert}
use freesense_os_base.Delta.Records.{check}
use freesense_os_base.Tools.Catalog.{Dependency, Package}
use freesense_os_base.Tools.Order.Steps.{refusals, visit-cases, visit-eq-ok}
use freesense_os_base.Tools.Order.{
  Mark, Walk, not_started, enter, leave, check_dependency, visit_all, visit, visit_roots,
  dependency_order,
}

abbrev is_none : Option Mark → Bool
is_none none = true
is_none (some k) = false

-- How many packages are not marked
abbrev unmarked : Dict Package → Dict Mark → ℕ
unmarked [] state = 0
unmarked ((n, p) ∷ packages) state =
    let rest = unmarked packages state in if is_none (lookup n state) then suc rest else rest

-- The script's own `ValueError`
abbrev pub is_own_refusal : Error → Bool
is_own_refusal (Error.raised message) = contains refusals message
is_own_refusal (Error.exit message) = false

-- A result, or one of the script's own refusals
abbrev pub Ends {ℓ} : {A : Type ℓ} → Result A → Type 0
Ends (ok a) = Unit
Ends (err e) = is_own_refusal e ≡ true

unmarked_le :
    (packages : Dict Package) (v w : Dict Mark)
    → ((n : String) → is_none (lookup n w) ≡ true → is_none (lookup n v) ≡ true)
    → unmarked packages w ≤ unmarked packages v
unmarked_le [] v w h = omega arith
unmarked_le ((n, p) ∷ packages) v w h = ground (arith, h n, unmarked_le packages v w h)

is_none-insert :
    (k n : String) (m : Mark) (d : Dict Mark)
    → is_none (lookup n (insert k m d)) ≡ (if k == n then false else is_none (lookup n d))
is_none-insert k n m d = ground (arith, lookup-insert k n m d)

-- Marking a package leaves fewer.
unmarked-insert :
    (k : String) (m : Mark) (packages : Dict Package) (p : Package) (d : Dict Mark)
    → lookup k packages ≡ some p
    → lookup k d ≡ none
    → unmarked packages (insert k m d) < unmarked packages d
unfolding lookup
unmarked-insert k m [] p d known new = absurd (cc known)
unmarked-insert k m ((n, q) ∷ packages) p d known new =
    let rest =
      unmarked_le packages d (insert k m d) (λ j h. ground (arith, is_none-insert k j m d)) in
    elim (Bool-cases (n == k)) [
      | inl here ↦
          let same = (eq_iff n k).0 here in
          let old : is_none (lookup n d) ≡ true =
            subst (λ j. is_none (lookup j d) ≡ true) (sym same) (rw new refl) in
          let now : is_none (lookup n (insert k m d)) ≡ false =
            ground (arith, is_none-insert k n m d, (eq_iff k n).1 (sym same)) in
          rw (old, now) (omega (arith, rest))
      | inr other ↦
          let now = is_none-insert k n m d in
          ground (
            arith,
            now,
            eq_iff k n,
            eq_iff n k,
            unmarked-insert k m packages p d (rw (other, lookup) at known) new,
          )
    ]

Ends-bind :
    {A B : Type 0} (call : Result A) (next : A → Result B)
    → Ends call
    → ((a : A) → call ≡ ok a → Ends (next a))
    → Ends (call >>= next)
Ends-bind (ok a) next e h = h a refl
Ends-bind (err x) next e h = e

Ends-check :
    (b : Bool) (message : String) → contains refusals message ≡ true → Ends (check b message)
Ends-check true message h = tt
Ends-check false message h = h

-- What is marked stays marked.
abbrev Grows : Walk → Walk → Type 0
Grows v w = (n : String) → is_none (lookup n w.state) ≡ true → is_none (lookup n v.state) ≡ true

module _ (packages : Dict Package) (ambiguous : List String) where
  abbrev left : Walk → ℕ
  left w = unmarked packages w.state

  abbrev AllGrow : (String → Option String → Walk → Result Walk) → Type 0
  AllGrow call =
      (name : String) (by : Option String) (v w : Walk) → call name by v ≡ ok w → Grows v w

  visit_all-Grows :
      (call : String → Option String → Walk → Result Walk) (by : String) (ds : List Dependency)
      (v w : Walk)
      → AllGrow call
      → visit_all packages ambiguous call by ds v ≡ ok w
      → Grows v w
  unfolding visit_all
  visit_all-Grows call by [] v w grow h = subst (Grows v) (ok-injective h) (λ n e. e)
  visit_all-Grows call by (d ∷ ds) v w grow h =
      let (_, _, h1) = >>=-eq-ok (check_dependency packages ambiguous d) _ h in
      let (next, visited, h2) = >>=-eq-ok (call d.name (some by) v) _ h1 in
      λ n e. grow d.name (some by) v next visited n (visit_all-Grows call by ds next w grow h2 n e)

  enter-Grows : (name : String) (w : Walk) → Grows w (enter name w)
  unfolding enter
  enter-Grows name w n e = ground (arith, is_none-insert name n Mark.active w.state)

  leave-Grows : (name : String) (p : Package) (w : Walk) → Grows w (leave name p w)
  unfolding leave
  leave-Grows name p w n e = ground (arith, is_none-insert name n Mark.finished w.state)

  visit-AllGrow : (fuel : ℕ) → AllGrow (visit packages ambiguous fuel)
  unfolding visit
  visit-AllGrow zero name by v w h = cc h
  visit-AllGrow (suc fuel) name by v w h =
      elim (visit-eq-ok packages ambiguous fuel name by v w h) [
        | inl (old, same) ↦ subst (Grows v) same (λ n e. e)
        | inr (p, a, next, visited, is_w) ↦ subst (Grows v) is_w (λ n e. enter-Grows name v n (
            visit_all-Grows (visit packages ambiguous fuel) p.name p.dependencies (enter name v)
              next (visit-AllGrow fuel) visited n (leave-Grows name p next n e)))
      ]

  abbrev EndsBelow : ℕ → (String → Option String → Walk → Result Walk) → Type 0
  EndsBelow fuel call =
      (name : String) (by : Option String) (w : Walk) → left w < fuel → Ends (call name by w)

  check_dependency-Ends : (d : Dependency) → Ends (check_dependency packages ambiguous d)
  unfolding check_dependency
  check_dependency-Ends d =
      Ends-bind (or_raise (lookup d.name packages) (raised "missing dependency ")) _
        (found (lookup d.name packages))
        (λ p _.
          Ends-bind (check (p.version == d.version) _) _
            (Ends-check (p.version == d.version) _ refl)
            (λ _ _. Ends-check (p.origin == d.origin) _ refl))
    where
      found : (o : Option Package) → Ends (or_raise o (raised "missing dependency "))
      found none = refl
      found (some p) = tt

  visit_all-Ends :
      (fuel : ℕ) (call : String → Option String → Walk → Result Walk) (by : String)
      (ds : List Dependency) (w : Walk)
      → EndsBelow fuel call
      → AllGrow call
      → left w < fuel
      → Ends (visit_all packages ambiguous call by ds w)
  unfolding visit_all
  visit_all-Ends fuel call by [] w ends grow h = tt
  visit_all-Ends fuel call by (d ∷ ds) w ends grow h =
      Ends-bind (check_dependency packages ambiguous d) _ (check_dependency-Ends d) (λ _ _.
        Ends-bind (call d.name (some by) w) _ (ends d.name (some by) w h) (λ next visited.
          visit_all-Ends fuel call by ds next ends grow (
            omega (
              arith,
              unmarked_le packages w.state next.state (grow d.name (some by) w next visited),
            ))))

  enter_less :
      (name : String) (p : Package) (w : Walk)
      → lookup name packages ≡ some p
      → lookup name w.state ≡ none
      → left (enter name w) < left w
  unfolding enter
  enter_less name p w known new = unmarked-insert name Mark.active packages p w.state known new

  visit-Ends : (fuel : ℕ) → EndsBelow fuel (visit packages ambiguous fuel)
  unfolding visit
  visit-Ends zero name by w h = absurd (omega arith)
  visit-Ends (suc fuel) name by w h = elim (visit-cases packages ambiguous fuel name by w) [
    | inl (old, e) ↦ subst Ends (sym e) tt
    | inr (inl r) ↦ subst Ends (sym r.is_visit) r.is_own
    | inr (inr (p, a)) ↦
        let ends =
          Ends-bind
            (visit_all packages ambiguous (visit packages ambiguous fuel) p.name p.dependencies
              (enter name w))
            (λ next. ok (leave name p next))
            (visit_all-Ends fuel (visit packages ambiguous fuel) p.name p.dependencies
              (enter name w) (visit-Ends fuel) (visit-AllGrow fuel)
              (omega (arith, enter_less name p w a.known a.new)))
            (λ next _. tt) in
        subst Ends (sym a.is_visit) ends
  ]

  visit_roots-Ends :
      (fuel : ℕ) (roots : List String) (w : Walk)
      → left w < fuel
      → Ends (visit_roots packages ambiguous fuel roots w)
  unfolding visit_roots
  visit_roots-Ends fuel [] w h = tt
  visit_roots-Ends fuel (root ∷ roots) w h =
      Ends-bind (visit packages ambiguous fuel root none w) _ (visit-Ends fuel root none w h)
        (λ next visited. visit_roots-Ends fuel roots next (
          omega (
            arith,
            unmarked_le packages w.state next.state (visit-AllGrow fuel root none w next visited),
          )))

unmarked-le_length :
    (packages : Dict Package) (d : Dict Mark) → unmarked packages d ≤ length packages
unmarked-le_length [] d = omega arith
unmarked-le_length ((n, p) ∷ packages) d = ground (arith, unmarked-le_length packages d)

-- On every catalogue, cycles included, `_dependency_order` gives an order or one of its own refusals (a
-- duplicate, missing, mismatched or cyclic package), and no other exception. Python's limit on nested
-- calls is left out.
pub dependency_order-Ends :
    (packages : Dict Package) (ambiguous roots : List String)
    → Ends (dependency_order packages ambiguous roots)
unfolding dependency_order
dependency_order-Ends packages ambiguous roots =
    Ends-bind (visit_roots packages ambiguous (suc (length packages)) roots not_started)
      (λ w. ok w.order)
      (visit_roots-Ends packages ambiguous (suc (length packages)) roots not_started
        (omega (arith, unmarked-le_length packages [])))
      (λ w _. tt)
