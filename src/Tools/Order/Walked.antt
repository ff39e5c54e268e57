-- ===== src/Tools/Order/Walked.antt =====
-- scripts/resolve_worker_tools.py: what `_dependency_order` keeps true while it walks.
use freesense_os_base.Base.{
  ◌≡◌, refl, sym, subst, ap, ◌∙◌, String, ◌==◌, Bool, ◌&&◌, ◌||◌, true, false, none, some, List, [],
  ◌∷◌, ◌++◌, map, any, all, All, arith, eq_iff, Bool-cases, inl, inr, if◌then◌else◌, All-append,
}
use freesense_os_base.Base.Sets.{
  Dict, contains, contains-append, lookup, lookup-insert, distinct, distinct-append,
}
use freesense_os_base.Tools.Catalog.{Dependency, Package}
use freesense_os_base.Tools.Order.{Mark, Walk, not_started, enter, leave}

-- A package of the list is what the dependency asks for.
abbrev pub is_provided : List Package → Dependency → Bool
is_provided before d =
    any (λ q. q.name == d.name && q.version == d.version && q.origin == d.origin) before

-- Each package of the list finds its dependencies before it.
unfoldable pub is_installable : List Package → List Package → Bool
is_installable before [] = true
is_installable before (p ∷ ps) =
    all (is_provided before) p.dependencies && is_installable (before ++ p ∷ []) ps

append_one :
    (xs : List Package) (x : Package) (ys : List Package) → (xs ++ x ∷ []) ++ ys ≡ xs ++ x ∷ ys
append_one [] x ys = refl
append_one (z ∷ xs) x ys = ap (λ l. z ∷ l) (append_one xs x ys)

append_none : (xs : List Package) → xs ++ [] ≡ xs
append_none [] = refl
append_none (x ∷ xs) = ap (λ l. x ∷ l) (append_none xs)

pub is_installable-append :
    (before xs : List Package) (p : Package)
    → is_installable before (xs ++ p ∷ [])
      ≡ (is_installable before xs && all (is_provided (before ++ xs)) p.dependencies)
unfolding is_installable
is_installable-append before [] p = rw (append_none before) (ground arith)
is_installable-append before (x ∷ xs) p = ground (
  arith,
  is_installable-append (before ++ x ∷ []) xs p,
  ap (λ l. all (is_provided l) p.dependencies) (append_one before x xs),
)

pub is_provided-append :
    (xs ys : List Package) (d : Dependency)
    → is_provided (xs ++ ys) d ≡ (is_provided xs d || is_provided ys d)
is_provided-append [] ys d = refl
is_provided-append (x ∷ xs) ys d = ground (arith, is_provided-append xs ys d)

abbrev pub names_of : List Package → List String
names_of = map (λ p. p.name)

pub names_of-append :
    (xs : List Package) (p : Package) → names_of (xs ++ p ∷ []) ≡ names_of xs ++ p.name ∷ []
names_of-append [] p = refl
names_of-append (x ∷ xs) p = ap (λ l. x.name ∷ l) (names_of-append xs p)

-- Each package stands under its own name.
abbrev pub IsKeyed : Dict Package → Type 0
IsKeyed packages = (n : String) (p : Package) → lookup n packages ≡ some p → p.name ≡ n

-- Marks that are set stay as they are.
abbrev pub Keeps : Walk → Walk → Type 0
Keeps v w = (n : String) (k : Mark) → lookup n v.state ≡ some k → lookup n w.state ≡ some k

abbrev pub IsFinished : Walk → String → Type 0
IsFinished w n = lookup n w.state ≡ some Mark.finished

module _ (packages : Dict Package) (ambiguous : List String) where
  -- The package is the one that the catalogue has under its name, without ambiguity.
  abbrev pub IsCatalogued : Package → Type 0
  IsCatalogued p = (lookup p.name packages ≡ some p) × (contains ambiguous p.name ≡ false)

  pub record Sound (w : Walk) : Type 0 where
    pub filed :
        (d : Dependency) (p : Package)
        → lookup d.name w.state ≡ some Mark.finished
        → lookup d.name packages ≡ some p
        → p.version ≡ d.version
        → p.origin ≡ d.origin
        → is_provided w.order d ≡ true
    pub marked : (n : String) → contains (names_of w.order) n ≡ true → IsFinished w n
    pub listed : (n : String) → IsFinished w n → contains (names_of w.order) n ≡ true
    pub installable : is_installable [] w.order ≡ true
    pub apart : distinct (names_of w.order) ≡ true
    pub catalogued : All IsCatalogued w.order

  pub not_started-Sound : Sound not_started
  unfolding lookup is_installable distinct
  not_started-Sound = record {
    filed = λ d p h of v o. absurd (cc h);
    marked = λ n h. absurd (cc h);
    listed = λ n h. absurd (cc h);
    installable = refl;
    apart = refl;
    catalogued = tt;
  }

  pub enter-Sound :
      (name : String) (w : Walk) → lookup name w.state ≡ none → Sound w → Sound (enter name w)
  unfolding enter
  enter-Sound name w new s = record {
    filed = λ d p h of v o.
        s.filed d p (ground (arith, lookup-insert name d.name Mark.active w.state)) of v o;
    marked = λ n h.
        let old = s.marked n h in
        elim (Bool-cases (name == n)) [
          | inl here ↦ cc (sym new ∙ ap (λ x. lookup x w.state) ((eq_iff name n).0 here) ∙ old)
          | inr other ↦ rw (lookup-insert name n Mark.active w.state, other) old
        ];
    listed = λ n h. s.listed n (ground (arith, lookup-insert name n Mark.active w.state));
    installable = s.installable;
    apart = s.apart;
    catalogued = s.catalogued;
  }

  pub enter-Keeps : (name : String) (w : Walk) → lookup name w.state ≡ none → Keeps w (enter name w)
  unfolding enter
  enter-Keeps name w new n k h = elim (Bool-cases (name == n)) [
    | inl here ↦ cc (sym new ∙ ap (λ x. lookup x w.state) ((eq_iff name n).0 here) ∙ h)
    | inr other ↦ rw (lookup-insert name n Mark.active w.state, other) h
  ]

  pub leave-Keeps :
      (name : String) (p : Package) (v w : Walk)
      → lookup name v.state ≡ none
      → Keeps v w
      → Keeps v (leave name p w)
  unfolding leave
  leave-Keeps name p v w new keeps n k h = elim (Bool-cases (name == n)) [
    | inl here ↦ cc (sym new ∙ ap (λ x. lookup x v.state) ((eq_iff name n).0 here) ∙ h)
    | inr other ↦ rw (lookup-insert name n Mark.finished w.state, other) (keeps n k h)
  ]

  -- A package that is active is not in the order yet.
  active-new :
      (name : String) (w : Walk)
      → lookup name w.state ≡ some Mark.active
      → Sound w
      → contains (names_of w.order) name ≡ false
  active-new name w active s = elim (Bool-cases (contains (names_of w.order) name)) [
    | inl listed ↦ cc (sym active ∙ s.marked name listed)
    | inr new ↦ new
  ]

  pub leave-Sound :
      (p : Package) (w : Walk)
      → lookup p.name w.state ≡ some Mark.active
      → lookup p.name packages ≡ some p
      → contains ambiguous p.name ≡ false
      → all (is_provided w.order) p.dependencies ≡ true
      → Sound w
      → Sound (leave p.name p w)
  unfolding leave
  leave-Sound p w active known clear provided s = record {
    filed = λ d q h of v o. elim (Bool-cases (p.name == d.name)) [
      | inl here ↦
          let same = (eq_iff p.name d.name).0 here in
          let is_p : some p ≡ some q = sym known ∙ ap (λ x. lookup x packages) same ∙ of in
          let is_q : p ≡ q = cc is_p in
          let version : p.version ≡ d.version = ap (λ (x : Package). x.version) is_q ∙ v in
          let origin : p.origin ≡ d.origin = ap (λ (x : Package). x.origin) is_q ∙ o in
          ground (
            arith,
            is_provided-append w.order (p ∷ []) d,
            (eq_iff p.version d.version).1 version,
            (eq_iff p.origin d.origin).1 origin,
          )
      | inr other ↦
          let old : IsFinished w d.name =
            subst (λ o. o ≡ some Mark.finished)
              (lookup-insert p.name d.name Mark.finished w.state
                ∙ ap (λ b. if b then some Mark.finished else lookup d.name w.state) other)
              h in
          ground (arith, is_provided-append w.order (p ∷ []) d, s.filed d q old of v o)
    ];
    marked = λ n h. elim (Bool-cases (p.name == n)) [
      | inl here ↦ rw (lookup-insert p.name n Mark.finished w.state, here) refl
      | inr other ↦
          let old : contains (names_of w.order) n ≡ true = ground (
            arith,
            ap (λ l. contains l n) (names_of-append w.order p),
            contains-append (names_of w.order) (p.name ∷ []) n,
          ) in
          rw (lookup-insert p.name n Mark.finished w.state, other) (s.marked n old)
    ];
    listed = λ n h.
        rw (names_of-append w.order p, contains-append (names_of w.order) (p.name ∷ []) n)
          (ground (arith, lookup-insert p.name n Mark.finished w.state, s.listed n));
    installable = ground (arith, is_installable-append [] w.order p, s.installable);
    apart =
        rw
          (
            names_of-append w.order p,
            distinct-append (names_of w.order) p.name,
            s.apart,
            active-new p.name w active s,
          )
          refl;
    catalogued = All-append IsCatalogued w.order (p ∷ []) s.catalogued ((known, clear), tt);
  }
