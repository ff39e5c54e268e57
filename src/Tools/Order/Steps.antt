-- ===== src/Tools/Order/Steps.antt =====
-- scripts/resolve_worker_tools.py: the cases of one call of `visit`.
use freesense_os_base.Base.{
  ℕ, suc, ◌≡◌, ◌⊎◌, refl, sym, ap, ◌∙◌, String, true, false, Option, none, some, List, [], ◌∷◌,
  Bool-cases, Option-cases, inl, inr, ok, err, raised, ◌>>=◌, >>=-eq-ok, ok-injective,
}
use freesense_os_base.Base.Sets.{Dict, contains, lookup}
use freesense_os_base.Tools.Catalog.{Package}
use freesense_os_base.Tools.Order.{Mark, Walk, enter, leave, missing_error, visit_all, visit}

-- The messages of `_dependency_order` itself
abbrev pub refusals : List String
refusals =
    "duplicate package name " ∷ "missing worker-tool root package " ∷ "missing dependency "
    ∷ "dependency version mismatch for " ∷ "dependency origin mismatch for " ∷ "dependency cycle: "
    ∷ []

module _ (packages : Dict Package) (ambiguous : List String) (fuel : ℕ) (name : String)
    (by : Option String) (v : Walk) where
  visit-ambiguous :
      contains ambiguous name ≡ true
      → visit packages ambiguous (suc fuel) name by v ≡ err (raised "duplicate package name ")
  unfolding visit
  visit-ambiguous twice = rw (twice, visit) refl

  module _ (clear : contains ambiguous name ≡ false) where
    visit-missing :
        lookup name packages ≡ none
        → visit packages ambiguous (suc fuel) name by v ≡ err (missing_error by)
    unfolding visit
    visit-missing absent = rw (clear, absent, visit) refl

    module _ (p : Package) (known : lookup name packages ≡ some p) where
      visit-new :
          lookup name v.state ≡ none
          → visit packages ambiguous (suc fuel) name by v ≡ (
              visit_all packages ambiguous
                (visit packages ambiguous fuel)
                p.name
                p.dependencies
                (enter name v)
              >>= λ next. ok (leave name p next))
      unfolding visit
      visit-new new = rw (clear, known, new, visit) refl

      visit-active :
          lookup name v.state ≡ some Mark.active
          → visit packages ambiguous (suc fuel) name by v ≡ err (raised "dependency cycle: ")
      unfolding visit
      visit-active old = rw (clear, known, old, visit) refl

      visit-finished :
          lookup name v.state ≡ some Mark.finished
          → visit packages ambiguous (suc fuel) name by v ≡ ok v
      unfolding visit
      visit-finished old = rw (clear, known, old, visit) refl

  -- The package is new: the call goes through its dependencies and then orders it.
  pub record Entered (p : Package) : Type 0 where
    pub known : lookup name packages ≡ some p
    pub clear : contains ambiguous name ≡ false
    pub new : lookup name v.state ≡ none
    pub is_visit : visit packages ambiguous (suc fuel) name by v ≡ (
        visit_all packages ambiguous
          (visit packages ambiguous fuel)
          p.name
          p.dependencies
          (enter name v)
        >>= λ next. ok (leave name p next))

  -- The script's own refusal
  pub record Refused : Type 0 where
    pub message : String
    pub is_own : contains refusals message ≡ true
    pub is_visit : visit packages ambiguous (suc fuel) name by v ≡ err (raised message)

  missing_message :
      (o : Option String)
      → (m : String) × (contains refusals m ≡ true) × (missing_error o ≡ raised m)
  missing_message none = ("missing worker-tool root package ", refl, refl)
  missing_message (some b) = ("missing dependency ", refl, refl)

  -- A call finds the package finished, refuses it, or enters it.
  pub visit-cases :
      ((lookup name v.state ≡ some Mark.finished)
        × (visit packages ambiguous (suc fuel) name by v ≡ ok v))
      ⊎ (Refused ⊎ ((p : Package) × Entered p))
  visit-cases = elim (Bool-cases (contains ambiguous name)) [
    | inl twice ↦ inr (
        inl (record {
          message = "duplicate package name ";
          is_own = refl;
          is_visit = visit-ambiguous twice;
        }))
    | inr clear ↦ elim (Option-cases (lookup name packages)) [
      | inl absent ↦
          let (m, own, e) = missing_message by in
          inr (
            inl (record {
              message = m;
              is_own = own;
              is_visit = visit-missing clear absent ∙ ap err e;
            }))
      | inr (p, known) ↦ elim (Option-cases (lookup name v.state)) [
        | inl new ↦ inr (
            inr (
              p,
              record {
                known = known;
                clear = clear;
                new = new;
                is_visit = visit-new clear p known new;
              },
            ))
        | inr (Mark.active, old) ↦ inr (
            inl (record {
              message = "dependency cycle: ";
              is_own = refl;
              is_visit = visit-active clear p known old;
            }))
        | inr (Mark.finished, old) ↦ inl (old, visit-finished clear p known old)
      ]
    ]
  ]

  -- A call that returns has left the walk alone, or has entered the package.
  pub visit-eq-ok :
      (w : Walk)
      → visit packages ambiguous (suc fuel) name by v ≡ ok w
      → ((lookup name v.state ≡ some Mark.finished) × (v ≡ w))
        ⊎ ((p : Package) × Entered p
            × (next : Walk) × (visit_all packages ambiguous
                  (visit packages ambiguous fuel)
                  p.name
                  p.dependencies
                  (enter name v)
                ≡ ok next)
            × (leave name p next ≡ w))
  visit-eq-ok w h = elim visit-cases [
    | inl (old, e) ↦ inl (old, ok-injective (sym e ∙ h))
    | inr (inl r) ↦ absurd (cc (sym r.is_visit ∙ h))
    | inr (inr (p, a)) ↦
        let (next, visited, e) =
          >>=-eq-ok
            (visit_all packages ambiguous (visit packages ambiguous fuel) p.name p.dependencies
              (enter name v))
            _ (sym a.is_visit ∙ h) in
        inr (p, a, next, visited, ok-injective e)
  ]
