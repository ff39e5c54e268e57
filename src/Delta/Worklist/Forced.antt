-- ===== src/Delta/Worklist/Forced.antt =====
-- `dependents` of scripts/delta_closure.py: its result and the recorded dependencies.
use freesense_os_base.Base.{
  ℕ, zero, suc, ◌+◌, ◌≤◌, ◌≡◌, refl, sym, subst, ◌∙◌, String, ◌==◌, Bool, ◌||◌, true, false, List,
  [], ◌∷◌, length, arith, eq_iff, eq_refl, Bool-cases, inl, inr,
}
use mathlib.Core.Bool.{false≢true}
use freesense_os_base.Base.Json.{Json}
use freesense_os_base.Base.Sets.{Dict, contains, add, contains-add, missing, missing-add}
use freesense_os_base.Delta.Worklist.{
  names, reverse_deps, parents, Forcing, force_one, force, force_all, dependents,
}
use freesense_os_base.Delta.Worklist.Parents.{depends, depends-names, parents-eq}

module _ (parents_of : String → List String) (customized : List String) where
  abbrev pub is_held : List String → String → Bool
  is_held forced k = contains customized k || contains forced k

  -- A held name off the stack has all its parents held; `n` is being expanded.
  abbrev IsOpenBut : String → Forcing → Type 0
  IsOpenBut n s =
      (k p : String)
      → is_held s.forced k ≡ true
      → contains s.stack k ≡ false
      → (n == k) ≡ false
      → contains (parents_of k) p ≡ true
      → is_held s.forced p ≡ true

  abbrev IsOpen : Forcing → Type 0
  IsOpen s =
      (k p : String)
      → is_held s.forced k ≡ true
      → contains s.stack k ≡ false
      → contains (parents_of k) p ≡ true
      → is_held s.forced p ≡ true

  force_one_held :
      (p : String) (s : Forcing) (k : String)
      → is_held (force_one customized p s).forced k ≡ (is_held s.forced k || p == k)
  unfolding force_one
  force_one_held p s k = ground (arith, contains-add p s.forced k, eq_iff p k)

  -- What is new in the set is on the stack.
  force_one_off :
      (p : String) (s : Forcing) (k : String)
      → contains (force_one customized p s).stack k ≡ false
      → (contains s.stack k ≡ false)
        × (is_held (force_one customized p s).forced k ≡ is_held s.forced k)
  unfolding force_one
  force_one_off p s k h = ground (arith, contains-add p s.forced k, eq_iff p k)

  force_grows :
      (ps : List String) (s : Forcing) (k : String)
      → is_held s.forced k ≡ true
      → is_held (force customized ps s).forced k ≡ true
  unfolding force
  force_grows [] s k h = h
  force_grows (p ∷ ps) s k h =
      force_grows ps (force_one customized p s) k (rw (force_one_held p s k, h) refl)

  force-IsOpenBut :
      (n : String) (ps : List String) (s : Forcing)
      → IsOpenBut n s
      → IsOpenBut n (force customized ps s)
  unfolding force
  force-IsOpenBut n [] s h = h
  force-IsOpenBut n (p ∷ ps) s h =
      force-IsOpenBut n ps (force_one customized p s) (λ k r held off other of.
        let (before, same) = force_one_off p s k off in
        rw (force_one_held p s r, h k r (sym same ∙ held) before other of) refl)

  force_covers :
      (ps : List String) (s : Forcing) (p : String)
      → contains ps p ≡ true
      → is_held (force customized ps s).forced p ≡ true
  unfolding force
  force_covers [] s p h = cc h
  force_covers (r ∷ ps) s p h = elim (Bool-cases (r == p)) [
    | inl here ↦ force_grows ps (force_one customized r s) p (ground (arith, force_one_held r s p))
    | inr later ↦ force_covers ps (force_one customized r s) p (ground arith)
  ]

  force-IsOpen :
      (n : String) (stack forced : List String)
      → IsOpen (record { forced = forced; stack = n ∷ stack })
      → IsOpen (force customized (parents_of n) (record { forced = forced; stack = stack }))
  force-IsOpen n stack forced h k p held off of =
      let s : Forcing = record { forced = forced; stack = stack } in
      elim (Bool-cases (n == k)) [
        | inl here ↦
            force_covers (parents_of n) s p
              (subst (λ x. contains (parents_of x) p ≡ true) (sym ((eq_iff n k).0 here)) of)
        | inr other ↦
            force-IsOpenBut n (parents_of n) s (λ j r hj oj nj rj. h j r hj (ground arith) rj) k p
              held off other of
      ]

  module _ (all : List String)
      (within : (k p : String) → contains (parents_of k) p ≡ true → contains all p ≡ true) where
    force_one_weight :
        (p : String) (s : Forcing)
        → contains all p ≡ true
        → length (force_one customized p s).stack + missing all (force_one customized p s).forced
          ≤ length s.stack + missing all s.forced
    unfolding force_one
    force_one_weight p s h = elim (Bool-cases (contains customized p || contains s.forced p)) [
      | inl e ↦ let same : force_one customized p s ≡ s = rw e refl in rw same (omega arith)
      | inr e ↦
          let t : Forcing = record { forced = add p s.forced; stack = p ∷ s.stack } in
          let same : force_one customized p s ≡ t = rw e refl in
          rw same (omega (arith, missing-add p all s.forced h (ground arith)))
    ]

    force_weight :
        (ps : List String) (s : Forcing)
        → ((p : String) → contains ps p ≡ true → contains all p ≡ true)
        → length (force customized ps s).stack + missing all (force customized ps s).forced
          ≤ length s.stack + missing all s.forced
    unfolding force
    force_weight [] s h = omega arith
    force_weight (p ∷ ps) s h = omega (
      arith,
      force_one_weight p s (h p (ground (arith, eq_refl p))),
      force_weight ps (force_one customized p s) (λ r m. h r (ground arith)),
    )

    force_all_closed :
        (fuel : ℕ) (forced stack : List String)
        → length stack + missing all forced ≤ fuel
        → IsOpen (record { forced = forced; stack = stack })
        → (k p : String) → is_held (force_all fuel parents_of customized forced stack) k ≡ true
        → contains (parents_of k) p ≡ true
        → is_held (force_all fuel parents_of customized forced stack) p ≡ true
    unfolding force_all
    force_all_closed zero forced [] enough h k p held of = h k p held refl of
    force_all_closed (suc fuel) forced [] enough h k p held of = h k p held refl of
    force_all_closed zero forced (n ∷ stack) enough h k p held of = absurd (omega arith)
    force_all_closed (suc fuel) forced (n ∷ stack) enough h k p held of =
        let s = force customized (parents_of n) (record { forced = forced; stack = stack }) in
        force_all_closed fuel s.forced s.stack
          (omega (
            arith,
            force_weight (parents_of n) (record { forced = forced; stack = stack }) (within n),
          ))
          (force-IsOpen n stack forced h) k p held of

  force_one_within :
      (q : List String) (p : String) (s : Forcing) (k : String)
      → contains q p ≡ true
      → (contains s.forced k ≡ true → contains q k ≡ true)
      → contains (force_one customized p s).forced k ≡ true
      → contains q k ≡ true
  unfolding force_one
  force_one_within q p s k h hs held = ground (arith, contains-add p s.forced k, eq_iff p k)

  force_one-stack :
      (q : List String) (p : String) (s : Forcing) (k : String)
      → contains q p ≡ true
      → (contains s.stack k ≡ true → contains q k ≡ true)
      → contains (force_one customized p s).stack k ≡ true
      → contains q k ≡ true
  unfolding force_one
  force_one-stack q p s k h hs held = ground (arith, eq_iff p k)

  -- All of the set and of the stack lies in `q`.
  abbrev Within : List String → Forcing → Type 0
  Within q s =
      (k : String)
      → (contains s.forced k ≡ true → contains q k ≡ true)
        × (contains s.stack k ≡ true → contains q k ≡ true)

  force_one-Within :
      (q : List String) (p : String) (s : Forcing)
      → contains q p ≡ true
      → Within q s
      → Within q (force_one customized p s)
  force_one-Within q p s h hs k =
      (force_one_within q p s k h (hs k).0, force_one-stack q p s k h (hs k).1)

  force-Within :
      (q ps : List String) (s : Forcing)
      → ((p : String) → contains ps p ≡ true → contains q p ≡ true)
      → Within q s
      → Within q (force customized ps s)
  unfolding force
  force-Within q [] s h hs = hs
  force-Within q (p ∷ ps) s h hs =
      force-Within q ps (force_one customized p s) (λ r m. h r (ground arith))
        (force_one-Within q p s (h p (ground (arith, eq_refl p))) hs)

  force_all-Within :
      (q : List String)
      → ((k p : String)
          → contains q k ≡ true
          → contains (parents_of k) p ≡ true
          → contains q p ≡ true)
      → (fuel : ℕ) (forced stack : List String)
      → Within q (record { forced = forced; stack = stack })
      → (k : String) → contains (force_all fuel parents_of customized forced stack) k ≡ true
      → contains q k ≡ true
  unfolding force_all
  force_all-Within q closed zero forced [] hs k h = (hs k).0 h
  force_all-Within q closed (suc fuel) forced [] hs k h = (hs k).0 h
  force_all-Within q closed zero forced (n ∷ stack) hs k h = (hs k).0 h
  force_all-Within q closed (suc fuel) forced (n ∷ stack) hs k h =
      let s = force customized (parents_of n) (record { forced = forced; stack = stack }) in
      let at_n = (hs n).1 (ground (arith, eq_refl n)) in
      force_all-Within q closed fuel s.forced s.stack
        (force-Within q (parents_of n) (record { forced = forced; stack = stack })
          (λ p of. closed n p at_n of) (λ j. ((hs j).0, λ m. (hs j).1 (ground arith))))
        k h

missing_le : (rs ts : List String) → missing rs ts ≤ length rs
missing_le [] ts = omega arith
missing_le (r ∷ rs) ts = ground (arith, missing_le rs ts)

-- What depends on a customized package, or on one that a dependency has forced, is customized or
-- forced itself: the loop ends with a set that is closed under dependents.
pub dependents_closed :
    (records : Dict Json) (customized : List String) (d n : String)
    → depends records n d ≡ true
    → (contains customized d || contains (dependents records customized) d) ≡ true
    → (contains customized n || contains (dependents records customized) n) ≡ true
unfolding dependents
dependents_closed records customized d n edge held =
    force_all_closed (parents (reverse_deps records [])) customized (names records)
      (λ k p of. depends-names records p k (sym (parents-eq records p k) ∙ of))
      (length customized + length (names records)) [] customized
      (omega (arith, missing_le (names records) []))
      (λ k p first off of. absurd (false≢true (sym off ∙ ground arith))) d n held
      (parents-eq records n d ∙ edge)

-- Nothing is forced without need: a set that has the customized packages and is closed under
-- dependents has every forced one.
pub dependents_least :
    (records : Dict Json) (customized q : List String)
    → ((k : String) → contains customized k ≡ true → contains q k ≡ true)
    → ((n d : String) → depends records n d ≡ true → contains q d ≡ true → contains q n ≡ true)
    → (k : String) → contains (dependents records customized) k ≡ true
    → contains q k ≡ true
unfolding dependents
dependents_least records customized q start closed =
    force_all-Within (parents (reverse_deps records [])) customized q
      (λ d n at of. closed n d (sym (parents-eq records n d) ∙ of) at)
      (length customized + length (names records)) [] customized
      (λ k. (λ no. absurd (cc no), start k))
