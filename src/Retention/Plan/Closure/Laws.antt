-- ===== src/Retention/Plan/Closure/Laws.antt =====
-- plan_retention of scripts/r2_retention.py: the `while changed` loop against closed sets of prefixes.
use freesense_os_base.Base.{
  ℕ, zero, suc, ◌+◌, ◌≤◌, ◌<◌, ◌≡◌, refl, sym, subst, String, ◌==◌, Bool, ◌||◌, true, List, [], ◌∷◌,
  length, length-append, nat_eq, if◌then◌else◌, arith, eq_iff, eq_refl, Bool-cases, inl, inr,
}
use mathlib.Core.Bool.{false≢true}
use freesense_os_base.Base.Sets.{
  Dict, contains, add, add_all, lookup, contains-append, contains-add, contains-add_all_mono,
  contains-add_all_of, missing, missing-add_le, missing-add,
}
use freesense_os_base.Retention.Marker.{Entry}
use freesense_os_base.Retention.Plan.Closure.{
  references, references_of, close_once, close, all_references, closure,
}

length-add :
    (s : String) (ts : List String)
    → length (add s ts) ≡ (if contains ts s then length ts else suc (length ts))
unfolding add
length-add s ts = elim (Bool-cases (contains ts s)) [
  | inl e ↦ rw e refl
  | inr e ↦ rw e (omega (arith, length-append ts (s ∷ [])))
]

module _ (rs : List String) where
  -- Adding one of the texts makes the set larger by what it then lacks less.
  weight-add :
      (s : String) (ts : List String)
      → contains rs s ≡ true
      → length (add s ts) + missing rs (add s ts) ≤ length ts + missing rs ts
  weight-add s ts h = elim (Bool-cases (contains ts s)) [
    | inl e ↦ rw (length-add s ts, e) (omega (arith, missing-add_le s rs ts))
    | inr e ↦ rw (length-add s ts, e) (omega (arith, missing-add s rs ts h e))
  ]

  weight-add_all :
      (ss ts : List String)
      → ((k : String) → contains ss k ≡ true → contains rs k ≡ true)
      → length (add_all ss ts) + missing rs (add_all ss ts) ≤ length ts + missing rs ts
  unfolding add_all
  weight-add_all [] ts h = omega arith
  weight-add_all (s ∷ ss) ts h = omega (
    arith,
    weight-add s ts (h s (ground (arith, eq_refl s))),
    weight-add_all ss (add s ts) (λ k m. h k (ground arith)),
  )

length-add_le : (s : String) (ts : List String) → length ts ≤ length (add s ts)
length-add_le s ts = ground (arith, length-add s ts)

length-add_all_le : (ss ts : List String) → length ts ≤ length (add_all ss ts)
unfolding add_all
length-add_all_le [] ts = omega arith
length-add_all_le (s ∷ ss) ts = omega (arith, length-add_le s ts, length-add_all_le ss (add s ts))

-- A set that has not grown is the same.
add-same : (s : String) (ts : List String) → length (add s ts) ≤ length ts → add s ts ≡ ts
unfolding add
add-same s ts h = elim (Bool-cases (contains ts s)) [
  | inl e ↦ rw e refl
  | inr e ↦ absurd (omega (arith, length-append ts (s ∷ []), rw e at h))
]

add_all-same : (ss ts : List String) → length (add_all ss ts) ≤ length ts → add_all ss ts ≡ ts
unfolding add_all
add_all-same [] ts h = refl
add_all-same (s ∷ ss) ts h =
    let first = add-same s ts (omega (arith, length-add_all_le ss (add s ts))) in
    rw first (add_all-same ss ts (rw first at h))

or_true : (b : Bool) → (b || true) ≡ true
or_true b = ground arith

module _ (markers : Dict Entry) where
  references_of-nil : (p : String) → references_of [] p ≡ []
  unfolding references_of lookup
  references_of-nil p = refl

  references_of-cons :
      (j : String) (e : Entry) (es : Dict Entry) (p : String)
      → references_of ((j, e) ∷ es) p ≡ (if j == p then references e else references_of es p)
  unfolding references_of lookup
  references_of-cons j e es p = ground arith

  references_of-all :
      (es : Dict Entry) (p k : String)
      → contains (references_of es p) k ≡ true
      → contains (all_references es) k ≡ true
  unfolding all_references
  references_of-all [] p k h = absurd (false≢true (rw (references_of-nil p) at h))
  references_of-all ((j, e) ∷ es) p k h =
      let found = rw (references_of-cons j e es p) at h in
      elim (Bool-cases (j == p)) [
        | inl same ↦
            rw (contains-append (references e) (all_references es) k, rw same at found) refl
        | inr other ↦
            rw
              (
                contains-append (references e) (all_references es) k,
                references_of-all es p k (rw other at found),
              )
              (or_true (contains (references e) k))
      ]

  weight-close_once :
      (ps ts : List String)
      → length (close_once markers ps ts)
          + missing (all_references markers) (close_once markers ps ts)
        ≤ length ts + missing (all_references markers) ts
  unfolding close_once
  weight-close_once [] ts = omega arith
  weight-close_once (p ∷ ps) ts = omega (
    arith,
    weight-close_once ps (add_all (references_of markers p) ts),
    weight-add_all (all_references markers) (references_of markers p) ts
        (references_of-all markers p),
  )

  length-close_once_le : (ps ts : List String) → length ts ≤ length (close_once markers ps ts)
  unfolding close_once
  length-close_once_le [] ts = omega arith
  length-close_once_le (p ∷ ps) ts = omega (
    arith,
    length-add_all_le (references_of markers p) ts,
    length-close_once_le ps (add_all (references_of markers p) ts),
  )

  close_once-same :
      (ps ts : List String)
      → length (close_once markers ps ts) ≤ length ts
      → close_once markers ps ts ≡ ts
  unfolding close_once
  close_once-same [] ts h = refl
  close_once-same (p ∷ ps) ts h =
      let grown = length-close_once_le ps (add_all (references_of markers p) ts) in
      let first = add_all-same (references_of markers p) ts (omega arith) in
      rw first (close_once-same ps ts (rw first at h))

  close_once_mono :
      (ps ts : List String) (k : String)
      → contains ts k ≡ true
      → contains (close_once markers ps ts) k ≡ true
  unfolding close_once
  close_once_mono [] ts k h = h
  close_once_mono (p ∷ ps) ts k h =
      close_once_mono ps _ k (contains-add_all_mono (references_of markers p) ts k h)

  close_once-adds :
      (ps ts : List String) (p r : String)
      → contains ps p ≡ true
      → contains (references_of markers p) r ≡ true
      → contains (close_once markers ps ts) r ≡ true
  unfolding close_once
  close_once-adds [] ts p r h m = absurd (cc h)
  close_once-adds (q ∷ ps) ts p r h m = elim (Bool-cases (q == p)) [
    | inl e ↦
        let same = (eq_iff q p).0 e in
        close_once_mono ps _ r (
          contains-add_all_of (references_of markers q) ts r
            (subst (λ x. contains (references_of markers x) r ≡ true) (sym same) m))
    | inr e ↦ close_once-adds ps _ p r (rw e at h) m
  ]

  -- Every reference of a member is a member.
  abbrev pub IsClosed : List String → Type 0
  IsClosed ts =
      (p r : String)
      → contains ts p ≡ true
      → contains (references_of markers p) r ≡ true
      → contains ts r ≡ true

  close_mono :
      (fuel : ℕ) (ts : List String) (k : String)
      → contains ts k ≡ true
      → contains (close fuel markers ts) k ≡ true
  unfolding close
  close_mono zero ts k h = h
  close_mono (suc fuel) ts k h =
      elim (Bool-cases (nat_eq (length ts) (length (close_once markers ts ts)))) [
        | inl e ↦ rw e h
        | inr e ↦ rw e (close_mono fuel (close_once markers ts ts) k (close_once_mono ts ts k h))
      ]

  close-IsClosed :
      (fuel : ℕ) (ts : List String)
      → missing (all_references markers) ts < fuel
      → IsClosed (close fuel markers ts)
  unfolding close
  close-IsClosed zero ts h = absurd (omega arith)
  close-IsClosed (suc fuel) ts h =
      elim (Bool-cases (nat_eq (length ts) (length (close_once markers ts ts)))) [
        | inl e ↦
            let same = close_once-same ts ts (ground arith) in
            rw e (λ p r member refers.
              subst (λ l. contains l r ≡ true) same (close_once-adds ts ts p r member refers))
        | inr e ↦
            let grown = length-close_once_le ts ts in
            let weight = weight-close_once ts ts in
            rw e (close-IsClosed fuel (close_once markers ts ts) (ground arith))
      ]

  add_all-within :
      (ss ts q : List String)
      → ((k : String) → contains ss k ≡ true → contains q k ≡ true)
      → ((k : String) → contains ts k ≡ true → contains q k ≡ true)
      → (k : String) → contains (add_all ss ts) k ≡ true
      → contains q k ≡ true
  unfolding add_all
  add_all-within [] ts q hs ht k h = ht k h
  add_all-within (s ∷ ss) ts q hs ht k h =
      add_all-within ss (add s ts) q (λ j m. hs j (ground arith))
        (λ j m. ground (arith, contains-add s ts j, eq_iff s j, ht j, hs s, eq_refl s)) k h

  module _ (q : List String) (closed : IsClosed q) where
    close_once-within :
        (ps ts : List String)
        → ((k : String) → contains ps k ≡ true → contains q k ≡ true)
        → ((k : String) → contains ts k ≡ true → contains q k ≡ true)
        → (k : String) → contains (close_once markers ps ts) k ≡ true
        → contains q k ≡ true
    unfolding close_once
    close_once-within [] ts hp ht k h = ht k h
    close_once-within (p ∷ ps) ts hp ht k h =
        close_once-within ps (add_all (references_of markers p) ts) (λ j m. hp j (ground arith))
          (add_all-within (references_of markers p) ts q
            (λ r m. closed p r (hp p (ground (arith, eq_refl p))) m) ht)
          k h

    close-within :
        (fuel : ℕ) (ts : List String)
        → ((k : String) → contains ts k ≡ true → contains q k ≡ true)
        → (k : String) → contains (close fuel markers ts) k ≡ true
        → contains q k ≡ true
    unfolding close
    close-within zero ts ht k h = ht k h
    close-within (suc fuel) ts ht k h =
        elim (Bool-cases (nat_eq (length ts) (length (close_once markers ts ts)))) [
          | inl e ↦ ht k (rw e at h)
          | inr e ↦
              close-within fuel (close_once markers ts ts) (close_once-within ts ts ht ht) k
                (rw e at h)
        ]

  missing-le : (rs ts : List String) → missing rs ts ≤ length rs
  missing-le [] ts = omega arith
  missing-le (r ∷ rs) ts = ground (arith, missing-le rs ts)

  pub closure_mono :
      (protected : List String) (k : String)
      → contains protected k ≡ true
      → contains (closure markers protected) k ≡ true
  unfolding closure
  closure_mono protected k h = close_mono (suc (length (all_references markers))) protected k h

  -- The loop ends with a closed set: what the marker of a protected artifact refers to is protected
  -- too, so the fuel is always enough.
  pub closure-references :
      (protected : List String) (p r : String)
      → contains (closure markers protected) p ≡ true
      → contains (references_of markers p) r ≡ true
      → contains (closure markers protected) r ≡ true
  unfolding closure
  closure-references protected =
      close-IsClosed (suc (length (all_references markers))) protected
        (omega (arith, missing-le (all_references markers) protected))

  -- Nothing is protected without need: every set that has the roots and is closed under references
  -- has all of the result.
  pub closure-least :
      (protected q : List String)
      → IsClosed q
      → ((k : String) → contains protected k ≡ true → contains q k ≡ true)
      → (k : String) → contains (closure markers protected) k ≡ true
      → contains q k ≡ true
  unfolding closure
  closure-least protected q closed within =
      close-within q closed (suc (length (all_references markers))) protected within
