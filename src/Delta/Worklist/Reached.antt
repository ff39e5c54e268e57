-- ===== src/Delta/Worklist/Reached.antt =====
-- `reachable` of scripts/delta_closure.py: its result and closed sets of names.
use freesense_os_base.Base.{
  ℕ, zero, suc, ◌+◌, ◌≡◌, sym, subst, ◌∙◌, String, ◌==◌, ◌||◌, true, some, List, [], ◌∷◌, ◌++◌,
  length, arith, eq_iff, eq_refl, Bool-cases, Option-cases, inl, inr, ok, ok-injective,
}
use freesense_os_base.Base.Json.{Json}
use freesense_os_base.Base.Sets.{Dict, contains, lookup, contains-append}
use freesense_os_base.Delta.Worklist.{deps_of, push_all, reach, reachable}
use freesense_os_base.Delta.Worklist.Seen.{
  contains-push_all, length-push_all, unseen, Known, IsComplete, IsClosed, reach_seen, reach_new,
  reach-none, reach_empty, reach_no_fuel, reach_total,
}

-- Each name of the list has the property.
abbrev pub Covers : (String → Type 0) → List String → Type 0
Covers p ns = (k : String) → contains ns k ≡ true → p k

abbrev pub Member : List String → String → Type 0
Member ns k = contains ns k ≡ true

module _ (records : Dict Json) where
  -- What is seen has its dependencies seen, or on the stack.
  abbrev IsOpen : List String → List String → Type 0
  IsOpen seen stack =
      (n d : String) (r : Json)
      → contains seen n ≡ true
      → lookup n records ≡ some r
      → contains (deps_of r) d ≡ true
      → (contains seen d || contains stack d) ≡ true

  abbrev IsPast : List String → List String → List String → Type 0
  IsPast res seen stack =
      (k : String) → (contains seen k || contains stack k) ≡ true → contains res k ≡ true

  IsOpen-seen :
      (seen stack : List String) (n : String)
      → contains seen n ≡ true
      → IsOpen seen (n ∷ stack)
      → IsOpen seen stack
  IsOpen-seen seen stack n old i m d r held found of = elim (Bool-cases (n == d)) [
    | inl here ↦ ground (arith, eq_iff n d)
    | inr other ↦ ground (arith, i m d r held found of)
  ]

  IsOpen-new :
      (seen stack : List String) (n : String) (q : Json)
      → lookup n records ≡ some q
      → IsOpen seen (n ∷ stack)
      → IsOpen (seen ++ n ∷ []) (push_all (deps_of q) stack)
  IsOpen-new seen stack n q is_q i m d r held found of = elim (Bool-cases (n == m)) [
    | inl here ↦
        let same = (eq_iff n m).0 here in
        let is_r : some q ≡ some r =
          sym is_q ∙ subst (λ x. lookup x records ≡ some r) (sym same) found in
        let of_q : contains (deps_of q) d ≡ true =
          subst (λ x. contains (deps_of x) d ≡ true) (sym (cc is_r)) of in
        rw (contains-append seen (n ∷ []) d, contains-push_all (deps_of q) stack d, of_q)
          (ground arith)
    | inr other ↦ ground (
      arith,
      i m d r (ground (arith, contains-append seen (n ∷ []) m)) found of,
      contains-append seen (n ∷ []) d,
      contains-push_all (deps_of q) stack d,
    )
  ]

  -- A successful search has everything that it starts with, and is closed.
  reach-IsClosed :
      (fuel : ℕ) (seen stack res : List String)
      → reach fuel records seen stack ≡ ok res
      → IsOpen seen stack
      → IsPast res seen stack × IsClosed records res
  reach-IsClosed fuel seen [] res e i =
      let same : seen ≡ res = ok-injective (sym (reach_empty records fuel seen) ∙ e) in
      subst (λ x. IsPast x seen [] × IsClosed records x) same
        (λ k m. ground arith, λ n d r held found of. let h = i n d r held found of in ground arith)
  reach-IsClosed zero seen (n ∷ stack) res e i = cc (sym (reach_no_fuel records seen stack n) ∙ e)
  reach-IsClosed (suc fuel) seen (n ∷ stack) res e i = elim (Bool-cases (contains seen n)) [
    | inl old ↦
        let (covers, closed) =
          reach-IsClosed fuel seen stack res (sym (reach_seen records fuel seen stack n old) ∙ e)
            (IsOpen-seen seen stack n old i) in
        (λ k m. covers k (ground (arith, eq_iff n k)), closed)
    | inr new ↦ elim (Option-cases (lookup n records)) [
      | inl missing ↦ cc (sym (reach-none records fuel seen stack n new missing) ∙ e)
      | inr (r, found) ↦
          let (covers, closed) =
            reach-IsClosed fuel (seen ++ n ∷ []) (push_all (deps_of r) stack) res
              (sym (reach_new records fuel seen stack n r new found) ∙ e)
              (IsOpen-new seen stack n r found i) in
          (
            λ k m. covers k (
                ground
                  (arith, contains-append seen (n ∷ []) k, contains-push_all (deps_of r) stack k)),
            closed,
          )
    ]
  ]

  -- It has nothing that a closed set with the same start lacks.
  reach_least :
      (q : List String)
      → IsClosed records q
      → (fuel : ℕ) (seen stack res : List String) → reach fuel records seen stack ≡ ok res
      → IsPast q seen stack
      → (k : String) → contains res k ≡ true
      → contains q k ≡ true
  reach_least q closed fuel seen [] res e h k m =
      let same : seen ≡ res = ok-injective (sym (reach_empty records fuel seen) ∙ e) in
      h k (let at = subst (λ x. contains x k ≡ true) (sym same) m in ground arith)
  reach_least q closed zero seen (n ∷ stack) res e h k m =
      cc (sym (reach_no_fuel records seen stack n) ∙ e)
  reach_least q closed (suc fuel) seen (n ∷ stack) res e h k m =
      elim (Bool-cases (contains seen n)) [
        | inl old ↦
            reach_least q closed fuel seen stack res
              (sym (reach_seen records fuel seen stack n old) ∙ e) (λ j held. h j (ground arith)) k
              m
        | inr new ↦ elim (Option-cases (lookup n records)) [
          | inl missing ↦ cc (sym (reach-none records fuel seen stack n new missing) ∙ e)
          | inr (r, found) ↦
              let at_n = h n (ground (arith, eq_refl n)) in
              reach_least q closed fuel (seen ++ n ∷ []) (push_all (deps_of r) stack) res
                (sym (reach_new records fuel seen stack n r new found) ∙ e)
                (λ j held. elim (Bool-cases (contains (deps_of r) j)) [
                  | inl dep ↦ closed n j r at_n found dep
                  | inr other ↦ h j (
                      ground (
                        arith,
                        contains-append seen (n ∷ []) j,
                        contains-push_all (deps_of r) stack j,
                      ))
                ])
                k m
        ]
      ]

-- Where every root and every dependency is a record, `reachable` returns, within its fuel. Its result
-- has the roots and the dependencies of all its members, and lies in each set `q` that has both.
pub reachable_lem :
    (records : Dict Json) (roots q : List String)
    → IsComplete records
    → Covers (Known records) roots
    → Covers (Member q) roots
    → IsClosed records q
    → (seen : List String) × (reachable records roots ≡ ok seen)
      × Covers (Member seen) roots
      × IsClosed records seen
      × Covers (Member q) seen
unfolding reachable unseen
reachable_lem records roots q complete known start q_closed =
    let fuel = length roots + unseen [] records in
    let on_stack = contains-push_all roots [] in
    let (seen, e) =
      reach_total records complete fuel [] (push_all roots [])
        (λ k m. known k (ground (arith, on_stack k))) (omega (arith, length-push_all roots [])) in
    let (covers, closed) =
      reach-IsClosed records fuel [] (push_all roots []) seen e (λ n d r no. absurd (cc no)) in
    (
      seen,
      e,
      λ k m. covers k (ground (arith, on_stack k)),
      closed,
      λ k m.
          reach_least records q q_closed fuel [] (push_all roots []) seen e
            (λ j held. start j (ground (arith, on_stack j))) k m,
    )
