-- ===== src/Delta/Worklist/Seen.antt =====
-- `reachable` of scripts/delta_closure.py: its steps, and that it returns.
use freesense_os_base.Base.{
  ℕ, zero, suc, ◌+◌, ◌≤◌, ◌≡◌, refl, sym, subst, ap, ◌∙◌, String, ◌==◌, ◌||◌, true, false, none,
  some, List, [], ◌∷◌, ◌++◌, length, sum_by, if◌then◌else◌, arith, eq_iff, eq_refl, Bool-cases, inl,
  inr, ok, err, raised,
}
use freesense_os_base.Base.Json.{Json}
use freesense_os_base.Base.Sets.{Dict, contains, lookup, contains-append}
use freesense_os_base.Delta.Worklist.{deps_of, push_all, reach}

pub contains-push_all :
    (ns stack : List String) (k : String)
    → contains (push_all ns stack) k ≡ (contains ns k || contains stack k)
unfolding push_all
contains-push_all [] stack k = refl
contains-push_all (n ∷ ns) stack k = ground (arith, contains-push_all ns (n ∷ stack) k)

pub length-push_all :
    (ns stack : List String) → length (push_all ns stack) ≡ length ns + length stack
unfolding push_all
length-push_all [] stack = omega arith
length-push_all (n ∷ ns) stack = omega (arith, length-push_all ns (n ∷ stack))

-- The dependencies of the records that are not seen yet
unfoldable pub unseen : List String → Dict Json → ℕ
unseen seen records = sum_by (λ e. if contains seen e.0 then 0 else length (deps_of e.1)) records

unseen_le :
    (n : String) (seen : List String) (records : Dict Json)
    → unseen (seen ++ n ∷ []) records ≤ unseen seen records
unfolding unseen
unseen_le n seen [] = omega arith
unseen_le n seen ((m, r) ∷ records) =
    ground (arith, unseen_le n seen records, contains-append seen (n ∷ []) m)

-- Seeing a record takes its dependencies off.
unseen-append :
    (n : String) (r : Json) (seen : List String) (records : Dict Json)
    → contains seen n ≡ false
    → lookup n records ≡ some r
    → unseen (seen ++ n ∷ []) records + length (deps_of r) ≤ unseen seen records
unfolding unseen lookup
unseen-append n r seen [] new found = cc found
unseen-append n r seen ((m, q) ∷ records) new found = elim (Bool-cases (m == n)) [
  | inl here ↦
      let same = (eq_iff m n).0 here in
      let is_r : some q ≡ some r = rw here at found in
      let old : contains seen m ≡ false = subst (λ x. contains seen x ≡ false) (sym same) new in
      let e : length (deps_of q) ≡ length (deps_of r) = ap (λ x. length (deps_of x)) (cc is_r) in
      ground (arith, e, unseen_le n seen records, contains-append seen (n ∷ []) m, eq_iff m n)
  | inr later ↦ ground (
    arith,
    unseen-append n r seen records new (rw later at found),
    contains-append seen (n ∷ []) m,
    eq_iff n m,
    eq_iff m n,
  )
]

module _ (records : Dict Json) where
  abbrev pub Known : String → Type 0
  Known n = (r : Json) × (lookup n records ≡ some r)

  -- Every dependency of a record is a record, as `requirement_records` checks.
  abbrev pub IsComplete : Type 0
  IsComplete =
      (n d : String) (r : Json)
      → lookup n records ≡ some r
      → contains (deps_of r) d ≡ true
      → Known d

  -- A set of names that has the dependencies of its members
  abbrev pub IsClosed : List String → Type 0
  IsClosed q =
      (n d : String) (r : Json)
      → contains q n ≡ true
      → lookup n records ≡ some r
      → contains (deps_of r) d ≡ true
      → contains q d ≡ true

  pub reach_seen :
      (fuel : ℕ) (seen stack : List String) (n : String)
      → contains seen n ≡ true
      → reach (suc fuel) records seen (n ∷ stack) ≡ reach fuel records seen stack
  unfolding reach
  reach_seen fuel seen stack n h = rw (h, reach) refl

  pub reach_new :
      (fuel : ℕ) (seen stack : List String) (n : String) (r : Json)
      → contains seen n ≡ false
      → lookup n records ≡ some r
      → reach (suc fuel) records seen (n ∷ stack)
        ≡ reach fuel records (seen ++ n ∷ []) (push_all (deps_of r) stack)
  unfolding reach
  reach_new fuel seen stack n r h e = rw (h, e, reach) refl

  pub reach-none :
      (fuel : ℕ) (seen stack : List String) (n : String)
      → contains seen n ≡ false
      → lookup n records ≡ none
      → reach (suc fuel) records seen (n ∷ stack) ≡ err (raised "KeyError")
  unfolding reach
  reach-none fuel seen stack n h e = rw (h, e, reach) refl

  pub reach_empty : (fuel : ℕ) (seen : List String) → reach fuel records seen [] ≡ ok seen
  unfolding reach
  reach_empty zero seen = refl
  reach_empty (suc fuel) seen = refl

  pub reach_no_fuel :
      (seen stack : List String) (n : String)
      → reach zero records seen (n ∷ stack) ≡ err (raised "out of fuel")
  unfolding reach
  reach_no_fuel seen stack n = refl

  pub reach_total :
      IsComplete
      → (fuel : ℕ) (seen stack : List String) → ((k : String) → contains stack k ≡ true → Known k)
      → length stack + unseen seen records ≤ fuel
      → (res : List String) × (reach fuel records seen stack ≡ ok res)
  reach_total complete fuel seen [] known enough = (seen, reach_empty fuel seen)
  reach_total complete zero seen (n ∷ stack) known enough = absurd (omega arith)
  reach_total complete (suc fuel) seen (n ∷ stack) known enough =
      elim (Bool-cases (contains seen n)) [
        | inl old ↦
            let (res, e) =
              reach_total complete fuel seen stack (λ k m. known k (ground arith)) (omega arith) in
            (res, reach_seen fuel seen stack n old ∙ e)
        | inr new ↦
            let (r, found) = known n (ground (arith, eq_refl n)) in
            let (res, e) =
              reach_total complete fuel (seen ++ n ∷ []) (push_all (deps_of r) stack)
                (λ k m. elim (Bool-cases (contains (deps_of r) k)) [
                  | inl dep ↦ complete n k r found dep
                  | inr other ↦ known k (ground (arith, contains-push_all (deps_of r) stack k))
                ])
                (omega (
                  arith,
                  length-push_all (deps_of r) stack,
                  unseen-append n r seen records new found,
                )) in
            (res, reach_new fuel seen stack n r new found ∙ e)
      ]
