-- ===== src/Shards/Cover.antt =====
-- `batches` of scripts/partition_roots.py: the batches against the roots and the measured costs.
use freesense_os_base.Base.{
  ℕ, zero, suc, Bool, true, Option, none, Error, all, ◌>>=◌, ◌+◌, ◌≤◌, ◌≡◌, refl, sym, ap, subst,
  ◌∙◌, ◌⊎◌, inl, inr, String, ◌&&◌, false, some, List, [], ◌∷◌, ◌++◌, ltb, Result, ok, err, raised,
  >>=-eq-ok, ok-injective, or_raise, or_raise-eq-ok, All, All-append, sum_by, sum_by-append,
  Bool-cases, arith,
}
use freesense_os_base.Base.Sets.{Dict, lookup}
use freesense_os_base.Base.Json.{Json, pos, negsuc, int, null, bool, str, arr, obj}
use freesense_os_base.Shards.{
  as_cost, cost_of, Cutting, nothing_cut, is_started, flush, cut_root, cut_all, pieces, cumulative,
  positive, batches,
}

unfoldable pub join : List (List String) → List String
join [] = []
join (p ∷ ps) = p ++ join ps

append_nil : (xs : List String) → xs ++ [] ≡ xs
append_nil [] = refl
append_nil (x ∷ xs) = ap (λ t. x ∷ t) (append_nil xs)

append_assoc : (xs ys zs : List String) → (xs ++ ys) ++ zs ≡ xs ++ (ys ++ zs)
append_assoc [] ys zs = refl
append_assoc (x ∷ xs) ys zs = ap (λ t. x ∷ t) (append_assoc xs ys zs)

join-append : (ps : List (List String)) (p : List String) → join (ps ++ p ∷ []) ≡ join ps ++ p
unfolding join
join-append [] p = append_nil p
join-append (q ∷ ps) p = ap (λ t. q ++ t) (join-append ps p) ∙ sym (append_assoc q (join ps) p)

abbrev or_zero : Result ℕ → ℕ
or_zero (ok n) = n
or_zero (err e) = 0

-- The cost of a root, 0 where `batches` refuses it
unfoldable pub measured : Dict Json → ℕ → String → ℕ
measured costs default root = or_zero (cost_of costs default root)

ltb-false : (limit n : ℕ) → ltb limit n ≡ false → n ≤ limit
ltb-false limit n h = ground arith

module _ (costs : Dict Json) (limit default : ℕ) where
  -- A batch costs no more than the limit, or it is one root.
  abbrev pub Fits : List String → Type 0
  Fits p = (sum_by (measured costs default) p ≤ limit) ⊎ ((r : String) × (p ≡ r ∷ []))

  record IsCut (seen : List String) (s : Cutting) : Type 0 where
    cover : join s.result ++ s.current ≡ seen
    spent : sum_by (measured costs default) s.current ≡ s.elapsed
    within : s.elapsed ≤ limit
    closed : All Fits s.result

  flush-IsCut : (seen : List String) (s : Cutting) → IsCut seen s → IsCut seen (flush s)
  unfolding flush
  flush-IsCut seen s i = record {
    cover = append_nil _ ∙ join-append s.result s.current ∙ i.cover;
    spent = refl;
    within = omega arith;
    closed = All-append Fits s.result (s.current ∷ []) i.closed (inl (rw i.spent i.within), tt);
  }

  add_alone :
      (seen : List String) (s : Cutting) (root : String)
      → IsCut seen s
      → s.current ≡ []
      → IsCut (seen ++ root ∷ []) (record s { result = s.result ++ (root ∷ []) ∷ [] })
  add_alone seen s root i none_open = record {
    cover = rw none_open (
        append_nil _
        ∙ join-append s.result (root ∷ [])
        ∙ ap (λ t. t ++ root ∷ [])
            (sym (append_nil _) ∙ ap (λ t. join s.result ++ t) (sym none_open) ∙ i.cover));
    spent = i.spent;
    within = i.within;
    closed = All-append Fits s.result ((root ∷ []) ∷ []) i.closed (inr (root, refl), tt);
  }

  add_to :
      (seen : List String) (s : Cutting) (root : String) (cost : ℕ)
      → IsCut seen s
      → measured costs default root ≡ cost
      → s.elapsed + cost ≤ limit
      → IsCut
          (seen ++ root ∷ [])
          (record s { current = s.current ++ root ∷ []; elapsed = s.elapsed + cost })
  add_to seen s root cost i is_cost fits = record {
    cover =
        sym (append_assoc (join s.result) s.current (root ∷ [])) ∙ ap (λ t. t ++ root ∷ []) i.cover;
    spent =
        omega
          (arith, sum_by-append (measured costs default) s.current (root ∷ []), i.spent, is_cost);
    within = fits;
    closed = i.closed;
  }

  not_started : (xs : List String) → is_started xs ≡ false → xs ≡ []
  not_started [] h = refl
  not_started (x ∷ xs) h = cc h

  nothing_spent :
      (xs : List String) → is_started xs ≡ false → sum_by (measured costs default) xs ≡ 0
  nothing_spent [] h = refl
  nothing_spent (x ∷ xs) h = cc h

  has_room :
      (seen : List String) (s : Cutting) (cost : ℕ)
      → IsCut seen s
      → ltb limit cost ≡ false
      → is_started s.current && ltb limit (s.elapsed + cost) ≡ false
      → s.elapsed + cost ≤ limit
  has_room seen s cost i under room = elim (Bool-cases (is_started s.current)) [
    | inl begun ↦ ltb-false limit (s.elapsed + cost) (rw begun at room)
    | inr idle ↦ omega (arith, ltb-false limit cost under, nothing_spent s.current idle, i.spent)
  ]

  cut_root-IsCut :
      (seen : List String) (s : Cutting) (root : String) (cost : ℕ)
      → IsCut seen s
      → measured costs default root ≡ cost
      → IsCut (seen ++ root ∷ []) (cut_root limit s root cost)
  unfolding cut_root
  cut_root-IsCut seen s root cost i is_cost = elim (Bool-cases (ltb limit cost)) [
    | inl over ↦ elim (Bool-cases (is_started s.current)) [
      | inl begun ↦
          rw (over, begun)
            (add_alone seen (flush s) root (flush-IsCut seen s i) (unfold flush in refl))
      | inr idle ↦ rw (over, idle) (add_alone seen s root i (not_started s.current idle))
    ]
    | inr under ↦ elim (Bool-cases (is_started s.current && ltb limit (s.elapsed + cost))) [
      | inl full ↦
          rw (under, full)
            (add_to seen (flush s) root cost (flush-IsCut seen s i) is_cost
              (unfold flush in omega (arith, ltb-false limit cost under)))
      | inr room ↦
          rw (under, room) (add_to seen s root cost i is_cost (has_room seen s cost i under room))
    ]
  ]

  measured-cost_of :
      (root : String) (cost : ℕ)
      → cost_of costs default root ≡ ok cost
      → measured costs default root ≡ cost
  unfolding measured
  measured-cost_of root cost h = ap or_zero h

  cut_all-IsCut :
      (seen roots : List String) (s t : Cutting)
      → IsCut seen s
      → cut_all costs limit default s roots ≡ ok t
      → IsCut (seen ++ roots) t
  unfolding cut_all
  cut_all-IsCut seen [] s t i h =
      subst (λ r. IsCut (seen ++ []) r) (ok-injective h)
        (subst (λ l. IsCut l s) (sym (append_nil seen)) i)
  cut_all-IsCut seen (root ∷ roots) s t i h =
      let (cost, is_cost, h1) = >>=-eq-ok (cost_of costs default root) _ h in
      subst (λ l. IsCut l t) (append_assoc seen (root ∷ []) roots)
        (cut_all-IsCut (seen ++ root ∷ []) roots (cut_root limit s root cost) t
          (cut_root-IsCut seen s root cost i (measured-cost_of root cost is_cost)) h1)

  pieces-IsCut :
      (seen : List String) (s : Cutting)
      → IsCut seen s
      → (join (pieces s) ≡ seen) × All Fits (pieces s)
  unfolding pieces
  pieces-IsCut seen s i = elim (Bool-cases (is_started s.current)) [
    | inl begun ↦ let f = flush-IsCut seen s i in rw begun (sym (append_nil _) ∙ f.cover, f.closed)
    | inr idle ↦ rw idle (
      sym (append_nil _)
          ∙ ap (λ l. join s.result ++ l) (sym (not_started s.current idle))
          ∙ i.cover,
      i.closed,
    )
  ]

positive_pos : (n m : ℕ) → positive (pos n) ≡ some m → n ≡ m
positive_pos zero m h = cc h
positive_pos (suc n) m h = cc h

-- Where `batches` returns, its result is the growing unions of batches that, one after another, are
-- the roots in their order; each batch costs no more than the limit, or is a single root.
pub batches-cover :
    (roots : List String) (costs : Dict Json) (limit default : ℕ) (result : List (List String))
    → batches roots costs (pos limit) (pos default) ≡ ok result
    → (ps : List (List String)) × (result ≡ cumulative [] ps)
      × (join ps ≡ roots)
      × All (Fits costs limit default) ps
unfolding batches join
batches-cover roots costs limit default result h =
    let (l, is_l, h1) =
      >>=-eq-ok (or_raise (positive (pos limit)) (raised "invalid batch watchdog")) _ h in
    let (d, is_d, h2) =
      >>=-eq-ok (or_raise (positive (pos default)) (raised "invalid batch watchdog")) _ h1 in
    let (s, is_s, h3) = >>=-eq-ok (cut_all costs l d nothing_cut roots) _ h2 in
    let same_l : limit ≡ l = positive_pos limit l (or_raise-eq-ok _ _ is_l) in
    let same_d : default ≡ d = positive_pos default d (or_raise-eq-ok _ _ is_d) in
    let start : IsCut costs l d [] nothing_cut = record {
      cover = refl;
      spent = refl;
      within = omega arith;
      closed = tt;
    } in
    let (covers, fit) =
      pieces-IsCut costs l d roots s (cut_all-IsCut costs l d [] roots nothing_cut s start is_s) in
    (
      pieces s,
      sym (ok-injective h3),
      covers,
      subst (λ x. All (Fits costs x default) (pieces s)) (sym same_l)
          (subst (λ x. All (Fits costs l x) (pieces s)) (sym same_d) fit),
    )

-- A root without a measured cost, or with one that is an integer and not negative
is_priced : Option Json → Bool
is_priced none = true
is_priced (some (int (pos n))) = true
is_priced (some _) = false

unfoldable pub has_cost : Dict Json → String → Bool
unfolding is_priced lookup
has_cost costs root = is_priced (lookup root costs)

abbrev wrong_cost : Error
wrong_cost = raised "invalid measured cost: "

-- What `cost_of` makes of a root by `has_cost`
abbrev Priced : Bool → Result ℕ → Type 0
Priced true r = (n : ℕ) × (r ≡ ok n)
Priced false r = r ≡ err wrong_cost

as_cost-Priced : (default : ℕ) (o : Option Json) → Priced (is_priced o) (as_cost default o)
unfolding as_cost is_priced
as_cost-Priced default none = (default, refl)
as_cost-Priced default (some (int (pos n))) = (n, refl)
as_cost-Priced default (some (int (negsuc n))) = refl
as_cost-Priced default (some null) = refl
as_cost-Priced default (some (bool b)) = refl
as_cost-Priced default (some (str s)) = refl
as_cost-Priced default (some (arr es)) = refl
as_cost-Priced default (some (obj ms)) = refl

module _ (costs : Dict Json) (limit default : ℕ) where
  cost_of-Priced : (root : String) → Priced (has_cost costs root) (cost_of costs default root)
  unfolding cost_of has_cost
  cost_of-Priced root = as_cost-Priced default (lookup root costs)

  -- What the loop over the roots comes to
  abbrev Cut : Bool → Result Cutting → Type 0
  Cut true r = (t : Cutting) × (r ≡ ok t)
  Cut false r = r ≡ err wrong_cost

  cut_all-Cut :
      (s : Cutting) (roots : List String)
      → Cut (all (has_cost costs) roots) (cut_all costs limit default s roots)
  unfolding cut_all
  cut_all-Cut s [] = (s, refl)
  cut_all-Cut s (root ∷ roots) = elim (Bool-cases (has_cost costs root)) [
    | inl priced ↦
        let (cost, is_cost) =
          subst (λ b. Priced b (cost_of costs default root)) priced (cost_of-Priced root) in
        subst
          (λ b.
            Cut (b && all (has_cost costs) roots) (cut_all costs limit default s (root ∷ roots)))
          (sym priced)
          (subst
            (λ r.
              Cut (all (has_cost costs) roots)
                (r >>= λ n. cut_all costs limit default (cut_root limit s root n) roots))
            (sym is_cost) (cut_all-Cut (cut_root limit s root cost) roots))
    | inr wrong ↦
        let refused =
          subst (λ b. Priced b (cost_of costs default root)) wrong (cost_of-Priced root) in
        subst
          (λ b.
            Cut (b && all (has_cost costs) roots) (cut_all costs limit default s (root ∷ roots)))
          (sym wrong)
          (subst
            (λ r.
              (r >>= λ n. cut_all costs limit default (cut_root limit s root n) roots)
              ≡ err wrong_cost)
            (sym refused) refl)
  ]

-- What `batches` gives, by whether each root has a valid cost
abbrev pub Outcome : Dict Json → ℕ → ℕ → List String → Bool → Result (List (List String)) → Type 0
Outcome costs limit default roots true r =
    (ps : List (List String)) × (r ≡ ok (cumulative [] ps))
    × (join ps ≡ roots)
    × All (Fits costs limit default) ps
Outcome costs limit default roots false r = r ≡ err wrong_cost

-- With a limit and a default above zero, `batches` returns exactly if each root has no measured cost or
-- one that is an integer and not negative; its result is then the growing unions of batches that are the
-- roots in their order, each within the limit or a single root. Otherwise it refuses the cost.
pub batches-Outcome :
    (roots : List String) (costs : Dict Json) (l d : ℕ)
    → Outcome costs
        (suc l)
        (suc d)
        roots
        (all (has_cost costs) roots)
        (batches roots costs (pos (suc l)) (pos (suc d)))
unfolding batches
batches-Outcome roots costs l d = elim (Bool-cases (all (has_cost costs) roots)) [
  | inl priced ↦
      let (t, e) =
        subst (λ b. Cut costs (suc l) (suc d) b (cut_all costs (suc l) (suc d) nothing_cut roots))
          priced (cut_all-Cut costs (suc l) (suc d) nothing_cut roots) in
      let returns : batches roots costs (pos (suc l)) (pos (suc d))
          ≡ ok (cumulative [] (pieces t)) =
        rw e refl in
      let (ps, same, cover, fit) =
        batches-cover roots costs (suc l) (suc d) (cumulative [] (pieces t)) returns in
      subst
        (λ b.
          Outcome costs (suc l) (suc d) roots b (batches roots costs (pos (suc l)) (pos (suc d))))
        (sym priced) (ps, returns ∙ ap ok same, cover, fit)
  | inr wrong ↦
      let e =
        subst (λ b. Cut costs (suc l) (suc d) b (cut_all costs (suc l) (suc d) nothing_cut roots))
          wrong (cut_all-Cut costs (suc l) (suc d) nothing_cut roots) in
      subst
        (λ b.
          Outcome costs (suc l) (suc d) roots b (batches roots costs (pos (suc l)) (pos (suc d))))
        (sym wrong) (rw e refl)
]
