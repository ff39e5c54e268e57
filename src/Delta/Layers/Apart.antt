-- ===== src/Delta/Layers/Apart.antt =====
-- `plan` of scripts/delta_closure.py: what its two layers share and what they need of one another.
use freesense_os_base.Base.{
  ◌≡◌, refl, sym, subst, ap, ◌∙◌, String, ◌==◌, Bool, ◌&&◌, ◌||◌, not, true, false, none, List, [],
  ◌∷◌, ◌++◌, any, map, arith, eq_iff, Bool-cases, Option-cases, inl, inr, ok, >>=-eq-ok,
  ok-injective, if◌then◌else◌, keep_if, map_results,
}
use mathlib.Core.Bool.{false≢true}
use freesense_os_base.Base.Json.{Json, get, text_where}
use freesense_os_base.Base.Sort.{leb_text, sorted, any-sorted}
use freesense_os_base.Base.Sets.{Dict, contains, lookup, contains-sorted, contains-append}
use freesense_os_base.Delta.Worklist.{names, dependents, reachable}
use freesense_os_base.Delta.Worklist.Seen.{Known}
use freesense_os_base.Delta.Worklist.Forced.{dependents_closed}
use freesense_os_base.Delta.Worklist.Parents.{depends}
use freesense_os_base.Delta.Records.{requirement_records, published, root_names}
use freesense_os_base.Delta.Classify.{
  eligibility, reason_after, classify_all, classify, leb_name, churn,
}
use freesense_os_base.Delta.Layers.{
  Built, Delta, Layers, both, minus, origin_of, built, ported, layers, delta_of, plan,
}
use freesense_os_base.Delta.Layers.Complete.{requirement_records-Checked}

contains-keep_if :
    (p : String → Bool) (xs : List String) (n : String)
    → contains (keep_if p xs) n ≡ (contains xs n && p n)
contains-keep_if p [] n = refl
contains-keep_if p (x ∷ xs) n = elim (Bool-cases (x == n)) [
  | inl here ↦
      let same : p x ≡ p n = ap p ((eq_iff x n).0 here) in
      ground (arith, contains-keep_if p xs n, same)
  | inr other ↦ ground (arith, contains-keep_if p xs n)
]

contains-names :
    {V : Type 0} (d : Dict V) (n : String) → contains (names d) n ≡ any (λ e. e.0 == n) d
contains-names [] n = refl
contains-names ((m, v) ∷ d) n = ground (arith, contains-names d n)

contains-names-sorted :
    (d : Dict Json) (n : String) → contains (names (sorted leb_name d)) n ≡ contains (names d) n
contains-names-sorted d n =
    contains-names (sorted leb_name d) n
    ∙ any-sorted leb_name (λ e. e.0 == n) d
    ∙ sym (contains-names d n)

told : (t : String) → (t == "") ≡ false → (ok t ≡ ok "") → ⊥
told t h e = false≢true (sym h ∙ (eq_iff t "").1 (ok-injective e))

reason_after-none :
    (overridden : List String) (upstream : Dict Json) (n : String) (r : Json) (own : String)
    → reason_after overridden upstream n r own ≡ ok ""
    → lookup n upstream ≡ none
    → ⊥
unfolding reason_after
reason_after-none overridden upstream n r own h absent = elim (Bool-cases (own == "")) [
  | inr claimed ↦ told own claimed (rw claimed at h)
  | inl free ↦ elim (Bool-cases (text_where (contains overridden) (get "origin" r))) [
    | inl option ↦ told "options-override" refl (rw (free, option) at h)
    | inr plain ↦ told "absent-upstream" refl (rw (free, plain, absent) at h)
  ]
]

names_rest :
    (reason m n : String) (rest causes : Dict String)
    → (if reason == "" then rest else (m, reason) ∷ rest) ≡ causes
    → contains (names causes) n ≡ false
    → contains (names rest) n ≡ false
names_rest reason m n rest causes e h = elim (Bool-cases (reason == "")) [
  | inl silent ↦
      let same : rest ≡ causes = rw silent at e in
      subst (λ (d : Dict String). contains (names d) n ≡ false) (sym same) h
  | inr spoken ↦
      let same : (m, reason) ∷ rest ≡ causes = rw spoken at e in
      let all_of : contains (names {V = String} ((m, reason) ∷ rest)) n ≡ false =
        subst (λ (d : Dict String). contains (names d) n ≡ false) (sym same) h in
      ground arith
]

-- What has no cause is published upstream.
classify_all-Known :
    (overridden : List String) (upstream records : Dict Json) (causes : Dict String) (n : String)
    → classify_all overridden upstream records ≡ ok causes
    → contains (names records) n ≡ true
    → contains (names causes) n ≡ false
    → Known upstream n
unfolding classify_all
classify_all-Known overridden upstream [] causes n h listed no_cause = cc listed
classify_all-Known overridden upstream ((m, r) ∷ records) causes n h listed no_cause =
    let (own, _, h1) = >>=-eq-ok (eligibility r) _ h in
    let (reason, is_reason, h2) = >>=-eq-ok (reason_after overridden upstream m r own) _ h1 in
    let (rest, is_rest, h3) = >>=-eq-ok (classify_all overridden upstream records) _ h2 in
    let is_causes : (if reason == "" then rest else (m, reason) ∷ rest) ≡ causes =
      ok-injective h3 in
    elim (Bool-cases (m == n)) [
      | inl here ↦ elim (Bool-cases (reason == "")) [
        | inl silent ↦ elim (Option-cases (lookup n upstream)) [
          | inl absent ↦ absurd (
              reason_after-none overridden upstream m r own
                (is_reason ∙ ap ok ((eq_iff reason "").0 silent))
                (subst (λ x. lookup x upstream ≡ none) (sym ((eq_iff m n).0 here)) absent))
          | inr found ↦ found
        ]
        | inr spoken ↦
            let e : (m, reason) ∷ rest ≡ causes = rw spoken at is_causes in
            absurd (
              false≢true (
                sym no_cause
                ∙ subst (λ (d : Dict String). contains (names d) n ≡ true) e (ground arith)))
      ]
      | inr later ↦
          classify_all-Known overridden upstream records rest n is_rest (ground arith)
            (names_rest reason m n rest causes is_causes no_cause)
    ]

taken_apart : (known build : Bool) → known ≡ true → (build ≡ true → ⊥) → (known && not build) ≡ true
taken_apart known true k clash = absurd (clash refl)
taken_apart known false k clash = ground arith

module _ (records : Dict Json) where
  names_of_build :
      (ns : List String) (causes : Dict String) (bs : List Built)
      → map_results (built records causes) ns ≡ ok bs
      → map (λ (b : Built). b.name) bs ≡ ns
  unfolding map_results built
  names_of_build [] causes bs h =
      subst (λ (x : List Built). map (λ (b : Built). b.name) x ≡ []) (ok-injective h) refl
  names_of_build (n ∷ ns) causes bs h =
      let (b, is_b, h1) = >>=-eq-ok (built records causes n) _ h in
      let (rest, is_rest, h2) = >>=-eq-ok (map_results (built records causes) ns) _ h1 in
      let (origin, _, is_built) = >>=-eq-ok (origin_of records n) _ is_b in
      let name : n ≡ b.name = ap (λ (x : Built). x.name) (ok-injective is_built) in
      subst (λ (x : List Built). map (λ (y : Built). y.name) x ≡ n ∷ ns) (ok-injective h2)
        (ap (λ m. m ∷ map (λ (y : Built). y.name) rest) (sym name)
          ∙ ap (λ l. n ∷ l) (names_of_build ns causes rest is_rest))

-- The names of the packages that a plan builds
abbrev pub built_names : Delta → List String
built_names d = map (λ b. b.name) d.build

delta_of_parts :
    (requirements : Json) (l : Layers) (d : Delta)
    → delta_of requirements l ≡ ok d
    → (d.take ≡ sorted leb_text (minus (names l.records) l.build))
      × (built_names d ≡ sorted leb_text l.build)
unfolding delta_of
delta_of_parts requirements l d h =
    let (_, _, h1) = >>=-eq-ok (reachable l.records (root_names "system" requirements)) _ h in
    let (_, _, h2) = >>=-eq-ok (reachable l.records (root_names "packages" requirements)) _ h1 in
    let (bs, is_bs, h3) =
      >>=-eq-ok (map_results (built l.records l.causes) (sorted leb_text l.build)) _ h2 in
    let (_, _, h4) =
      >>=-eq-ok (map_results (ported l.records) (sorted leb_text (both l.build (names l.upstream))))
        _ h3 in
    let (_, _, h5) = >>=-eq-ok (churn l.records l.upstream l.build) _ h4 in
    (
      sym (ap (λ (x : Delta). x.take) (ok-injective h5)),
      ap (λ (x : Delta). built_names x) (sym (ok-injective h5))
          ∙ names_of_build l.records (sorted leb_text l.build) l.causes bs is_bs,
    )

record Parts (requirements : Json) (catalogue : List Json) (overridden : List String) (l : Layers)
    : Type 0 where
  is_records : requirement_records requirements ≡ ok l.records
  is_causes :
      classify_all overridden (published catalogue) (sorted leb_name l.records) ≡ ok l.causes
  is_build : l.build ≡ names l.causes ++ dependents l.records (names l.causes)

layers-Parts :
    (requirements : Json) (catalogue : List Json) (overridden : List String) (l : Layers)
    → layers requirements catalogue overridden ≡ ok l
    → Parts requirements catalogue overridden l
unfolding layers classify
layers-Parts requirements catalogue overridden l h =
    let (records, is_records, h1) = >>=-eq-ok (requirement_records requirements) _ h in
    let (causes, is_causes, h2) =
      >>=-eq-ok (classify_all overridden (published catalogue) (sorted leb_name records)) _ h1 in
    subst (Parts requirements catalogue overridden) (ok-injective h2)
      (record { is_records = is_records; is_causes = is_causes; is_build = refl })

-- What a plan promises of its two layers
pub record AreApart (requirements : Json) (catalogue : List Json) (overridden : List String)
    (d : Delta) : Type 0 where
  pub records : Dict Json
  pub is_records : requirement_records requirements ≡ ok records
  pub split :
      (n : String)
      → contains d.take n ≡ (contains (names records) n && not (contains (built_names d) n))
  pub independent :
      (n m : String)
      → contains d.take n ≡ true
      → depends records n m ≡ true
      → contains d.take m ≡ true
  pub available : (n : String) → contains d.take n ≡ true → Known (published catalogue) n

-- The layers of a plan that succeeds: a record of the requirements is taken from the mirror exactly
-- if it is not built; what a taken package depends on is taken too, so nothing upstream runs against
-- a package of FreeSense's; and each taken package is published upstream under one unambiguous record.
pub plan-AreApart :
    (requirements : Json) (catalogue : List Json) (overridden : List String) (d : Delta)
    → plan requirements catalogue overridden ≡ ok d
    → AreApart requirements catalogue overridden d
unfolding plan
plan-AreApart requirements catalogue overridden d h =
    let (l, is_l, h1) = >>=-eq-ok (layers requirements catalogue overridden) _ h in
    let parts = layers-Parts requirements catalogue overridden l is_l in
    let checked = requirement_records-Checked requirements l.records parts.is_records in
    let (is_take, is_built) = delta_of_parts requirements l d h1 in
    let built_eq : (n : String) → contains (built_names d) n ≡ contains l.build n =
      λ n. ap (λ ns. contains ns n) is_built ∙ contains-sorted leb_text l.build n in
    let take_eq : (n : String)
        → contains d.take n ≡ (contains (names l.records) n && not (contains l.build n)) =
      λ n.
        ap (λ ns. contains ns n) is_take
        ∙ contains-sorted leb_text (minus (names l.records) l.build) n
        ∙ contains-keep_if (λ x. not (contains l.build x)) (names l.records) n in
    let build_eq : (n : String)
        → contains l.build n
          ≡ (contains (names l.causes) n || contains (dependents l.records (names l.causes)) n) =
      λ n. ap (λ ns. contains ns n) parts.is_build ∙ contains-append (names l.causes) _ n in
    record {
      records = l.records;
      is_records = parts.is_records;
      split = λ n. rw (built_eq n) (take_eq n);
      independent = λ n m taken edge.
          take_eq m
          ∙ taken_apart (contains (names l.records) m) (contains l.build m) (checked.edges n m edge)
              (λ in_build. absurd (
                false≢true (
                  ground (arith, take_eq n)
                  ∙ build_eq n
                  ∙ dependents_closed l.records (names l.causes) m n edge
                      (sym (build_eq m) ∙ in_build))));
      available = λ n taken.
          classify_all-Known overridden (published catalogue) (sorted leb_name l.records) l.causes n
            parts.is_causes (contains-names-sorted l.records n ∙ ground (arith, take_eq n))
            (ground (arith, take_eq n, build_eq n));
    }
