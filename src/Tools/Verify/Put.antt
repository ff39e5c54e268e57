-- ===== src/Tools/Verify/Put.antt =====
-- `package[key] = value` of scripts/resolve_worker_tools.py on the members of a document.
use freesense_os_base.Base.{
  ◌≡◌, refl, sym, subst, ap, ◌∙◌, String, ◌==◌, true, false, Option, none, some, List, [], ◌∷◌,
  if◌then◌else◌, arith, eq_iff, eq_refl, Bool-cases, Option-cases, inl, inr,
}
use freesense_os_base.Base.Json.{
  Json, Members, obj, member, done, find, get, or_null, elements, from_list,
}
use freesense_os_base.Release.Use.{update}
use freesense_os_base.Release.Use.Agreed.{find-update}
use freesense_os_base.Tools.Verify.{replace, put}

find-replace :
    (j k : String) (v : Json) (ms : Members)
    → find j (replace k v ms)
      ≡ elim (find j ms) [ none ↦ none | some w ↦ some (if k == j then v else w) ]
unfolding find replace
find-replace j k v done = refl
find-replace j k v (member i w ms) =
    ground (arith, find-replace j k v ms, eq_iff i j, eq_iff i k, eq_iff k j)

put-new : (k : String) (v : Json) (ms : Members) → find k ms ≡ none → put k v ms ≡ update k v ms
unfolding put
put-new k v ms h =
    ap (λ (o : Option Json). elim o [ none ↦ update k v ms | some w ↦ replace k v ms ]) h

put-old :
    (k : String) (v w : Json) (ms : Members) → find k ms ≡ some w → put k v ms ≡ replace k v ms
unfolding put
put-old k v w ms h =
    ap (λ (o : Option Json). elim o [ none ↦ update k v ms | some u ↦ replace k v ms ]) h

pub find-put :
    (j k : String) (v : Json) (ms : Members)
    → find j (put k v ms) ≡ (if k == j then some v else find j ms)
find-put j k v ms = elim (Option-cases (find k ms)) [
  | inl new ↦ ap (find j) (put-new k v ms new) ∙ find-update j k v ms
  | inr (w, old) ↦
      let same : (k == j) ≡ true → find j ms ≡ some w =
        λ e. subst (λ i. find i ms ≡ some w) ((eq_iff k j).0 e) old in
      ap (find j) (put-old k v w ms old) ∙ find-replace j k v ms ∙ ground (arith, same)
]

pub get-put : (k : String) (v : Json) (ms : Members) → get k (obj (put k v ms)) ≡ v
unfolding get
get-put k v ms = ap or_null (find-put k k v ms) ∙ rw (eq_refl k) refl

pub get-put_other :
    (j k : String) (v : Json) (ms : Members)
    → (k == j) ≡ false
    → get j (obj (put k v ms)) ≡ get j (obj ms)
unfolding get
get-put_other j k v ms other = ap or_null (find-put j k v ms) ∙ rw other refl

replace-replace :
    (k : String) (v : Json) (ms : Members) → replace k v (replace k v ms) ≡ replace k v ms
unfolding replace
replace-replace k v done = refl
replace-replace k v (member i w ms) = elim (Bool-cases (i == k)) [
  | inl here ↦ rw (here, replace-replace k v ms) refl
  | inr other ↦ rw (other, replace-replace k v ms) refl
]

replace-update :
    (k : String) (v : Json) (ms : Members)
    → find k ms ≡ none
    → replace k v (update k v ms) ≡ update k v ms
unfolding find replace update
replace-update k v done h = rw (eq_refl k) refl
replace-update k v (member i w ms) h =
    let (rest, other) = absent i w ms h in rw (other, replace-update k v ms rest) refl
  where
    absent :
        (i : String) (w : Json) (ms : Members)
        → find k (member i w ms) ≡ none
        → (find k ms ≡ none) × ((i == k) ≡ false)
    absent i w ms h = ground arith

pub put-put : (k : String) (v : Json) (ms : Members) → put k v (put k v ms) ≡ put k v ms
put-put k v ms =
    let held : find k (put k v ms) ≡ some v = find-put k k v ms ∙ rw (eq_refl k) refl in
    put-old k v v (put k v ms) held ∙ elim (Option-cases (find k ms)) [
      | inl new ↦
          let e = put-new k v ms new in ap (replace k v) e ∙ replace-update k v ms new ∙ sym e
      | inr (w, old) ↦
          let e = put-old k v w ms old in ap (replace k v) e ∙ replace-replace k v ms ∙ sym e
    ]

pub elements-from_list : (vs : List Json) → elements (from_list vs) ≡ vs
unfolding elements from_list
elements-from_list [] = refl
elements-from_list (v ∷ vs) = ap (λ l. v ∷ l) (elements-from_list vs)
