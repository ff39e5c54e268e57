-- ===== src/Base/Sets.antt =====
-- Python's `set[str]` as a list of texts that is added to only where it lacks the text, and
-- dictionaries with text keys in insertion order.
use freesense_os_base.Base.Tests.{if◌then◌else◌, Bool-cases}
use mathlib.Core.Path.{◌≡◌, refl, sym, subst, ◌∙◌}
use mathlib.Core.Logic.{inl, inr}
use Prim.Native.Nat.{ℕ, ◌≤◌, ◌<◌}
use freesense_os_base.Base.Lists.{any, length, keep_if}
use freesense_os_base.Base.Sort.{sorted, any-sorted}
use mathlib.Core.Bool.{Bool, true, false, ◌||◌, ◌&&◌, not}
use mathlib.Core.Option.{Option, none, some}
use mathlib.Core.List.{List, [], ◌∷◌, ◌++◌}
use Prim.Native.String.{String}
use text.Mathlib.Text.{◌==◌}
use text.Mathlib.TextEquality.{eq_iff}
use text.Mathlib.TextPositions.{eq_refl}
use native.Mathlib.Omega.{arith}

-- `text in items`
abbrev pub contains : List String → String → Bool
contains [] s = false
contains (t ∷ ts) s = t == s || contains ts s

-- `items.add(text)`
unfoldable pub add : String → List String → List String
add s ts = if contains ts s then ts else ts ++ s ∷ []

-- `items.update(texts)`
unfoldable pub add_all : List String → List String → List String
add_all [] ts = ts
add_all (s ∷ ss) ts = add_all ss (add s ts)

pub contains-append :
    (xs ys : List String) (s : String) → contains (xs ++ ys) s ≡ (contains xs s || contains ys s)
contains-append [] ys s = refl
contains-append (x ∷ xs) ys s = ground (arith, contains-append xs ys s)

pub contains-add :
    (s : String) (ts : List String) (t : String) → contains (add s ts) t ≡ (contains ts t || s == t)
unfolding add
contains-add s ts t = ground (arith, contains-append ts (s ∷ []) t, eq_iff s t)

pub contains-add_self : (s : String) (ts : List String) → contains (add s ts) s ≡ true
contains-add_self s ts = ground (arith, contains-add s ts s, eq_refl s)

pub contains-add_mono :
    (s : String) (ts : List String) (t : String)
    → contains ts t ≡ true
    → contains (add s ts) t ≡ true
contains-add_mono s ts t h = ground (arith, contains-add s ts t)

pub contains-add_all_mono :
    (ss ts : List String) (t : String) → contains ts t ≡ true → contains (add_all ss ts) t ≡ true
unfolding add_all
contains-add_all_mono [] ts t h = h
contains-add_all_mono (s ∷ ss) ts t h =
    contains-add_all_mono ss (add s ts) t (contains-add_mono s ts t h)

pub contains-add_all_of :
    (ss ts : List String) (t : String) → contains ss t ≡ true → contains (add_all ss ts) t ≡ true
unfolding add_all
contains-add_all_of [] ts t h = cc
contains-add_all_of (s ∷ ss) ts t h = ground (
  arith,
  eq_iff s t,
  contains-add_self s ts,
  contains-add_all_mono ss (add s ts) t,
  contains-add_all_of ss (add s ts) t,
)

pub contains-add_all :
    (ss ts : List String) (t : String)
    → contains (add_all ss ts) t ≡ (contains ss t || contains ts t)
unfolding add_all
contains-add_all [] ts t = refl
contains-add_all (s ∷ ss) ts t =
    ground (arith, contains-add_all ss (add s ts) t, contains-add s ts t)

-- How many of the texts a set lacks
abbrev pub missing : List String → List String → ℕ
missing rs ts = length (keep_if (λ r. not (contains ts r)) rs)

pub missing-add_le : (s : String) (rs ts : List String) → missing rs (add s ts) ≤ missing rs ts
missing-add_le s [] ts = omega arith
missing-add_le s (r ∷ rs) ts = ground (arith, missing-add_le s rs ts, contains-add_mono s ts r)

pub missing-add :
    (s : String) (rs ts : List String)
    → contains rs s ≡ true
    → contains ts s ≡ false
    → missing rs (add s ts) < missing rs ts
missing-add s [] ts h new = absurd (cc h)
missing-add s (r ∷ rs) ts h new = elim (Bool-cases (r == s)) [
  | inl e ↦
      let same = (eq_iff r s).0 e in
      let old = subst (λ t. contains ts t ≡ false) (sym same) new in
      let now = subst (λ t. contains (add s ts) t ≡ true) (sym same) (contains-add_self s ts) in
      rw (old, now) (omega (arith, missing-add_le s rs ts))
  | inr e ↦ ground (arith, missing-add s rs ts, contains-add s ts r, contains-add_mono s ts r)
]

abbrev pub Dict {ℓ} : Type ℓ → Type ℓ
Dict V = List (String × V)

module _ {ℓ} {V : Type ℓ} where
  -- `d.get(key)`
  unfoldable pub lookup : String → Dict V → Option V
  lookup k [] = none
  lookup k ((j, v) ∷ d) = if j == k then some v else lookup k d

  -- `d[key] = value`
  unfoldable pub insert : String → V → Dict V → Dict V
  insert k v [] = (k, v) ∷ []
  insert k v ((j, w) ∷ d) = if j == k then (j, v) ∷ d else (j, w) ∷ insert k v d

  -- `d[key].append(value)` on a `defaultdict(list)`
  unfoldable pub push : String → V → Dict (List V) → Dict (List V)
  push k v [] = (k, v ∷ []) ∷ []
  push k v ((j, vs) ∷ d) = if j == k then (j, vs ++ v ∷ []) ∷ d else (j, vs) ∷ push k v d

  -- `del d[key]`
  unfoldable pub remove : String → Dict V → Dict V
  remove k [] = []
  remove k ((j, v) ∷ d) = let rest = remove k d in if j == k then rest else (j, v) ∷ rest

  pub lookup-insert :
      (k j : String) (v : V) (d : Dict V)
      → lookup j (insert k v d) ≡ (if k == j then some v else lookup j d)
  unfolding lookup insert
  lookup-insert k j v [] = refl
  lookup-insert k j v ((i, w) ∷ d) =
      ground (arith, eq_iff k j, eq_iff i k, eq_iff i j, lookup-insert k j v d)

pub contains-any : (xs : List String) (s : String) → contains xs s ≡ any (λ t. t == s) xs
contains-any [] s = refl
contains-any (x ∷ xs) s = ground (arith, contains-any xs s)

-- `sorted` keeps the members of a set of texts.
pub contains-sorted :
    (le : String → String → Bool) (xs : List String) (s : String)
    → contains (sorted le xs) s ≡ contains xs s
contains-sorted le xs s =
    contains-any (sorted le xs) s ∙ any-sorted le (λ t. t == s) xs ∙ sym (contains-any xs s)

-- No text stands twice.
unfoldable pub distinct : List String → Bool
distinct [] = true
distinct (x ∷ xs) = not (contains xs x) && distinct xs

pub distinct-append :
    (xs : List String) (y : String) → distinct (xs ++ y ∷ []) ≡ (distinct xs && not (contains xs y))
unfolding distinct
distinct-append [] y = refl
distinct-append (x ∷ xs) y =
    ground (arith, distinct-append xs y, contains-append xs (y ∷ []) x, eq_iff x y, eq_iff y x)
