-- ===== src/Shards/Partition/Times.antt =====
-- How often a text stands in lists that `partition` of scripts/partition_roots.py makes.
use freesense_os_base.Base.{
  ℕ, ◌+◌, ◌≡◌, refl, subst, ap, ◌∙◌, String, ◌==◌, Bool, ◌||◌, not, true, false, List, [], ◌∷◌,
  ◌++◌, ltb, if◌then◌else◌, keep_if, any, sum_by, sum_by-append, All, arith, eq_iff, Bool-cases,
  inl, inr,
}
use freesense_os_base.Base.Sets.{
  contains, contains-add_all, contains-append, contains-sorted, add, add_all,
}
use freesense_os_base.Base.Sort.{leb_text, sorted, sum_by-sorted}
use freesense_os_base.Shards.Cover.{join}
use freesense_os_base.Shards.Partition.{sorted_set}

abbrev pub bit : Bool → ℕ
bit b = if b then 1 else 0

abbrev pub times : String → List String → ℕ
times n xs = sum_by (λ x. bit (x == n)) xs

pub contains-times : (n : String) (xs : List String) → contains xs n ≡ ltb 0 (times n xs)
contains-times n [] = refl
contains-times n (x ∷ xs) = ground (arith, contains-times n xs)

pub times-sorted :
    (le : String → String → Bool) (n : String) (xs : List String)
    → times n (sorted le xs) ≡ times n xs
times-sorted le n xs = sum_by-sorted le (λ x. bit (x == n)) xs

abbrev IsOnce : List String → Type 0
IsOnce xs = (n : String) → times n xs ≡ bit (contains xs n)

add-IsOnce : (s : String) (xs : List String) → IsOnce xs → IsOnce (add s xs)
unfolding add
add-IsOnce s xs h n = elim (Bool-cases (contains xs s)) [
  | inl old ↦ rw old (h n)
  | inr new ↦ rw new (
      let split : times n (xs ++ s ∷ []) ≡ times n xs + times n (s ∷ []) =
        sum_by-append (λ x. bit (x == n)) xs (s ∷ []) in
      let none_yet : (s == n) ≡ true → contains xs n ≡ false =
        λ e. subst (λ m. contains xs m ≡ false) ((eq_iff s n).0 e) new in
      ground (arith, split, h n, none_yet, contains-append xs (s ∷ []) n))
]

add_all-IsOnce : (ss xs : List String) → IsOnce xs → IsOnce (add_all ss xs)
unfolding add_all
add_all-IsOnce [] xs h = h
add_all-IsOnce (s ∷ ss) xs h = add_all-IsOnce ss (add s xs) (add-IsOnce s xs h)

contains_or_none : (b : Bool) → (b || false) ≡ b
contains_or_none true = refl
contains_or_none false = refl

pub contains-sorted_set :
    (xs : List String) (n : String) → contains (sorted_set xs) n ≡ contains xs n
unfolding sorted_set
contains-sorted_set xs n =
    contains-sorted leb_text (add_all xs []) n
    ∙ contains-add_all xs [] n
    ∙ contains_or_none (contains xs n)

pub times-sorted_set :
    (n : String) (xs : List String) → times n (sorted_set xs) ≡ bit (contains xs n)
unfolding sorted_set
times-sorted_set n xs =
    times-sorted leb_text n (add_all xs [])
    ∙ add_all-IsOnce xs [] (λ m. refl) n
    ∙ ap bit (contains-add_all xs [] n ∙ contains_or_none (contains xs n))

pub times-keep_if :
    (p : String → Bool) (n : String) (xs : List String)
    → times n (keep_if p xs) ≡ (if p n then times n xs else 0)
times-keep_if p n [] = ground arith
times-keep_if p n (x ∷ xs) =
    let same : (x == n) ≡ true → p x ≡ p n = λ e. ap p ((eq_iff x n).0 e) in
    ground (arith, same, times-keep_if p n xs)

pub times-join : (n : String) (gs : List (List String)) → times n (join gs) ≡ sum_by (times n) gs
unfolding join
times-join n [] = refl
times-join n (g ∷ gs) =
    sum_by-append (λ x. bit (x == n)) g (join gs) ∙ ap (λ k. times n g + k) (times-join n gs)

pub any-contains :
    (p : String → Bool) (xs : List String) (n : String)
    → contains xs n ≡ true
    → p n ≡ true
    → any p xs ≡ true
any-contains p [] n h e = cc h
any-contains p (x ∷ xs) n h e =
    let same : (x == n) ≡ true → p x ≡ p n = λ i. ap p ((eq_iff x n).0 i) in
    ground (arith, same, any-contains p xs n)

module _ {ℓ} {A : Type ℓ} where
  pub sum_by-keep_if :
      (f : A → ℕ) (p : A → Bool) (xs : List A)
      → sum_by f (keep_if (λ x. not (p x)) xs) + sum_by f (keep_if p xs) ≡ sum_by f xs
  sum_by-keep_if f p [] = refl
  sum_by-keep_if f p (x ∷ xs) = ground (arith, sum_by-keep_if f p xs)

  pub All-keep_if {κ ι} :
      (P : A → Type κ) (Q : A → Type ι) (p : A → Bool)
      → ((x : A) → p x ≡ true → P x → Q x)
      → (xs : List A) → All P xs
      → All Q (keep_if p xs)
  All-keep_if P Q p f [] h = tt
  All-keep_if P Q p f (x ∷ xs) (h, hs) = elim (Bool-cases (p x)) [
    | inl here ↦ rw here (f x here h, All-keep_if P Q p f xs hs)
    | inr no_more ↦ rw no_more (All-keep_if P Q p f xs hs)
  ]
