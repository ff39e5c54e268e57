-- ===== src/Shards/Partition/Placed.antt =====
-- The loop of `partition` of scripts/partition_roots.py that places the groups on the shards.
use freesense_os_base.Base.{
  ℕ, zero, suc, ◌+◌, ◌≤◌, ◌<◌, ◌≡◌, refl, sym, subst, ap, ◌∙◌, String, ◌==◌, true, false, List, [],
  ◌∷◌, ◌++◌, map, ltb, if◌then◌else◌, length, length-append, take, sum_by, sum_by-append, All,
  arith,
}
use freesense_os_base.Base.Sets.{contains, contains-append}
use freesense_os_base.Base.Json.{ℤ}
use freesense_os_base.Shards.Partition.{
  Weighed, Shard, extend_shard, extend_at, least, lightest, skip_shards, place_all,
}
use freesense_os_base.Shards.Partition.Times.{times}

-- How often the shards hold a root
abbrev pub total : String → List Shard → ℕ
total n = sum_by (λ shard. times n shard.roots)

-- How often the groups hold a root
abbrev pub due : String → List Weighed → ℕ
due n = sum_by (λ group. times n group.members)

abbrev pub SameShard : String → String → Shard → Type 0
SameShard r s shard = contains shard.roots r ≡ contains shard.roots s

abbrev pub SameGroup : String → String → Weighed → Type 0
SameGroup r s group = contains group.members r ≡ contains group.members s

abbrev pub roots_of : List Shard → List (List String)
roots_of = map (λ shard. shard.roots)

length-extend_at :
    (i : ℕ) (g : Weighed) (shards : List Shard) → length (extend_at i g shards) ≡ length shards
unfolding extend_at
length-extend_at i g [] = refl
length-extend_at zero g (shard ∷ shards) = refl
length-extend_at (suc i) g (shard ∷ shards) = ap suc (length-extend_at i g shards)

total-extend_at :
    (n : String) (i : ℕ) (g : Weighed) (shards : List Shard)
    → i < length shards
    → total n (extend_at i g shards) ≡ total n shards + times n g.members
unfolding extend_at extend_shard
total-extend_at n i g [] h = absurd (omega arith)
total-extend_at n zero g (shard ∷ shards) h =
    omega (arith, sum_by-append (λ x. if x == n then 1 else 0) shard.roots g.members)
total-extend_at n (suc i) g (shard ∷ shards) h =
    omega (arith, total-extend_at n i g shards (omega arith))

extend_at-SameShard :
    (r s : String) (i : ℕ) (g : Weighed) (shards : List Shard)
    → SameGroup r s g
    → All (SameShard r s) shards
    → All (SameShard r s) (extend_at i g shards)
unfolding extend_at extend_shard
extend_at-SameShard r s i g [] e h = tt
extend_at-SameShard r s zero g (shard ∷ shards) e (h, hs) = (
  contains-append shard.roots g.members r
      ∙ rw (h, e) refl
      ∙ sym (contains-append shard.roots g.members s),
  hs,
)
extend_at-SameShard r s (suc i) g (shard ∷ shards) e (h, hs) =
    (h, extend_at-SameShard r s i g shards e hs)

least-le : (load : ℤ) (shards : List Shard) → (least load shards).1 ≤ length shards
unfolding least
least-le load [] = omega arith
least-le load (shard ∷ shards) = ground (arith, least-le shard.load shards)

lightest-lt : (shards : List Shard) → 0 < length shards → lightest shards < length shards
unfolding lightest
lightest-lt [] h = absurd (omega arith)
lightest-lt (shard ∷ shards) h = omega (arith, least-le shard.load shards)

length-skip_shards :
    (n : ℕ) (shards : List Shard)
    → n ≤ length shards
    → n + length (skip_shards n shards) ≡ length shards
length-skip_shards zero shards h = omega arith
length-skip_shards (suc n) [] h = absurd (omega arith)
length-skip_shards (suc n) (shard ∷ shards) h =
    omega (arith, length-skip_shards n shards (omega arith))

-- The index at which a group is placed
abbrev index_of : ℕ → ℕ → List Shard → ℕ
index_of heavy i shards = if ltb i heavy then i else heavy + lightest (skip_shards heavy shards)

index_of-lt :
    (heavy i : ℕ) (shards : List Shard)
    → heavy < length shards
    → index_of heavy i shards < length shards
index_of-lt heavy i shards h =
    let rest = length-skip_shards heavy shards (omega arith) in
    let low = lightest-lt (skip_shards heavy shards) (omega (arith, rest)) in ground arith

abbrev pub blanks : ℕ → List (List String)
blanks zero = []
blanks (suc n) = [] ∷ blanks n

append_nil : (xs : List (List String)) → xs ++ [] ≡ xs
append_nil [] = refl
append_nil (x ∷ xs) = ap (λ l. x ∷ l) (append_nil xs)

append_one :
    (xs : List (List String)) (y : List String) (zs : List (List String))
    → xs ++ y ∷ zs ≡ (xs ++ y ∷ []) ++ zs
append_one [] y zs = refl
append_one (x ∷ xs) y zs = ap (λ l. x ∷ l) (append_one xs y zs)

take-append_same : (xs ys : List (List String)) → take (length xs) (xs ++ ys) ≡ xs
take-append_same [] ys = refl
take-append_same (x ∷ xs) ys = ap (λ l. x ∷ l) (take-append_same xs ys)

module _ (heavy : ℕ) where
  pub length-place_all :
      (i : ℕ) (shards : List Shard) (groups : List Weighed)
      → length (place_all heavy i shards groups) ≡ length shards
  unfolding place_all
  length-place_all i shards [] = refl
  length-place_all i shards (g ∷ groups) =
      length-place_all (suc i) (extend_at (index_of heavy i shards) g shards) groups
      ∙ length-extend_at (index_of heavy i shards) g shards

  pub total-place_all :
      (n : String) (i : ℕ) (shards : List Shard) (groups : List Weighed)
      → heavy < length shards
      → total n (place_all heavy i shards groups) ≡ total n shards + due n groups
  unfolding place_all
  total-place_all n i shards [] h = omega arith
  total-place_all n i shards (g ∷ groups) h =
      let index = index_of heavy i shards in
      omega (
        arith,
        total-place_all n (suc i) (extend_at index g shards) groups
            (omega (arith, length-extend_at index g shards)),
        total-extend_at n index g shards (index_of-lt heavy i shards h),
      )

  pub place_all-SameShard :
      (r s : String) (i : ℕ) (shards : List Shard) (groups : List Weighed)
      → All (SameGroup r s) groups
      → All (SameShard r s) shards
      → All (SameShard r s) (place_all heavy i shards groups)
  unfolding place_all
  place_all-SameShard r s i shards [] e h = h
  place_all-SameShard r s i shards (g ∷ groups) (e, es) h =
      let index = index_of heavy i shards in
      place_all-SameShard r s (suc i) (extend_at index g shards) groups es
        (extend_at-SameShard r s index g shards e h)

  take-extend_at :
      (h k : ℕ) (g : Weighed) (shards : List Shard)
      → h ≤ k
      → take h (roots_of (extend_at k g shards)) ≡ take h (roots_of shards)
  unfolding extend_at
  take-extend_at zero k g shards le = refl
  take-extend_at (suc h) zero g shards le = absurd (omega arith)
  take-extend_at (suc h) (suc k) g [] le = refl
  take-extend_at (suc h) (suc k) g (shard ∷ shards) le =
      ap (λ l. shard.roots ∷ l) (take-extend_at h k g shards (omega arith))

  -- The groups after the heavy ones leave the first shards alone.
  take-place_all :
      (i : ℕ) (shards : List Shard) (groups : List Weighed)
      → heavy ≤ i
      → take heavy (roots_of (place_all heavy i shards groups)) ≡ take heavy (roots_of shards)
  unfolding place_all
  take-place_all i shards [] h = refl
  take-place_all i shards (g ∷ groups) h =
      let late : ltb i heavy ≡ false = ground arith in
      rw late (
        take-place_all (suc i) (extend_at (heavy + lightest (skip_shards heavy shards)) g shards)
          groups (omega arith)
        ∙ take-extend_at heavy (heavy + lightest (skip_shards heavy shards)) g shards (omega arith))

  extend_at-next :
      (done rest : List (List String)) (g : Weighed) (shards : List Shard)
      → roots_of shards ≡ done ++ [] ∷ rest
      → roots_of (extend_at (length done) g shards) ≡ done ++ g.members ∷ rest
  unfolding extend_at extend_shard
  extend_at-next [] rest g [] h = absurd (cc h)
  extend_at-next [] rest g (shard ∷ shards) h =
      let empty : shard.roots ≡ [] = cc h in
      let tail : roots_of shards ≡ rest = cc h in rw (empty, tail) refl
  extend_at-next (d ∷ done) rest g [] h = absurd (cc h)
  extend_at-next (d ∷ done) rest g (shard ∷ shards) h =
      let first : shard.roots ≡ d = cc h in
      let tail : roots_of shards ≡ done ++ [] ∷ rest = cc h in
      rw (first, extend_at-next done rest g shards tail) refl

  -- Each heavy group fills the next empty shard.
  pub take-heavy :
      (done : List (List String)) (n : ℕ) (hs ls : List Weighed) (shards : List Shard)
      → length done + length hs ≡ heavy
      → length hs ≤ n
      → roots_of shards ≡ done ++ blanks n
      → take heavy (roots_of (place_all heavy (length done) shards (hs ++ ls)))
        ≡ done ++ map (λ g. g.members) hs
  unfolding place_all
  take-heavy done n [] ls shards all_placed room now =
      let same : length done ≡ heavy = omega arith in
      take-place_all (length done) shards ls (omega arith)
      ∙ ap (take heavy) now
      ∙ subst (λ k. take k (done ++ blanks n) ≡ done) same (take-append_same done (blanks n))
      ∙ sym (append_nil done)
  take-heavy done zero (g ∷ hs) ls shards all_placed room now = absurd (omega arith)
  take-heavy done (suc n) (g ∷ hs) ls shards all_placed room now =
      let early : ltb (length done) heavy ≡ true = ground arith in
      let next = extend_at (length done) g shards in
      let longer : length (done ++ g.members ∷ []) ≡ suc (length done) =
        omega (arith, length-append done (g.members ∷ [])) in
      let rest =
        take-heavy (done ++ g.members ∷ []) n hs ls next (omega (arith, longer)) (omega arith)
          (extend_at-next done (blanks n) g shards now ∙ append_one done g.members (blanks n)) in
      rw (early, place_all)
        (subst
            (λ k.
              take heavy (roots_of (place_all heavy k next (hs ++ ls)))
              ≡ (done ++ g.members ∷ []) ++ map (λ w. w.members) hs)
            longer rest
          ∙ sym (append_one done g.members (map (λ w. w.members) hs)))
