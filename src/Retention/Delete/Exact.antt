-- ===== src/Retention/Delete/Exact.antt =====
-- delete_report_keys of scripts/r2_retention.py over an object store, which is a parameter.
use freesense_os_base.Base.{
  ℕ, zero, suc, ◌≤◌, ◌<◌, ◌≡◌, refl, sym, subst, ap, ◌∙◌, ◌++◌, length-append, length-take-le,
  String, Bool, true, false, List, [], ◌∷◌, arith, if◌then◌else◌, length, take, drop, all,
  take-append-drop, length-drop-le, Result, ok, err, >>=-eq-ok, require-eq-ok, ok-injective,
  Bool-cases, inl, inr, eq_iff, eq_refl,
}
use freesense_os_base.Base.Json.{Json}
use freesense_os_base.Base.Sets.{contains, contains-append}
use freesense_os_base.Retention.Runtime.{Runtime}
use freesense_os_base.Retention.Delete.{
  Response, Store, confirmed_batch, then_do, delete_batches, delete_keys, delete_report_keys,
  deletion_keys,
}

-- `holds w key` says whether the store has the object.
module _ (s : Store) (holds : s.State → String → Bool) where
  -- DeleteObjects touches only the keys that it is given, and those that it answers are gone.
  pub record IsFaithful : Type 0 where
    pub untouched :
        (batch : List String) (w : s.State) (k : String)
        → contains batch k ≡ false
        → holds (s.delete_objects batch w).1 k ≡ holds w k
    pub gone :
        (batch : List String) (w : s.State) (r : Response) (k : String)
        → (s.delete_objects batch w).0 ≡ ok r
        → contains r.deleted k ≡ true
        → holds (s.delete_objects batch w).1 k ≡ false

all-contains :
    (xs ys : List String) (k : String)
    → all (contains ys) xs ≡ true
    → contains xs k ≡ true
    → contains ys k ≡ true
all-contains [] ys k h m = cc m
all-contains (x ∷ xs) ys k h m = ground (arith, eq_iff x k, all-contains xs ys k)

module _ (s : Store) (holds : s.State → String → Bool) (f : IsFaithful s holds) where
  confirmed_batch-deleted :
      (batch : List String) (w : s.State) {u : Unit {0}} (k : String)
      → confirmed_batch s batch (s.delete_objects batch w).0 ≡ ok u
      → holds (s.delete_objects batch w).1 k ≡ (if contains batch k then false else holds w k)
  unfolding confirmed_batch
  confirmed_batch-deleted batch w k h =
      let (r, answered, h1) = >>=-eq-ok (s.delete_objects batch w).0 _ h in
      let exact = require-eq-ok _ _ h1 in
      elim (Bool-cases (contains batch k)) [
        | inl e ↦
            rw e (f.gone batch w r k answered (all-contains batch r.deleted k (ground arith) e))
        | inr e ↦ rw e (f.untouched batch w k e)
      ]

  contains-take-drop :
      (n : ℕ) (keys : List String) (k : String)
      → contains keys k ≡ (if contains (drop n keys) k then true else contains (take n keys) k)
  contains-take-drop n keys k =
      subst
        (λ (l : List String).
          contains l k ≡ (if contains (drop n keys) k then true else contains (take n keys) k))
        (take-append-drop n keys)
        (rw (contains-append (take n keys) (drop n keys) k) (ground arith))

  combine :
      (t d full before between after : Bool)
      → after ≡ (if d then false else between)
      → between ≡ (if t then false else before)
      → full ≡ (if d then true else t)
      → after ≡ (if full then false else before)
  combine t d full before between after p q r = ground arith

  delete_batches-deleted :
      (fuel : ℕ) (keys : List String) (w : s.State) (k : String) {u : Unit {0}}
      → (delete_batches s fuel keys w).0 ≡ ok u
      → holds (delete_batches s fuel keys w).1 k ≡ (if contains keys k then false else holds w k)
  unfolding delete_batches
  delete_batches-deleted fuel [] w k h = refl
  delete_batches-deleted zero (x ∷ xs) w k h = absurd (cc h)
  delete_batches-deleted (suc fuel) (x ∷ xs) w k h =
      go (λ u e. delete_batches-deleted fuel rest after k {u = u} e)
        (confirmed_batch s batch (s.delete_objects batch w).0) refl h
    where
      batch : List String
      batch = take 1000 (x ∷ xs)

      rest : List String
      rest = drop 1000 (x ∷ xs)

      after : s.State
      after = (s.delete_objects batch w).1

      go :
          ((u : Unit {0})
            → (delete_batches s fuel rest after).0 ≡ ok u
            → holds (delete_batches s fuel rest after).1 k
              ≡ (if contains rest k then false else holds after k))
          → (a : Result (Unit {0})) → confirmed_batch s batch (s.delete_objects batch w).0 ≡ a
          → {u : Unit {0}} → (then_do s a (delete_batches s fuel rest) after).0 ≡ ok u
          → holds (then_do s a (delete_batches s fuel rest) after).1 k
            ≡ (if contains (x ∷ xs) k then false else holds w k)
      go later (err e) was h' = absurd (cc h')
      go later (ok v) was {u = u} h' =
          combine (contains batch k) (contains rest k) (contains (x ∷ xs) k) (holds w k)
            (holds after k) _ (later u h') (confirmed_batch-deleted batch w k was)
            (contains-take-drop 1000 (x ∷ xs) k)

  both_outside :
      (d t full : Bool) → full ≡ (if d then true else t) → full ≡ false → (d ≡ false) × (t ≡ false)
  both_outside d t full e h = ground arith

  delete_batches-untouched :
      (fuel : ℕ) (keys : List String) (w : s.State) (k : String)
      → contains keys k ≡ false
      → holds (delete_batches s fuel keys w).1 k ≡ holds w k
  unfolding delete_batches
  delete_batches-untouched fuel [] w k h = refl
  delete_batches-untouched zero (x ∷ xs) w k h = refl
  delete_batches-untouched (suc fuel) (x ∷ xs) w k h =
      go (delete_batches-untouched fuel rest after k)
        (confirmed_batch s batch (s.delete_objects batch w).0)
    where
      batch : List String
      batch = take 1000 (x ∷ xs)

      rest : List String
      rest = drop 1000 (x ∷ xs)

      after : s.State
      after = (s.delete_objects batch w).1

      outside : (contains rest k ≡ false) × (contains batch k ≡ false)
      outside =
          both_outside (contains rest k) (contains batch k) (contains (x ∷ xs) k)
            (contains-take-drop 1000 (x ∷ xs) k) h

      go :
          (contains rest k ≡ false → holds (delete_batches s fuel rest after).1 k ≡ holds after k)
          → (a : Result (Unit {0}))
          → holds (then_do s a (delete_batches s fuel rest) after).1 k ≡ holds w k
      go later (err e) = f.untouched batch w k outside.1
      go later (ok v) = later outside.0 ∙ f.untouched batch w k outside.1

  module _ (rt : Runtime) where
    -- Whatever the store answers, and on every error too, a run changes no object but those that
    -- `deletion_keys` names; where that fails the store is as it was.
    pub delete_report_keys-untouched :
        (report : Json) (kind bucket : String) (w : s.State) (k : String)
        → ((keys : List String)
            → deletion_keys rt report kind bucket ≡ ok keys
            → contains keys k ≡ false)
        → holds (delete_report_keys s rt report kind bucket w).1 k ≡ holds w k
    unfolding delete_report_keys
    delete_report_keys-untouched report kind bucket w k h =
        go (deletion_keys rt report kind bucket) h
      where
        go :
            (r : Result (List String))
            → ((keys : List String) → r ≡ ok keys → contains keys k ≡ false)
            → holds (delete_keys s r w).1 k ≡ holds w k
        go (err e) outside = refl
        go (ok keys) outside = delete_batches-untouched (length keys) keys w k (outside keys refl)

    -- A run that succeeds returns the number of the keys of `deletion_keys`. Of these objects none is
    -- left in the store, and every other object is there exactly if it was there before.
    pub delete_report_keys-exact :
        (report : Json) (kind bucket : String) (w : s.State) (n : ℕ)
        → (delete_report_keys s rt report kind bucket w).0 ≡ ok n
        → (keys : List String) × (deletion_keys rt report kind bucket ≡ ok keys)
          × (n ≡ length keys)
          × ((k : String)
              → holds (delete_report_keys s rt report kind bucket w).1 k
                ≡ (if contains keys k then false else holds w k))
    unfolding delete_report_keys
    delete_report_keys-exact report kind bucket w n h = go (deletion_keys rt report kind bucket) h
      where
        go :
            (r : Result (List String))
            → (delete_keys s r w).0 ≡ ok n
            → (keys : List String) × (r ≡ ok keys)
              × (n ≡ length keys)
              × ((k : String)
                  → holds (delete_keys s r w).1 k ≡ (if contains keys k then false else holds w k))
        go (err e) h' = absurd (cc h')
        go (ok keys) h' =
            let (u, done, same) =
              >>=-eq-ok (delete_batches s (length keys) keys w).0 (λ _. ok (length keys)) h' in
            (
              keys,
              refl,
              sym (ok-injective same),
              λ k. delete_batches-deleted (length keys) keys w k done,
            )

all-contains_of :
    (xs ys : List String)
    → ((k : String) → contains xs k ≡ true → contains ys k ≡ true)
    → all (contains ys) xs ≡ true
all-contains_of [] ys h = refl
all-contains_of (x ∷ xs) ys h =
    rw (h x (ground (arith, eq_refl x))) (all-contains_of xs ys (λ k m. h k (ground arith)))

-- The store confirms every batch in full.
abbrev pub Confirms : Store → Type 0
Confirms s =
    (batch : List String) (w : s.State)
    → (s.delete_objects batch w).0 ≡ ok (record { has_errors = false; deleted = batch })

-- Batches of 1000 keys, but for the last, which has one at least
abbrev pub AreFull : List (List String) → Type 0
AreFull [] = Unit
AreFull (b ∷ []) = (0 < length b) × (length b ≤ 1000)
AreFull (b ∷ c ∷ bs) = (length b ≡ 1000) × AreFull (c ∷ bs)

abbrev pub joined : List (List String) → List String
joined [] = []
joined (b ∷ bs) = b ++ joined bs

-- The store after these requests, one after another
unfoldable pub after_all : (s : Store) → List (List String) → s.State → s.State
after_all s [] w = w
after_all s (b ∷ bs) w = after_all s bs (s.delete_objects b w).1

AreFull-first : (c : List String) (bs : List (List String)) → AreFull (c ∷ bs) → 0 < length c
AreFull-first c [] (some_key, _) = some_key
AreFull-first c (b ∷ bs) (full, _) = omega (arith, full)

length-take-full : (n : ℕ) (xs : List String) → 0 < length (drop n xs) → length (take n xs) ≡ n
length-take-full zero xs h = refl
length-take-full (suc n) [] h = absurd (omega arith)
length-take-full (suc n) (x ∷ xs) h = ap suc (length-take-full n xs h)

AreFull-take :
    (x : String) (xs : List String) (bs : List (List String))
    → joined bs ≡ drop 1000 (x ∷ xs)
    → AreFull bs
    → AreFull (take 1000 (x ∷ xs) ∷ bs)
AreFull-take x xs [] cover full = (omega arith, length-take-le 1000 (x ∷ xs))
AreFull-take x xs (c ∷ bs) cover full =
    let more : 0 < length (drop 1000 (x ∷ xs)) =
      subst (λ l. 0 < length l) cover
        (omega (arith, length-append c (joined bs), AreFull-first c bs full)) in
    (length-take-full 1000 (x ∷ xs) more, full)

module _ (s : Store) (answers : Confirms s) where
  confirmed_batch-eq-ok :
      (batch : List String) (w : s.State)
      → confirmed_batch s batch (s.delete_objects batch w).0 ≡ ok tt
  unfolding confirmed_batch
  confirmed_batch-eq-ok batch w =
      rw (answers batch w) (rw (all-contains_of batch batch (λ k m. m)) refl)

  -- The requests of the loop
  Requests : List String → s.State → Result (Unit {0}) × s.State → Type 0
  Requests keys w result =
      (batches : List (List String)) × (result ≡ (ok tt, after_all s batches w))
      × (joined batches ≡ keys)
      × AreFull batches

  delete_batches-Requests :
      (fuel : ℕ) (keys : List String) (w : s.State)
      → length keys ≤ fuel
      → Requests keys w (delete_batches s fuel keys w)
  unfolding delete_batches Requests after_all
  delete_batches-Requests fuel [] w h = ([], refl, refl, tt)
  delete_batches-Requests zero (x ∷ xs) w h = elim h [ ]
  delete_batches-Requests (suc fuel) (x ∷ xs) w h =
      let batch = take 1000 (x ∷ xs) in
      let (bs, same, cover, full) =
        delete_batches-Requests fuel (drop 1000 (x ∷ xs)) (s.delete_objects batch w).1
          (omega (arith, length-drop-le 999 xs)) in
      (
        batch ∷ bs,
        rw (confirmed_batch-eq-ok batch w) same,
        ap (λ l. batch ++ l) cover ∙ take-append-drop 1000 (x ∷ xs),
        AreFull-take x xs bs cover full,
      )

  -- Where the store confirms every batch in full, a run over a report that passes its checks succeeds
  -- and returns the number of its keys. It has then made these requests and no other: one after another
  -- they are the keys of `deletion_keys` in their order, each of 1000 keys but for the last, which has at
  -- most as many and one at least.
  pub delete_report_keys-eq-ok :
      (rt : Runtime) (report : Json) (kind bucket : String) (w : s.State) (keys : List String)
      → deletion_keys rt report kind bucket ≡ ok keys
      → (batches : List (List String)) × (delete_report_keys s rt report kind bucket w
          ≡ (ok (length keys), after_all s batches w))
        × (joined batches ≡ keys)
        × AreFull batches
  unfolding delete_report_keys Requests
  delete_report_keys-eq-ok rt report kind bucket w keys h =
      let (batches, same, cover, full) =
        delete_batches-Requests (length keys) keys w (omega arith) in
      (batches, rw h (rw same refl), cover, full)
