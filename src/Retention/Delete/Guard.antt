-- ===== src/Retention/Delete/Guard.antt =====
-- deletion_keys of scripts/r2_retention.py: the keys that it returns.
use freesense_os_base.Base.{
  ◌≤◌, ◌≡◌, subst, ◌∙◌, or_raise-eq-ok, String, ◌||◌, not, true, false, some, inl, inr, ◌++◌, List,
  [], ◌∷◌, ltb, arith, if◌then◌else◌, length, ok, require, or_raise, Error, >>=-eq-ok,
  require-eq-ok, ok-injective, All, All-append, Bool-cases,
}
use freesense_os_base.Base.Json.{Json, str, arr, elements, ℤ, pos, get, items, is_text, as_text}
use freesense_os_base.Base.Sets.{contains, add, contains-append, contains-add, contains-sorted}
use freesense_os_base.Base.Sort.{leb_text, sorted, sorted-All, length-sorted}
use freesense_os_base.Retention.Runtime.{Runtime}
use freesense_os_base.Retention.Batch.{max_delete_objects, max_delete_bytes}
use freesense_os_base.Retention.Report.{candidate_digest, checked_candidates}
use freesense_os_base.Retention.Delete.{
  BucketKind, bucket_kind, is_protected_key, is_allowed_key, check_key, add_keys, bytes_or_zero,
  gather, deletion_keys, plus, is_above,
}

-- A key that a run on this bucket may delete
abbrev pub MayDelete : BucketKind → String → Type 0
MayDelete kind key = (is_protected_key key ≡ false) × (is_allowed_key kind key ≡ true)

module _ (kind : BucketKind) where
  check_key-MayDelete :
      (key : String) {u : Unit {0}} → check_key kind key ≡ ok u → MayDelete kind key
  unfolding check_key
  check_key-MayDelete key h =
      let (u, p, h1) =
        >>=-eq-ok (require (not (is_protected_key key)) "protected object entered deletion set: ") _
          h in
      let free = require-eq-ok _ _ p in (ground arith, require-eq-ok _ _ h1)

  add-All :
      (P : String → Type 0) (key : String) (found : List String)
      → P key
      → All P found
      → All P (add key found)
  unfolding add
  add-All P key found p h = elim (Bool-cases (contains found key)) [
    | inl e ↦ rw e h
    | inr e ↦ rw e (All-append P found (key ∷ []) h (p, tt))
  ]

  add_keys-MayDelete :
      (found : List String) (js : List Json) (more : List String)
      → All (MayDelete kind) found
      → add_keys kind found js ≡ ok more
      → All (MayDelete kind) more
  unfolding add_keys
  add_keys-MayDelete found [] more h e = subst (All (MayDelete kind)) (ok-injective e) h
  add_keys-MayDelete found (j ∷ js) more h e =
      let (key, _, e1) = >>=-eq-ok (as_text j) _ e in
      let (u, p, e2) = >>=-eq-ok (check_key kind key) _ e1 in
      add_keys-MayDelete (add key found) js more
        (add-All (MayDelete kind) key found (check_key-MayDelete key p) h) e2

  gather-MayDelete :
      (bucket : String) (found : List String) (total : ℤ) (cs : List Json) (r : List String × ℤ)
      → All (MayDelete kind) found
      → gather kind bucket found total cs ≡ ok r
      → All (MayDelete kind) r.0
  unfolding gather
  gather-MayDelete bucket found total [] r h e =
      subst (λ (x : List String × ℤ). All (MayDelete kind) x.0) (ok-injective e) h
  gather-MayDelete bucket found total (c ∷ cs) r h e =
      elim (Bool-cases (is_text bucket (get "bucket" c))) [
        | inr other ↦ gather-MayDelete bucket found total cs r h (rw other at e)
        | inl same ↦
            let (bytes, _, e1) = >>=-eq-ok (bytes_or_zero c) _ (rw same at e) in
            let (keys, _, e2) = >>=-eq-ok (items (get "keys" c)) _ e1 in
            let (more, m, e3) = >>=-eq-ok (add_keys kind found keys) _ e2 in
            gather-MayDelete bucket more (plus total bytes) cs r
              (add_keys-MayDelete found keys more h m) e3
      ]

-- The keys that the report lists for the bucket, with no check
abbrev strings : List Json → List String
strings [] = []
strings (str s ∷ js) = s ∷ strings js
strings (_ ∷ js) = strings js

abbrev key_strings : Json → List String
key_strings (arr es) = strings (elements es)
key_strings _ = []

abbrev pub listed_keys : String → List Json → List String
listed_keys bucket [] = []
listed_keys bucket (c ∷ cs) =
    let rest = listed_keys bucket cs in
    if is_text bucket (get "bucket" c) then key_strings (get "keys" c) ++ rest else rest

module _ (kind : BucketKind) (k : String) where
  contains-add_keys :
      (found : List String) (js : List Json) (more : List String)
      → add_keys kind found js ≡ ok more
      → contains more k ≡ (contains found k || contains (strings js) k)
  unfolding add_keys
  contains-add_keys found [] more e = rw (← ok-injective e) (ground arith)
  contains-add_keys found (str s ∷ js) more e =
      let (u, _, e2) = >>=-eq-ok (check_key kind s) _ e in
      ground (arith, contains-add_keys (add s found) js more e2, contains-add s found k)
  contains-add_keys found (_ ∷ js) more e = absurd (cc e)

  contains-key_strings :
      (found more : List String) (j : Json) (js : List Json)
      → items j ≡ ok js
      → add_keys kind found js ≡ ok more
      → contains more k ≡ (contains found k || contains (key_strings j) k)
  unfolding items
  contains-key_strings found more (arr es) js i e =
      rw (ok-injective i) (contains-add_keys found js more e)
  contains-key_strings found more _ js i e = absurd (cc i)

  contains-gather :
      (bucket : String) (found : List String) (total : ℤ) (cs : List Json) (r : List String × ℤ)
      → gather kind bucket found total cs ≡ ok r
      → contains r.0 k ≡ (contains found k || contains (listed_keys bucket cs) k)
  unfolding gather
  contains-gather bucket found total [] r e =
      subst (λ (x : List String × ℤ). contains x.0 k ≡ (contains found k || false)) (ok-injective e)
        (ground arith)
  contains-gather bucket found total (c ∷ cs) r e =
      elim (Bool-cases (is_text bucket (get "bucket" c))) [
        | inr other ↦ rw other (contains-gather bucket found total cs r (rw other at e))
        | inl same ↦
            let (bytes, _, e1) = >>=-eq-ok (bytes_or_zero c) _ (rw same at e) in
            let (keys, i, e2) = >>=-eq-ok (items (get "keys" c)) _ e1 in
            let (more, m, e3) = >>=-eq-ok (add_keys kind found keys) _ e2 in
            rw same (
              ground (
                arith,
                contains-gather bucket more (plus total bytes) cs r e3,
                contains-key_strings found more (get "keys" c) keys i m,
                contains-append (key_strings (get "keys" c)) (listed_keys bucket cs) k,
              ))
      ]

module _ (rt : Runtime) where
  -- What `deletion_keys` returns are exactly the keys that the report's candidates list for the
  -- bucket, at most 5000 of them; none of them is protected (a Stable object, a state object, a
  -- channel or release document), and each lies inside the deletion boundary of the bucket's kind.
  pub deletion_keys-MayDelete :
      (report : Json) (kind_name bucket : String) (keys : List String)
      → deletion_keys rt report kind_name bucket ≡ ok keys
      → (kind : BucketKind) × (candidates : List Json) × (bucket_kind kind_name ≡ some kind)
        × (checked_candidates report ≡ ok candidates)
        × All (MayDelete kind) keys
        × (length keys ≤ max_delete_objects)
        × ((k : String) → contains keys k ≡ contains (listed_keys bucket candidates) k)
  unfolding deletion_keys
  deletion_keys-MayDelete report kind_name bucket keys h =
      let (digest, _, h1) = >>=-eq-ok (candidate_digest rt report) _ h in
      let (kind, k, h2) =
        >>=-eq-ok (or_raise (bucket_kind kind_name) (Error.exit "unknown retention bucket kind")) _
          h1 in
      let (candidates, c, h3) = >>=-eq-ok (checked_candidates report) _ h2 in
      let (gathered, g, h4) = >>=-eq-ok (gather kind bucket [] (pos 0) candidates) _ h3 in
      let (u, t, h5) =
        >>=-eq-ok
          (require
            (not
              (ltb max_delete_objects (length gathered.0) || is_above max_delete_bytes gathered.1))
            "retention deletion exceeds the per-run safety cap")
          _ h4 in
      let within = require-eq-ok _ _ t in
      let same : sorted leb_text gathered.0 ≡ keys = ok-injective h5 in
      (
        kind,
        candidates,
        or_raise-eq-ok _ _ k,
        c,
        subst (All (MayDelete kind)) same (
            sorted-All leb_text (MayDelete kind) gathered.0
              (gather-MayDelete kind bucket [] (pos 0) candidates gathered tt g)),
        subst (λ (l : List String). length l ≤ max_delete_objects) same
            (rw (length-sorted leb_text gathered.0) (ground arith)),
        λ key.
            subst
              (λ (l : List String). contains l key ≡ contains (listed_keys bucket candidates) key)
              same
              (contains-sorted leb_text gathered.0 key
                ∙ contains-gather kind key bucket [] (pos 0) candidates gathered g),
      )
