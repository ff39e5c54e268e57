-- ===== src/Tools/Zbase32/Read.antt =====
-- `zbase32` of scripts/resolve_worker_tools.py, read back.
use Prim.Native.Nat.{◌%◌}
use Prim.Native.Char.{Char, code}
use freesense_os_base.Base.{
  ℕ, zero, suc, ◌+◌, ◌*◌, ◌/◌, ◌<◌, ◌≡◌, refl, subst, ap, ◌∙◌, String, Bool, true, Option, none,
  some, List, [], ◌∷◌, ◌++◌, nat_eq, if◌then◌else◌, Bool-cases, inl, inr, All, All-append, all,
  arith,
}
use freesense_os_base.Tools.Zbase32.{alphabet, symbol, emit, or_zero, values_from, letters, zbase32}

-- The bytes of a list of five-bit values, least bits first
unfoldable pub bytes_of : List ℕ → List ℕ
bytes_of (c0 ∷ c1 ∷ []) = (c0 + 32 * (c1 % 8)) ∷ []
bytes_of (c0 ∷ c1 ∷ c2 ∷ c3 ∷ []) = (c0 + 32 * (c1 % 8)) ∷ (c1 / 8 + 4 * c2 + 128 * (c3 % 2)) ∷ []
bytes_of (c0 ∷ c1 ∷ c2 ∷ c3 ∷ c4 ∷ []) =
    (c0 + 32 * (c1 % 8)) ∷ (c1 / 8 + 4 * c2 + 128 * (c3 % 2)) ∷ (c3 / 2 + 16 * (c4 % 16)) ∷ []
bytes_of (c0 ∷ c1 ∷ c2 ∷ c3 ∷ c4 ∷ c5 ∷ c6 ∷ []) =
    (c0 + 32 * (c1 % 8))
    ∷ (c1 / 8 + 4 * c2 + 128 * (c3 % 2))
    ∷ (c3 / 2 + 16 * (c4 % 16))
    ∷ (c4 / 16 + 2 * c5 + 64 * (c6 % 4))
    ∷ []
bytes_of (c0 ∷ c1 ∷ c2 ∷ c3 ∷ c4 ∷ c5 ∷ c6 ∷ c7 ∷ cs) =
    (c0 + 32 * (c1 % 8))
    ∷ (c1 / 8 + 4 * c2 + 128 * (c3 % 2))
    ∷ (c3 / 2 + 16 * (c4 % 16))
    ∷ (c4 / 16 + 2 * c5 + 64 * (c6 % 4))
    ∷ (c6 / 4 + 8 * c7)
    ∷ bytes_of cs
bytes_of _ = []

-- A byte
abbrev pub IsByte : ℕ → Type 0
IsByte b = b < 256

cons_eq : {a b : ℕ} {xs ys : List ℕ} → a ≡ b → xs ≡ ys → a ∷ xs ≡ b ∷ ys
cons_eq e f = rw (e, f) refl

-- An iteration at a known position
values_from-at :
    (position index : ℕ) (remain : Option ℕ) (b : ℕ) (bytes : List ℕ)
    → index % 5 ≡ position
    → values_from index remain (b ∷ bytes) ≡ (
        let e = emit position (or_zero remain) b in
        e.values ++ values_from (suc index) e.remain bytes)
unfolding values_from
values_from-at position index remain b bytes at =
    ap
      (λ p. let e = emit p (or_zero remain) b in e.values ++ values_from (suc index) e.remain bytes)
      at

-- Five bytes are eight values.
values_from-five :
    (index b0 b1 b2 b3 b4 : ℕ) (bytes : List ℕ)
    → index % 5 ≡ 0
    → (let v1 = b0 / 32 + b1 * 8 in
        let v2 = v1 / 1024 + b2 * 2 in
        let v3 = v2 / 32 + b3 * 16 in
        let v4 = v3 / 1024 % 4 + b4 * 4 in
        values_from index none (b0 ∷ b1 ∷ b2 ∷ b3 ∷ b4 ∷ bytes)
        ≡ (b0 % 32)
          ∷ (v1 % 32)
          ∷ (v1 / 32 % 32)
          ∷ (v2 % 32)
          ∷ (v3 % 32)
          ∷ (v3 / 32 % 32)
          ∷ (v4 % 32)
          ∷ (v4 / 32 % 32)
          ∷ values_from (suc (suc (suc (suc (suc index))))) none bytes)
unfolding emit
values_from-five index b0 b1 b2 b3 b4 bytes start =
    let v1 = b0 / 32 + b1 * 8 in
    let v2 = v1 / 1024 + b2 * 2 in
    let v3 = v2 / 32 + b3 * 16 in
    values_from-at 0 index none b0 (b1 ∷ b2 ∷ b3 ∷ b4 ∷ bytes) start
    ∙ ap (λ l. (b0 % 32) ∷ l)
        (values_from-at 1 (suc index) (some (b0 / 32)) b1 (b2 ∷ b3 ∷ b4 ∷ bytes) (omega arith)
          ∙ ap (λ l. (v1 % 32) ∷ (v1 / 32 % 32) ∷ l)
              (values_from-at 2 (suc (suc index)) (some (v1 / 1024)) b2 (b3 ∷ b4 ∷ bytes)
                  (omega arith)
                ∙ ap (λ l. (v2 % 32) ∷ l)
                    (values_from-at 3 (suc (suc (suc index))) (some (v2 / 32)) b3 (b4 ∷ bytes)
                        (omega arith)
                      ∙ ap (λ l. (v3 % 32) ∷ (v3 / 32 % 32) ∷ l)
                          (values_from-at 4 (suc (suc (suc (suc index)))) (some (v3 / 1024 % 4)) b4
                            bytes (omega arith)))))

bytes_of-values_from :
    (index : ℕ) (bytes : List ℕ)
    → index % 5 ≡ 0
    → All IsByte bytes
    → bytes_of (values_from index none bytes) ≡ bytes
unfolding bytes_of values_from emit
bytes_of-values_from index [] start h = refl
bytes_of-values_from index (b0 ∷ []) start (h0, _) = rw start (cons_eq (omega arith) refl)
bytes_of-values_from index (b0 ∷ b1 ∷ []) start (h0, (h1, _)) =
    let at1 : suc index % 5 ≡ 1 = omega arith in
    rw (start, at1) (cons_eq (omega arith) (cons_eq (omega arith) refl))
bytes_of-values_from index (b0 ∷ b1 ∷ b2 ∷ []) start (h0, (h1, (h2, _))) =
    let at1 : suc index % 5 ≡ 1 = omega arith in
    let at2 : suc (suc index) % 5 ≡ 2 = omega arith in
    rw (start, at1, at2)
      (cons_eq (omega arith) (cons_eq (omega arith) (cons_eq (omega arith) refl)))
bytes_of-values_from index (b0 ∷ b1 ∷ b2 ∷ b3 ∷ []) start (h0, (h1, (h2, (h3, _)))) =
    let at1 : suc index % 5 ≡ 1 = omega arith in
    let at2 : suc (suc index) % 5 ≡ 2 = omega arith in
    let at3 : suc (suc (suc index)) % 5 ≡ 3 = omega arith in
    rw (start, at1, at2, at3)
      (cons_eq (omega arith)
        (cons_eq (omega arith) (cons_eq (omega arith) (cons_eq (omega arith) refl))))
bytes_of-values_from index (b0 ∷ b1 ∷ b2 ∷ b3 ∷ b4 ∷ bytes) start (h0, (h1, (h2, (h3, (h4, h))))) =
    ap bytes_of (values_from-five index b0 b1 b2 b3 b4 bytes start)
    ∙ cons_eq (omega arith) (
        cons_eq (omega arith) (
          cons_eq (omega arith) (
            cons_eq (omega arith) (
              cons_eq (omega arith)
                (bytes_of-values_from (suc (suc (suc (suc (suc index))))) bytes (omega arith) h)))))

-- The place of a letter in the alphabet
unfoldable place : Char → String → ℕ
place c String.[] = 0
place c (String.◌∷◌ a s) = let rest = place c s in if nat_eq (code a) (code c) then 0 else suc rest

unfoldable pub values_of : String → List ℕ
unfolding place
values_of String.[] = []
values_of (String.◌∷◌ c s) = place c alphabet ∷ values_of s

abbrev up_to : ℕ → List ℕ
up_to zero = []
up_to (suc n) = n ∷ up_to n

all_placed : all (λ v. nat_eq (place (symbol v alphabet) alphabet) v) (up_to 32) ≡ true
unfolding place symbol
all_placed = refl

all-up_to : (p : ℕ → Bool) (n v : ℕ) → all p (up_to n) ≡ true → v < n → p v ≡ true
all-up_to p zero v h lt = absurd (omega arith)
all-up_to p (suc n) v h lt = elim (Bool-cases (nat_eq n v)) [
  | inl here ↦ let same : n ≡ v = ground arith in subst (λ k. p k ≡ true) same (ground arith)
  | inr other ↦ all-up_to p n v (ground arith) (ground arith)
]

place-symbol : (v : ℕ) → v < 32 → place (symbol v alphabet) alphabet ≡ v
place-symbol v lt =
    let same = all-up_to (λ k. nat_eq (place (symbol k alphabet) alphabet) k) 32 v all_placed lt in
    ground arith

abbrev IsValue : ℕ → Type 0
IsValue v = v < 32

values_of-letters : (values : List ℕ) → All IsValue values → values_of (letters values) ≡ values
unfolding values_of letters
values_of-letters [] h = refl
values_of-letters (v ∷ values) (h, hs) = cons_eq (place-symbol v h) (values_of-letters values hs)

-- What an iteration puts out and keeps has five bits.
emit-IsValue :
    (position r b : ℕ)
    → r < 32
    → IsByte b
    → All IsValue (emit position r b).values × (or_zero (emit position r b).remain < 32)
unfolding emit
emit-IsValue position r b low h = elim (Bool-cases (nat_eq position 0)) [
  | inl e ↦ rw e ((omega arith, tt), omega arith)
  | inr not_0 ↦ elim (Bool-cases (nat_eq position 1)) [
    | inl e ↦ rw (not_0, e) ((omega arith, (omega arith, tt)), omega arith)
    | inr not_1 ↦ elim (Bool-cases (nat_eq position 2)) [
      | inl e ↦ rw (not_0, not_1, e) ((omega arith, tt), omega arith)
      | inr not_2 ↦ elim (Bool-cases (nat_eq position 3)) [
        | inl e ↦ rw (not_0, not_1, not_2, e) ((omega arith, (omega arith, tt)), omega arith)
        | inr not_3 ↦
            rw (not_0, not_1, not_2, not_3) ((omega arith, (omega arith, tt)), omega arith)
      ]
    ]
  ]
]

values_from-IsValue :
    (index : ℕ) (remain : Option ℕ) (bytes : List ℕ)
    → or_zero remain < 32
    → All IsByte bytes
    → All IsValue (values_from index remain bytes)
unfolding values_from
values_from-IsValue index none [] low h = tt
values_from-IsValue index (some r) [] low h = (low, tt)
values_from-IsValue index remain (b ∷ bytes) low (hb, h) =
    let e = emit (index % 5) (or_zero remain) b in
    let (valued, next) = emit-IsValue (index % 5) (or_zero remain) b low hb in
    All-append IsValue e.values (values_from (suc index) e.remain bytes) valued
      (values_from-IsValue (suc index) e.remain bytes next h)

-- What `zbase32` writes of bytes is read back: two digests are written alike only if they are the same.
pub bytes_of-zbase32 :
    (digest : List ℕ) → All IsByte digest → bytes_of (values_of (zbase32 digest)) ≡ digest
unfolding zbase32
bytes_of-zbase32 digest h =
    ap bytes_of (
      values_of-letters (values_from 0 none digest)
        (values_from-IsValue 0 none digest (omega arith) h))
    ∙ bytes_of-values_from 0 digest refl h
