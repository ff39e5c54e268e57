-- ===== src/Base/Errors.antt =====
-- A computation that may raise: `fail(message)` is `SystemExit`, and any other exception that the
-- code lets through is `raised`. A message is its text before the first interpolated value.
use Prim.Native.String.{String}
use mathlib.Core.Path.{◌≡◌, refl}
use mathlib.Core.Bool.{Bool, true, false}
use mathlib.Core.Option.{Option, none, some}
use mathlib.Core.List.{List, [], ◌∷◌}

infixl 5 ◌>>=◌ ◌>>◌
-- An exception that leaves the code
pub data Error : Type 0 where
  exit : String → Error
  raised : String → Error

-- What a call gives: an exception, or the value it returns
pub data Result {ℓ} (A : Type ℓ) : Type ℓ where
  err : Error → Result A
  ok : A → Result A

-- An exception passes by what would come next.
abbrev pub ◌>>=◌ {ℓ κ} : {A : Type ℓ} {B : Type κ} → Result A → (A → Result B) → Result B
err e >>= next = err e
ok x >>= next = next x

-- `check` is run for its exception alone.
abbrev pub ◌>>◌ {ℓ} : {B : Type ℓ} → Result (Unit {0}) → Result B → Result B
check >> next = check >>= λ u. next

abbrev pub fail {ℓ} : {A : Type ℓ} → String → Result A
fail message = err (exit message)

-- `if not test: fail(message)`
abbrev pub require : Bool → String → Result (Unit {0})
require true message = ok tt
require false message = fail message

-- A required value: `none` raises.
abbrev pub or_raise {ℓ} : {A : Type ℓ} → Option A → Error → Result A
or_raise (some a) e = ok a
or_raise none e = err e

module _ {ℓ κ} {A : Type ℓ} {B : Type κ} where
  unfoldable pub map_results : (A → Result B) → List A → Result (List B)
  map_results f [] = ok []
  map_results f (x ∷ xs) = do y ← f x; ys ← map_results f xs; ok (y ∷ ys)

  -- Where a chain returns, its first call has returned, and so has what came next.
  pub >>=-eq-ok :
      (call : Result A) (next : A → Result B) {y : B}
      → (call >>= next) ≡ ok y
      → (x : A) × (call ≡ ok x) × (next x ≡ ok y)
  >>=-eq-ok (err e) next returned = cc
  >>=-eq-ok (ok x) next returned = (x, refl, returned)

pub require-eq-ok :
    (b : Bool) (message : String) {u : Unit {0}} → require b message ≡ ok u → b ≡ true
require-eq-ok true message h = refl
require-eq-ok false message h = cc

pub ok-injective {ℓ} : {A : Type ℓ} {a b : A} → ok a ≡ ok b → a ≡ b
ok-injective h = cc h

pub or_raise-eq-ok :
    {A : Type 0} (o : Option A) (e : Error) {a : A} → or_raise o e ≡ ok a → o ≡ some a
or_raise-eq-ok none e h = absurd (cc h)
or_raise-eq-ok (some a) e h = cc h
