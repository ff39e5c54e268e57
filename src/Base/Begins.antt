-- ===== src/Base/Begins.antt =====
-- `str.startswith` on the prefixes of keys: what begins with one does not begin with another.
use Prim.Native.Char.{code}
use Prim.Native.String.{String, ◌++◌ as ◌<>◌}
use mathlib.Core.Path.{◌≡◌, refl}
use mathlib.Core.Logic.{inl, inr}
use mathlib.Core.Bool.{Bool, true, false}
use mathlib.Core.Option.{none, some}
use native.Mathlib.Omega.{arith}
use text.Mathlib.TextLemmas.{nil-append, cons-append}
use freesense_os_base.Base.Tests.{nat_eq, Bool-cases, if◌then◌else◌}
use freesense_os_base.Base.Text.{strip_prefix}

-- The text begins with the prefix.
abbrev pub Begins : String → String → Type 0
Begins p s = (r : String) × strip_prefix p s ≡ some r

-- The two texts differ at a place that both have.
unfoldable pub clash : String → String → Bool
clash String.[] q = false
clash (String.◌∷◌ c p) String.[] = false
clash (String.◌∷◌ c p) (String.◌∷◌ d q) =
    let rest = clash p q in if nat_eq (code c) (code d) then rest else true

nat_eq_trans : (a b c : _) → nat_eq a b ≡ true → nat_eq c b ≡ true → nat_eq a c ≡ true
nat_eq_trans a b c = ground arith

nat_eq_self : (a : _) → nat_eq a a ≡ true
nat_eq_self a = ground arith

pub clash-none :
    (p q s r : String) → clash p q ≡ true → strip_prefix q s ≡ some r → strip_prefix p s ≡ none
unfolding clash strip_prefix
clash-none String.[] q s r h b = absurd (cc h)
clash-none (String.◌∷◌ c p) String.[] s r h b = absurd (cc h)
clash-none (String.◌∷◌ c p) (String.◌∷◌ d q) String.[] r h b = absurd (cc b)
clash-none (String.◌∷◌ c p) (String.◌∷◌ d q) (String.◌∷◌ e s) r h b =
    elim (Bool-cases (nat_eq (code d) (code e))) [
      | inr differs ↦ absurd (cc (rw differs at b))
      | inl same ↦ elim (Bool-cases (nat_eq (code c) (code e))) [
        | inr differs ↦ rw differs refl
        | inl both ↦ rw both (
            clash-none p q s r (rw (nat_eq_trans (code c) (code e) (code d) both same) at h)
              (rw same at b))
      ]
    ]

pub Begins-self : (p t : String) → strip_prefix p (p <> t) ≡ some t
unfolding strip_prefix
Begins-self String.[] t = rw (nil-append t) refl
Begins-self (String.◌∷◌ c p) t = rw (cons-append c p t, nat_eq_self (code c)) (Begins-self p t)

pub Begins-append : (p s t : String) → Begins p s → Begins p (s <> t)
unfolding strip_prefix
Begins-append String.[] s t b = (s <> t, refl)
Begins-append (String.◌∷◌ c p) String.[] t (r, b) = absurd (cc b)
Begins-append (String.◌∷◌ c p) (String.◌∷◌ d s) t (r, b) =
    elim (Bool-cases (nat_eq (code c) (code d))) [
      | inl same ↦
          let (r', e) = Begins-append p s t (r, rw same at b) in
          (r', rw (cons-append d s t, same) e)
      | inr differs ↦ absurd (cc (rw differs at b))
    ]
