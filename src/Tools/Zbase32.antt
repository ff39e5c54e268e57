-- ===== src/Tools/Zbase32.antt =====
-- scripts/resolve_worker_tools.py: `zbase32`, which writes a digest in letters of five bits.
pub mod Read
use Prim.Native.Nat.{◌%◌}
use Prim.Native.Char.{Char}
use freesense_os_base.Base.{
  ℕ, zero, suc, ◌+◌, ◌*◌, ◌/◌, String, Option, none, some, List, [], ◌∷◌, ◌++◌, nat_eq,
  if◌then◌else◌,
}

abbrev pub alphabet : String
alphabet = "ybndrfg8ejkmcpqxot1uwisza345h769"

-- `ZBASE32_ALPHABET[value]`, for a value of five bits
unfoldable pub symbol : ℕ → String → Char
symbol value String.[] = "y"
symbol zero (String.◌∷◌ c s) = c
symbol (suc value) (String.◌∷◌ c s) = symbol value s

-- What an iteration puts out, and `remain` after it, where `none` is -1
pub record Emitted : Type 0 where
  pub values : List ℕ
  pub remain : Option ℕ

-- The branches by `position`. `remain` lies below the bits of the shifted byte: `|` is `+`.
unfoldable pub emit : ℕ → ℕ → ℕ → Emitted
emit position remain byte =
    if nat_eq position 0
    then record { values = (byte % 32) ∷ []; remain = some (byte / 32) }
    else if nat_eq position 1
    then (let value = remain + byte * 8 in
        record { values = (value % 32) ∷ (value / 32 % 32) ∷ []; remain = some (value / 1024) })
    else if nat_eq position 2
    then (let value = remain + byte * 2 in
        record { values = (value % 32) ∷ []; remain = some (value / 32) })
    else if nat_eq position 3
    then (let value = remain + byte * 16 in
        record { values = (value % 32) ∷ (value / 32 % 32) ∷ []; remain = some (value / 1024 % 4) })
    else (let value = remain + byte * 4 in
        record { values = (value % 32) ∷ (value / 32 % 32) ∷ []; remain = none })

abbrev pub or_zero : Option ℕ → ℕ
or_zero none = 0
or_zero (some n) = n

-- `if remain >= 0: output.append(…)`
abbrev pub last_value : Option ℕ → List ℕ
last_value none = []
last_value (some n) = n ∷ []

-- The loop, with the values in place of their letters
unfoldable pub values_from : ℕ → Option ℕ → List ℕ → List ℕ
unfolding emit
values_from index remain [] = last_value remain
values_from index remain (byte ∷ bytes) =
    let e = emit (index % 5) (or_zero remain) byte in
    e.values ++ values_from (suc index) e.remain bytes

unfoldable pub letters : List ℕ → String
unfolding symbol
letters [] = String.[]
letters (value ∷ values) = String.◌∷◌ (symbol value alphabet) (letters values)

unfoldable pub zbase32 : List ℕ → String
unfolding values_from letters
zbase32 digest = letters (values_from 0 none digest)
