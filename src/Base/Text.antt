-- ===== src/Base/Text.antt =====
-- The parts of `str` and of regular expressions that the scripts use, by recursion on the text.
use Prim.Native.Nat.{ℕ, zero, suc}
use Prim.Native.Char.{Char, code}
use text.Mathlib.Text.{◌==◌}
use Prim.Native.String.{String}
use mathlib.Core.Bool.{Bool, true, false, ◌&&◌, ◌||◌, not}
use mathlib.Core.Option.{Option, none, some}
use freesense_os_base.Base.Tests.{leb, nat_eq, if◌then◌else◌}

-- `[0-9]`
abbrev pub is_digit : ℕ → Bool
is_digit c = leb b'0' c && leb c b'9'

-- `[0-9a-f]`
abbrev pub is_hex : ℕ → Bool
is_hex c = is_digit c || (leb b'a' c && leb c b'f')

-- `.`: any character but a newline
abbrev pub is_not_newline : ℕ → Bool
is_not_newline c = not (nat_eq c 10)

-- `s.removeprefix(p)` where `s.startswith(p)`
unfoldable pub strip_prefix : String → String → Option String
strip_prefix String.[] s = some s
strip_prefix (String.◌∷◌ c p) String.[] = none
strip_prefix (String.◌∷◌ c p) (String.◌∷◌ d s) =
    let rest = strip_prefix p s in if nat_eq (code c) (code d) then rest else none

-- Every character is in the class.
unfoldable pub all_chars : (ℕ → Bool) → String → Bool
all_chars p String.[] = true
all_chars p (String.◌∷◌ c s) = p (code c) && all_chars p s

unfoldable pub is_empty : String → Bool
is_empty String.[] = true
is_empty (String.◌∷◌ c s) = false

-- `len(s)`
unfoldable pub size : String → ℕ
size String.[] = 0
size (String.◌∷◌ c s) = suc (size s)

-- `[class]{n}` at the front of the text: the match and the rest
unfoldable pub take_class : (ℕ → Bool) → ℕ → String → Option (String × String)
take_class p zero s = some (String.[], s)
take_class p (suc n) String.[] = none
take_class p (suc n) (String.◌∷◌ c s) =
    if p (code c)
    then elim (take_class p n s) [ none ↦ none | some (m, r) ↦ some (String.◌∷◌ c m, r) ]
    else none

-- `[class]*` at the front of the text, greedy: the match and the rest
unfoldable pub span : (ℕ → Bool) → String → String × String
span p String.[] = (String.[], String.[])
span p (String.◌∷◌ c s) =
    let (m, r) = span p s in if p (code c) then (String.◌∷◌ c m, r) else (String.[], String.◌∷◌ c s)

-- `[0-9a-f]{n}` on the whole text
abbrev pub is_hex_of_size : ℕ → String → Bool
is_hex_of_size n s = all_chars is_hex s && nat_eq (size s) n

-- `text in s`
unfoldable pub includes : String → String → Bool
includes t String.[] = is_empty t
includes t (String.◌∷◌ c s) = elim (strip_prefix t (String.◌∷◌ c s)) [
  | some _ ↦ true
  | none ↦ includes t s
]

-- `s.endswith(t)`
unfoldable pub ends_with : String → String → Bool
unfolding is_empty
ends_with t String.[] = is_empty t
ends_with t (String.◌∷◌ c s) = String.◌∷◌ c s == t || ends_with t s

-- The character at the place in `to` that `c` has in `from`, and `c` where it has none
translate_char : String → String → Char → Char
translate_char String.[] to c = c
translate_char (String.◌∷◌ a from) String.[] c = c
translate_char (String.◌∷◌ a from) (String.◌∷◌ b to) c =
    if nat_eq (code a) (code c) then b else translate_char from to c

-- `s.lower()` on ASCII
unfoldable pub lower : String → String
unfolding translate_char
lower String.[] = String.[]
lower (String.◌∷◌ c s) =
    String.◌∷◌ (translate_char "ABCDEFGHIJKLMNOPQRSTUVWXYZ" "abcdefghijklmnopqrstuvwxyz" c)
      (lower s)
