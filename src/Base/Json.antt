-- ===== src/Base/Json.antt =====
-- JSON documents as `json.loads` reads them. Numbers are integers: no document of the pipeline holds
-- a fraction. `null` is Python's `None`, and so is what `get` finds at a missing key.
use Prim.Native.Nat.{ℕ, zero, suc}
use Prim.Native.String.{String}
use mathlib.Core.Bool.{Bool, true, false}
use mathlib.Core.Option.{Option, none, some}
use mathlib.Core.List.{List, [], ◌∷◌}
use text.Mathlib.Text.{◌==◌}
use freesense_os_base.Base.Tests.{if◌then◌else◌}
use freesense_os_base.Base.Errors.{Result, ok, err, raised}

-- `negsuc n` is -(n + 1).
pub data ℤ : Type 0 where
  pos : ℕ → ℤ
  negsuc : ℕ → ℤ

mutual
  pub data Json : Type 0 where
    null : Json
    bool : Bool → Json
    int : ℤ → Json
    str : String → Json
    arr : Elements → Json
    obj : Members → Json

  pub data Elements : Type 0 where
    stop : Elements
    item : Json → Elements → Elements

  pub data Members : Type 0 where
    done : Members
    member : String → Json → Members → Members

-- A key that stands twice has its last value, as in a Python dictionary.
unfoldable pub find : String → Members → Option Json
find k done = none
find k (member j v ms) = elim (find k ms) [
  | some w ↦ some w
  | none ↦ if j == k then some v else none
]

abbrev pub or_null : Option Json → Json
or_null (some v) = v
or_null none = null

-- `value.get(key)` on a dictionary; `null` on anything else, which the callers exclude.
unfoldable pub get : String → Json → Json
unfolding find
get k (obj ms) = or_null (find k ms)
get k _ = null

abbrev pub is_object : Json → Bool
is_object (obj ms) = true
is_object _ = false

abbrev pub is_array : Json → Bool
is_array (arr es) = true
is_array _ = false

abbrev pub is_string : Json → Bool
is_string (str s) = true
is_string _ = false

abbrev pub is_null : Json → Bool
is_null null = true
is_null _ = false

-- `value == text`
abbrev pub is_text : String → Json → Bool
is_text t (str s) = s == t
is_text t _ = false

-- `isinstance(value, str) and value`, by a test on the text
abbrev pub text_where : (String → Bool) → Json → Bool
text_where p (str s) = p s
text_where p _ = false

-- The integer of `isinstance(value, int)`: in Python a `bool` is an `int`.
abbrev pub as_int : Json → Option ℤ
as_int (int n) = some n
as_int (bool true) = some (pos 1)
as_int (bool false) = some (pos 0)
as_int _ = none

unfoldable pub elements : Elements → List Json
elements stop = []
elements (item v es) = v ∷ elements es

unfoldable pub from_list : List Json → Elements
from_list [] = stop
from_list (v ∷ vs) = item v (from_list vs)

-- The values of an array; iterating anything else raises here.
unfoldable pub items : Json → Result (List Json)
unfolding elements
items (arr es) = ok (elements es)
items _ = err (raised "TypeError")

-- `value[key]`
unfoldable pub subscript : String → Json → Result Json
unfolding find
subscript k (obj ms) = elim (find k ms) [ some v ↦ ok v | none ↦ err (raised "KeyError") ]
subscript k _ = err (raised "TypeError")

-- The text of a value that must be one: a method of `str` on anything else raises.
abbrev pub as_text : Json → Result String
as_text (str s) = ok s
as_text _ = err (raised "AttributeError")

-- `n > 0`
abbrev pub is_positive : ℤ → Bool
is_positive (pos zero) = false
is_positive (pos (suc n)) = true
is_positive (negsuc n) = false

-- The texts of an array of texts; `none` if an element is no text.
unfoldable pub texts : List Json → Option (List String)
texts [] = some []
texts (str s ∷ vs) = elim (texts vs) [ none ↦ none | some ss ↦ some (s ∷ ss) ]
texts (_ ∷ vs) = none
