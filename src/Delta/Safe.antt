-- ===== src/Delta/Safe.antt =====
-- scripts/resolve_worker_tools.py and scripts/binary_seed.py: the checks of names, versions, origins,
-- repository paths, checksums and OPTIONS, which the planners share.
use Prim.Native.Char.{code}
use freesense_os_base.Base.{
  ℕ, String, ◌==◌, Bool, ◌&&◌, ◌||◌, not, true, false, Option, none, some, List, [], ◌∷◌, ltb, leb,
  nat_eq, if◌then◌else◌, Result, ok, err, raised, or_raise, ◌>>=◌, ◌>>◌, all, length,
}
use freesense_os_base.Base.Text.{
  is_digit, is_hex, all_chars, is_empty, size, is_hex_of_size, includes, ends_with,
}
use freesense_os_base.Base.Json.{Json, Members, str, bool, obj, member, done}
use freesense_os_base.Base.Sets.{Dict, insert}

-- `[A-Za-z0-9]`
abbrev is_alnum : ℕ → Bool
is_alnum c = is_digit c || (leb b'a' c && leb c b'z') || (leb b'A' c && leb c b'Z')

-- `[A-Za-z0-9+,.@_~-]`
abbrev is_name_char : ℕ → Bool
is_name_char c =
    is_alnum c
    || nat_eq c b'+'
    || nat_eq c b','
    || nat_eq c b'.'
    || nat_eq c b'@'
    || nat_eq c b'_'
    || nat_eq c b'~'
    || nat_eq c b'-'

starts_alnum : String → Bool
starts_alnum String.[] = false
starts_alnum (String.◌∷◌ c s) = is_alnum (code c)

-- `SAFE_NAME.fullmatch(value)`
unfoldable pub is_safe_name : String → Bool
unfolding starts_alnum all_chars
is_safe_name s = starts_alnum s && all_chars is_name_char s

-- `SAFE_VERSION.fullmatch(value)`
unfoldable pub is_safe_version : String → Bool
unfolding is_empty all_chars
is_safe_version s = not (is_empty s) && all_chars is_name_char s

-- `SAFE_PATH_SEGMENT.fullmatch(value)`
unfoldable pub is_safe_segment : String → Bool
unfolding starts_alnum all_chars
is_safe_segment s = starts_alnum s && all_chars (λ c. is_name_char c || nat_eq c b'$') s

-- `value.split(character)`
unfoldable pub split_on : ℕ → String → List String
split_on p String.[] = String.[] ∷ []
split_on p (String.◌∷◌ c s) =
    let rest = split_on p s in
    if nat_eq (code c) p
    then String.[] ∷ rest
    else elim rest [ [] ↦ String.◌∷◌ c String.[] ∷ [] | t ∷ ts ↦ String.◌∷◌ c t ∷ ts ]

-- `_safe_name(value, field)`
unfoldable pub safe_name : Json → Result String
unfolding is_safe_name size
safe_name (str s) =
    if not (ltb 255 (size s)) && is_safe_name s then ok s else err (raised "invalid ")
safe_name _ = err (raised "invalid ")

-- `_safe_version(value, field)`
unfoldable pub safe_version : Json → Result String
unfolding is_safe_version size
safe_version (str s) =
    if not (ltb 255 (size s)) && is_safe_version s then ok s else err (raised "invalid ")
safe_version _ = err (raised "invalid ")

-- `_safe_origin(value, field)`
unfoldable pub safe_origin : Json → Result String
unfolding is_safe_name size split_on
safe_origin (str s) =
    let parts = split_on b'/' s in
    if not (ltb 511 (size s)) && nat_eq (length parts) 2 && all is_safe_name parts
    then ok s
    else err (raised "invalid ")
safe_origin _ = err (raised "invalid ")

-- The last of `parts` ends with `.pkg`, and there are two of them at least.
is_package_path : List String → Bool
unfolding ends_with
is_package_path [] = false
is_package_path (p ∷ []) = false
is_package_path (p ∷ q ∷ ps) = last_is_package q ps
  where
    last_is_package : String → List String → Bool
    last_is_package p [] = ends_with ".pkg" p
    last_is_package p (q ∷ ps) = last_is_package q ps

abbrev is_first : String → List String → Bool
is_first t [] = false
is_first t (p ∷ ps) = p == t

-- `_safe_remote_path(value)`
unfoldable pub safe_remote_path : Json → Result String
unfolding is_safe_segment size split_on includes is_package_path
safe_remote_path (str s) =
    let parts = split_on b'/' s in
    if not (ltb 4096 (size s))
      && not (includes "\\" s)
      && is_first "All" parts
      && all is_safe_segment parts
      && is_package_path parts
    then ok s
    else err (raised "invalid package repository path")
safe_remote_path _ = err (raised "invalid package repository path")

-- `CHECKSUM_LENGTHS[int(type_text)]`, `none` for a type that is not supported
unfoldable pub checksum_length : String → Option ℕ
checksum_length t =
    if t == "0" || t == "5"
    then some 52
    else if t == "1"
    then some 64
    else if t == "2"
    then some 103
    else none

-- The letters of `ZBASE32_ALPHABET`
is_zbase32 : ℕ → Bool
is_zbase32 c =
    (is_digit c && not (nat_eq c b'0') && not (nat_eq c b'2'))
    || (leb b'a' c && leb c b'z' && not (nat_eq c b'l') && not (nat_eq c b'v'))

-- `parse_checksum(value)`, by what it accepts: every caller here drops its result.
unfoldable pub parse_checksum : Json → Result (Unit {0})
unfolding split_on all_chars size checksum_length is_zbase32 is_empty
parse_checksum (str s) = typed (split_on b'$' s)
  where
    checked : String → String → Option ℕ → Result (Unit {0})
    checked t digest none = err (raised "unsupported package checksum type ")
    checked t digest (some n) = do
      (if nat_eq (size digest) n then ok tt else err (raised "invalid package checksum length"))
      if t == "1"
          then (if all_chars is_hex digest
              then ok tt
              else err (raised "invalid hexadecimal package checksum"))
          else if all_chars is_zbase32 digest
          then ok tt
          else err (raised "invalid z-base32 package checksum")

    typed : List String → Result (Unit {0})
    typed (p ∷ []) =
        if is_hex_of_size 64 p
        then ok tt
        else err (raised "invalid legacy SHA-256 package checksum")
    typed (t ∷ digest ∷ []) = checked t digest (checksum_length t)
    typed _ = err (raised "invalid package checksum")
parse_checksum _ = err (raised "invalid package checksum")

-- `enabled in ("on", True)`, `none` for what is no OPTIONS value
is_enabled : Json → Option Bool
is_enabled (bool b) = some b
is_enabled (str s) = if s == "on" then some true else if s == "off" then some false else none
is_enabled _ = none

options_from : Dict Bool → Members → Result (Dict Bool)
unfolding is_enabled
options_from result done = ok result
options_from result (member key enabled ms) = do
  name ← safe_name (str key)
  value ← or_raise (is_enabled enabled) (raised "invalid OPTIONS value")
  options_from (insert key value result) ms

-- `options(value)` of scripts/binary_seed.py
unfoldable pub options : Json → Result (Dict Bool)
unfolding options_from
options (obj ms) = options_from [] ms
options _ = err (raised "OPTIONS must be explicit")
