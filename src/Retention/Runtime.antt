-- ===== src/Retention/Runtime.antt =====
-- What the retention script takes from outside the repository, and its two wrappers of it:
-- `parse_time` and `canonical_json` of scripts/r2_retention.py. Times are microseconds since
-- `datetime.min` in UTC.
use Prim.Native.String.{String}
use freesense_os_base.Base.{
  ℕ, Bool, Option, none, some, Result, ok, fail, if◌then◌else◌, ◌<>◌, nat_eq,
}
use freesense_os_base.Base.Json.{Json}
use Prim.Native.Char.{code}

pub record Stamp : Type 0 where
  pub utc : ℕ
  -- Whether the text named a timezone.
  pub has_zone : Bool

pub record Runtime : Type 0 where
  -- `datetime.fromisoformat`; `none` is `ValueError`
  pub fromisoformat : String → Option Stamp
  -- `.isoformat().replace("+00:00", "Z")` of a UTC time
  pub isoformat : ℕ → String
  -- `json.dumps(value, sort_keys=True, separators=(",", ":"))`
  pub dumps : Json → String
  -- `hashlib.sha256(text.encode()).hexdigest()`
  pub sha256 : String → String

-- `value.replace("Z", "+00:00")`
unfoldable pub replace_zulu : String → String
replace_zulu String.[] = String.[]
replace_zulu (String.◌∷◌ c s) =
    let rest = replace_zulu s in
    if nat_eq (code c) b'Z' then "+00:00" <> rest else String.◌∷◌ c rest

module _ (rt : Runtime) where
  aware : Option Stamp → Result ℕ
  aware none = fail "invalid R2 object timestamp "
  aware (some t) = if t.has_zone then ok t.utc else fail "R2 object timestamp has no timezone: "

  unfoldable pub parse_time : String → Result ℕ
  unfolding aware replace_zulu
  parse_time value = aware (rt.fromisoformat (replace_zulu value))

  unfoldable pub canonical_json : Json → String
  canonical_json value = rt.dumps value
