-- ===== src/Tests/Sample.antt =====
-- A runtime for the tests. A time is written in unary, and a digest tells two prefixes apart.
use freesense_os_base.Base.{
  ℕ, zero, suc, ◌≡◌, refl, ap, String, ◌==◌, true, some, if◌then◌else◌, Bool-cases, inl, inr, ok,
}
use Prim.Native.Char.{Char}
use freesense_os_base.Base.Text.{size}
use freesense_os_base.Base.Json.{Json, str, get}
use freesense_os_base.Retention.Keys.{is_sha256}
use freesense_os_base.Retention.Runtime.{Runtime, replace_zulu, parse_time}

abbrev plus_sign : Char
plus_sign = "+"

unfoldable pub unary : ℕ → String
unary zero = String.[]
unary (suc n) = String.◌∷◌ plus_sign (unary n)

abbrev pub digest_a : String
digest_a = "aaaaaaaaaaaaaaaaaaaaaaaaaaaaaaaaaaaaaaaaaaaaaaaaaaaaaaaaaaaaaaaa"

abbrev pub digest_b : String
digest_b = "bbbbbbbbbbbbbbbbbbbbbbbbbbbbbbbbbbbbbbbbbbbbbbbbbbbbbbbbbbbbbbbb"

abbrev text_or_empty : Json → String
text_or_empty (str s) = s
text_or_empty _ = ""

abbrev pub runtime : Runtime
runtime = record {
  fromisoformat = λ s. some (record { utc = size s; has_zone = true });
  isoformat = unary;
  dumps = λ v. text_or_empty (get "prefix" v);
  sha256 = λ s. if s == "v1/a/" then digest_a else digest_b;
}

size-unary : (t : ℕ) → size (replace_zulu (unary t)) ≡ t
unfolding unary size replace_zulu
size-unary zero = refl
size-unary (suc t) = ap suc (size-unary t)

pub unary_read_back : (t : ℕ) → parse_time runtime (runtime.isoformat t) ≡ ok t
unfolding parse_time
unary_read_back t = ap ok (size-unary t)

pub sha256-IsSha256 : (s : String) → is_sha256 (runtime.sha256 s) ≡ true
unfolding is_sha256 size
sha256-IsSha256 s = elim (Bool-cases (s == "v1/a/")) [ inl e ↦ rw e refl | inr e ↦ rw e refl ]
