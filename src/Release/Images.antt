-- ===== src/Release/Images.antt =====
-- scripts/images_due.py: whether a run builds images.
use freesense_os_base.Base.{
  ◌≡◌, sym, ap, String, ◌==◌, ◌<>◌, Bool, ◌&&◌, true, false, Option, none, some, List, [], ◌∷◌,
  Bool-cases, inl, inr, if◌then◌else◌, Result, ok, err, raised, ◌>>=◌, >>=-eq-ok, ok-injective,
}
use freesense_os_base.Base.Json.{
  Json, null, bool, int, arr, obj, done, str, get, subscript, is_null, as_text,
}
use mathlib.Core.Bool.{false≢true}
use freesense_os_base.Release.Gate.{first_chars}
use freesense_os_base.Release.Lock.{truthy, is_same}

-- `read(url) or {}`: a page that does not exist, or is empty, reads as a dictionary without members.
abbrev pub or_empty : Json → Json
or_empty v = if truthy v then v else obj done

abbrev text_of : Json → Result String
text_of (str s) = ok s
text_of _ = err (raised "TypeError")

-- Why images are due for an architecture, by its live and its planned pin, which are texts
unfoldable pub compare_pins : String → Json → Json → Result (Option String)
unfolding first_chars
compare_pins arch live planned =
    if is_null live
    then ok (some ("no " <> arch <> " image release yet"))
    else if is_same live planned
    then ok none
    else (text_of live >>= λ old. text_of planned >>= λ new. ok (
        some (
          arch
          <> " images were built on FreeBSD pin "
          <> first_chars 12 old
          <> ", this pair is on "
          <> first_chars 12 new)))

compare_pins-none :
    (arch : String) (live planned : Json)
    → compare_pins arch live planned ≡ ok none
    → is_same live planned ≡ true
unfolding compare_pins
compare_pins-none arch (str s) (str t) h = elim (Bool-cases (t == s)) [
  | inl same ↦ same
  | inr other ↦ cc (rw (other, compare_pins) at h)
]
compare_pins-none arch (str s) null h = cc h
compare_pins-none arch (str s) (bool b) h = cc h
compare_pins-none arch (str s) (int n) h = cc h
compare_pins-none arch (str s) (arr es) h = cc h
compare_pins-none arch (str s) (obj ms) h = cc h
compare_pins-none arch null planned h = absurd (cc h)
compare_pins-none arch (bool b) planned h = cc h
compare_pins-none arch (int n) planned h = cc h
compare_pins-none arch (arr es) planned h = cc h
compare_pins-none arch (obj ms) planned h = cc h

module _ (read : String → Result Json) where
  -- The answer is `null` where there is no live image, or its marker names no pin.
  unfoldable pub released_pin : String → String → Result Json
  unfolding subscript
  released_pin base arch = do
    release ← read (base <> "/releases/devel." <> arch <> ".json")
    (if truthy release && truthy (get "system" release)
        then (as_text (get "system" release) >>= λ system.
            read (base <> "/artifacts/system/" <> system <> "/complete.json") >>= λ marker.
            ok (get "freebsd_pin_id" (get "inputs" (or_empty marker))))
        else ok null)

  -- `plan["targets"][arch]["system"]["freebsd_pin_id"]`
  unfoldable pub planned_pin : Json → String → Result Json
  unfolding subscript
  planned_pin plan arch = do
    targets ← subscript "targets" plan
    target ← subscript arch targets
    system ← subscript "system" target
    subscript "freebsd_pin_id" system

  -- One round of the loop over the architectures: the reason why images are due, if they are
  unfoldable pub check_arch : Json → String → String → Result (Option String)
  unfolding released_pin planned_pin compare_pins
  check_arch plan base arch = do
    planned ← planned_pin plan arch
    live ← released_pin base arch
    compare_pins arch live planned

  unfoldable pub check_arches : Json → String → List String → Result (Bool × String)
  unfolding check_arch
  check_arches plan base [] = ok (false, "the live images are on this run's FreeBSD pin")
  check_arches plan base (arch ∷ arches) = do
    reason ← check_arch plan base arch
    elim reason [ some why ↦ ok (true, why) | none ↦ check_arches plan base arches ]

  unfoldable pub decide : Json → String → String → Result (Bool × String)
  unfolding check_arches
  decide plan mode base =
      if mode == "force"
      then ok (true, "forced by dispatch")
      else if mode == "skip"
      then ok (false, "skipped by dispatch")
      else if mode == "auto"
      then check_arches plan base ("amd64" ∷ "arm64" ∷ [])
      else err (raised "invalid images mode: ")

  -- The live release of the architecture was built on the pin that the plan names.
  abbrev pub IsOnPin : Json → String → String → Type 0
  IsOnPin plan base arch =
      (pin : Json) × (planned_pin plan arch ≡ ok pin)
      × (live : Json) × (released_pin base arch ≡ ok live)
      × (is_same live pin ≡ true)

  check_arch-none :
      (plan : Json) (base arch : String)
      → check_arch plan base arch ≡ ok none
      → IsOnPin plan base arch
  unfolding check_arch
  check_arch-none plan base arch h =
      let (planned, is_planned, h1) = >>=-eq-ok (planned_pin plan arch) _ h in
      let (live, is_live, h2) = >>=-eq-ok (released_pin base arch) _ h1 in
      (planned, is_planned, live, is_live, compare_pins-none arch live planned h2)

  check_arches-false :
      (plan : Json) (base arch : String) (arches : List String) (why : String)
      → check_arches plan base (arch ∷ arches) ≡ ok (false, why)
      → IsOnPin plan base arch × (check_arches plan base arches ≡ ok (false, why))
  unfolding check_arches
  check_arches-false plan base arch arches why h =
      let (reason, is_reason, h1) = >>=-eq-ok (check_arch plan base arch) _ h in
      go reason is_reason h1
    where
      go :
          (o : Option String)
          → check_arch plan base arch ≡ ok o
          → (elim o [ some text ↦ ok (true, text) | none ↦ check_arches plan base arches ])
            ≡ ok (false, why)
          → IsOnPin plan base arch × (check_arches plan base arches ≡ ok (false, why))
      go (some text) e r =
          absurd (false≢true (sym (ap (λ (p : Bool × String). p.0) (ok-injective r))))
      go none e r = (check_arch-none plan base arch e, r)

-- Where images are not due in the automatic mode, both architectures have a live release that was
-- built on the pin that the plan names.
pub decide-false :
    (read : String → Result Json) (plan : Json) (base why : String)
    → decide read plan "auto" base ≡ ok (false, why)
    → IsOnPin read plan base "amd64" × IsOnPin read plan base "arm64"
unfolding decide
decide-false read plan base why h =
    let (amd64, h1) = check_arches-false read plan base "amd64" ("arm64" ∷ []) why h in
    let (arm64, _) = check_arches-false read plan base "arm64" [] why h1 in (amd64, arm64)
