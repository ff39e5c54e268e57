-- ===== src/Tests/Due.antt =====
-- A run on the pin that the live images of both architectures were built on.
use freesense_os_base.Base.{◌≡◌, refl, String, ◌==◌, true, false, ok, if◌then◌else◌, Result}
use freesense_os_base.Base.Json.{Json, str, obj, null, member, done, get}
use freesense_os_base.Release.Images.{IsOnPin, decide, decide-false}
use freesense_os_base.Release.Lock.{truthy}

abbrev images : Json
images = obj (member "system" (obj (member "freebsd_pin_id" (str "p1") done)) done)

abbrev plan : Json
plan = obj (member "targets" (obj (member "amd64" images (member "arm64" images done))) done)

abbrev read : String → Result Json
read url =
    if url == "b/artifacts/system/s/complete.json"
    then ok (obj (member "inputs" (obj (member "freebsd_pin_id" (str "p1") done)) done))
    else ok (obj (member "system" (str "s") done))

decide_run :
    decide read plan "auto" "b" ≡ ok (false, "the live images are on this run's FreeBSD pin")
unfolding decide truthy get
decide_run = refl

decide_first : decide (λ url. ok null) plan "auto" "b" ≡ ok (true, "no amd64 image release yet")
unfolding decide truthy
decide_first = refl

decide-false_example : IsOnPin read plan "b" "amd64" × IsOnPin read plan "b" "arm64"
decide-false_example =
    decide-false read plan "b" "the live images are on this run's FreeBSD pin" decide_run
