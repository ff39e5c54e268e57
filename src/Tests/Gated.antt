-- ===== src/Tests/Gated.antt =====
-- The gate on a release that is sealed two days after the one that is live.
use freesense_os_base.Base.{◌≡◌, refl, ◌==◌, true, none, some, [], ◌∷◌, ok, if◌then◌else◌}
use freesense_os_base.Base.Json.{Json, str, obj, int, pos, member, done, get, items}
use freesense_os_base.Release.Gate.{World, gate}
use freesense_os_base.Release.Gate.Allowed.{Allowed, gate-Allowed}
use freesense_os_base.Tests.Released.{lock, list}
use freesense_os_base.Tests.Sample.{digest_a}
use freesense_os_base.Retention.Keys.{is_commit}
use freesense_os_base.Delta.Worklist.{member_keys}

abbrev policy : Json
policy = obj (
    member "public_base_url" (str "https://pkg") (
      member "stable_soak_hours" (int (pos 24))
        (member "release" (obj (member "stable_train" (str "1.0") done)) done)))

abbrev envelope : Json
envelope = obj (member "payload" (str "p") done)

abbrev live : Json
live = obj (
    member "version" (str "1.0.1")
      (member "system" (obj (member "published_at" (str "2026-01-01T00:00:00Z") done)) done))

abbrev world : World
world = record {
  fetch = λ url. ok (
      some (
        if url == "https://pkg/repos.amd64.manifest.json"
        then envelope
        else obj (member "status" (str "ahead") done)));
  decode = λ payload. ok (obj (member "channels" (obj (member "stable" live done)) done));
  fromisoformat = λ s.
      if s == "2026-01-01T00:00:00+00:00"
      then some (record { utc = 1000; has_zone = true })
      else none;
}

gate_run :
    gate world policy "1.0.2" true lock (some list) (digest_a ∷ []) (digest_a ∷ []) 172800001000
    ≡ ok []
unfolding gate get is_commit member_keys items
gate_run = refl

gate_early :
    gate world policy "1.0.2" true lock (some list) (digest_a ∷ []) (digest_a ∷ []) 3600000000
    ≡ ok ("Stable " ∷ [])
unfolding gate get is_commit member_keys items
gate_early = refl

gate-Allowed_example :
    Allowed world policy "1.0.2" lock (some list) (digest_a ∷ []) (digest_a ∷ []) 172800001000
gate-Allowed_example =
    gate-Allowed world policy "1.0.2" lock (some list) (digest_a ∷ []) (digest_a ∷ []) 172800001000
      gate_run
