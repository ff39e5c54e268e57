-- ===== src/Retention/Plan/Named.antt =====
-- scripts/r2_retention.py: a completed artifact's prefix begins with `v1/artifacts/`.
use freesense_os_base.Base.{
  ◌≡◌, ◌∙◌, sym, ap, subst, String, ◌==◌, ◌<>◌, Option, none, some, List, [], ◌∷◌, Bool-cases,
  Option-cases, inl, inr, ok, >>=-eq-ok, ok-injective, any, require, or_raise, raised, Error, ◌&&◌,
}
use freesense_os_base.Base.Json.{Json, get, is_text, is_object}
use freesense_os_base.Base.Begins.{Begins}
use freesense_os_base.Base.Sets.{Dict, lookup, insert, lookup-insert}
use freesense_os_base.Retention.Keys.{
  Classified, classify_artifact_key, classify_artifact_key-Begins,
}
use freesense_os_base.Retention.Batch.{Stored}
use freesense_os_base.Retention.Marker.{Entry, marker_identity, generation_of, check_marker}
use freesense_os_base.Retention.Plan.Inputs.{
  Inventory, Groups, no_groups, group_object, group_objects, read_marker, and_entry, read_markers,
}

abbrev pub AreArtifacts : Dict Classified → Type 0
AreArtifacts d =
    (k : String) (c : Classified) → lookup k d ≡ some c → Begins "v1/artifacts/" c.prefix

group_object-AreArtifacts :
    (g : Groups) (o : Stored)
    → AreArtifacts g.identities
    → AreArtifacts (group_object g o).identities
unfolding group_object
group_object-AreArtifacts g o h k c found = elim (Option-cases (classify_artifact_key o.key)) [
  | inl other ↦ h k c (rw (group_object, other) at found)
  | inr (d, is_key) ↦
      let at : lookup k (insert d.prefix d g.identities) ≡ some c =
        rw (group_object, is_key) at found in
      elim (Bool-cases (d.prefix == k)) [
        | inl here ↦
            let same : d ≡ c =
              cc (rw here at (sym (lookup-insert d.prefix k d g.identities) ∙ at)) in
            subst (λ (x : Classified). Begins "v1/artifacts/" x.prefix) same
              (classify_artifact_key-Begins o.key d is_key)
        | inr other ↦ h k c (rw other at (sym (lookup-insert d.prefix k d g.identities) ∙ at))
      ]
]

pub group_objects-AreArtifacts :
    (g : Groups) (os : List Stored)
    → AreArtifacts g.identities
    → AreArtifacts (group_objects g os).identities
unfolding group_objects
group_objects-AreArtifacts g [] h = h
group_objects-AreArtifacts g (o ∷ os) h =
    group_objects-AreArtifacts (group_object g o) os (group_object-AreArtifacts g o h)

or_raise-some : {A : Type 0} (o : Option A) (e : Error) (a : A) → or_raise o e ≡ ok a → o ≡ some a
or_raise-some none e a h = absurd (cc h)
or_raise-some (some b) e a h = ap some (ok-injective h)

marker_identity-prefix :
    (c : Classified) (m : Json) (e : Entry) → marker_identity c m ≡ ok e → e.prefix ≡ c.prefix
unfolding marker_identity
marker_identity-prefix c m e h =
    let inputs = get "inputs" m in
    let (_, _, h1) = >>=-eq-ok (require (is_object m) "completion marker is not an object: ") _ h in
    let (_, _, h2) =
      >>=-eq-ok (require (is_text c.fingerprint (get "fingerprint" m) && is_object inputs) _) _
        h1 in
    let (_, _, h3) = >>=-eq-ok (or_raise (generation_of (get "generation" m)) _) _ h2 in
    let (_, _, h4) = >>=-eq-ok (check_marker c m inputs) _ h3 in
    sym (ap (λ (x : Entry). x.prefix) (ok-injective h4))

module _ (build : Inventory) (g : Groups) (are_artifacts : AreArtifacts g.identities) where
  read_marker-Begins :
      (prefix : String) (os : List Stored) (e : Entry)
      → read_marker build g prefix os ≡ ok (some e)
      → Begins "v1/artifacts/" e.prefix
  unfolding read_marker
  read_marker-Begins prefix os e h =
      elim (Bool-cases (any (λ o. o.key == prefix <> "/complete.json") os)) [
        | inr none_there ↦ absurd (cc (ok-injective (rw none_there at h)))
        | inl there ↦
            let (document, _, h1) =
              >>=-eq-ok (or_raise (lookup (prefix <> "/complete.json") build.documents) _) _
                (rw there at h) in
            let (c, is_c, h2) = >>=-eq-ok (or_raise (lookup prefix g.identities) _) _ h1 in
            let (e', is_e, h3) = >>=-eq-ok (marker_identity c document) _ h2 in
            let same : e' ≡ e = cc (ok-injective h3) in
            subst (λ (x : Entry). Begins "v1/artifacts/" x.prefix) same
              (subst (Begins "v1/artifacts/") (sym (marker_identity-prefix c document e' is_e)) (
                are_artifacts prefix c
                  (or_raise-some (lookup prefix g.identities) (raised "KeyError") c is_c)))
      ]

  pub read_markers-Begins :
      (groups : Dict (List Stored)) (markers : Dict Entry) (key : String) (e : Entry)
      → read_markers build g groups ≡ ok markers
      → lookup key markers ≡ some e
      → Begins "v1/artifacts/" e.prefix
  unfolding read_markers lookup
  read_markers-Begins [] markers key e h found = absurd (cc (rw (sym (ok-injective h)) at found))
  read_markers-Begins ((prefix, os) ∷ groups) markers key e h found =
      let (o, eo, h1) = >>=-eq-ok (read_marker build g prefix os) _ h in
      let (rest, er, h2) = >>=-eq-ok (read_markers build g groups) _ h1 in
      let rest_Begins = read_markers-Begins groups rest key e er in
      elim o
          as (λ o'.
            read_marker build g prefix os ≡ ok o'
            → ok (and_entry prefix o' rest) ≡ ok markers
            → Begins "v1/artifacts/" e.prefix) [
              | none ↦ λ _ same. rest_Begins (rw (sym (ok-injective same)) at found)
              | some e' ↦ λ is_e same.
                  let found' : lookup key ((prefix, e') ∷ rest) ≡ some e =
                    ap (lookup key) (ok-injective same) ∙ found in
                  elim (Bool-cases (prefix == key)) [
                    | inl here ↦
                        let this : e' ≡ e = cc (rw (lookup, here) at found') in
                        subst (λ (x : Entry). Begins "v1/artifacts/" x.prefix) this
                          (read_marker-Begins prefix os e' is_e)
                    | inr other ↦ rest_Begins (rw (lookup, other) at found')
                  ]
            ]
        eo h2

-- No group is classified yet.
pub no_groups-AreArtifacts : AreArtifacts no_groups.identities
unfolding lookup
no_groups-AreArtifacts k c found = absurd (cc found)
