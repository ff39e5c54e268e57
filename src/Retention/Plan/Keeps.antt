-- ===== src/Retention/Plan/Keeps.antt =====
-- plan_retention of scripts/r2_retention.py: the artifacts that are to be kept whatever else the plan
-- does, and the loop over the markers that protects them.
use freesense_os_base.Base.{
  ◌≡◌, refl, subst, sym, String, ◌==◌, Bool, not, true, some, [], ◌∷◌, if◌then◌else◌, arith,
  Bool-cases, inl, inr,
}
use mathlib.Core.Option.{some-injective}
use freesense_os_base.Base.Json.{Json, get, is_text}
use freesense_os_base.Base.Sets.{Dict, contains, lookup, contains-add_self, contains-add_mono}
use freesense_os_base.Retention.Marker.{Entry}
use freesense_os_base.Retention.Locks.{Locks, is_locked}
use freesense_os_base.Retention.Plan.Inputs.{Policy}
use freesense_os_base.Retention.Plan.Roots.{
  Sorted, same_train, train_json, sort_system, sort_packages, sort_image, sort_entry, sort_entries,
  protect,
}

-- A repository of the Stable train that is no release lock's, or one of the Development train,
-- rolls; every other repository, and every Stable image, is kept forever.
repository_stays : Policy → Bool → Json → Bool
repository_stays p locked train =
    if same_train train p.stable_train then locked else not (same_train train p.development_train)

unfoldable pub is_forever : Policy → Locks → Entry → Bool
unfolding repository_stays
is_forever p locks e =
    let inputs = get "inputs" e.marker in
    if e.kind == "system"
    then repository_stays p (is_locked (get "source" inputs) (get "freebsd" inputs) locks.systems)
        (get "package_train" inputs)
    else if e.kind == "packages"
    then repository_stays p
        (is_locked (get "packages" inputs) (get "freebsd" inputs) locks.packages)
        (train_json e.train)
    else is_text "stable" (get "channel" inputs)

none_found : (j : String) {e : Entry} → lookup j [] ≡ some e → ⊥
unfolding lookup
none_found j h = cc h

lookup-cons :
    (i : String) (d : Entry) (es : Dict Entry) (j : String)
    → lookup j ((i, d) ∷ es) ≡ (if i == j then some d else lookup j es)
unfolding lookup
lookup-cons i d es j = refl

module _ (p : Policy) (locks : Locks) where
  sort_system_mono :
      (s : Sorted) (e : Entry) (k : String)
      → contains s.protected k ≡ true
      → contains (sort_system p locks s e).protected k ≡ true
  unfolding sort_system protect
  sort_system_mono s e k h = ground (arith, contains-add_mono e.prefix s.protected k)

  sort_packages_mono :
      (s : Sorted) (e : Entry) (k : String)
      → contains s.protected k ≡ true
      → contains (sort_packages p locks s e).protected k ≡ true
  unfolding sort_packages protect
  sort_packages_mono s e k h = ground (arith, contains-add_mono e.prefix s.protected k)

  sort_image_mono :
      (s : Sorted) (e : Entry) (k : String)
      → contains s.protected k ≡ true
      → contains (sort_image s e).protected k ≡ true
  unfolding sort_image protect
  sort_image_mono s e k h = ground (arith, contains-add_mono e.prefix s.protected k)

  sort_entry_mono :
      (s : Sorted) (e : Entry) (k : String)
      → contains s.protected k ≡ true
      → contains (sort_entry p locks s e).protected k ≡ true
  unfolding sort_entry
  sort_entry_mono s e k h =
      ground (arith, sort_system_mono s e k, sort_packages_mono s e k, sort_image_mono s e k)

  sort_system-forever :
      (s : Sorted) (e : Entry)
      → repository_stays p
          (is_locked
            (get "source" (get "inputs" e.marker))
            (get "freebsd" (get "inputs" e.marker))
            locks.systems)
          (get "package_train" (get "inputs" e.marker))
        ≡ true
      → contains (sort_system p locks s e).protected e.prefix ≡ true
  unfolding sort_system protect repository_stays
  sort_system-forever s e h = ground (arith, contains-add_self e.prefix s.protected)

  sort_packages-forever :
      (s : Sorted) (e : Entry)
      → repository_stays p
          (is_locked
            (get "packages" (get "inputs" e.marker))
            (get "freebsd" (get "inputs" e.marker))
            locks.packages)
          (train_json e.train)
        ≡ true
      → contains (sort_packages p locks s e).protected e.prefix ≡ true
  unfolding sort_packages protect repository_stays
  sort_packages-forever s e h = ground (arith, contains-add_self e.prefix s.protected)

  sort_image-forever :
      (s : Sorted) (e : Entry)
      → is_text "stable" (get "channel" (get "inputs" e.marker)) ≡ true
      → contains (sort_image s e).protected e.prefix ≡ true
  unfolding sort_image protect
  sort_image-forever s e h = rw h (contains-add_self e.prefix s.protected)

  sort_entry-forever :
      (s : Sorted) (e : Entry)
      → is_forever p locks e ≡ true
      → contains (sort_entry p locks s e).protected e.prefix ≡ true
  unfolding sort_entry is_forever
  sort_entry-forever s e h = elim (Bool-cases (e.kind == "system")) [
    | inl y ↦ rw y (sort_system-forever s e (rw y at h))
    | inr n ↦ elim (Bool-cases (e.kind == "packages")) [
      | inl y' ↦ rw (n, y') (sort_packages-forever s e (rw (n, y') at h))
      | inr n' ↦ rw (n, n') (sort_image-forever s e (rw (n, n') at h))
    ]
  ]

  sort_entries_mono :
      (s : Sorted) (es : Dict Entry) (k : String)
      → contains s.protected k ≡ true
      → contains (sort_entries p locks s es).protected k ≡ true
  unfolding sort_entries
  sort_entries_mono s [] k h = h
  sort_entries_mono s ((_, e) ∷ es) k h =
      sort_entries_mono (sort_entry p locks s e) es k (sort_entry_mono s e k h)

  pub sort_entries-forever :
      (s : Sorted) (es : Dict Entry) (j : String) (e : Entry)
      → lookup j es ≡ some e
      → is_forever p locks e ≡ true
      → contains (sort_entries p locks s es).protected e.prefix ≡ true
  unfolding sort_entries
  sort_entries-forever s [] j e found h = absurd (none_found j found)
  sort_entries-forever s ((i, d) ∷ es) j e found h =
      let found' = rw (lookup-cons i d es j) at found in
      elim (Bool-cases (i == j)) [
        | inl here ↦
            let same : d ≡ e = some-injective d e (rw here at found') in
            subst
              (λ x.
                contains (sort_entries p locks (sort_entry p locks s d) es).protected x.prefix
                ≡ true)
              same
              (sort_entries_mono (sort_entry p locks s d) es d.prefix
                (sort_entry-forever s d (subst (λ x. is_forever p locks x ≡ true) (sym same) h)))
        | inr later ↦ sort_entries-forever (sort_entry p locks s d) es j e (rw later at found') h
      ]
