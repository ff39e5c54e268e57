-- ===== src/Delta/Worklist/Parents.antt =====
-- `dependents` of scripts/delta_closure.py: the reverse dependencies that it collects.
use freesense_os_base.Base.{
  ◌≡◌, String, ◌==◌, Bool, ◌&&◌, ◌||◌, true, List, [], ◌∷◌, any, arith, eq_iff,
}
use freesense_os_base.Base.Json.{Json}
use freesense_os_base.Base.Sets.{Dict, contains, lookup, contains-add}
use freesense_os_base.Delta.Worklist.{deps_of, names, add_to, add_parent, reverse_deps, parents}

parents-add_to :
    (k name : String) (d : Dict (List String)) (j p : String)
    → contains (parents (add_to k name d) j) p ≡ (contains (parents d j) p || (k == j && name == p))
unfolding add_to lookup
parents-add_to k name [] j p = ground (arith, eq_iff k j)
parents-add_to k name ((i, ns) ∷ d) j p =
    ground (
      arith,
      eq_iff k j,
      eq_iff i k,
      eq_iff i j,
      contains-add name ns p,
      parents-add_to k name d j p,
    )

parents-add_parent :
    (name : String) (ds : List String) (d : Dict (List String)) (j p : String)
    → contains (parents (add_parent name ds d) j) p
      ≡ (contains (parents d j) p || (contains ds j && name == p))
unfolding add_parent
parents-add_parent name [] d j p = ground arith
parents-add_parent name (k ∷ ds) d j p =
    ground (arith, parents-add_parent name ds (add_to k name d) j p, parents-add_to k name d j p)

-- The reverse map lists under a name exactly the records that depend on it.
parents-reverse_deps :
    (records : Dict Json) (d : Dict (List String)) (j p : String)
    → contains (parents (reverse_deps records d) j) p
      ≡ (contains (parents d j) p || any (λ e. contains (deps_of e.1) j && e.0 == p) records)
unfolding reverse_deps
parents-reverse_deps [] d j p = ground arith
parents-reverse_deps ((name, r) ∷ records) d j p = ground (
  arith,
  parents-reverse_deps records (add_parent name (deps_of r) d) j p,
  parents-add_parent name (deps_of r) d j p,
)

-- `n` is recorded as depending on `d`.
unfoldable pub depends : Dict Json → String → String → Bool
depends records n d = any (λ e. contains (deps_of e.1) d && e.0 == n) records

pub depends-names :
    (records : Dict Json) (n d : String)
    → depends records n d ≡ true
    → contains (names records) n ≡ true
unfolding depends
depends-names [] n d h = cc h
depends-names ((m, r) ∷ records) n d h = ground (arith, depends-names records n d)

pub parents-eq :
    (records : Dict Json) (n d : String)
    → contains (parents (reverse_deps records []) d) n ≡ depends records n d
unfolding depends lookup
parents-eq records n d = parents-reverse_deps records [] d n
