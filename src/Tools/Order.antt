-- ===== src/Tools/Order.antt =====
-- scripts/resolve_worker_tools.py: `_dependency_order`, a depth-first walk.
pub mod Steps
pub mod Walked
pub mod Ordered
pub mod Needed
pub mod Ends
use freesense_os_base.Base.{
  ℕ, zero, suc, String, ◌==◌, Bool, ◌&&◌, not, true, false, Option, none, some, List, [], ◌∷◌, ◌++◌,
  if◌then◌else◌, Result, Error, ok, err, raised, ◌>>=◌, ◌>>◌, length, or_raise,
}
use freesense_os_base.Base.Sets.{Dict, contains, lookup, insert}
use freesense_os_base.Delta.Records.{check}
use freesense_os_base.Tools.Catalog.{Dependency, Package}

-- The values 1 and 2 of `state`
pub data Mark : Type 0 where
  active : Mark
  finished : Mark

-- The variables that `visit` changes. The head of the stack is its end.
pub record Walk : Type 0 where
  pub order : List Package
  pub state : Dict Mark
  pub stack : List String

abbrev pub not_started : Walk
not_started = record { order = []; state = []; stack = [] }

unfoldable pub enter : String → Walk → Walk
enter name w = record w { state = insert name Mark.active w.state; stack = name ∷ w.stack }

abbrev pub rest_of : List String → List String
rest_of [] = []
rest_of (n ∷ ns) = ns

unfoldable pub leave : String → Package → Walk → Walk
leave name pkg w = record {
  order = w.order ++ pkg ∷ [];
  state = insert name Mark.finished w.state;
  stack = rest_of w.stack;
}

abbrev pub out_of_fuel : String
out_of_fuel = "out of fuel"

abbrev pub missing_error : Option String → Error
missing_error none = raised "missing worker-tool root package "
missing_error (some by) = raised "missing dependency "

module _ (packages : Dict Package) (ambiguous : List String) where
  -- The checks on a dependency before it is visited
  unfoldable pub check_dependency : Dependency → Result (Unit {0})
  unfolding lookup
  check_dependency d = do
    dependency ← or_raise (lookup d.name packages) (raised "missing dependency ")
    check (dependency.version == d.version) "dependency version mismatch for "
    check (dependency.origin == d.origin) "dependency origin mismatch for "

  -- The loop over the dependencies, by the call that visits one
  unfoldable pub visit_all :
      (String → Option String → Walk → Result Walk) → String → List Dependency → Walk → Result Walk
  unfolding check_dependency
  visit_all call by [] w = ok w
  visit_all call by (d ∷ ds) w = do
    check_dependency d
    next ← call d.name (some by) w
    visit_all call by ds next

  -- `visit(name, required_by)`
  unfoldable pub visit : ℕ → String → Option String → Walk → Result Walk
  unfolding visit_all enter leave lookup
  visit zero name required_by w = err (raised out_of_fuel)
  visit (suc fuel) name required_by w = elim (contains ambiguous name) [
    | true ↦ err (raised "duplicate package name ")
    | false ↦ elim (lookup name packages) [
      | none ↦ err (missing_error required_by)
      | some pkg ↦ elim (lookup name w.state) [
        | some Mark.finished ↦ ok w
        | some Mark.active ↦ err (raised "dependency cycle: ")
        | none ↦ do
          next ← visit_all (visit fuel) pkg.name pkg.dependencies (enter name w)
          ok (leave name pkg next)
      ]
    ]
  ]

  unfoldable pub visit_roots : ℕ → List String → Walk → Result Walk
  unfolding visit
  visit_roots fuel [] w = ok w
  visit_roots fuel (root ∷ roots) w = do next ← visit fuel root none w; visit_roots fuel roots next

  -- A package is entered once: the calls nest no deeper than there are packages, and one more.
  unfoldable pub dependency_order : List String → Result (List Package)
  unfolding visit_roots
  dependency_order roots = do w ← visit_roots (suc (length packages)) roots not_started; ok w.order
