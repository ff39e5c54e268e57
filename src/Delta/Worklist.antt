-- ===== src/Delta/Worklist.antt =====
-- scripts/delta_closure.py: `dependents` and `reachable`, the two searches over the recorded
-- dependencies. A stack is a list whose head is the end that `pop` takes.
pub mod Parents
pub mod Forced
pub mod Seen
pub mod Reached
use freesense_os_base.Base.{
  ℕ, zero, suc, ◌+◌, String, ◌==◌, Bool, ◌||◌, true, false, Option, none, some, List, [], ◌∷◌, ◌++◌,
  map, if◌then◌else◌, Result, ok, err, raised, length, sum_by,
}
use freesense_os_base.Base.Json.{Json, Members, obj, member, done, get}
use freesense_os_base.Base.Sets.{Dict, contains, add, lookup}

-- `list(mapping)`: the keys
unfoldable pub member_keys : Members → List String
member_keys done = []
member_keys (member k v ms) = k ∷ member_keys ms

abbrev pub keys_of : Json → List String
keys_of (obj ms) = member_keys ms
keys_of _ = []

-- `record["deps"]`, as the names that it lists
unfoldable pub deps_of : Json → List String
unfolding member_keys
deps_of r = keys_of (get "deps" r)

abbrev pub names : {V : Type 0} → Dict V → List String
names = map (λ e. e.0)

-- `reverse.setdefault(key, set()).add(name)`
unfoldable pub add_to : String → String → Dict (List String) → Dict (List String)
add_to k name [] = (k, name ∷ []) ∷ []
add_to k name ((j, ns) ∷ d) = if j == k then (j, add name ns) ∷ d else (j, ns) ∷ add_to k name d

-- The loop over the dependencies of one record
unfoldable pub add_parent : String → List String → Dict (List String) → Dict (List String)
unfolding add_to
add_parent name [] reverse = reverse
add_parent name (d ∷ ds) reverse = add_parent name ds (add_to d name reverse)

-- The loop that fills `reverse`
unfoldable pub reverse_deps : Dict Json → Dict (List String) → Dict (List String)
unfolding add_parent deps_of
reverse_deps [] reverse = reverse
reverse_deps ((name, r) ∷ records) reverse =
    reverse_deps records (add_parent name (deps_of r) reverse)

-- `reverse.get(name, ())`
abbrev pub parents : Dict (List String) → String → List String
parents reverse name = elim (lookup name reverse) [ none ↦ [] | some ns ↦ ns ]

-- The locals `forced` and `stack`
pub record Forcing : Type 0 where
  pub forced : List String
  pub stack : List String

-- The body of the inner loop of `dependents`, for one parent
unfoldable pub force_one : List String → String → Forcing → Forcing
force_one customized p s =
    if contains customized p || contains s.forced p
    then s
    else record { forced = add p s.forced; stack = p ∷ s.stack }

-- The inner loop, over the parents of one name
unfoldable pub force : List String → List String → Forcing → Forcing
unfolding force_one
force customized [] s = s
force customized (p ∷ ps) s = force customized ps (force_one customized p s)

-- The `while stack` loop
unfoldable pub force_all :
    ℕ → (String → List String) → List String → List String → List String → List String
unfolding force
force_all fuel parents_of customized forced [] = forced
force_all zero parents_of customized forced (n ∷ stack) = forced
force_all (suc fuel) parents_of customized forced (n ∷ stack) =
    let s = force customized (parents_of n) (record { forced = forced; stack = stack }) in
    force_all fuel parents_of customized s.forced s.stack

-- A name is pushed once where it is customized, and once more where it is forced.
unfoldable pub dependents : Dict Json → List String → List String
unfolding reverse_deps
dependents records customized =
    force_all (length customized + length (names records)) (parents (reverse_deps records []))
      customized [] customized

-- `stack.extend(names)`
unfoldable pub push_all : List String → List String → List String
push_all [] stack = stack
push_all (n ∷ ns) stack = push_all ns (n ∷ stack)

-- The `while stack` loop of `reachable`
unfoldable pub reach : ℕ → Dict Json → List String → List String → Result (List String)
unfolding push_all deps_of lookup
reach fuel records seen [] = ok seen
reach zero records seen (n ∷ stack) = err (raised "out of fuel")
reach (suc fuel) records seen (n ∷ stack) = elim (contains seen n) [
  | true ↦ reach fuel records seen stack
  | false ↦ elim (lookup n records) [
    | none ↦ err (raised "KeyError")
    | some r ↦ reach fuel records (seen ++ n ∷ []) (push_all (deps_of r) stack)
  ]
]

-- Each record is expanded once at most, and each root is popped once.
unfoldable pub reachable : Dict Json → List String → Result (List String)
reachable records roots =
    reach (length roots + sum_by (λ e. length (deps_of e.1)) records) records [] (push_all roots [])
