-- ===== src/Shards.antt =====
-- scripts/partition_roots.py: `batches`, which cuts a shard's roots into cumulative batches by their
-- measured cost.
pub mod Cover
pub mod Partition
use freesense_os_base.Base.{
  ℕ, zero, suc, ◌+◌, String, Bool, ◌&&◌, not, true, false, Option, none, some, List, [], ◌∷◌, ◌++◌,
  ltb, if◌then◌else◌, Result, ok, err, raised, ◌>>=◌, or_raise,
}
use freesense_os_base.Base.Sets.{Dict, lookup}
use freesense_os_base.Base.Json.{Json, ℤ, pos, negsuc, int}

-- A cost, or the default where there is none, which has to be an integer that is not negative
unfoldable pub as_cost : ℕ → Option Json → Result ℕ
as_cost default none = ok default
as_cost default (some (int (pos n))) = ok n
as_cost default (some _) = err (raised "invalid measured cost: ")

-- `costs.get(root, default)`
unfoldable pub cost_of : Dict Json → ℕ → String → Result ℕ
unfolding as_cost
cost_of costs default root = as_cost default (lookup root costs)

-- The locals `result`, `current` and `elapsed`
pub record Cutting : Type 0 where
  pub result : List (List String)
  pub current : List String
  pub elapsed : ℕ

abbrev pub nothing_cut : Cutting
nothing_cut = record { result = []; current = []; elapsed = 0 }

abbrev pub is_started : List String → Bool
is_started [] = false
is_started (_ ∷ _) = true

-- `result.append(current.copy()); current, elapsed = [], 0`
unfoldable pub flush : Cutting → Cutting
flush s = record { result = s.result ++ s.current ∷ []; current = []; elapsed = 0 }

-- The body of the loop, for a root of this cost
unfoldable pub cut_root : ℕ → Cutting → String → ℕ → Cutting
unfolding flush
cut_root limit s root cost =
    if ltb limit cost
    then (let f = if is_started s.current then flush s else s in
        record f { result = f.result ++ (root ∷ []) ∷ [] })
    else (let f = if is_started s.current && ltb limit (s.elapsed + cost) then flush s else s in
        record f { current = f.current ++ root ∷ []; elapsed = f.elapsed + cost })

unfoldable pub cut_all : Dict Json → ℕ → ℕ → Cutting → List String → Result Cutting
cut_all costs limit default s [] = ok s
cut_all costs limit default s (root ∷ roots) = do
  cost ← cost_of costs default root
  cut_all costs limit default (cut_root limit s root cost) roots

-- The batches, with the one that is still open
unfoldable pub pieces : Cutting → List (List String)
unfolding flush
pieces s = if is_started s.current then (flush s).result else s.result

-- Each batch with all before it
unfoldable pub cumulative : List String → List (List String) → List (List String)
cumulative seen [] = []
cumulative seen (batch ∷ rest) = (seen ++ batch) ∷ cumulative (seen ++ batch) rest

abbrev pub positive : ℤ → Option ℕ
positive (pos zero) = none
positive (pos (suc n)) = some (suc n)
positive (negsuc n) = none

unfoldable pub batches : List String → Dict Json → ℤ → ℤ → Result (List (List String))
batches roots costs limit_seconds default_cost_seconds = do
  limit ← or_raise (positive limit_seconds) (raised "invalid batch watchdog")
  default ← or_raise (positive default_cost_seconds) (raised "invalid batch watchdog")
  s ← cut_all costs limit default nothing_cut roots
  ok (cumulative [] (pieces s))
