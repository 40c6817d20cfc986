-- ===== src/Order/Acyclic.antt =====
-- `topologicalSort` of internal/handlers/toposort.go at jobs without a cycle.
use git_ci.Common.{List, ℕ, zero, suc, ◌<◌, Text, ◌≡◌, refl, arith}
use git_ci.Order.Count.{count}
use git_ci.Order.Local.{Jobs, has_job, Sorting, ordered, circular, out_of_fuel, topological_sort}
use git_ci.Order.LocalLaws.{needs_in}
use git_ci.Order.LocalOrder.{IsMap, IsVisit, IsCycle, IsSorting, topological_sort-IsSorting}

-- A rank that puts the needs of a job below it.
abbrev pub IsRanked : (Text → ℕ) → Jobs → Type 0
IsRanked rank jobs = (n m : Text) → 0 < count m (needs_in (has_job jobs) jobs n) → rank m < rank n

-- Along a cycle the rank would fall for ever.
descent :
    (rank : Text → ℕ) (jobs : Jobs) (names : List Text)
    → IsRanked rank jobs
    → IsCycle jobs names
    → (k : ℕ) (n : Text) → 0 < count n names
    → ¬ (rank n < k)
descent rank jobs names ranked cycle zero n stands below = omega arith
descent rank jobs names ranked cycle (suc k) n stands below =
    let (m, dep, there) = cycle.needs_one n stands in
    descent rank jobs names ranked cycle k m there (omega (arith, ranked n m dep))

pub not-IsCycle :
    (rank : Text → ℕ) (jobs : Jobs) (names : List Text)
    → IsRanked rank jobs
    → ¬ (IsCycle jobs names)
not-IsCycle rank jobs names ranked cycle =
    let (n, stands) = cycle.one in
    descent rank jobs names ranked cycle (suc (rank n)) n stands (omega arith)

-- Where some rank puts the needs of each job below it, `topologicalSort` finds no cycle: it gives
-- an order, whatever the order in which Go takes the entries of the map.
pub topological_sort-ordered :
    (rank : Text → ℕ) (jobs : Jobs) (second third : List Text)
    → IsMap jobs
    → IsVisit jobs second
    → IsVisit jobs third
    → IsRanked rank jobs
    → (names : List Text) × (topological_sort jobs second third ≡ ordered names)
topological_sort-ordered rank jobs second third one v w ranked =
    go (topological_sort jobs second third) refl
      (topological_sort-IsSorting jobs second third one v w)
  where
    go :
        (r : Sorting)
        → topological_sort jobs second third ≡ r
        → IsSorting jobs r
        → (names : List Text) × (topological_sort jobs second third ≡ ordered names)
    go (ordered names) e h = (names, e)
    go (circular names) e h = absurd (not-IsCycle rank jobs names ranked h)
    go out_of_fuel e h = absurd h
