-- ===== src/Order/Kahn.antt =====
-- Kahn's algorithm, as `topologicalSort` of internal/handlers/toposort.go and
-- `deterministicTopologicalOrder` of internal/execution/discovery.go have it: the two loops are the
-- same up to the place where a job that has become free enters the queue, a parameter here.
use git_ci.Common.{
  Option, none, some, List, [], ◌∷◌, ◌++◌, ℕ, zero, suc, Text, text_eq, if◌then◌else◌, ℤ, pos,
  negsuc, is_zero,
}

-- `inDegree`, `queue` and `sorted`, which the other function calls `indegree`, `ready` and `order`.
pub record Progress : Type 0 where
  pub degree : Text → ℤ
  pub queue : List Text
  pub sorted : List Text

-- `degree--`
abbrev pub decrement : ℤ → ℤ
decrement (pos zero) = negsuc 0
decrement (pos (suc n)) = pos n
decrement (negsuc n) = negsuc (suc n)

abbrev pub assign : (Text → ℤ) → Text → ℤ → Text → ℤ
assign f key value other = if text_eq other key then value else f other

module _ (enqueue : Text → List Text → List Text) (dependents : Text → List Text) where
  -- The inner loop, over the jobs that depend on the one that was taken.
  unfoldable pub settle : List Text → Progress → Progress
  settle [] p = p
  settle (dependent ∷ rest) p =
      let degree = decrement (p.degree dependent) in
      settle rest (record p {
        degree = assign p.degree dependent degree;
        queue = if is_zero degree then enqueue dependent p.queue else p.queue;
      })

  -- One round of the outer loop.
  unfoldable pub take_job : Text → List Text → Progress → Progress
  unfolding settle
  take_job current rest p =
      settle (dependents current) (record p { queue = rest; sorted = p.sorted ++ current ∷ [] })

  -- The outer loop. It is `none` where the fuel runs out.
  unfoldable pub kahn_loop : ℕ → Progress → Option Progress
  unfolding take_job
  kahn_loop zero p = elim p.queue [ [] ↦ some p | current ∷ rest ↦ none ]
  kahn_loop (suc fuel) p = elim p.queue [
    | [] ↦ some p
    | current ∷ rest ↦ kahn_loop fuel (take_job current rest p)
  ]
