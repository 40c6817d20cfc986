-- ===== src/Order/Local.antt =====
-- `topologicalSort` of internal/handlers/toposort.go. A map of jobs is the list of its entries in
-- the order in which the loop over it takes them, each key once; Go takes the entries of a map in
-- any order, and another one for each loop.
use git_ci.Common.{
  Bool, true, false, Option, none, some, List, [], ◌∷◌, ◌++◌, map, zero, suc, Text, text_eq, length,
  ◌==◌, if◌then◌else◌, ℤ, pos, negsuc, is_zero,
}
use git_ci.Execution.Dependency.{find}
use git_ci.Order.Kahn.{Progress, assign, kahn_loop}

-- A job's name and its needs.
abbrev pub Jobs : Type 0
Jobs = List (Text × List Text)

abbrev pub names_of : Jobs → List Text
names_of jobs = map (λ (job : Text × List Text). job.0) jobs

abbrev pub is_some {ℓ} : {A : Type ℓ} → Option A → Bool
is_some none = false
is_some (some a) = true

unfoldable pub has_job : Jobs → Text → Bool
unfolding find
has_job jobs name = is_some (find name jobs)

-- `inDegree` and `dependents`
pub record Edges : Type 0 where
  pub degree : Text → ℤ
  pub dependents : Text → List Text

-- `inDegree[name]++`
abbrev pub increment : ℤ → ℤ
increment (pos n) = pos (suc n)
increment (negsuc zero) = pos zero
increment (negsuc (suc n)) = negsuc n

abbrev pub assign_list : (Text → List Text) → Text → List Text → Text → List Text
assign_list f key value other = if text_eq other key then value else f other

abbrev pub add_edge : (name need : Text) → Edges → Edges
add_edge name need e = record {
  degree = assign e.degree name (increment (e.degree name));
  dependents = assign_list e.dependents need (e.dependents need ++ name ∷ []);
}

-- The loop over the needs of a job.
unfoldable pub needs_loop : (exists_job : Text → Bool) → Text → List Text → Edges → Edges
needs_loop exists_job name [] e = e
needs_loop exists_job name (need ∷ rest) e =
    needs_loop exists_job name rest (if exists_job need then add_edge name need e else e)

-- The loop over the jobs.
unfoldable pub edges_loop : (exists_job : Text → Bool) → Jobs → Edges → Edges
unfolding needs_loop
edges_loop exists_job [] e = e
edges_loop exists_job ((name, needs) ∷ rest) e =
    edges_loop exists_job rest (needs_loop exists_job name needs e)

abbrev pub no_edges : Edges
no_edges = record { degree = λ name. pos 0; dependents = λ name. [] }

unfoldable pub edges_of : Jobs → Edges
unfolding edges_loop has_job
edges_of jobs = edges_loop (has_job jobs) jobs no_edges

-- The names of a loop over `inDegree` whose degree passes a test.
unfoldable pub keep : (Text → Bool) → List Text → List Text
keep f [] = []
keep f (name ∷ rest) = if f name then name ∷ keep f rest else keep f rest

abbrev pub is_positive : ℤ → Bool
is_positive (pos zero) = false
is_positive (pos (suc n)) = true
is_positive (negsuc n) = false

-- `append(queue, dep)`
abbrev pub push_back : Text → List Text → List Text
push_back name queue = queue ++ name ∷ []

-- The names in order, or those in the message of a cycle.
pub data Sorting : Type 0 where
  ordered : List Text → Sorting
  circular : List Text → Sorting
  out_of_fuel : Sorting

abbrev pub conclude : Jobs → List Text → Option Progress → Sorting
conclude jobs third none = out_of_fuel
conclude jobs third (some p) =
    if length p.sorted == length jobs
    then ordered p.sorted
    else circular (keep (λ name. is_positive (p.degree name)) third)

-- `topologicalSort`, with the orders in which the two loops over `inDegree` take its names. Each
-- round of the outer loop puts one more job in order, so one round for each job is enough.
unfoldable pub topological_sort : Jobs → (second third : List Text) → Sorting
unfolding edges_of keep kahn_loop
topological_sort jobs second third =
    let edges = edges_of jobs in
    conclude jobs third (
      kahn_loop push_back edges.dependents (suc (length jobs)) (record {
        degree = edges.degree;
        queue = keep (λ name. is_zero (edges.degree name)) second;
        sorted = [];
      }))
