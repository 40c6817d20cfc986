-- ===== src/Order/Discovered.antt =====
-- `deterministicTopologicalOrder` of internal/execution/discovery.go. The names in the message of a
-- cycle, which `findDependencyCycle` looks for once the order has failed, are left out.
use git_ci.Common.{
  Bool, Option, none, some, List, [], ◌∷◌, suc, Text, text_eq, trim_space, length, ◌==◌,
  if◌then◌else◌, is_zero, compare_text, less, same, greater,
}
use git_ci.Matrix.Coordinates.{sort_texts}
use git_ci.Order.Count.{member}
use git_ci.Order.Kahn.{Progress, kahn_loop}
use git_ci.Order.Local.{Edges, add_edge, no_edges, keep}

-- The values that `sortedUnique` puts into its map, each once.
unfoldable pub unique_loop : List Text → List Text
unfolding member
unique_loop [] = []
unique_loop (value ∷ rest) =
    let others = unique_loop rest in
    let trimmed = trim_space value in
    if text_eq trimmed []
    then others
    else if member trimmed others
    then others
    else trimmed ∷ others

-- `sortedUnique`. Its map has the values in any order, and sorting leaves one.
unfoldable pub sorted_unique : List Text → List Text
unfolding unique_loop sort_texts
sorted_unique values = sort_texts (unique_loop values)

-- `insertSorted`, on values that are sorted: `sort.SearchStrings` gives the first index whose value
-- is not less.
unfoldable pub insert_sorted : Text → List Text → List Text
insert_sorted value [] = value ∷ []
insert_sorted value (first ∷ values) =
    let rest = insert_sorted value values in
    elim (compare_text first value) [
      | less ↦ first ∷ rest
      | same ↦ first ∷ values
      | greater ↦ value ∷ first ∷ values
    ]

-- The order of the jobs, or why there is none.
pub data Ordering : Type 0 where
  in_order : List Text → Ordering
  missing : (job dependency : Text) → Ordering
  cyclic out_of_fuel : Ordering

-- What the loops over the keys leave: the graph, or a job and a dependency that is not a job.
pub data Links : Type 0 where
  linked : Edges → Links
  unknown : (job dependency : Text) → Links

-- The inner loop, over the dependencies of a job.
unfoldable pub link_needs : (known_jobs : Text → Bool) → Text → List Text → Edges → Links
link_needs known_jobs key [] e = linked e
link_needs known_jobs key (dependency ∷ rest) e =
    let others = link_needs known_jobs key rest (add_edge key dependency e) in
    if known_jobs dependency then others else unknown key dependency

-- The loop over the keys.
unfoldable pub link_jobs : (Text → Bool) → (Text → List Text) → List Text → Edges → Links
unfolding link_needs
link_jobs known_jobs dependencies [] e = linked e
link_jobs known_jobs dependencies (key ∷ keys) e =
    elim (link_needs known_jobs key (dependencies key) e) [
      | linked next ↦ link_jobs known_jobs dependencies keys next
      | unknown job dependency ↦ unknown job dependency
    ]

abbrev pub decide_order : List Text → Option Progress → Ordering
decide_order keys none = out_of_fuel
decide_order keys (some p) = if length p.sorted == length keys then in_order p.sorted else cyclic

-- The loop over `ready`, from the jobs without a dependency; `dependents` is sorted before it.
unfoldable pub order_links : List Text → Links → Ordering
unfolding kahn_loop insert_sorted keep sort_texts
order_links keys (unknown job dependency) = missing job dependency
order_links keys (linked e) = decide_order keys (
    kahn_loop insert_sorted (λ key. sort_texts (e.dependents key)) (suc (length keys))
      (record {
        degree = e.degree;
        queue = keep (λ key. is_zero (e.degree key)) keys;
        sorted = [];
      }))

-- `deterministicTopologicalOrder`. Each round puts one more job in order, so one round for each job
-- is enough.
unfoldable pub deterministic_topological_order : List Text → (Text → List Text) → Ordering
unfolding order_links link_jobs sorted_unique member sort_texts
deterministic_topological_order job_keys dependencies =
    let keys = sort_texts job_keys in
    order_links keys
      (link_jobs (λ name. member name keys) (λ key. sorted_unique (dependencies key)) keys no_edges)
