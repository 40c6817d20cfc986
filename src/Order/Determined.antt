-- ===== src/Order/Determined.antt =====
-- The order of `deterministicTopologicalOrder` of internal/execution/discovery.go depends on nothing
-- but the graph.
use git_ci.Common.{List, map, Text, trim_space, ◌≡◌, ap, ◌∙◌, fun_ext}
use git_ci.Matrix.Coordinates.{sort_texts}
use git_ci.Order.Count.{count, member}
use git_ci.Order.Local.{no_edges}
use git_ci.Order.Discovered.{
  sorted_unique, Ordering, link_jobs, order_links, deterministic_topological_order,
}
use git_ci.Order.Sorting.{sort_texts_eq, sorted_unique_eq}

-- The order once all lists are sorted.
order_sorted : (keys : List Text) → (needs : Text → List Text) → Ordering
order_sorted keys needs =
    order_links keys (link_jobs (λ name. member name keys) needs keys no_edges)

-- Two calls of `deterministicTopologicalOrder` return the same, an error included, if they have the
-- same job keys, in any order, and if the dependencies of each job are the same once they are
-- trimmed, in any order and however often each is repeated.
pub deterministic_topological_order-determined :
    (keys others : List Text) (dependencies further : Text → List Text)
    → ((n : Text) → count n keys ≡ count n others)
    → ((key n : Text)
        → member n (map trim_space (dependencies key)) ≡ member n (map trim_space (further key)))
    → deterministic_topological_order keys dependencies
      ≡ deterministic_topological_order others further
unfolding deterministic_topological_order order_sorted
deterministic_topological_order-determined keys others dependencies further k d =
    ap (λ sorted. order_sorted sorted (λ key. sorted_unique (dependencies key)))
      (sort_texts_eq keys others k)
    ∙ ap (order_sorted (sort_texts others))
        (fun_ext (λ key. sorted_unique_eq (dependencies key) (further key) (d key)))
