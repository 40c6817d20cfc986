-- ===== src/Order/DiscoveredLaws.antt =====
-- What `deterministicTopologicalOrder` of internal/execution/discovery.go returns.
use git_ci.Common.{
  Bool, true, false, none, some, inl, inr, List, [], ◌∷◌, ◌++◌, suc, ◌≤◌, ◌<◌, Text, text_eq,
  text_eq_refl, text_eq→eq, length, ltb, ◌==◌, ==_iff, if◌then◌else◌, ◌⊎◌, Bool-cases, if_cases,
  pos, is_zero, ◌≡◌, ◌≢◌, refl, ap, sym, ◌∙◌, subst, arith,
}
use git_ci.Execution.Dependency.{find}
use git_ci.Matrix.Coordinates.{sort_texts}
use git_ci.Order.Count.{tick, count, count_if, member, member→count, not_member→count, count_nil}
use git_ci.Order.Kahn.{Progress}
use git_ci.Order.KahnGraph.{Graph, IsGraph, open_in, pending, Follows, IsProgress}
use git_ci.Order.KahnLoop.{ends}
use git_ci.Order.KahnLaws.{still_waits, one_waits, all_placed}
use git_ci.Order.Local.{names_of, Edges, no_edges, edges_loop, keep}
use git_ci.Order.LocalOrder.{pending-nil, differs}
use git_ci.Order.LocalLaws.{list_or, needs_in, count-keep, edges_loop_lem}
use git_ci.Order.Discovered.{
  sorted_unique, insert_sorted, Ordering, in_order, missing, cyclic, out_of_fuel, Links, linked,
  unknown, link_jobs, decide_order, order_links, deterministic_topological_order,
}
use git_ci.Order.LinkLaws.{
  count-sort_texts, insert_sorted-IsQueue, table, IsLinked, link_jobs-IsLinked,
}

-- Jobs each of which needs another of them.
pub record IsRing (keys : List Text) (needs : Text → List Text) (names : List Text) : Type 0 where
  pub one : (n : Text) × (0 < count n names)
  pub are_jobs : (n : Text) → 0 < count n names → 0 < count n keys
  pub needs_one :
      (n : Text) → 0 < count n names → (m : Text) × (0 < count m (needs n)) × (0 < count m names)

-- All jobs, each once and behind all that it needs, all of which are jobs; or a need that is not a
-- job; or a cycle.
abbrev pub IsOrdered : List Text → (Text → List Text) → Ordering → Type 0
IsOrdered keys needs (in_order names) =
    ((n : Text) → count n names ≡ count n keys)
    × Follows (record { names = keys; deps = needs }) [] names
    × ((n m : Text) → 0 < count n keys → 0 < count m (needs n) → 0 < count m keys)
IsOrdered keys needs (missing job m) =
    (0 < count job keys) × (0 < count m (needs job)) × (count m keys ≡ 0)
IsOrdered keys needs cyclic = (names : List Text) × IsRing keys needs names
IsOrdered keys needs out_of_fuel = ⊥

Follows-same :
    (g h : Graph) (before names : List Text)
    → ((n : Text) → 0 < count n names → g.deps n ≡ h.deps n)
    → Follows g before names
    → Follows h before names
unfolding count
Follows-same g h before [] e f = tt
Follows-same g h before (n ∷ names) e f = (
  subst (λ xs. count_if (open_in before) xs ≡ 0) (e n (omega (arith, ap tick (text_eq_refl n))))
      f.0,
  Follows-same g h (before ++ n ∷ []) names (λ m c. e m (omega (arith, c))) f.1,
)

-- The order of the keys does not matter.
IsOrdered-same :
    (keys others : List Text) (needs : Text → List Text) (o : Ordering)
    → ((n : Text) → count n keys ≡ count n others)
    → IsOrdered keys needs o
    → IsOrdered others needs o
IsOrdered-same keys others needs (in_order names) e h = (
  λ n. h.0 n ∙ e n,
  Follows-same (record { names = keys; deps = needs }) (record { names = others; deps = needs }) []
      names (λ n c. refl) h.1,
  λ n m job dep. subst (λ k. 0 < k) (e m) (h.2 n m (subst (λ k. 0 < k) (sym (e n)) job) dep),
)
IsOrdered-same keys others needs (missing job m) e h =
    (subst (λ k. 0 < k) (e job) h.0, h.1, sym (e m) ∙ h.2)
IsOrdered-same keys others needs cyclic e (names, h) = (
  names,
  record {
    one = h.one;
    are_jobs = λ n c. subst (λ k. 0 < k) (e n) (h.are_jobs n c);
    needs_one = h.needs_one;
  },
)
IsOrdered-same keys others needs out_of_fuel e h = elim h [ ]

keep_all :
    (f : Text → Bool) (xs : List Text) → ((m : Text) → 0 < count m xs → f m ≡ true) → keep f xs ≡ xs
unfolding keep count
keep_all f [] h = refl
keep_all f (x ∷ xs) h =
    rw (h x (omega (arith, ap tick (text_eq_refl x))))
      (ap (λ ys. x ∷ ys) (keep_all f xs (λ m c. h m (omega (arith, c)))))

find-table :
    (needs : Text → List Text) (keys : List Text) (n : Text)
    → find n (table needs keys) ≡ (if member n keys then some (needs n) else none)
unfolding find member
find-table needs [] n = refl
find-table needs (key ∷ keys) n = elim (Bool-cases (text_eq key n)) [
  | inl e ↦ rw (e, text_eq→eq key n e) refl
  | inr e ↦ rw e (find-table needs keys n)
]

names_of-table : (needs : Text → List Text) (keys : List Text) → names_of (table needs keys) ≡ keys
names_of-table needs [] = refl
names_of-table needs (key ∷ keys) = ap (λ ys. key ∷ ys) (names_of-table needs keys)

counted→member : (n : Text) (xs : List Text) → 0 < count n xs → member n xs ≡ true
counted→member n xs c = ground (arith, not_member→count n xs)

module _ (keys : List Text) (needs : Text → List Text) (one : (n : Text) → count n keys ≤ 1)
    (known : (n m : Text) → 0 < count n keys → 0 < count m (needs n) → 0 < count m keys) where
  abbrev is_known : Text → Bool
  is_known name = member name keys

  -- The needs of the jobs, and no others.
  abbrev jobs_graph : Graph
  jobs_graph = record { names = keys; deps = λ n. if member n keys then needs n else [] }

  abbrev edges : Edges
  edges = edges_loop is_known (table needs keys) no_edges

  deps_job : (n : Text) → 0 < count n keys → jobs_graph.deps n ≡ needs n
  deps_job n c = rw (counted→member n keys c) refl

  needed :
      (n m : Text)
      → 0 < count m (jobs_graph.deps n)
      → (member n keys ≡ true) ⊎ (member n keys ≡ false)
      → 0 < count m keys
  needed n m c (inl e) =
      known n m (member→count n keys e)
        (subst (λ xs. 0 < count m xs) (deps_job n (member→count n keys e)) c)
  needed n m c (inr e) =
      let gone : jobs_graph.deps n ≡ [] = rw e refl in
      absurd (omega (arith, c, ap (count m) gone, count_nil m))

  jobs_graph-IsGraph : IsGraph jobs_graph
  jobs_graph-IsGraph = record {
    distinct = one;
    known = λ n m c. needed n m c (Bool-cases (member n keys));
    outside = λ n c.
        if_cases (λ (xs : List Text). xs ≡ []) (member n keys)
          (λ e. absurd (omega (arith, member→count n keys e))) (λ e. refl);
  }

  needs_in-table : (n : Text) → needs_in is_known (table needs keys) n ≡ jobs_graph.deps n
  needs_in-table n =
      ap (λ found. keep is_known (list_or found)) (find-table needs keys n)
      ∙ elim (Bool-cases (member n keys)) [
        | inl e ↦ rw e (
            keep_all is_known (needs n)
              (λ m c. counted→member m keys (known n m (member→count n keys e) c)))
        | inr e ↦ rw e (unfold keep in refl)
      ]

  edges_lem :
      (n c : Text)
      → (edges.degree n ≡ pos (pending jobs_graph [] n))
        × (count n (edges.dependents c) ≡ count c (jobs_graph.deps n))
  edges_lem n c =
      let same_names = names_of-table needs keys in
      let (degree, dependents) =
        edges_loop_lem is_known (table needs keys) no_edges n c 0
          (subst (λ xs. count n xs ≤ 1) (sym same_names) (one n)) refl in
      (
        degree
            ∙ ap pos (omega (arith, ap length (needs_in-table n), pending-nil (jobs_graph.deps n))),
        dependents ∙ omega (arith, ap (count c) (needs_in-table n), count_nil n),
      )

  abbrev first_progress : Progress
  first_progress = record {
    degree = edges.degree;
    queue = keep (λ name. is_zero (edges.degree name)) keys;
    sorted = [];
  }

  first_progress-IsProgress : IsProgress jobs_graph first_progress
  first_progress-IsProgress = record {
    degrees = λ n. (edges_lem n []).0;
    placed = λ n.
        let degree = (edges_lem n []).0 in
        let once = one n in
        ground (arith, count-keep (λ name. is_zero (edges.degree name)) keys n, count_nil n);
    ordered = tt;
  }

  module _ (p : Progress) (h : IsProgress jobs_graph p) (empty : p.queue ≡ []) where
    abbrev waits : Text → Bool
    waits n = ltb 0 (pending jobs_graph p.sorted n)

    waiting : (n : Text) → 0 < count n (keep waits keys) → 0 < pending jobs_graph p.sorted n
    waiting n c = ground (arith, count-keep waits keys n)

    waiting_job :
        (n : Text)
        → 0 < count n keys
        → 0 < pending jobs_graph p.sorted n
        → 0 < count n (keep waits keys)
    waiting_job n job w = ground (arith, count-keep waits keys n)

    waiting-are_jobs : (n : Text) → 0 < count n (keep waits keys) → 0 < count n keys
    waiting-are_jobs n c = ground (arith, count-keep waits keys n)

    waiting-IsRing : length p.sorted ≢ length keys → IsRing keys needs (keep waits keys)
    waiting-IsRing ne = record {
      one =
          let (n, job, w) = one_waits jobs_graph p h jobs_graph-IsGraph empty ne in
          (n, waiting_job n job w);
      are_jobs = waiting-are_jobs;
      needs_one = λ n c.
          let (m, dep, job, w) =
            still_waits jobs_graph p h jobs_graph-IsGraph empty n (waiting n c) in
          (
            m,
            subst (λ xs. 0 < count m xs) (deps_job n (waiting-are_jobs n c)) dep,
            waiting_job m job w,
          );
    }

    decide_order-IsOrdered : IsOrdered keys needs (decide_order keys (some p))
    decide_order-IsOrdered =
        if_cases (IsOrdered keys needs) (length p.sorted == length keys)
          (λ e.
            let placed =
              all_placed jobs_graph p h jobs_graph-IsGraph empty
                ((==_iff (length p.sorted) (length keys)).0 e) in
            (
              placed,
              Follows-same jobs_graph (record { names = keys; deps = needs }) [] p.sorted
                  (λ n c. deps_job n (subst (λ k. 0 < k) (placed n) c)) h.ordered,
              known,
            ))
          (λ e. (keep waits keys, waiting-IsRing (differs (length p.sorted) (length keys) e)))

  linked-IsOrdered : IsOrdered keys needs (order_links keys (linked edges))
  unfolding order_links
  linked-IsOrdered =
      let sorted_dependents = λ (c : Text). sort_texts (edges.dependents c) in
      let (p, run, kept, empty) =
        ends insert_sorted sorted_dependents jobs_graph insert_sorted-IsQueue jobs_graph-IsGraph
          (λ c n job. count-sort_texts n (edges.dependents c) ∙ (edges_lem n c).1)
          (suc (length keys)) first_progress first_progress-IsProgress (omega arith) in
      subst (λ r. IsOrdered keys needs (decide_order keys r)) (sym run)
        (decide_order-IsOrdered p kept empty)

order_links-IsOrdered :
    (keys : List Text) (needs : Text → List Text)
    → ((n : Text) → count n keys ≤ 1)
    → (links : Links) → IsLinked (λ name. member name keys) needs keys no_edges links
    → IsOrdered keys needs (order_links keys links)
order_links-IsOrdered keys needs one (linked next) h =
    subst (λ e. IsOrdered keys needs (order_links keys (linked e))) (sym h.0)
      (linked-IsOrdered keys needs one (λ n m job dep. member→count m keys (h.1 n m job dep)))
order_links-IsOrdered keys needs one (unknown job m) h =
    unfold order_links in (h.0, h.1, not_member→count m keys h.2)

-- For job keys that are distinct, `deterministicTopologicalOrder` ends. It gives the keys, each once
-- and behind all dependencies of its job, where every dependency is a key; or it names a job and a
-- dependency of it that is not a key; or it reports a cycle, and then there are jobs, at least one,
-- each of which depends on another of them. A dependency is trimmed, and a blank one is none.
pub deterministic_topological_order-IsOrdered :
    (job_keys : List Text) (dependencies : Text → List Text)
    → ((n : Text) → count n job_keys ≤ 1)
    → IsOrdered job_keys
        (λ key. sorted_unique (dependencies key))
        (deterministic_topological_order job_keys dependencies)
unfolding deterministic_topological_order
deterministic_topological_order-IsOrdered job_keys dependencies one =
    let needs = λ (key : Text). sorted_unique (dependencies key) in
    let keys = sort_texts job_keys in
    let known = λ (name : Text). member name keys in
    IsOrdered-same keys job_keys needs (order_links keys (link_jobs known needs keys no_edges))
      (λ n. count-sort_texts n job_keys)
      (order_links-IsOrdered keys needs
        (λ n. subst (λ k. k ≤ 1) (sym (count-sort_texts n job_keys)) (one n))
        (link_jobs known needs keys no_edges) (link_jobs-IsLinked known needs keys no_edges))
