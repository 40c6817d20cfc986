-- ===== src/Order/LocalOrder.antt =====
-- What `topologicalSort` of internal/handlers/toposort.go returns.
use git_ci.Common.{
  true, false, some, List, [], ◌∷◌, ℕ, zero, suc, ◌≤◌, ◌<◌, Text, length, length-map, ◌==◌,
  if_cases, ==_iff, pos, is_zero, ◌≡◌, ◌≢◌, refl, ap, sym, ◌∙◌, subst, arith,
}
use git_ci.Order.Count.{count, count_if, member, count_nil}
use git_ci.Order.Kahn.{Progress}
use git_ci.Order.KahnGraph.{IsGraph, open_in, pending, Follows, IsProgress}
use git_ci.Order.KahnLoop.{ends}
use git_ci.Order.KahnLaws.{still_waits, one_waits, all_placed}
use git_ci.Order.Local.{
  Jobs, names_of, has_job, no_edges, edges_of, keep, is_positive, push_back, Sorting, ordered,
  circular, out_of_fuel, conclude, topological_sort,
}
use git_ci.Order.LocalLaws.{
  needs_in, graph_of, count-keep, push_back-IsQueue, has_job→count, needs_in-nil, needs_in-known,
  edges_loop_lem,
}

-- The keys of a map are distinct, and a loop over it takes each once.
abbrev pub IsMap : Jobs → Type 0
IsMap jobs = (n : Text) → count n (names_of jobs) ≤ 1

abbrev pub IsVisit : Jobs → List Text → Type 0
IsVisit jobs visit = (n : Text) → count n visit ≡ count n (names_of jobs)

-- A cycle: jobs each of which needs another of them.
pub record IsCycle (jobs : Jobs) (names : List Text) : Type 0 where
  pub one : (n : Text) × (0 < count n names)
  pub needs_one :
      (n : Text)
      → 0 < count n names
      → (m : Text) × (0 < count m (needs_in (has_job jobs) jobs n)) × (0 < count m names)

-- The jobs, each once and behind all its needs; or a cycle.
abbrev pub IsSorting : Jobs → Sorting → Type 0
IsSorting jobs (ordered names) =
    ((n : Text) → count n names ≡ count n (names_of jobs)) × Follows (graph_of jobs) [] names
IsSorting jobs (circular names) = IsCycle jobs names
IsSorting jobs out_of_fuel = ⊥

pub graph_of-IsGraph : (jobs : Jobs) → IsMap jobs → IsGraph (graph_of jobs)
graph_of-IsGraph jobs one = record {
  distinct = one;
  known = λ n m dep. has_job→count m jobs (needs_in-known (has_job jobs) jobs n m dep);
  outside = λ n gone. needs_in-nil (has_job jobs) n jobs gone;
}

pub pending-nil : (xs : List Text) → count_if (open_in []) xs ≡ length xs
unfolding count_if member
pending-nil [] = refl
pending-nil (x ∷ xs) = omega (arith, pending-nil xs)

pub edges_of_lem :
    (jobs : Jobs) (n c : Text)
    → IsMap jobs
    → ((edges_of jobs).degree n ≡ pos (pending (graph_of jobs) [] n))
      × (count n ((edges_of jobs).dependents c) ≡ count c (needs_in (has_job jobs) jobs n))
unfolding edges_of count
edges_of_lem jobs n c one =
    let (degree, dependents) = edges_loop_lem (has_job jobs) jobs no_edges n c 0 (one n) refl in
    (
      degree ∙ ap pos (omega (arith, pending-nil (needs_in (has_job jobs) jobs n))),
      dependents ∙ omega arith,
    )

abbrev first_progress : Jobs → List Text → Progress
first_progress jobs second = record {
  degree = (edges_of jobs).degree;
  queue = keep (λ name. is_zero ((edges_of jobs).degree name)) second;
  sorted = [];
}

first_progress-IsProgress :
    (jobs : Jobs) (second : List Text)
    → IsMap jobs
    → IsVisit jobs second
    → IsProgress (graph_of jobs) (first_progress jobs second)
first_progress-IsProgress jobs second one visit = record {
  degrees = λ n. (edges_of_lem jobs n [] one).0;
  placed = λ n.
      let degree = (edges_of_lem jobs n [] one).0 in
      let once = one n in
      let there = visit n in
      ground
        (arith, count-keep (λ name. is_zero ((edges_of jobs).degree name)) second n, count_nil n);
  ordered = tt;
}

pub differs : (a b : ℕ) → (a == b) ≡ false → a ≢ b
differs a b h e = ground arith

pub waits_positive : (n : ℕ) → 0 < n → is_positive (pos n) ≡ true
waits_positive zero h = absurd (omega arith)
waits_positive (suc n) h = refl

pub positive_waits : (n : ℕ) → is_positive (pos n) ≡ true → 0 < n
positive_waits zero h = cc
positive_waits (suc n) h = omega arith

module _ (jobs : Jobs) (third : List Text) (one : IsMap jobs) (visit : IsVisit jobs third)
    (p : Progress) (h : IsProgress (graph_of jobs) p) (empty : p.queue ≡ []) where
  abbrev blocked : List Text
  blocked = keep (λ name. is_positive (p.degree name)) third

  -- The names in the message are the jobs that still wait.
  blocked→waits : (n : Text) → 0 < count n blocked → 0 < pending (graph_of jobs) p.sorted n
  blocked→waits n stands =
      let test : is_positive (p.degree n) ≡ true =
        ground (arith, count-keep (λ name. is_positive (p.degree name)) third n) in
      positive_waits (pending (graph_of jobs) p.sorted n)
        (subst (λ z. is_positive z ≡ true) (h.degrees n) test)

  waits→blocked :
      (n : Text)
      → 0 < count n (names_of jobs)
      → 0 < pending (graph_of jobs) p.sorted n
      → 0 < count n blocked
  waits→blocked n job waits =
      let test : is_positive (p.degree n) ≡ true =
        subst (λ z. is_positive z ≡ true) (sym (h.degrees n))
          (waits_positive (pending (graph_of jobs) p.sorted n) waits) in
      let there = visit n in
      ground (arith, count-keep (λ name. is_positive (p.degree name)) third n)

  blocked-IsCycle : length p.sorted ≢ length (names_of jobs) → IsCycle jobs blocked
  blocked-IsCycle ne =
      let g = graph_of jobs in
      record {
        one =
            let (n, job, waits) = one_waits g p h (graph_of-IsGraph jobs one) empty ne in
            (n, waits→blocked n job waits);
        needs_one = λ n stands.
            let (m, dep, job, waits) =
              still_waits g p h (graph_of-IsGraph jobs one) empty n (blocked→waits n stands) in
            (m, dep, waits→blocked m job waits);
      }

  conclude-IsSorting : IsSorting jobs (conclude jobs third (some p))
  conclude-IsSorting =
      let size = length-map (λ (job : Text × List Text). job.0) jobs in
      if_cases (IsSorting jobs) (length p.sorted == length jobs)
        (λ e. (
          all_placed (graph_of jobs) p h (graph_of-IsGraph jobs one) empty
              ((==_iff (length p.sorted) (length jobs)).0 e ∙ sym size),
          h.ordered,
        ))
        (λ e. blocked-IsCycle (λ q. differs (length p.sorted) (length jobs) e (q ∙ size)))

-- For a map of jobs, whatever the order in which Go takes its entries, `topologicalSort` ends. It
-- gives the names of all jobs, each once and behind all those that it needs, needs outside the map
-- left out; or it fails and names jobs, at least one, each of which needs another of them.
pub topological_sort-IsSorting :
    (jobs : Jobs) (second third : List Text)
    → IsMap jobs
    → IsVisit jobs second
    → IsVisit jobs third
    → IsSorting jobs (topological_sort jobs second third)
unfolding topological_sort
topological_sort-IsSorting jobs second third one v w =
    let g = graph_of jobs in
    let size = length-map (λ (job : Text × List Text). job.0) jobs in
    let (p, run, kept, empty) =
      ends push_back (edges_of jobs).dependents g push_back-IsQueue (graph_of-IsGraph jobs one)
        (λ c n job. (edges_of_lem jobs n c one).1) (suc (length jobs)) (first_progress jobs second)
        (first_progress-IsProgress jobs second one v) (omega (arith, size)) in
    subst (λ r. IsSorting jobs (conclude jobs third r)) (sym run)
      (conclude-IsSorting jobs third one w p kept empty)
