-- ===== src/Order/LevelOrder.antt =====
-- What `groupByDependencyLevel` of internal/handlers/toposort.go returns.
use git_ci.Common.{
  Bool, true, false, List, [], ◌∷◌, ◌++◌, ℕ, zero, suc, ◌+◌, ◌≤◌, ◌<◌, Text, length, length-map,
  pos, is_zero, ◌≡◌, refl, ap, sym, ◌∙◌, subst, arith, append_assoc, append-nil,
}
use git_ci.Order.Count.{count, count_nil, not_member→count, count-length_pos}
use git_ci.Order.KahnGraph.{Graph, IsGraph, open_in, pending}
use git_ci.Order.KahnLaws.{find_counted}
use git_ci.Order.Local.{Jobs, names_of, has_job, edges_of, keep, is_positive}
use git_ci.Order.LocalLaws.{needs_in, graph_of, count-keep}
use git_ci.Order.LocalOrder.{IsMap, IsCycle, graph_of-IsGraph, edges_of_lem, waits_positive}
use git_ci.Order.Levels.{
  Leveling, remove_loop, Grouping, grouped, circular, out_of_fuel, next_level, with_level,
  level_loop, group_by_dependency_level,
}
use git_ci.Order.LevelLaws.{IsRemoving, remove_all, remove_loop-length}

-- The names of all levels.
unfoldable pub flat : List (List Text) → List Text
flat [] = []
flat (level ∷ levels) = level ++ flat levels

flat-snoc :
    (levels : List (List Text)) (level : List Text)
    → flat (levels ++ level ∷ []) ≡ flat levels ++ level
unfolding flat
flat-snoc [] level = append-nil level
flat-snoc (first ∷ levels) level =
    ap (λ l. first ++ l) (flat-snoc levels level) ∙ sym (append_assoc first (flat levels) level)

-- Each job of a level has all that it must follow in earlier levels.
abbrev pub Layers : Graph → (before : List Text) → List (List Text) → Type 0
Layers g before [] = Unit
Layers g before (level ∷ levels) =
    ((n : Text) → 0 < count n level → pending g before n ≡ 0) × Layers g (before ++ level) levels

Layers-snoc :
    (g : Graph) (before : List Text) (levels : List (List Text)) (level : List Text)
    → Layers g before levels
    → ((n : Text) → 0 < count n level → pending g (before ++ flat levels) n ≡ 0)
    → Layers g before (levels ++ level ∷ [])
unfolding flat
Layers-snoc g before [] level h e =
    (λ n stands. subst (λ b. pending g b n ≡ 0) (append-nil before) (e n stands), tt)
Layers-snoc g before (first ∷ levels) level h e = (
  h.0,
  Layers-snoc g (before ++ first) levels level h.1 (λ n stands.
      subst (λ b. pending g b n ≡ 0) (sym (append_assoc before first (flat levels))) (e n stands)),
)

-- What the order of Go's loops over a map's keys may be.
abbrev pub IsShuffle : (ℕ → Bool → List Text → List Text) → Type 0
IsShuffle visit =
    (round : ℕ) (which : Bool) (keys : List Text) (n : Text)
    → count n (visit round which keys) ≡ count n keys

-- The jobs, each once and in a level behind those of all its needs; or a cycle.
abbrev pub IsGrouping : Jobs → Grouping → Type 0
IsGrouping jobs (grouped levels) =
    ((n : Text) → count n (flat levels) ≡ count n (names_of jobs))
    × Layers (graph_of jobs) [] levels
IsGrouping jobs (circular names) = IsCycle jobs names
IsGrouping jobs out_of_fuel = ⊥

record IsLeveling (g : Graph) (s : Leveling) : Type 0 where
  degrees : (n : Text) → 0 < count n s.left → s.degree n ≡ pos (pending g (flat s.levels) n)
  parts : (n : Text) → count n s.left + count n (flat s.levels) ≡ count n g.names
  size : s.remaining ≡ length s.left
  layered : Layers g [] s.levels

module _ (g : Graph) (dependents : Text → List Text) (graph : IsGraph g)
    (edges : (c n : Text) → count n (dependents c) ≡ count c (g.deps n)) where
  level-IsRemoving :
      (order : List Text) (s : Leveling)
      → IsLeveling g s
      → ((n : Text) → count n order ≡ count n s.left)
      → IsRemoving g (next_level order s) (flat s.levels) s.left s.degree
  level-IsRemoving order s h same = record {
    degrees = h.degrees;
    parts = h.parts;
    listed = λ n.
        let there = same n in ground (arith, count-keep (λ name. is_zero (s.degree name)) order n);
  }

  level_free :
      (order : List Text) (s : Leveling)
      → IsLeveling g s
      → ((n : Text) → count n order ≡ count n s.left)
      → (n : Text) → 0 < count n (next_level order s)
      → pending g (flat s.levels) n ≡ 0
  level_free order s h same n stands =
      let there = same n in
      let left : 0 < count n s.left =
        ground (arith, count-keep (λ name. is_zero (s.degree name)) order n) in
      let test : is_zero (s.degree n) ≡ true =
        ground (arith, count-keep (λ name. is_zero (s.degree name)) order n) in
      let value = h.degrees n left in ground arith

  with_level-IsLeveling :
      (order : List Text) (s : Leveling)
      → IsLeveling g s
      → ((n : Text) → count n order ≡ count n s.left)
      → IsLeveling g (with_level dependents (next_level order s) s)
  with_level-IsLeveling order s h same =
      let level = next_level order s in
      let removing = level-IsRemoving order s h same in
      let after = remove_all g dependents graph edges level (flat s.levels) s removing in
      let flat_after = flat-snoc s.levels level in
      record {
        degrees = λ n left. after.degrees n left ∙ ap (λ d. pos (pending g d n)) (sym flat_after);
        parts = λ n.
            ap (λ d. count n (remove_loop dependents level s).left + count n d) flat_after
            ∙ after.parts n;
        size = omega (
          arith,
          h.size,
          remove_loop-length g dependents graph edges level (flat s.levels) s removing,
        );
        layered = Layers-snoc g [] s.levels level h.layered (level_free order s h same);
      }

count_of_length : (n : Text) (xs : List Text) → length xs ≡ 0 → count n xs ≡ 0
count_of_length n [] h = count_nil n
count_of_length n (x ∷ xs) h = absurd (omega arith)

module _ (jobs : Jobs) (one : IsMap jobs) (s : Leveling) (h : IsLeveling (graph_of jobs) s) where
  finished : s.remaining ≡ 0 → IsGrouping jobs (grouped s.levels)
  finished e =
      (λ n. omega (arith, h.parts n, count_of_length n s.left (omega (arith, h.size))), h.layered)

  module _ (first second : List Text) (same : (n : Text) → count n first ≡ count n s.left)
      (same' : (n : Text) → count n second ≡ count n s.left) (stuck : next_level first s ≡ []) where
    abbrev blocked : List Text
    blocked = keep (λ name. is_positive (s.degree name)) second

    -- Every job that is left waits, and is named.
    left→waits :
        (n : Text)
        → 0 < count n s.left
        → (0 < pending (graph_of jobs) (flat s.levels) n) × (0 < count n blocked)
    left→waits n left =
        let none_free : count n (next_level first s) ≡ 0 = ap (count n) stuck ∙ count_nil n in
        let there = same n in
        let there' = same' n in
        let kept = count-keep (λ name. is_zero (s.degree name)) first n in
        let value = h.degrees n left in
        let busy : is_zero (s.degree n) ≡ false = ground arith in
        let waits : 0 < pending (graph_of jobs) (flat s.levels) n = ground arith in
        let test : is_positive (s.degree n) ≡ true =
          ap is_positive value ∙ waits_positive (pending (graph_of jobs) (flat s.levels) n) waits in
        (waits, ground (arith, count-keep (λ name. is_positive (s.degree name)) second n))

    blocked→left : (n : Text) → 0 < count n blocked → 0 < count n s.left
    blocked→left n stands =
        let there' = same' n in
        ground (arith, count-keep (λ name. is_positive (s.degree name)) second n)

    stuck-IsCycle : 0 < s.remaining → IsCycle jobs blocked
    stuck-IsCycle more = record {
      one =
          let (n, left) = count-length_pos s.left (omega (arith, h.size)) in
          (n, (left→waits n left).1);
      needs_one = λ n stands.
          let (waits, _) = left→waits n (blocked→left n stands) in
          let (m, dep, open_dep) =
            find_counted (open_in (flat s.levels)) (needs_in (has_job jobs) jobs n) waits in
          let job = (graph_of-IsGraph jobs one).known n m dep in
          let absent : count m (flat s.levels) ≡ 0 =
            ground (arith, not_member→count m (flat s.levels)) in
          (m, dep, (left→waits m (omega (arith, h.parts m, job, absent))).1);
    }

module _ (jobs : Jobs) (one : IsMap jobs) (visit : ℕ → Bool → List Text → List Text)
    (shuffle : IsShuffle visit) where
  level_loop-IsGrouping :
      (fuel : ℕ) (s : Leveling)
      → IsLeveling (graph_of jobs) s
      → s.remaining ≤ fuel
      → IsGrouping jobs (level_loop (edges_of jobs).dependents visit fuel s)
  unfolding level_loop
  level_loop-IsGrouping zero s h enough = go s.remaining refl
    where
      go :
          (r : ℕ)
          → s.remaining ≡ r
          → IsGrouping jobs (elim r [ zero ↦ grouped s.levels | suc n ↦ out_of_fuel ])
      go zero e = finished jobs one s h e
      go (suc n) e = omega arith
  level_loop-IsGrouping (suc fuel) s h enough =
      go (λ t. level_loop-IsGrouping fuel t) s.remaining (next_level (visit fuel true s.left) s)
        refl refl
    where
      dependents : Text → List Text
      dependents = (edges_of jobs).dependents

      Later : Type 0
      Later =
          (t : Leveling)
          → IsLeveling (graph_of jobs) t
          → t.remaining ≤ fuel
          → IsGrouping jobs (level_loop dependents visit fuel t)

      go :
          Later
          → (r : ℕ) (level : List Text) → s.remaining ≡ r
          → next_level (visit fuel true s.left) s ≡ level
          → IsGrouping jobs (elim r [
            | zero ↦ grouped s.levels
            | suc n ↦ elim level [
              | [] ↦ circular (keep (λ name. is_positive (s.degree name)) (visit fuel false s.left))
              | first ∷ rest ↦
                  level_loop dependents visit fuel (with_level dependents (first ∷ rest) s)
            ]
          ])
      go later zero level e l = finished jobs one s h e
      go later (suc n) [] e l =
          stuck-IsCycle jobs one s h (visit fuel true s.left) (visit fuel false s.left)
            (shuffle fuel true s.left) (shuffle fuel false s.left) l (omega (arith, e))
      go later (suc n) (first ∷ rest) e l =
          later (with_level dependents (first ∷ rest) s)
            (subst (λ v. IsLeveling (graph_of jobs) (with_level dependents v s)) l
              (with_level-IsLeveling (graph_of jobs) dependents (graph_of-IsGraph jobs one)
                (λ c n. (edges_of_lem jobs n c one).1) (visit fuel true s.left) s h
                (shuffle fuel true s.left)))
            (omega (arith, e))

-- For a map of jobs, whatever the orders in which Go takes its entries, `groupByDependencyLevel`
-- ends. It gives levels that hold the names of all jobs, each once, and each job in a level behind
-- those of all that it needs, needs outside the map left out; or it fails and names jobs, at least
-- one, each of which needs another of them.
pub group_by_dependency_level-IsGrouping :
    (jobs : Jobs) (visit : ℕ → Bool → List Text → List Text)
    → IsMap jobs
    → IsShuffle visit
    → IsGrouping jobs (group_by_dependency_level jobs visit)
unfolding group_by_dependency_level
group_by_dependency_level-IsGrouping jobs visit one shuffle =
    let size = length-map (λ (job : Text × List Text). job.0) jobs in
    level_loop-IsGrouping jobs one visit shuffle (length jobs)
      (record {
        degree = (edges_of jobs).degree;
        left = names_of jobs;
        levels = [];
        remaining = length jobs;
      })
      (record {
        degrees = λ n left. unfold flat in (edges_of_lem jobs n [] one).0;
        parts = λ n. unfold flat in omega (arith, count_nil n);
        size = sym size;
        layered = tt;
      })
      (omega arith)
