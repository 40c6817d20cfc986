-- ===== src/Order/Samples.antt =====
-- Maps of jobs, and the theorems about their orders at these.
use git_ci.Common.{
  false, List, [], ◌∷◌, ℕ, ◌≤◌, ◌<◌, Text, codes, text_eq, if◌then◌else◌, ap, Bool-cases, inl, inr,
  ◌≡◌, refl, arith,
}
use git_ci.Order.Count.{tick, count, at_name, count_nil}
use git_ci.Order.Local.{Jobs, names_of, has_job, ordered, circular, keep, topological_sort}
use git_ci.Execution.Dependency.{find}
use git_ci.Order.LocalLaws.{needs_in}
use git_ci.Order.LocalOrder.{IsMap, IsVisit, IsSorting, topological_sort-IsSorting}
use git_ci.Order.Acyclic.{IsRanked, topological_sort-ordered}
use git_ci.Order.Levels.{grouped, group_by_dependency_level}
use git_ci.Order.LevelOrder.{IsGrouping, group_by_dependency_level-IsGrouping}

abbrev lint : Text
lint = codes "lint"

abbrev build : Text
build = codes "build"

abbrev ship : Text
ship = codes "ship"

abbrev jobs : Jobs
jobs = (ship, build ∷ lint ∷ []) ∷ (build, lint ∷ codes "gone" ∷ []) ∷ (lint, []) ∷ []

abbrev loop : Jobs
loop = (ship, build ∷ []) ∷ (build, ship ∷ []) ∷ (lint, []) ∷ []

abbrev keys : List Text
keys = lint ∷ build ∷ ship ∷ []

sorted : topological_sort jobs keys keys ≡ ordered (lint ∷ build ∷ ship ∷ [])
unfolding topological_sort
sorted = refl

cycle_found : topological_sort loop keys keys ≡ circular (build ∷ ship ∷ [])
unfolding topological_sort
cycle_found = refl

levels :
    group_by_dependency_level jobs (λ round which left. left)
    ≡ grouped ((lint ∷ []) ∷ (build ∷ []) ∷ (ship ∷ []) ∷ [])
unfolding group_by_dependency_level
levels = refl

two_names : (n : Text) → count n (build ∷ lint ∷ []) ≤ 1
unfolding count
two_names =
    at_name (λ n. count n (build ∷ lint ∷ []) ≤ 1) build (omega arith) (λ n e f. ground arith)

jobs-IsMap : IsMap jobs
unfolding count
jobs-IsMap =
    at_name (λ n. count n (names_of jobs) ≤ 1) ship (omega arith)
      (λ n e f. omega (arith, ap tick e, two_names n))

jobs-IsVisit : IsVisit jobs keys
unfolding count
jobs-IsVisit n = omega arith

topological_sort-IsSorting_example : IsSorting jobs (topological_sort jobs keys keys)
topological_sort-IsSorting_example =
    topological_sort-IsSorting jobs keys keys jobs-IsMap jobs-IsVisit jobs-IsVisit

group_by_dependency_level-IsGrouping_example :
    IsGrouping jobs (group_by_dependency_level jobs (λ round which left. left))
group_by_dependency_level-IsGrouping_example =
    group_by_dependency_level-IsGrouping jobs (λ round which left. left) jobs-IsMap
      (λ round which left n. refl)

-- One job behind another.
abbrev pair : Jobs
pair = (ship, build ∷ []) ∷ (build, []) ∷ []

pair-IsMap : IsMap pair
unfolding count
pair-IsMap = at_name (λ n. count n (names_of pair) ≤ 1) ship (omega arith) (λ n e f. ground arith)

pair-IsVisit : IsVisit pair (names_of pair)
pair-IsVisit n = refl

abbrev rank : Text → ℕ
rank n = if text_eq n ship then 1 else 0

build_low : (m : Text) → 0 < count m (build ∷ []) → rank m < 1
unfolding count
build_low =
    at_name (λ m. 0 < count m (build ∷ []) → rank m < 1) build (λ h. omega arith)
      (λ m e f h. absurd (omega (arith, ap tick e)))

no_needs : (n : Text) → text_eq ship n ≡ false → needs_in (has_job pair) pair n ≡ []
unfolding find keep
no_needs n e = elim (Bool-cases (text_eq build n)) [
  | inl q ↦ rw (e, q) refl
  | inr q ↦ rw (e, q) refl
]

pair-IsRanked : IsRanked rank pair
unfolding find keep has_job
pair-IsRanked =
    at_name (λ n. (m : Text) → 0 < count m (needs_in (has_job pair) pair n) → rank m < rank n) ship
      build_low (λ n e f m h. absurd (omega (arith, ap (count m) (no_needs n e), count_nil m)))

topological_sort-ordered_example :
    (names : List Text) × (topological_sort pair (names_of pair) (names_of pair) ≡ ordered names)
topological_sort-ordered_example =
    topological_sort-ordered rank pair (names_of pair) (names_of pair) pair-IsMap pair-IsVisit
      pair-IsVisit pair-IsRanked
