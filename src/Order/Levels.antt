-- ===== src/Order/Levels.antt =====
-- `groupByDependencyLevel` of internal/handlers/toposort.go.
use git_ci.Common.{
  Bool, true, false, not, List, [], ◌∷◌, ◌++◌, ℕ, zero, suc, ◌-◌, Text, text_eq, length,
  if◌then◌else◌, ℤ, is_zero,
}
use git_ci.Order.Count.{member}
use git_ci.Order.Kahn.{decrement, assign}
use git_ci.Order.Local.{Jobs, names_of, edges_of, keep, is_positive}

-- `inDegree` with the keys that are left of it, `levels` and `remaining`.
pub record Leveling : Type 0 where
  pub degree : Text → ℤ
  pub left : List Text
  pub levels : List (List Text)
  pub remaining : ℕ

-- `delete(inDegree, name)`
unfoldable pub delete : Text → List Text → List Text
unfolding keep
delete name left = keep (λ (other : Text). not (text_eq name other)) left

-- The loop over the dependents of a name, where a key that is not left stays away.
unfoldable pub lower_loop : (left : List Text) → List Text → (Text → ℤ) → Text → ℤ
unfolding member
lower_loop left [] degree = degree
lower_loop left (dependent ∷ rest) degree = lower_loop left rest (
    if member dependent left
    then assign degree dependent (decrement (degree dependent))
    else degree)

-- The loop over the names of a level.
unfoldable pub remove_loop : (dependents : Text → List Text) → List Text → Leveling → Leveling
unfolding lower_loop delete
remove_loop dependents [] s = s
remove_loop dependents (name ∷ rest) s =
    let left = delete name s.left in
    remove_loop dependents rest
      (record s { left = left; degree = lower_loop left (dependents name) s.degree })

-- The levels, or the names in the message of a cycle.
pub data Grouping : Type 0 where
  grouped : List (List Text) → Grouping
  circular : List Text → Grouping
  out_of_fuel : Grouping

-- The names of the level that comes next.
abbrev pub next_level : List Text → Leveling → List Text
next_level order s = keep (λ name. is_zero (s.degree name)) order

abbrev pub with_level : (dependents : Text → List Text) → List Text → Leveling → Leveling
with_level dependents level s =
    let removed = remove_loop dependents level s in
    record removed { levels = s.levels ++ level ∷ []; remaining = s.remaining - length level }

-- The outer loop. `visit` is the order in which Go takes the keys that are left, in each round and
-- for each of its two loops.
unfoldable pub level_loop :
    (dependents : Text → List Text)
    → (visit : ℕ → Bool → List Text → List Text) → ℕ
    → Leveling
    → Grouping
unfolding remove_loop keep
level_loop dependents visit zero s = elim s.remaining [
  | zero ↦ grouped s.levels
  | suc n ↦ out_of_fuel
]
level_loop dependents visit (suc fuel) s = elim s.remaining [
  | zero ↦ grouped s.levels
  | suc n ↦ elim (next_level (visit fuel true s.left) s) [
    | [] ↦ circular (keep (λ name. is_positive (s.degree name)) (visit fuel false s.left))
    | first ∷ rest ↦ level_loop dependents visit fuel (with_level dependents (first ∷ rest) s)
  ]
]

-- `groupByDependencyLevel`. Each round takes a job away, so one
-- round for each job is enough.
unfoldable pub group_by_dependency_level :
    Jobs → (visit : ℕ → Bool → List Text → List Text) → Grouping
unfolding level_loop edges_of
group_by_dependency_level jobs visit =
    let edges = edges_of jobs in
    level_loop edges.dependents visit (length jobs)
      (record { degree = edges.degree; left = names_of jobs; levels = []; remaining = length jobs })
