-- ===== src/Matrix/Samples.antt =====
-- Matrices as internal/executionsemantics expands them, and the theorems at these.
use git_ci.Common.{
  none, some, List, [], ◌∷◌, Text, codes, ok, Ensures, ◌≡◌, refl, ℤ, trim_space, compare_text,
  show_int,
}
use git_ci.Matrix.Coordinates.{
  Coordinates, text, integer, Dimension, items, canonical_coordinates, coordinate_label, sort_texts,
  get, get_text, set_key, dimension_values,
}
use git_ci.Matrix.Cartesian.{Strategy, cartesian, cartesian_values, expand_github_matrix}
use git_ci.Matrix.CartesianLaws.{IsProduct, IsAny, volume, cartesian_values-IsProduct}
use git_ci.Matrix.Expand.{Job, strategy_combinations, expand_matrix}
use git_ci.Matrix.ExpandLaws.{IsExpansion, IsRefusal, expand_matrix-IsExpansion}

program : Unit {0}
unfolding trim_space compare_text show_int canonical_coordinates coordinate_label sort_texts get
    get_text set_key dimension_values cartesian cartesian_values expand_github_matrix
    strategy_combinations expand_matrix
program = tt

abbrev strategy : Strategy
strategy = record {
  matrix =
      (codes "os", text (codes "linux") ∷ text (codes "mac") ∷ [])
      ∷ (codes "go", integer (ℤ.pos 1) ∷ integer (ℤ.pos 2) ∷ [])
      ∷ [];
  include = ((codes "os", text (codes "linux")) ∷ (codes "fast", text (codes "yes")) ∷ []) ∷ [];
  exclude = ((codes "os", text (codes "mac")) ∷ (codes "go", integer (ℤ.pos 1)) ∷ []) ∷ [];
}

abbrev job : Job
job = record { strategy = some strategy; parallel = none; matrix = [] }

abbrev expanded : List Coordinates
expanded =
    ((codes "go", codes "1") ∷ (codes "os", codes "linux") ∷ (codes "fast", codes "yes") ∷ [])
    ∷ ((codes "go", codes "2") ∷ (codes "os", codes "linux") ∷ (codes "fast", codes "yes") ∷ [])
    ∷ ((codes "go", codes "2") ∷ (codes "os", codes "mac") ∷ [])
    ∷ []

job-expanded : strategy_combinations job job.strategy ≡ ok expanded
unfolding program
job-expanded = refl

-- A name in blanks loses the values of its dimension.
blank_name_lost :
    cartesian_values ((codes " os", items (text (codes "linux") ∷ text (codes "mac") ∷ [])) ∷ [])
    ≡ ok (((codes "os", []) ∷ []) ∷ [])
unfolding program
blank_name_lost = refl

expand_matrix-IsExpansion_example :
    Ensures
      (IsExpansion (λ s. s) expanded)
      (IsRefusal (λ s. s) expanded)
      (expand_matrix (λ s. s) job)
expand_matrix-IsExpansion_example = expand_matrix-IsExpansion (λ s. s) job expanded job-expanded

abbrev one_dimension : Text × Dimension
one_dimension = (codes "os", items (text (codes "linux") ∷ text (codes "mac") ∷ []))

abbrev other_dimension : Text × Dimension
other_dimension = (codes "arch", items (text (codes "arm") ∷ text (codes "amd") ∷ []))

cartesian_values-IsProduct_example :
    Ensures
      (IsProduct (volume (one_dimension ∷ other_dimension ∷ [])))
      IsAny
      (cartesian_values (one_dimension ∷ other_dimension ∷ []))
unfolding program
cartesian_values-IsProduct_example =
    cartesian_values-IsProduct one_dimension (other_dimension ∷ []) (refl, refl, (refl, refl, tt))
