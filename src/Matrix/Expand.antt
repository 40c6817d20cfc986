-- ===== src/Matrix/Expand.antt =====
-- `ExpandMatrix` of internal/executionsemantics/matrix.go.
use git_ci.Common.{
  Bool, false, not, ◌||◌, Option, none, some, List, [], ◌∷◌, any, ℕ, zero, suc, ◌+◌, Text, codes,
  text_eq, length, ltb, Result, ok, err, ◌>>=◌, if◌then◌else◌, ℤ, show_int,
}
use git_ci.Matrix.Coordinates.{
  Coordinates, Scalar, MatrixError, too_many_variants, no_variants, duplicate_variant, Dimension,
  canonical_coordinates, coordinate_label,
}
use git_ci.Matrix.Cartesian.{
  Strategy, cartesian, expand_github_matrix, gitlab_loop, max_matrix_variants, is_empty,
}

-- `MatrixVariant`
pub record MatrixVariant : Type 0 where
  pub index : ℕ
  pub total : ℕ
  pub values : Coordinates
  pub label : Text

-- `types.Parallel`; a total that is not positive is zero.
pub record Parallel : Type 0 where
  pub matrix : List (List (Text × Dimension))
  pub total : ℕ

-- The fields of a job that the expansion reads.
pub record Job : Type 0 where
  pub strategy : Option Strategy
  pub parallel : Option Parallel
  pub matrix : List (Text × List Scalar)

-- The nodes of `parallel: n`, from `index` on.
unfoldable pub nodes : (count index total : ℕ) → List Coordinates
unfolding show_int
nodes zero index total = []
nodes (suc count) index total =
    ((codes "CI_NODE_INDEX", show_int (ℤ.pos index))
      ∷ (codes "CI_NODE_TOTAL", show_int (ℤ.pos total))
      ∷ [])
    ∷ nodes count (index + 1) total

abbrev pub has_github_matrix : Option Strategy → Bool
has_github_matrix none = false
has_github_matrix (some strategy) =
    not (is_empty strategy.matrix) || not (is_empty strategy.include)

unfoldable pub plain_combinations : Job → Result MatrixError (List Coordinates)
unfolding cartesian
plain_combinations job = if is_empty job.matrix then ok ([] ∷ []) else cartesian job.matrix

unfoldable pub parallel_combinations : Job → Option Parallel → Result MatrixError (List Coordinates)
unfolding gitlab_loop nodes plain_combinations
parallel_combinations job none = plain_combinations job
parallel_combinations job (some parallel) =
    if not (is_empty parallel.matrix)
    then gitlab_loop parallel.matrix []
    else if ltb 0 parallel.total
    then (if ltb max_matrix_variants parallel.total
        then err too_many_variants
        else ok (nodes parallel.total 1 parallel.total))
    else plain_combinations job

-- The `switch` of `ExpandMatrix`.
unfoldable pub strategy_combinations : Job → Option Strategy → Result MatrixError (List Coordinates)
unfolding expand_github_matrix parallel_combinations
strategy_combinations job none = parallel_combinations job job.parallel
strategy_combinations job (some strategy) =
    if has_github_matrix (some strategy)
    then expand_github_matrix strategy
    else parallel_combinations job job.parallel

module _ (quote : Text → Text) where
  -- The last loop of `ExpandMatrix`: `seen` has the canonical texts so far, `index` the number.
  unfoldable pub number_variants :
      (index total : ℕ)
      → (seen : List Text) → List Coordinates
      → Result MatrixError (List MatrixVariant)
  unfolding canonical_coordinates coordinate_label
  number_variants index total seen [] = ok []
  number_variants index total seen (values ∷ combinations) =
      let canonical = canonical_coordinates quote values in
      if any (text_eq canonical) seen
      then err (duplicate_variant (coordinate_label values))
      else (number_variants (index + 1) total (canonical ∷ seen) combinations >>= λ variants. ok (
          record { index = index; total = total; values = values; label = coordinate_label values }
          ∷ variants))

  -- `ExpandMatrix`
  unfoldable pub expand_matrix : Job → Result MatrixError (List MatrixVariant)
  unfolding strategy_combinations number_variants
  expand_matrix job = strategy_combinations job job.strategy >>= λ combinations.
      if is_empty combinations
      then err no_variants
      else if ltb max_matrix_variants (length combinations)
      then err too_many_variants
      else number_variants 1 (length combinations) [] combinations
