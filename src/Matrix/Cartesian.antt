-- ===== src/Matrix/Cartesian.antt =====
-- The cartesian product of the dimensions of a matrix: `cartesianValues` and what is built on it in
-- internal/executionsemantics/matrix.go.
use git_ci.Common.{
  Bool, true, false, Option, none, some, List, [], ◌∷◌, ◌++◌, map, any, ℕ, ◌/◌, Text, trim_space,
  length, ltb, Result, ok, err, ◌>>=◌, if◌then◌else◌,
}
use git_ci.Matrix.Coordinates.{
  Coordinates, Scalar, null, MatrixError, empty_dimension_name, too_many_dimensions,
  too_many_variants, no_values, get, set_key, set_all, Dimension, items, single, dimension_values,
  normalize_object_list, compatible_include, partial_match, sort_texts,
}

abbrev pub max_matrix_dimensions : ℕ
max_matrix_dimensions = 8

abbrev pub max_matrix_variants : ℕ
max_matrix_variants = 64

-- The two inner loops: each combination with each value of a key.
unfoldable pub extend_one : Text → Coordinates → List Text → List Coordinates
unfolding set_key
extend_one key combination [] = []
extend_one key combination (value ∷ values) =
    set_key key value combination ∷ extend_one key combination values

unfoldable pub extend : Text → List Text → List Coordinates → List Coordinates
unfolding extend_one
extend key values [] = []
extend key values (combination ∷ combinations) =
    extend_one key combination values ++ extend key values combinations

-- `dimensions[key]`, which is nil where there is no such key.
abbrev pub or_null : Option Dimension → Dimension
or_null none = single null
or_null (some dimension) = dimension

abbrev pub is_empty {ℓ} : {A : Type ℓ} → List A → Bool
is_empty [] = true
is_empty (x ∷ xs) = false

-- The loop over the sorted keys.
unfoldable pub cartesian_loop :
    List (Text × Dimension) → List Text → List Coordinates → Result MatrixError (List Coordinates)
unfolding get dimension_values extend
cartesian_loop dimensions [] combinations = ok combinations
cartesian_loop dimensions (key ∷ keys) combinations =
    dimension_values (or_null (get key dimensions)) >>= λ values.
    if is_empty values
    then err (no_values key)
    else if ltb (max_matrix_variants / length values) (length combinations)
    then err too_many_variants
    else cartesian_loop dimensions keys (extend key values combinations)

-- `cartesianValues`
unfoldable pub cartesian_values : List (Text × Dimension) → Result MatrixError (List Coordinates)
unfolding trim_space sort_texts cartesian_loop
cartesian_values [] = ok []
cartesian_values (dimension ∷ dimensions) =
    let keys = map (λ (pair : Text × Dimension). trim_space pair.0) (dimension ∷ dimensions) in
    if ltb max_matrix_dimensions (length (dimension ∷ dimensions))
    then err too_many_dimensions
    else if any is_empty keys
    then err empty_dimension_name
    else cartesian_loop (dimension ∷ dimensions) (sort_texts keys) ([] ∷ [])

-- `cartesian`
unfoldable pub cartesian : List (Text × List Scalar) → Result MatrixError (List Coordinates)
unfolding cartesian_values
cartesian dimensions = cartesian_values (map (λ (key, values). (key, items values)) dimensions)

-- `types.Strategy`
pub record Strategy : Type 0 where
  pub matrix : List (Text × List Scalar)
  pub include : List (List (Text × Scalar))
  pub exclude : List (List (Text × Scalar))

-- The loop that drops the combinations that an exclusion matches.
unfoldable pub without_excluded : List Coordinates → List Coordinates → List Coordinates
unfolding partial_match
without_excluded excludes [] = []
without_excluded excludes (combination ∷ combinations) =
    let rest = without_excluded excludes combinations in
    if any (partial_match combination) excludes then rest else combination ∷ rest

-- An inclusion goes to the results whose original it is compatible with; the results behind the
-- originals stay. And whether there was one.
unfoldable pub apply_include :
    Coordinates → (originals results : List Coordinates) → List Coordinates × Bool
unfolding compatible_include set_all
apply_include include [] results = (results, false)
apply_include include (original ∷ originals) [] = ([], false)
apply_include include (original ∷ originals) (result ∷ results) =
    let rest = apply_include include originals results in
    if compatible_include original include
    then (set_all include result ∷ rest.0, true)
    else (result ∷ rest.0, rest.1)

-- The loop over the inclusions.
unfoldable pub include_loop :
    (includes originals results : List Coordinates) → Result MatrixError (List Coordinates)
unfolding apply_include
include_loop [] originals results = ok results
include_loop (include ∷ includes) originals results =
    let applied = apply_include include originals results in
    let next = if applied.1 then applied.0 else applied.0 ++ (include ∷ []) in
    let others = include_loop includes originals next in
    if ltb max_matrix_variants (length next) then err too_many_variants else others

abbrev pub or_unit : List Coordinates → List Coordinates
or_unit [] = [] ∷ []
or_unit (x ∷ xs) = x ∷ xs

-- `expandGitHubMatrix`
unfoldable pub expand_github_matrix : Strategy → Result MatrixError (List Coordinates)
unfolding normalize_object_list cartesian without_excluded include_loop
expand_github_matrix strategy =
    if is_empty strategy.matrix
    then normalize_object_list strategy.include
    else (cartesian strategy.matrix >>= λ combinations.
        normalize_object_list strategy.exclude >>= λ excludes.
        let filtered = without_excluded excludes (or_unit combinations) in
        normalize_object_list strategy.include >>= λ includes.
        include_loop includes filtered filtered)

-- The loop of `expandGitLabMatrix`, with the combinations so far.
unfoldable pub gitlab_loop :
    List (List (Text × Dimension)) → List Coordinates → Result MatrixError (List Coordinates)
unfolding cartesian_values
gitlab_loop [] combinations = ok combinations
gitlab_loop (group ∷ groups) combinations = cartesian_values group >>= λ expanded.
    if ltb max_matrix_variants (length (combinations ++ expanded))
    then err too_many_variants
    else gitlab_loop groups (combinations ++ expanded)
