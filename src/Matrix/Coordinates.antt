-- ===== src/Matrix/Coordinates.antt =====
-- The values of a matrix and its coordinates: internal/executionsemantics/matrix.go. A Go map is a
-- list of pairs in which a key that is set again keeps its place.
use git_ci.Common.{
  Bool, true, false, Option, none, some, List, [], ◌∷◌, ◌++◌, map, all, Text, codes, text_eq,
  compare_text, greater, Result, ok, err, ◌>>=◌, if◌then◌else◌, ℤ, show_int,
}

abbrev pub Coordinates : Type 0
Coordinates = List (Text × Text)

-- A value of the decoded YAML. A floating-point number stands as `strconv.FormatFloat` prints it, and
-- a `json.Number` as its text.
pub data Scalar : Type 0 where
  null unsupported : Scalar
  text formatted : Text → Scalar
  boolean : Bool → Scalar
  integer : ℤ → Scalar

pub data MatrixError : Type 0 where
  not_scalar empty_dimension_name too_many_dimensions too_many_variants no_variants : MatrixError
  no_values duplicate_variant : Text → MatrixError

-- `scalarString`
unfoldable pub scalar_string : Scalar → Result MatrixError Text
unfolding show_int
scalar_string null = ok []
scalar_string (text s) = ok s
scalar_string (formatted s) = ok s
scalar_string (boolean true) = ok (codes "true")
scalar_string (boolean false) = ok (codes "false")
scalar_string (integer n) = ok (show_int n)
scalar_string unsupported = err not_scalar

unfoldable pub get {ℓ} : {A : Type ℓ} → Text → List (Text × A) → Option A
get key [] = none
get key ((k, value) ∷ rest) = if text_eq k key then some value else get key rest

-- `values[key]` of a map of strings.
abbrev pub or_empty : Option Text → Text
or_empty none = []
or_empty (some s) = s

unfoldable pub get_text : Text → Coordinates → Text
unfolding get
get_text key values = or_empty (get key values)

-- `values[key] = value`
unfoldable pub set_key : Text → Text → Coordinates → Coordinates
set_key key value [] = (key, value) ∷ []
set_key key value ((k, v) ∷ rest) =
    if text_eq k key then (k, value) ∷ rest else (k, v) ∷ set_key key value rest

-- The loop that copies one map over another.
unfoldable pub set_all : Coordinates → Coordinates → Coordinates
unfolding set_key
set_all [] values = values
set_all ((k, v) ∷ rest) values = set_all rest (set_key k v values)

unfoldable pub scalar_strings : List Scalar → Result MatrixError (List Text)
unfolding scalar_string
scalar_strings [] = ok []
scalar_strings (item ∷ items) = do
  first ← scalar_string item
  others ← scalar_strings items
  ok (first ∷ others)

-- A dimension as the YAML has it.
pub data Dimension : Type 0 where
  items : List Scalar → Dimension
  texts : List Text → Dimension
  single : Scalar → Dimension

-- `dimensionValues`
unfoldable pub dimension_values : Dimension → Result MatrixError (List Text)
unfolding scalar_strings scalar_string
dimension_values (items values) = scalar_strings values
dimension_values (texts values) = ok values
dimension_values (single value) = do s ← scalar_string value; ok (s ∷ [])

-- One object of `normalizeObjectList`.
unfoldable pub normalize_object : List (Text × Scalar) → Result MatrixError Coordinates
unfolding scalar_string
normalize_object [] = ok []
normalize_object ((key, value) ∷ rest) = do
  s ← scalar_string value
  others ← normalize_object rest
  ok ((key, s) ∷ others)

-- `normalizeObjectList`
unfoldable pub normalize_object_list :
    List (List (Text × Scalar)) → Result MatrixError (List Coordinates)
unfolding normalize_object
normalize_object_list [] = ok []
normalize_object_list (item ∷ rest) = do
  first ← normalize_object item
  others ← normalize_object_list rest
  ok (first ∷ others)

-- `compatibleInclude`
abbrev pub agrees : Option Text → Text → Bool
agrees none value = true
agrees (some existing) value = text_eq existing value

unfoldable pub compatible_include : Coordinates → Coordinates → Bool
unfolding get
compatible_include original include = all (λ (key, value). agrees (get key original) value) include

-- `partialMatch`
unfoldable pub partial_match : Coordinates → Coordinates → Bool
unfolding get_text
partial_match values filter = all (λ (key, expected). text_eq (get_text key values) expected) filter

-- `sort.Strings`
unfoldable pub insert_text : Text → List Text → List Text
insert_text s [] = s ∷ []
insert_text s (t ∷ ts) =
    let rest = insert_text s ts in elim (compare_text s t) [ greater ↦ t ∷ rest | _ ↦ s ∷ t ∷ ts ]

unfoldable pub sort_texts : List Text → List Text
unfolding insert_text
sort_texts [] = []
sort_texts (t ∷ ts) = insert_text t (sort_texts ts)

-- `sortedCoordinateKeys`
unfoldable pub sorted_coordinate_keys : Coordinates → List Text
unfolding sort_texts
sorted_coordinate_keys values = sort_texts (map (λ pair. pair.0) values)

-- `canonicalCoordinates`, where `quote` is `strconv.Quote`.
unfoldable pub canonical_loop : (Text → Text) → Coordinates → List Text → Text
unfolding get_text
canonical_loop quote values [] = []
canonical_loop quote values (key ∷ keys) =
    quote key ++ (b'=' ∷ (quote (get_text key values) ++ (b';' ∷ canonical_loop quote values keys)))

unfoldable pub canonical_coordinates : (Text → Text) → Coordinates → Text
unfolding canonical_loop sorted_coordinate_keys
canonical_coordinates quote values = canonical_loop quote values (sorted_coordinate_keys values)

-- `coordinateLabel`
unfoldable pub label_loop : Coordinates → List Text → Text
unfolding get_text
label_loop values [] = []
label_loop values (key ∷ []) = key ++ (b'=' ∷ get_text key values)
label_loop values (key ∷ next ∷ keys) =
    key ++ (b'=' ∷ (get_text key values ++ (b',' ∷ (b' ' ∷ label_loop values (next ∷ keys)))))

unfoldable pub coordinate_label : Coordinates → Text
unfolding label_loop sorted_coordinate_keys
coordinate_label values = label_loop values (sorted_coordinate_keys values)
