-- ===== src/Condition/Values.antt =====
-- The values of the condition language, and the numbers and regular expressions that it takes from
-- Go's runtime: internal/executionsemantics/condition.go, from `truthy` on.
use git_ci.Common.{
  Bool, true, false, not, ◌&&◌, ◌||◌, Option, none, some, [], ◌++◌, Text, codes, text_eq,
  if◌then◌else◌, to_lower, equal_fold, compare_text, Order, less, same, greater, ℤ, is_zero,
  show_int,
}

-- `float64` and `float32` with `strconv.ParseFloat`, the conversions, `==`, `<` and `%v`, and
-- `regexp.Compile` with `MatchString`. `parse_float` and `compile` say `none` for an error.
pub record Host : Type 1 where
  pub Float : Type 0
  pub parse_float : Text → Option Float
  pub of_int : ℤ → Float
  pub float_eq : Float → Float → Bool
  pub float_lt : Float → Float → Bool
  pub show_float : Float → Text
  pub Float32 : Type 0
  pub widen : Float32 → Float
  pub show_float32 : Float32 → Text
  pub Regex : Type 0
  pub compile : Text → Option Regex
  pub match_string : Regex → Text → Bool
  pub show_regex : Regex → Text

abbrev pub equal_texts : Bool → Text → Text → Bool
equal_texts case_insensitive left right =
    if case_insensitive then equal_fold left right else text_eq left right

abbrev pub compare_texts : Bool → Text → Text → Order
compare_texts case_insensitive left right =
    if case_insensitive
    then compare_text (to_lower left) (to_lower right)
    else compare_text left right

module _ (host : Host) where
  open host use {
    Float, of_int, float_eq, float_lt, show_float, Float32, widen, show_float32, Regex, compile,
    show_regex,
  }

  -- The types that an `interface{}` of the program holds here.
  pub data Value : Type 0 where
    null : Value
    boolean : Bool → Value
    text : Text → Value
    float64 : Float → Value
    float32 : Float32 → Value
    int int64 : ℤ → Value
    regex : (source : Text) → Regex → Value

  unfoldable pub truthy : Value → Bool
  truthy null = false
  truthy (boolean b) = b
  truthy (text s) = not (text_eq s [])
  truthy (float64 x) = not (float_eq x (of_int (ℤ.pos 0)))
  truthy (int n) = not (is_zero n)
  truthy _ = true

  unfoldable pub numeric_value : Value → Option Float
  numeric_value (int n) = some (of_int n)
  numeric_value (int64 n) = some (of_int n)
  numeric_value (float64 x) = some x
  numeric_value (float32 x) = some (widen x)
  numeric_value _ = none

  -- `fmt.Sprint`
  unfoldable pub sprint : Value → Text
  unfolding show_int
  sprint null = codes "<nil>"
  sprint (boolean true) = codes "true"
  sprint (boolean false) = codes "false"
  sprint (text s) = s
  sprint (float64 x) = show_float x
  sprint (float32 x) = show_float32 x
  sprint (int n) = show_int n
  sprint (int64 n) = show_int n
  sprint (regex source compiled) =
      codes "{" ++ (source ++ (codes " " ++ (show_regex compiled ++ codes "}")))

  abbrev pub is_null : Value → Bool
  is_null null = true
  is_null _ = false

  abbrev pub both : Option Float → Option Float → Option (Float × Float)
  both (some x) (some y) = some (x, y)
  both (some x) none = none
  both none y = none

  -- Both operands as numbers, where both are numbers.
  unfoldable pub both_numeric : Value → Value → Option (Float × Float)
  unfolding numeric_value
  both_numeric left right = both (numeric_value left) (numeric_value right)

  abbrev pub compare_numbers : Float → Float → Order
  compare_numbers x y = if float_lt x y then less else if float_lt y x then greater else same

  unfoldable pub equal_values : Value → Value → Bool → Bool
  unfolding both_numeric sprint equal_fold
  equal_values left right case_insensitive =
      if is_null left || is_null right
      then is_null left && is_null right
      else elim (both_numeric left right) [
        | some (x, y) ↦ float_eq x y
        | none ↦ equal_texts case_insensitive (sprint left) (sprint right)
      ]

  unfoldable pub compare_values : Value → Value → Bool → Order
  unfolding both_numeric sprint compare_text to_lower
  compare_values left right case_insensitive = elim (both_numeric left right) [
    | some (x, y) ↦ if float_lt x y then less else if float_lt y x then greater else same
    | none ↦ compare_texts case_insensitive (sprint left) (sprint right)
  ]
