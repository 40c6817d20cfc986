-- ===== src/Condition/Evaluate.antt =====
-- The `evaluate` methods, `normalizeCondition`, `CompileCondition` and `EvaluateCondition` of
-- internal/executionsemantics/condition.go.
use git_ci.Common.{
  ◌-◌, Bool, true, false, not, ◌&&◌, ◌||◌, Option, none, some, List, [], ◌∷◌, Text, codes, text_eq,
  ◌==◌, if◌then◌else◌, to_lower, equal_fold, has_prefix, has_suffix, contains_text, trim_space,
  take, drop, length, Order, less, greater, Result, ok, err, ◌>>=◌,
}
use git_ci.Condition.Tokens.{
  Kind, Failure, Outcome, token_and, token_or, token_equal, token_not_equal, token_less,
  token_less_equal, token_greater, token_greater_equal, token_match, token_not_match, kind_eq,
  panic, unsupported_function, unavailable_context, unsupported_operator,
}
use git_ci.Condition.Values.{Host, Value, boolean, truthy, sprint, equal_values, compare_values}
use git_ci.Condition.Regex.{condition_regex_value}
use git_ci.Condition.Parser.{
  Function, success, failure, cancelled, always, contains, starts_with, ends_with, unknown,
  function_of, Node, Nodes, literal, variable, unary, binary, function, no_nodes, node,
  parse_condition,
}

abbrev is_less : Order → Bool
is_less less = true
is_less _ = false

abbrev is_greater : Order → Bool
is_greater greater = true
is_greater _ = false

abbrev pub trim_dollar : Text → Text
trim_dollar [] = []
trim_dollar (c ∷ s) = if c == 36 then s else c ∷ s

-- The three characters that open an embedded expression, and the two that close it.
abbrev pub opening : Text
opening = codes "${{"

abbrev pub closing_braces : Text
closing_braces = codes "}}"

unfoldable pub normalize_condition : Text → Text
unfolding trim_space has_prefix has_suffix
normalize_condition expression =
    let trimmed = trim_space expression in
    if has_prefix trimmed opening && has_suffix trimmed closing_braces
    then trim_space (take (length trimmed - 5) (drop 3 trimmed))
    else trimmed

pub record Contract : Type 0 where
  pub expression : Text
  pub evaluable : Bool
  pub diagnostic : Option Failure

unfoldable pub contract_of {ℓ} : {A : Type ℓ} → Text → Result Failure A → Contract
contract_of expression (ok root) = record {
  expression = expression;
  evaluable = true;
  diagnostic = none;
}
contract_of expression (err e) = record {
  expression = expression;
  evaluable = false;
  diagnostic = some e;
}

module _ (host : Host) where
  open host use {match_string}

  -- `values` lists the map in the order of the `range` over it.
  pub record Context : Type 0 where
    pub values : List (Text × Value host)
    pub success : Bool
    pub failure : Bool
    pub cancelled : Bool
    pub case_insensitive : Bool

  unfoldable pub lookup : Text → List (Text × Value host) → Option (Value host)
  lookup k [] = none
  lookup k ((j, v) ∷ values) = if text_eq j k then some v else lookup k values

  unfoldable pub lookup_fold : Text → Text → List (Text × Value host) → Option (Value host)
  lookup_fold k k' [] = none
  lookup_fold k k' ((j, v) ∷ values) =
      if equal_fold j k || equal_fold j k' then some v else lookup_fold k k' values

  unfoldable pub evaluate_variable : Context → Text → Outcome (Value host)
  unfolding lookup lookup_fold equal_fold
  evaluate_variable context name = elim (lookup name context.values) [
    | some v ↦ ok v
    | none ↦ elim (lookup (trim_dollar name) context.values) [
      | some v ↦ ok v
      | none ↦ elim (lookup_fold name (trim_dollar name) context.values) [
        | some v ↦ ok v
        | none ↦ err (unavailable_context name)
      ]
    ]
  ]

  -- The last `switch` of the binary `evaluate`.
  unfoldable pub apply_operator : Context → Kind → Value host → Value host → Outcome (Value host)
  unfolding truthy equal_values compare_values condition_regex_value sprint
  apply_operator context token_and left right = ok (boolean (truthy host left && truthy host right))
  apply_operator context token_or left right = ok (boolean (truthy host left || truthy host right))
  apply_operator context token_equal left right =
      ok (boolean (equal_values host left right context.case_insensitive))
  apply_operator context token_not_equal left right =
      ok (boolean (not (equal_values host left right context.case_insensitive)))
  apply_operator context token_less left right =
      ok (boolean (is_less (compare_values host left right context.case_insensitive)))
  apply_operator context token_less_equal left right =
      ok (boolean (not (is_greater (compare_values host left right context.case_insensitive))))
  apply_operator context token_greater left right =
      ok (boolean (is_greater (compare_values host left right context.case_insensitive)))
  apply_operator context token_greater_equal left right =
      ok (boolean (not (is_less (compare_values host left right context.case_insensitive))))
  apply_operator context token_match left right = do
    pattern_value ← condition_regex_value host right
    ok (boolean (match_string pattern_value (sprint host left)))
  apply_operator context token_not_match left right = do
    pattern_value ← condition_regex_value host right
    ok (boolean (not (match_string pattern_value (sprint host left))))
  apply_operator context _ left right = err unsupported_operator

  -- The rest of the binary `evaluate`, behind the left operand's value. `right` is read only where
  -- the left value does not decide.
  unfoldable pub combine : Context → Kind → Value host → Outcome (Value host) → Outcome (Value host)
  unfolding apply_operator
  combine context operator left right =
      if kind_eq operator token_and && not (truthy host left)
      then ok (boolean false)
      else if kind_eq operator token_or && truthy host left
      then ok (boolean true)
      else (do r ← right; apply_operator context operator left r)

  -- `arguments[0]` and `arguments[1]` as text.
  unfoldable pub two_texts : Context → List (Value host) → Outcome (Text × Text)
  unfolding sprint to_lower
  two_texts context (a ∷ b ∷ rest) =
      if context.case_insensitive
      then ok (to_lower (sprint host a), to_lower (sprint host b))
      else ok (sprint host a, sprint host b)
  two_texts context _ = err panic

  unfoldable pub call_function :
      Context → Function → Text → Outcome (List (Value host)) → Outcome (Value host)
  unfolding two_texts contains_text has_prefix has_suffix
  call_function context success name arguments = ok (boolean context.success)
  call_function context failure name arguments = ok (boolean context.failure)
  call_function context cancelled name arguments = ok (boolean context.cancelled)
  call_function context always name arguments = ok (boolean true)
  call_function context contains name arguments = do
    values ← arguments
    (left, right) ← two_texts context values
    ok (boolean (contains_text left right))
  call_function context starts_with name arguments = do
    values ← arguments
    (left, right) ← two_texts context values
    ok (boolean (has_prefix left right))
  call_function context ends_with name arguments = do
    values ← arguments
    (left, right) ← two_texts context values
    ok (boolean (has_suffix left right))
  call_function context unknown name arguments = do
    values ← arguments
    texts ← two_texts context values
    err (unsupported_function name)

  unfoldable mutual
    unfolding evaluate_variable combine call_function function_of

    pub evaluate : Context → Node host → Outcome (Value host)
    evaluate context (literal v) = ok v
    evaluate context (variable name) = evaluate_variable context name
    evaluate context (unary operator operand) = do
      value ← evaluate context operand
      ok (boolean (not (truthy host value)))
    evaluate context (binary operator left right) = do
      value ← evaluate context left
      combine context operator value (evaluate context right)
    evaluate context (function name arguments) =
        call_function context (function_of name) name (evaluate_all context arguments)

    pub evaluate_all : Context → Nodes host → Outcome (List (Value host))
    evaluate_all context no_nodes = ok []
    evaluate_all context (node argument others) = do
      value ← evaluate context argument
      values ← evaluate_all context others
      ok (value ∷ values)

  -- `CompileCondition` and `EvaluateCondition`, behind `normalizeCondition`.
  unfoldable pub compile_normalized : Text → Contract
  unfolding parse_condition contract_of
  compile_normalized expression =
      if text_eq expression []
      then record { expression = expression; evaluable = true; diagnostic = none }
      else contract_of expression (parse_condition host expression)

  unfoldable pub evaluate_parsed : Context → Outcome (Node host) → Outcome Bool
  unfolding evaluate truthy
  evaluate_parsed context parsed = do
    root ← parsed
    value ← evaluate context root
    ok (truthy host value)

  unfoldable pub evaluate_normalized : Text → Context → Outcome Bool
  unfolding parse_condition evaluate_parsed
  evaluate_normalized expression context =
      if text_eq expression []
      then ok true
      else evaluate_parsed context (parse_condition host expression)

  -- `CompileCondition`
  unfoldable pub compile_condition : Text → Contract
  unfolding normalize_condition compile_normalized
  compile_condition expression = compile_normalized (normalize_condition expression)

  -- `EvaluateCondition`
  unfoldable pub evaluate_condition : Text → Context → Outcome Bool
  unfolding normalize_condition evaluate_normalized
  evaluate_condition expression context =
      evaluate_normalized (normalize_condition expression) context
