-- ===== src/Condition/Parser.antt =====
-- The syntax trees and `conditionParser` of internal/executionsemantics/condition.go. A parser
-- state is the tokens that are left, tokens[index:], so that `peek` at no token is Go's panic.
use git_ci.Common.{
  ℕ, zero, suc, ◌+◌, ◌*◌, Bool, true, false, none, some, [], ◌∷◌, Text, codes, text_eq, ◌==◌,
  if◌then◌else◌, to_lower, length, ok, err, ◌>>=◌, ◌>>◌, guard,
}
use git_ci.Condition.Tokens.{
  Kind, Token, Tokens, Outcome, token_eof, token_identifier, token_string, token_number, token_true,
  token_false, token_null, token_left_paren, token_right_paren, token_comma, token_not, token_and,
  token_or, token_equal, token_not_equal, token_less, token_less_equal, token_greater,
  token_greater_equal, token_regex, token_match, token_not_match, kind_eq, panic, out_of_fuel,
  unexpected_token, expected_value, invalid_number, expected_paren, expected_paren_after_arguments,
  expects_no_arguments, expects_two_arguments, unsupported_function,
}
use git_ci.Condition.Lexer.{scan}
use git_ci.Condition.Values.{Host, Value, null, boolean, text, float64, regex}
use git_ci.Condition.Regex.{compile_condition_regex}

-- The four kinds of function name, and what is no function.
pub data Function : Type 0 where
  success failure cancelled always contains starts_with ends_with unknown : Function

-- `strings.ToLower(name)` and the cases of the two switches on it.
unfoldable pub function_of : Text → Function
unfolding to_lower
function_of name =
    let word = to_lower name in
    if text_eq word (codes "success")
    then success
    else if text_eq word (codes "failure")
    then failure
    else if text_eq word (codes "cancelled")
    then cancelled
    else if text_eq word (codes "always")
    then always
    else if text_eq word (codes "contains")
    then contains
    else if text_eq word (codes "startswith")
    then starts_with
    else if text_eq word (codes "endswith")
    then ends_with
    else unknown

-- `validateFunction`, by the function that the name stands for.
unfoldable pub validate_arity : Function → Text → ℕ → Outcome (Unit {0})
validate_arity unknown name n = err (unsupported_function name)
validate_arity contains name n = guard (n == 2) (expects_two_arguments name)
validate_arity starts_with name n = guard (n == 2) (expects_two_arguments name)
validate_arity ends_with name n = guard (n == 2) (expects_two_arguments name)
validate_arity _ name n = guard (n == 0) (expects_no_arguments name)

unfoldable pub validate_function : Text → ℕ → Outcome (Unit {0})
unfolding function_of validate_arity
validate_function name n = validate_arity (function_of name) name n

-- The operators of `parseComparison`.
unfoldable pub is_comparison : Kind → Bool
is_comparison token_equal = true
is_comparison token_not_equal = true
is_comparison token_less = true
is_comparison token_less_equal = true
is_comparison token_greater = true
is_comparison token_greater_equal = true
is_comparison token_match = true
is_comparison token_not_match = true
is_comparison _ = false

-- `peek`
unfoldable pub peek : Tokens → Outcome Token
peek [] = err panic
peek (t ∷ ts) = ok t

-- `parser.index++`
abbrev pub next : Tokens → Tokens
next [] = []
next (t ∷ ts) = ts

-- `match`
unfoldable pub match : Kind → Tokens → Outcome (Bool × Tokens)
unfolding peek
match kind ts = do t ← peek ts; if kind_eq t.kind kind then ok (true, next ts) else ok (false, ts)

module _ (host : Host) where
  open host use {parse_float}

  mutual
    pub data Node : Type 0 where
      literal : Value host → Node
      variable : Text → Node
      unary : Kind → Node → Node
      binary : Kind → Node → Node → Node
      function : Text → Nodes → Node

    pub data Nodes : Type 0 where
      no_nodes : Nodes
      node : Node → Nodes → Nodes

  abbrev pub count : Nodes → ℕ
  count no_nodes = 0
  count (node n ns) = suc (count ns)

  abbrev pub Parsed : Type 0
  Parsed = Outcome (Node × Tokens)

  -- The cases of `parsePrimary` that read one token, of a kind and a literal, with `ts` behind it.
  unfoldable pub parse_literal : Kind → Text → Tokens → Parsed
  unfolding compile_condition_regex
  parse_literal token_string word ts = ok (literal (text word), ts)
  parse_literal token_number word ts = elim (parse_float word) [
    | some x ↦ ok (literal (float64 x), ts)
    | none ↦ err (invalid_number word)
  ]
  parse_literal token_true word ts = ok (literal (boolean true), ts)
  parse_literal token_false word ts = ok (literal (boolean false), ts)
  parse_literal token_null word ts = ok (literal null, ts)
  parse_literal token_regex word ts = do
    compiled ← compile_condition_regex host word
    ok (literal (regex word compiled), ts)
  parse_literal _ word ts = err (expected_value word)

  -- The cases of `parsePrimary`, over what the two that read further give.
  unfoldable pub choose_primary : Kind → Text → Tokens → Parsed → Parsed → Parsed
  unfolding parse_literal
  choose_primary token_identifier word ts named grouped = named
  choose_primary token_left_paren word ts named grouped = grouped
  choose_primary kind word ts named grouped = parse_literal kind word ts

  -- Each call costs a unit of fuel. `parse_or_loop` and `parse_and_loop` are the loops behind the
  -- first operand, and `parse_arguments` is the loop over the arguments of a call.
  unfoldable mutual
    unfolding match peek choose_primary is_comparison validate_function

    pub parse_or : ℕ → Tokens → Parsed
    parse_or zero ts = err out_of_fuel
    parse_or (suc f) ts = do (left, rest) ← parse_and f ts; parse_or_loop f left rest

    pub parse_or_loop : ℕ → Node → Tokens → Parsed
    parse_or_loop zero left ts = err out_of_fuel
    parse_or_loop (suc f) left ts = do
      (more, rest) ← match token_or ts
      elim more [
        | false ↦ ok (left, rest)
        | true ↦ do
          (right, rest') ← parse_and f rest
          parse_or_loop f (binary token_or left right) rest'
      ]

    pub parse_and : ℕ → Tokens → Parsed
    parse_and zero ts = err out_of_fuel
    parse_and (suc f) ts = do (left, rest) ← parse_comparison f ts; parse_and_loop f left rest

    pub parse_and_loop : ℕ → Node → Tokens → Parsed
    parse_and_loop zero left ts = err out_of_fuel
    parse_and_loop (suc f) left ts = do
      (more, rest) ← match token_and ts
      elim more [
        | false ↦ ok (left, rest)
        | true ↦ do
          (right, rest') ← parse_comparison f rest
          parse_and_loop f (binary token_and left right) rest'
      ]

    pub parse_comparison : ℕ → Tokens → Parsed
    parse_comparison zero ts = err out_of_fuel
    parse_comparison (suc f) ts = do
      (left, rest) ← parse_unary f ts
      operator ← peek rest
      elim (is_comparison operator.kind) [
        | false ↦ ok (left, rest)
        | true ↦ do
          (right, rest') ← parse_unary f (next rest)
          ok (binary operator.kind left right, rest')
      ]

    pub parse_unary : ℕ → Tokens → Parsed
    parse_unary zero ts = err out_of_fuel
    parse_unary (suc f) ts = do
      (negated, rest) ← match token_not ts
      elim negated [
        | false ↦ parse_primary f rest
        | true ↦ do (operand, rest') ← parse_unary f rest; ok (unary token_not operand, rest')
      ]

    pub parse_primary : ℕ → Tokens → Parsed
    parse_primary zero ts = err out_of_fuel
    parse_primary (suc f) ts = do
      t ← peek ts
      let named = parse_identifier f t.literal (next ts)
      let grouped = parse_group f (next ts)
      choose_primary t.kind t.literal (next ts) named grouped

    -- From behind an opening parenthesis.
    pub parse_group : ℕ → Tokens → Parsed
    parse_group zero ts = err out_of_fuel
    parse_group (suc f) ts = do
      (inner, rest) ← parse_or f ts
      (closed, rest') ← match token_right_paren rest
      guard closed expected_paren
      ok (inner, rest')

    pub parse_identifier : ℕ → Text → Tokens → Parsed
    parse_identifier zero name ts = err out_of_fuel
    parse_identifier (suc f) name ts = do
      (called, rest) ← match token_left_paren ts
      elim called [
        | false ↦ ok (variable name, rest)
        | true ↦ do
          t ← peek rest
          (arguments, rest') ← elim (kind_eq t.kind token_right_paren) [
            | true ↦ ok (no_nodes, rest)
            | false ↦ parse_arguments f rest
          ]
          (closed, rest'') ← match token_right_paren rest'
          guard closed expected_paren_after_arguments
          validate_function name (count arguments)
          ok (function name arguments, rest'')
      ]

    pub parse_arguments : ℕ → Tokens → Outcome (Nodes × Tokens)
    parse_arguments zero ts = err out_of_fuel
    parse_arguments (suc f) ts = do
      (argument, rest) ← parse_or f ts
      (more, rest') ← match token_comma rest
      elim more [
        | false ↦ ok (node argument no_nodes, rest')
        | true ↦ do (others, rest'') ← parse_arguments f rest'; ok (node argument others, rest'')
      ]

  unfoldable pub parse_tokens : Tokens → Outcome Node
  unfolding parse_or peek
  parse_tokens tokens = do
    (root, rest) ← parse_or (8 * length tokens + 8) tokens
    t ← peek rest
    guard (kind_eq t.kind token_eof) (unexpected_token t.literal)
    ok root

  -- `parseCondition`
  unfoldable pub parse_condition : Text → Outcome Node
  unfolding scan parse_tokens
  parse_condition expression = do tokens ← scan expression; parse_tokens tokens
