-- ===== src/Condition/EvaluateSafety.antt =====
-- Compiling and evaluating a condition, from the text to the value: no panic, no error but those
-- that the code reports, and none that the parser ought to have reported.
use git_ci.Common.{
  ℕ, suc, ◌≡◌, refl, ◌⊎◌, Bool, true, false, not, ◌&&◌, Option, none, some, List, [], ◌∷◌, Text,
  text_eq, length, ok, err, Ensures, Ensures-bind, Ensures-err_mono, Ensures-ok, arith, if_cases,
  if◌then◌else◌,
}
use git_ci.Condition.Tokens.{
  Kind, Failure, Outcome, IsReported, token_and, token_or, kind_eq, lexical, unavailable_context,
  regex_too_long, regex_not_enclosed, regex_unterminated, regex_flags, regex_single_character,
  regex_invalid, regex_operand,
}
use git_ci.Condition.Lexer.{scan}
use git_ci.Condition.Values.{Host, Value, truthy}
use git_ci.Condition.Regex.{compile_condition_regex, condition_regex_value}
use git_ci.Condition.Parser.{
  Function, success, failure, cancelled, always, unknown, function_of, validate_arity,
  validate_function, is_comparison, Node, Nodes, literal, variable, unary, binary, function,
  no_nodes, node, count, parse_condition,
}
use git_ci.Condition.Evaluate.{
  Context, evaluate_variable, apply_operator, combine, two_texts, call_function, evaluate,
  evaluate_all, evaluate_condition, normalize_condition, compile_condition, contract_of, Contract,
  evaluate_parsed,
}
use git_ci.Condition.ParserSafety.{
  IsTerminated, IsWellFormed, AreWellFormed, parse_tokens-IsWellFormed,
}
use git_ci.Condition.LexerReads.{IsPositioned}
use git_ci.Condition.LexerSafety.{scan-IsTerminated}

-- What can still go wrong when a parsed condition is evaluated.
abbrev pub IsRuntime : Failure → Type 0
IsRuntime (unavailable_context name) = Unit
IsRuntime regex_too_long = Unit
IsRuntime regex_not_enclosed = Unit
IsRuntime regex_unterminated = Unit
IsRuntime (regex_flags flags) = Unit
IsRuntime regex_single_character = Unit
IsRuntime regex_invalid = Unit
IsRuntime regex_operand = Unit
IsRuntime _ = ⊥

IsRuntime→IsReported : (e : Failure) → IsRuntime e → IsReported e
IsRuntime→IsReported (lexical m p) h = tt
IsRuntime→IsReported e h = ground arith

IsPositioned→IsReported : (n : ℕ) (e : Failure) → IsPositioned n e → IsReported e
IsPositioned→IsReported n (lexical m p) h = tt
IsPositioned→IsReported n e h = ground arith

-- What a contract promises of the evaluation: an error of the run at most, or its own error.
abbrev Promises : Bool → Option Failure → Outcome Bool → Type 0
Promises true diagnostic result = Ensures (λ _. Unit) IsRuntime result
Promises false (some e) result = IsReported e × (result ≡ err e)
Promises false none result = ⊥

abbrev pub Agrees : Contract → Outcome Bool → Type 0
Agrees contract result = Promises contract.evaluable contract.diagnostic result

Agrees-if :
    (b : Bool) (c d : Contract) (r s : Outcome Bool)
    → Agrees c r
    → Agrees d s
    → Agrees (if b then c else d) (if b then r else s)
Agrees-if true c d r s h k = h
Agrees-if false c d r s h k = k

module _ (host : Host) where
  -- `parseCondition` returns a well-formed tree or an error of the program: the lexer never runs over
  -- its input, the parser never runs over its tokens, and the loops end.
  pub parse_condition-IsWellFormed :
      (expression : Text) → Ensures (IsWellFormed host) IsReported (parse_condition host expression)
  unfolding parse_condition
  parse_condition-IsWellFormed expression =
      Ensures-bind IsTerminated (IsWellFormed host) IsReported (scan expression) _
        (Ensures-err_mono IsTerminated (IsPositioned (length expression)) IsReported
          (scan expression) (IsPositioned→IsReported (length expression))
          (scan-IsTerminated expression))
        (parse_tokens-IsWellFormed host)

  compile-Runs :
      (source : Text) → Ensures (λ _. Unit) IsRuntime (compile_condition_regex host source)
  unfolding compile_condition_regex
  compile-Runs source = ground arith

  regex_value-Runs : (v : Value host) → Ensures (λ _. Unit) IsRuntime (condition_regex_value host v)
  unfolding condition_regex_value
  regex_value-Runs (Value.text source) = compile-Runs source
  regex_value-Runs _ = ground arith

  apply_operator-Runs :
      (context : Context host) (operator : Kind) (left right : Value host)
      → ((operator ≡ token_and) ⊎ (operator ≡ token_or)) ⊎ (is_comparison operator ≡ true)
      → Ensures (λ _. Unit) IsRuntime (apply_operator host context operator left right)
  unfolding apply_operator is_comparison
  apply_operator-Runs context token_and left right h = tt
  apply_operator-Runs context _ left right h = ground (arith, regex_value-Runs right)

  combine-Runs :
      (context : Context host) (operator : Kind) (left : Value host) (right : Outcome (Value host))
      → ((operator ≡ token_and) ⊎ (operator ≡ token_or)) ⊎ (is_comparison operator ≡ true)
      → Ensures (λ _. Unit) IsRuntime right
      → Ensures (λ _. Unit) IsRuntime (combine host context operator left right)
  unfolding combine
  combine-Runs context operator left right h r =
      let Fine = Ensures {E = Failure} {A = Value host} (λ _. Unit) IsRuntime in
      if_cases Fine (kind_eq operator token_and && not (truthy host left)) (λ _. tt)
        (λ _.
          if_cases Fine (kind_eq operator token_or && truthy host left) (λ _. tt)
            (λ _.
              Ensures-bind (λ _. Unit) (λ _. Unit) IsRuntime right _ r
                (λ v _. apply_operator-Runs context operator left v h)))

  two_texts-Runs :
      (context : Context host) (values : List (Value host))
      → length values ≡ 2
      → Ensures (λ _. Unit) IsRuntime (two_texts host context values)
  unfolding two_texts
  two_texts-Runs context [] h = absurd (omega arith)
  two_texts-Runs context (a ∷ []) h = absurd (omega arith)
  two_texts-Runs context (a ∷ b ∷ rest) h = ground arith

  call_function-Runs :
      (context : Context host) (k : Function) (name : Text) (n : ℕ)
      (arguments : Outcome (List (Value host)))
      → validate_arity k name n ≡ ok tt
      → Ensures (λ values. length values ≡ n) IsRuntime arguments
      → Ensures (λ _. Unit) IsRuntime (call_function host context k name arguments)
  unfolding call_function validate_arity
  call_function-Runs context success name n arguments h r = tt
  call_function-Runs context failure name n arguments h r = tt
  call_function-Runs context cancelled name n arguments h r = tt
  call_function-Runs context always name n arguments h r = tt
  call_function-Runs context unknown name n arguments h r = cc
  call_function-Runs context k name n (err e) h r = r
  call_function-Runs context k name n (ok values) h r =
      ground (arith, two_texts-Runs context values)

  variable-Runs :
      (context : Context host) (name : Text)
      → Ensures (λ _. Unit) IsRuntime (evaluate_variable host context name)
  unfolding evaluate_variable
  variable-Runs context name = ground arith

  mutual
    unfolding evaluate IsWellFormed validate_function

    evaluate-runs :
        (context : Context host) (root : Node host)
        → IsWellFormed host root
        → Ensures (λ _. Unit) IsRuntime (evaluate host context root)
    evaluate-runs context (literal v) w = tt
    evaluate-runs context (variable name) w = variable-Runs context name
    evaluate-runs context (unary operator operand) w =
        Ensures-bind (λ _. Unit) (λ _. Unit) IsRuntime (evaluate host context operand) _
          (evaluate-runs context operand w) (λ _ _. tt)
    evaluate-runs context (binary operator left right) w =
        Ensures-bind (λ _. Unit) (λ _. Unit) IsRuntime (evaluate host context left) _
          (evaluate-runs context left w.1)
          (λ v _.
            combine-Runs context operator v (evaluate host context right) w.0
              (evaluate-runs context right w.2))
    evaluate-runs context (function name arguments) w =
        call_function-Runs context (function_of name) name (count host arguments)
          (evaluate_all host context arguments) w.0 (evaluate_all-runs context arguments w.1)

    evaluate_all-runs :
        (context : Context host) (arguments : Nodes host)
        → AreWellFormed host arguments
        → Ensures
            (λ values. length values ≡ count host arguments)
            IsRuntime
            (evaluate_all host context arguments)
    evaluate_all-runs context no_nodes w = refl
    evaluate_all-runs context (node argument others) w =
        Ensures-bind (λ _. Unit) (λ values. length values ≡ suc (count host others)) IsRuntime
          (evaluate host context argument) _ (evaluate-runs context argument w.0)
          (λ v _.
            Ensures-bind (λ values. length values ≡ count host others)
              (λ values. length values ≡ suc (count host others)) IsRuntime
              (evaluate_all host context others) _ (evaluate_all-runs context others w.1)
              (λ values e. omega arith))

  -- A parsed condition evaluates to a value, or to one of the errors that only a run can show: a
  -- missing context, or a regular expression that is none.
  pub evaluate-IsRuntime :
      (context : Context host) (expression : Text) (root : Node host)
      → parse_condition host expression ≡ ok root
      → Ensures (λ _. Unit) IsRuntime (evaluate host context root)
  evaluate-IsRuntime context expression root e = evaluate-runs context root (
      Ensures-ok (IsWellFormed host) IsReported (parse_condition host expression)
        (parse_condition-IsWellFormed expression) e)

  evaluate_parsed-Runs :
      (context : Context host) (root : Node host)
      → IsWellFormed host root
      → Ensures (λ _. Unit) IsRuntime (evaluate_parsed host context (ok root))
  unfolding evaluate_parsed
  evaluate_parsed-Runs context root w =
      Ensures-bind (λ _. Unit) (λ _. Unit) IsRuntime (evaluate host context root) _
        (evaluate-runs context root w) (λ v _. tt)

  parsed-Agrees :
      (context : Context host) (expression : Text) (parsed : Outcome (Node host))
      → Ensures (IsWellFormed host) IsReported parsed
      → Agrees (contract_of expression parsed) (evaluate_parsed host context parsed)
  unfolding contract_of
  parsed-Agrees context expression (ok root) w = evaluate_parsed-Runs context root w
  parsed-Agrees context expression (err e) w = unfold evaluate_parsed in (w, refl)

  -- `CompileCondition` and `EvaluateCondition` agree, and neither panics nor runs for ever: of an
  -- evaluable contract the evaluation returns a value or an error that only a run can show (a missing
  -- context, a regular expression that is none), and of any other it returns the contract's error.
  pub compile_condition-evaluate_condition :
      (expression : Text) (context : Context host)
      → Agrees (compile_condition host expression) (evaluate_condition host expression context)
  unfolding compile_condition evaluate_condition
  compile_condition-evaluate_condition expression context =
      let normalized = normalize_condition expression in
      let parsed = parse_condition host normalized in
      Agrees-if (text_eq normalized [])
        (record { expression = normalized; evaluable = true; diagnostic = none })
        (contract_of normalized parsed) (ok true) (evaluate_parsed host context parsed) tt
        (parsed-Agrees context normalized (parse_condition host normalized)
          (parse_condition-IsWellFormed normalized))
