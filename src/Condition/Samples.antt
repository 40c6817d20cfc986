-- ===== src/Condition/Samples.antt =====
-- Small conditions, what the program makes of them, and the theorems at concrete inputs.
use git_ci.Common.{
  ℕ, ◌≡◌, refl, ◌↔◌, true, false, some, [], ◌∷◌, Text, codes, ltb, contains_text, compare_text, ok,
  err, Ensures, ℤ, show_int, arith,
}
use git_ci.Condition.Tokens.{
  Tokens, token_eof, token_identifier, token_or, token_and, token_not, token_less, lexical,
  unterminated_string, expected_value, unavailable_context,
}
use git_ci.Condition.Lexer.{token, scan}
use git_ci.Condition.Values.{text, int, int64, truthy, equal_values, compare_values}
use git_ci.Condition.Parser.{Node, variable, binary, unary, is_comparison, parse_tokens}
use git_ci.Condition.Evaluate.{Context, evaluate, compile_condition, evaluate_condition}
use git_ci.Condition.ParserSafety.{IsTerminated}
use git_ci.Condition.LexerReads.{IsPositioned}
use git_ci.Condition.LexerSafety.{scan-IsTerminated}
use git_ci.Condition.EvaluateSafety.{Agrees, compile_condition-evaluate_condition}
use git_ci.Condition.Laws.{
  complement, flip, evaluate-de_morgan, evaluate-complement, compare_values-flip,
}
use git_ci.Condition.SampleHost.{sample, whole, digits_value}
use git_ci.Condition.Grammar.Decides.{IsSentence, parse_tokens_iff}

abbrev context : Context sample
context = record {
  values = (codes "branch", text (codes "main")) ∷ (codes "Count", int (ℤ.pos 3)) ∷ [];
  success = true;
  failure = false;
  cancelled = false;
  case_insensitive = true;
}

program : Unit {0}
unfolding evaluate_condition compile_condition scan parse_tokens contains_text compare_text show_int
    digits_value whole
program = tt

runs_true :
    evaluate_condition sample (codes "${{ branch == 'MAIN' && !(count < 3) }}") context ≡ ok true
unfolding program
runs_true = refl

short_circuits : evaluate_condition sample (codes "success() || missing") context ≡ ok true
unfolding program
short_circuits = refl

missing_context :
    evaluate_condition sample (codes "failure() || missing") context
    ≡ err (unavailable_context (codes "missing"))
unfolding program
missing_context = refl

unterminated : scan (codes "a == 'b") ≡ err (lexical unterminated_string 8)
unfolding program
unterminated = refl

regex_matches :
    evaluate_condition sample (codes "branch =~ /ai/ && startsWith(branch, 'ma')") context ≡ ok true
unfolding program
regex_matches = refl

not_evaluable : (compile_condition sample (codes "branch ==")).diagnostic ≡ some (expected_value [])
unfolding program
not_evaluable = refl

-- A zero of Go's type int64 is truthy, though it equals the int that is not.
int64_zero :
    (truthy sample (int64 (ℤ.pos 0)) ≡ true)
    × (truthy sample (int (ℤ.pos 0)) ≡ false)
    × (equal_values sample (int64 (ℤ.pos 0)) (int (ℤ.pos 0)) false ≡ true)
unfolding truthy equal_values
int64_zero = (refl, refl, refl)

-- a || b && !c
abbrev tokens : Tokens
tokens =
    token token_identifier (codes "a")
    ∷ token token_or (codes "||")
    ∷ token token_identifier (codes "b")
    ∷ token token_and (codes "&&")
    ∷ token token_not (codes "!")
    ∷ token token_identifier (codes "c")
    ∷ token token_eof []
    ∷ []

abbrev named : Text → Node sample
named word = variable word

abbrev tree : Node sample
tree =
    binary token_or (named (codes "a"))
      (binary token_and (named (codes "b")) (unary token_not (named (codes "c"))))

tokens-tree : parse_tokens sample tokens ≡ ok tree
unfolding program
tokens-tree = refl

parse_tokens_iff_example : (parse_tokens sample tokens ≡ ok tree) ↔ IsSentence sample tree tokens
parse_tokens_iff_example = parse_tokens_iff sample tree tokens

scan-IsTerminated_example : Ensures IsTerminated (IsPositioned 8) (scan (codes "a == 'b'"))
scan-IsTerminated_example = scan-IsTerminated (codes "a == 'b'")

compile_condition-evaluate_condition_example :
    Agrees
      (compile_condition sample (codes "count > 2"))
      (evaluate_condition sample (codes "count > 2") context)
compile_condition-evaluate_condition_example =
    compile_condition-evaluate_condition sample (codes "count > 2") context

evaluate-de_morgan_example :
    evaluate sample context
      (unary token_not (binary token_and (named (codes "branch")) (named (codes "x"))))
    ≡ evaluate sample context (
        binary token_or
          (unary token_not (named (codes "branch")))
          (unary token_not (named (codes "x"))))
evaluate-de_morgan_example =
    evaluate-de_morgan sample context (named (codes "branch")) (named (codes "x"))

evaluate-complement_example :
    evaluate sample context
      (unary token_not (binary token_less (named (codes "branch")) (named (codes "count"))))
    ≡ evaluate sample context
        (binary (complement token_less) (named (codes "branch")) (named (codes "count")))
unfolding is_comparison
evaluate-complement_example =
    evaluate-complement sample context token_less (named (codes "branch")) (named (codes "count"))
      refl

sample_asymmetric : (x y : ℕ) → ltb x y ≡ true → ltb y x ≡ false
sample_asymmetric x y h = ground arith

compare_values-flip_example :
    compare_values sample (text (codes "b")) (text (codes "a")) false
    ≡ flip (compare_values sample (text (codes "a")) (text (codes "b")) false)
compare_values-flip_example =
    compare_values-flip sample (text (codes "a")) (text (codes "b")) false sample_asymmetric
