-- ===== src/Condition/Tokens.antt =====
-- Tokens and errors of internal/executionsemantics/condition.go.
use git_ci.Common.{zero, suc, ◌≡◌, refl, true, [], ◌∷◌, ==_iff, ℕ, Bool, List, Text, Result, ◌==◌}

pub data Kind : Type 0 where
  token_eof token_identifier token_string token_number token_true token_false token_null : Kind
  token_left_paren token_right_paren token_comma token_not token_and token_or : Kind
  token_equal token_not_equal token_less token_less_equal token_greater token_greater_equal : Kind
  token_regex token_match token_not_match : Kind

pub record Token : Type 0 where
  pub kind : Kind
  pub literal : Text

abbrev pub Tokens : Type 0
Tokens = List Token

-- The messages of the lexer, which come with the position of the next character.
pub data LexMessage : Type 0 where
  expected_and expected_or expected_equal_or_match : LexMessage
  unsupported_escape unterminated_string unterminated_regex : LexMessage
  unsupported_character : ℕ → LexMessage

-- The errors that Go returns, then what has no error in Go: an index out of range, which panics,
-- and a model that ran out of fuel.
pub data Failure : Type 0 where
  lexical : LexMessage → (position : ℕ) → Failure
  unexpected_token expected_value invalid_number : Text → Failure
  expected_paren expected_paren_after_arguments : Failure
  expects_no_arguments expects_two_arguments unsupported_function : Text → Failure
  unavailable_context : Text → Failure
  unsupported_operator : Failure
  regex_too_long regex_not_enclosed regex_unterminated : Failure
  regex_flags : Text → Failure
  regex_single_character regex_invalid regex_operand : Failure
  panic out_of_fuel : Failure

abbrev pub Outcome : Type 0 → Type 0
Outcome = Result Failure

-- The failure is an error that the Go code returns.
abbrev pub IsReported : Failure → Type 0
IsReported panic = ⊥
IsReported out_of_fuel = ⊥
IsReported _ = Unit

-- The constants of `conditionTokenKind`, in the order of their `iota`.
abbrev pub kind_index : Kind → ℕ
kind_index token_eof = 0
kind_index token_identifier = 1
kind_index token_string = 2
kind_index token_number = 3
kind_index token_true = 4
kind_index token_false = 5
kind_index token_null = 6
kind_index token_left_paren = 7
kind_index token_right_paren = 8
kind_index token_comma = 9
kind_index token_not = 10
kind_index token_and = 11
kind_index token_or = 12
kind_index token_equal = 13
kind_index token_not_equal = 14
kind_index token_less = 15
kind_index token_less_equal = 16
kind_index token_greater = 17
kind_index token_greater_equal = 18
kind_index token_regex = 19
kind_index token_match = 20
kind_index token_not_match = 21

abbrev pub kind_eq : Kind → Kind → Bool
kind_eq a b = kind_index a == kind_index b

kinds : List Kind
kinds =
    token_eof ∷ token_identifier ∷ token_string ∷ token_number ∷ token_true ∷ token_false
    ∷ token_null ∷ token_left_paren ∷ token_right_paren ∷ token_comma ∷ token_not ∷ token_and
    ∷ token_or ∷ token_equal ∷ token_not_equal ∷ token_less ∷ token_less_equal ∷ token_greater
    ∷ token_greater_equal ∷ token_regex ∷ token_match ∷ token_not_match ∷ []

pick : List Kind → ℕ → Kind
pick [] n = token_eof
pick (k ∷ ks) zero = k
pick (k ∷ ks) (suc n) = pick ks n

pick-kind_index : (k : Kind) → pick kinds (kind_index k) ≡ k
unfolding pick kinds
pick-kind_index token_eof = refl
pick-kind_index _ = refl

pub kind_eq→eq : (a b : Kind) → kind_eq a b ≡ true → a ≡ b
kind_eq→eq a b h =
    cc (pick-kind_index a, pick-kind_index b, (==_iff (kind_index a) (kind_index b)).0 h)

pub kind_eq_refl : (k : Kind) → kind_eq k k ≡ true
kind_eq_refl k = (==_iff (kind_index k) (kind_index k)).1 refl
