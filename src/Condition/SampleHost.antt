-- ===== src/Condition/SampleHost.antt =====
-- Numbers and patterns for the tests, in place of the packages that the condition language calls.
use git_ci.Common.{
  ℕ, ◌+◌, ◌-◌, ◌*◌, Option, none, some, [], ◌∷◌, Text, ltb, ◌==◌, if◌then◌else◌, is_digit,
  contains_text, ℤ, show_int,
}
use git_ci.Condition.Values.{Host}

unfoldable pub digits_value : ℕ → Text → Option ℕ
digits_value n [] = some n
digits_value n (c ∷ s) =
    let rest = digits_value (10 * n + (c - b'0')) s in if is_digit c then rest else none

unfoldable pub whole : Text → Option ℤ
unfolding digits_value
whole [] = none
whole (c ∷ s) = elim (digits_value 0 (c ∷ s)) [ some n ↦ some (ℤ.pos n) | none ↦ none ]

abbrev pub value_of : ℤ → ℕ
value_of (ℤ.pos n) = n
value_of (ℤ.negsuc n) = 0

-- Whole numbers for floats, and texts that are searched for as regular expressions.
abbrev pub sample : Host
sample = record {
  Float = ℕ;
  parse_float = λ s. elim (whole s) [ some n ↦ some (value_of n) | none ↦ none ];
  of_int = value_of;
  float_eq = λ x y. x == y;
  float_lt = ltb;
  show_float = λ x. show_int (ℤ.pos x);
  Float32 = ℕ;
  widen = λ x. x;
  show_float32 = λ x. show_int (ℤ.pos x);
  Regex = Text;
  compile = λ s. some s;
  match_string = λ r s. contains_text s r;
  show_regex = λ r. r;
}
