-- ===== src/Condition/Laws.antt =====
-- Laws of the operators of internal/executionsemantics/condition.go.
use git_ci.Common.{
  ◌≡◌, refl, inl, inr, Bool, true, false, not, Option, none, some, [], ◌∷◌, Text, to_lower,
  compare_text, Order, less, same, greater, ok, err, ◌>>=◌, arith, Bool-cases,
}
use git_ci.Condition.Tokens.{
  Kind, Outcome, token_not, token_and, token_or, token_equal, token_not_equal, token_less,
  token_less_equal, token_greater, token_greater_equal, token_match, token_not_match,
}
use git_ci.Condition.Values.{
  Host, Value, boolean, truthy, both, compare_numbers, numeric_value, compare_values, sprint,
  compare_texts,
}
use git_ci.Condition.Parser.{Node, unary, binary, is_comparison}
use git_ci.Condition.Evaluate.{Context, evaluate, combine, apply_operator}

-- The comparison that holds exactly where `k` does not.
abbrev pub complement : Kind → Kind
complement token_equal = token_not_equal
complement token_not_equal = token_equal
complement token_less = token_greater_equal
complement token_greater_equal = token_less
complement token_greater = token_less_equal
complement token_less_equal = token_greater
complement token_match = token_not_match
complement token_not_match = token_match
complement k = k

abbrev pub flip : Order → Order
flip less = greater
flip same = same
flip greater = less

module _ (host : Host) where
  abbrev negate : Outcome (Value host) → Outcome (Value host)
  negate result = do value ← result; ok (boolean (not (truthy host value)))

  negate-combine :
      (context : Context host) (l : Value host) (right : Outcome (Value host))
      → negate (combine host context token_and l right)
        ≡ combine host context token_or (boolean (not (truthy host l))) (negate right)
  unfolding combine
  negate-combine context l (err e) = ground arith
  negate-combine context l (ok r) = ground arith

  negate-bind :
      (context : Context host) (left right : Outcome (Value host))
      → negate (left >>= λ l. combine host context token_and l right)
        ≡ (negate left >>= λ l. combine host context token_or l (negate right))
  negate-bind context (ok l) right = negate-combine context l right
  negate-bind context (err e) right = refl

  -- De Morgan: the negation of `left && right` is `!left || !right`, on the values, on the errors, and
  -- on which operand is read.
  pub evaluate-de_morgan :
      (context : Context host) (left right : Node host)
      → evaluate host context (unary token_not (binary token_and left right))
        ≡ evaluate host context (binary token_or (unary token_not left) (unary token_not right))
  unfolding evaluate
  evaluate-de_morgan context left right =
      negate-bind context (evaluate host context left) (evaluate host context right)

  negate-apply :
      (context : Context host) (k : Kind) (l r : Value host)
      → is_comparison k ≡ true
      → negate (apply_operator host context k l r) ≡ apply_operator host context (complement k) l r
  unfolding apply_operator is_comparison truthy
  negate-apply context token_and l r h = ground arith
  negate-apply context k l r h = ground arith

  combine_comparison :
      (context : Context host) (k : Kind) (l : Value host) (right : Outcome (Value host))
      → is_comparison k ≡ true
      → combine host context k l right ≡ (right >>= λ r. apply_operator host context k l r)
  unfolding combine is_comparison
  combine_comparison context token_and l right h = ground arith
  combine_comparison context k l right h = ground arith

  complement-is_comparison :
      (k : Kind) → is_comparison k ≡ true → is_comparison (complement k) ≡ true
  unfolding is_comparison
  complement-is_comparison token_and h = ground arith
  complement-is_comparison k h = ground arith

  compared :
      (context : Context host) (k : Kind) (left right : Outcome (Value host))
      → is_comparison k ≡ true
      → negate (left >>= λ l. combine host context k l right)
        ≡ (left >>= λ l. combine host context (complement k) l right)
  compared context k (err e) right h = refl
  compared context k (ok l) (err e) h =
      rw (combine_comparison context k l (err e) h)
        (rw (combine_comparison context (complement k) l (err e) (complement-is_comparison k h)))
  compared context k (ok l) (ok r) h = rw (combine_comparison context k l (ok r) h) (
      rw (combine_comparison context (complement k) l (ok r) (complement-is_comparison k h))
        (negate-apply context k l r h))

  -- The negation of a comparison is the complementary comparison: `!(a < b)` is `a >= b`, `!(a == b)` is
  -- `a != b` and `!(a =~ b)` is `a !~ b`, with the same errors.
  pub evaluate-complement :
      (context : Context host) (k : Kind) (left right : Node host)
      → is_comparison k ≡ true
      → evaluate host context (unary token_not (binary k left right))
        ≡ evaluate host context (binary (complement k) left right)
  unfolding evaluate
  evaluate-complement context k left right h =
      compared context k (evaluate host context left) (evaluate host context right) h

compare_text-flip : (s t : Text) → compare_text t s ≡ flip (compare_text s t)
unfolding compare_text
compare_text-flip [] [] = refl
compare_text-flip [] (d ∷ t) = refl
compare_text-flip (c ∷ s) [] = refl
compare_text-flip (c ∷ s) (d ∷ t) = ground (arith, compare_text-flip s t)

compare_texts-flip : (b : Bool) (s t : Text) → compare_texts b t s ≡ flip (compare_texts b s t)
compare_texts-flip true s t = compare_text-flip (to_lower s) (to_lower t)
compare_texts-flip false s t = compare_text-flip s t

module _ (host : Host) where
  open host use {Float, float_lt}

  abbrev numbers_or : Order → Option (Float × Float) → Order
  numbers_or t pair = elim pair [ some (x, y) ↦ compare_numbers host x y | none ↦ t ]

  swapped :
      (m n : Option Float) (t u : Order)
      → u ≡ flip t
      → ((x y : Float) → float_lt x y ≡ true → float_lt y x ≡ false)
      → numbers_or u (both host n m) ≡ flip (numbers_or t (both host m n))
  swapped none none t u e asym = e
  swapped none (some y) t u e asym = e
  swapped (some x) none t u e asym = e
  swapped (some x) (some y) t u e asym = elim (Bool-cases (float_lt x y)) [
    | inl h ↦ rw (h, asym x y h)
    | inr h ↦ elim (Bool-cases (float_lt y x)) [ inl k ↦ rw (h, k) | inr k ↦ rw (h, k) ]
  ]

  -- Swapping the operands of a comparison turns less into greater, where the order of the numbers is
  -- asymmetric.
  pub compare_values-flip :
      (left right : Value host) (case_insensitive : Bool)
      → ((x y : Float) → float_lt x y ≡ true → float_lt y x ≡ false)
      → compare_values host right left case_insensitive
        ≡ flip (compare_values host left right case_insensitive)
  unfolding compare_values
  compare_values-flip left right case_insensitive asym =
      swapped (numeric_value host left) (numeric_value host right) _ _
        (compare_texts-flip case_insensitive (sprint host left) (sprint host right)) asym
