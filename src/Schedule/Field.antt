-- ===== src/Schedule/Field.antt =====
-- The fields of a cron expression: `parseField` and `parseNumber` of internal/scheduler/cron.go.
use git_ci.Common.{
  Bool, true, false, ◌&&◌, ◌||◌, Option, none, some, List, [], ◌∷◌, ◌++◌, map, ℕ, zero, suc, ◌+◌,
  ◌%◌, Text, text_eq, any, Result, ok, err, ◌>>=◌, leb, ltb, ◌==◌, if◌then◌else◌, ℤ,
}
use git_ci.Schedule.Words.{split, cut, atoi}

pub data FieldError : Type 0 where
  empty_field no_values descending_range : FieldError
  invalid_step invalid_number unexpected_step : Text → FieldError

-- `parseNumber`
abbrev pub within : Text → ℕ → ℕ → Option ℤ → Result FieldError ℕ
within raw minimum maximum none = err (invalid_number raw)
within raw minimum maximum (some (ℤ.negsuc n)) = err (invalid_number raw)
within raw minimum maximum (some (ℤ.pos n)) =
    if leb minimum n && leb n maximum then ok n else err (invalid_number raw)

unfoldable pub parse_number : Text → ℕ → ℕ → Result FieldError ℕ
unfolding atoi
parse_number raw minimum maximum = within raw minimum maximum (atoi raw)

-- What an item of a field stands for: the values from `first` to `last` by steps of `step`.
pub record Span : Type 0 where
  pub first : ℕ
  pub last : ℕ
  pub step : ℕ

-- The step behind a slash, which is positive.
abbrev pub positive_step : Text → Option ℤ → Result FieldError ℕ
positive_step raw (some (ℤ.pos (suc n))) = ok (suc n)
positive_step raw _ = err (invalid_step raw)

unfoldable pub parse_step : Bool → Text → Result FieldError ℕ
unfolding atoi
parse_step false raw = ok 1
parse_step true raw = positive_step raw (atoi raw)

abbrev pub has_char : ℕ → Text → Bool
has_char c s = any (λ d. d == c) s

abbrev pub ordered_span : ℕ → ℕ → ℕ → Result FieldError Span
ordered_span step first last =
    if ltb last first
    then err descending_range
    else ok (record { first = first; last = last; step = step })

-- The `switch` on what stands before the slash.
unfoldable pub base_span :
    ℕ → ℕ → (item base : Text) → (has_step : Bool) → (step : ℕ) → Result FieldError Span
unfolding cut parse_number
base_span minimum maximum item base has_step step =
    if text_eq base (b'*' ∷ [])
    then ok (record { first = minimum; last = maximum; step = step })
    else if has_char b'-' base
    then (parse_number (cut base b'-').0 minimum maximum >>= λ first.
        parse_number (cut base b'-').1 minimum maximum >>= λ last. ordered_span step first last)
    else (parse_number base minimum maximum >>= λ value.
        if has_step
        then err (unexpected_step item)
        else ok (record { first = value; last = value; step = step }))

-- The body of the loop of `parseField` before its inner loop.
unfoldable pub parse_span : ℕ → ℕ → Text → Result FieldError Span
unfolding cut parse_step base_span
parse_span minimum maximum item =
    let parts = cut item b'/' in
    parse_step parts.2 parts.1 >>= λ step. base_span minimum maximum item parts.0 parts.2 step

-- Signed integers of 64 bits by their two's complement: a number from 2 ^ 63 on is negative.
abbrev pub sign_bit : ℕ
sign_bit = 9223372036854775808

abbrev pub wrap : ℕ → ℕ
wrap n = n % 18446744073709551616

-- `value <= end` where the end is not negative.
abbrev pub at_most : ℕ → ℕ → Bool
at_most value last = leb sign_bit value || leb value last

-- The inner loop, from `value` on. Each round costs a unit of fuel.
unfoldable pub span_loop : ℕ → ℕ → Span → List ℕ
span_loop zero value span = []
span_loop (suc f) value span =
    let rest = span_loop f (wrap (value + span.step)) span in
    if at_most value span.last then value ∷ rest else []

-- The values of an item. Where the counter does not overflow, a round raises it by one at least. Where
-- it does, a step is 2 ^ 63 - k with k at least one, and two rounds lower it by 2 * k until it is
-- negative, which takes no more rounds than the last value and four.
unfoldable pub span_values : Span → List ℕ
unfolding span_loop
span_values span = span_loop (span.last + 5) span.first span

abbrev pub sunday : Bool → ℕ → ℕ
sunday normalize value = if normalize && (value == 7) then 0 else value

-- The loop over the items.
unfoldable pub parse_items : ℕ → ℕ → Bool → List Text → Result FieldError (List ℕ)
unfolding parse_span span_values
parse_items minimum maximum normalize [] = ok []
parse_items minimum maximum normalize (item ∷ items) = do
  span ← parse_span minimum maximum item
  values ← parse_items minimum maximum normalize items
  ok (map (sunday normalize) (span_values span) ++ values)

abbrev pub is_none_left : List ℕ → Bool
is_none_left [] = true
is_none_left (x ∷ xs) = false

-- `parseField`: the values, and whether the field is a wildcard.
unfoldable pub parse_field : Text → ℕ → ℕ → Bool → Result FieldError (List ℕ × Bool)
unfolding parse_items split
parse_field raw minimum maximum normalize =
    if text_eq raw []
    then err empty_field
    else (parse_items minimum maximum normalize (split raw b',') >>= λ values.
        if is_none_left values then err no_values else ok (values, text_eq raw (b'*' ∷ [])))

-- `contains`
unfoldable pub contains : List ℕ → ℕ → Bool
contains values value = any (λ v. v == value) values
