-- ===== src/Schedule/FieldLaws.antt =====
-- Which values a cron field of internal/scheduler/cron.go stands for.
use git_ci.Common.{
  Bool, true, false, not, ◌&&◌, ◌||◌, List, [], ◌∷◌, ◌++◌, map, ℕ, ◌+◌, ◌≤◌, ◌<◌, Text, text_eq,
  any, all, Result, ok, err, ◌>>=◌, leb, ltb, ◌==◌, if◌then◌else◌, ◌≡◌, refl, ap, ◌∙◌, arith,
  Ensures, Ensures-bind, if_cases,
}
use git_ci.Schedule.Words.{split}
use git_ci.Schedule.Field.{
  FieldError, Span, parse_span, span_values, sign_bit, sunday, parse_items, is_none_left,
  parse_field, contains,
}
use git_ci.Schedule.SpanLaws.{in_span, span_loop-contains, IsAny, IsBounded, parse_span-IsBounded}

-- What an item of a field says of a value; an item that is no span says nothing.
abbrev pub spans : Result FieldError Span → ℕ → Bool
spans (ok span) value = in_span span value
spans (err e) value = false

-- What an item of a field says of a value of the field: where the field has weekdays, a 7 is a 0.
abbrev pub item_has : ℕ → ℕ → Bool → ℕ → Text → Bool
item_has minimum maximum normalize value item =
    let span = parse_span minimum maximum item in
    if normalize
    then (if value == 7 then false else spans span value || (value == 0) && spans span 7)
    else spans span value

span_values-contains :
    (span : Span) (value : ℕ)
    → 1 ≤ span.step
    → span.first < sign_bit
    → span.last + span.step < sign_bit
    → contains (span_values span) value ≡ in_span span value
unfolding span_values
span_values-contains span value positive reach fits =
    span_loop-contains span (span.last + 5) span.first value positive fits reach (omega arith)

contains-sunday :
    (normalize : Bool) (values : List ℕ) (value : ℕ)
    → contains (map (sunday normalize) values) value ≡ (
        if normalize
        then (if value == 7
            then false
            else contains values value || (value == 0) && contains values 7)
        else contains values value)
unfolding contains
contains-sunday true [] value = ground arith
contains-sunday false [] value = ground arith
contains-sunday true (x ∷ xs) value = ground (arith, contains-sunday true xs value)
contains-sunday false (x ∷ xs) value = ground (arith, contains-sunday false xs value)

contains-append :
    (xs ys : List ℕ) (value : ℕ)
    → contains (xs ++ ys) value ≡ (contains xs value || contains ys value)
unfolding contains
contains-append [] ys value = refl
contains-append (x ∷ xs) ys value = ground (arith, contains-append xs ys value)

-- The values of an item, as the field takes them over.
item_values-contains :
    (normalize : Bool) (span : Span) (value : ℕ)
    → 1 ≤ span.step
    → span.first < sign_bit
    → span.last + span.step < sign_bit
    → contains (map (sunday normalize) (span_values span)) value ≡ (
        if normalize
        then (if value == 7 then false else in_span span value || (value == 0) && in_span span 7)
        else in_span span value)
item_values-contains normalize span value positive reach fits = ground (
  arith,
  contains-sunday normalize (span_values span) value,
  span_values-contains span value positive reach fits,
  span_values-contains span 7 positive,
)

-- The counter of an item that is parsed does not overflow.
abbrev pub fits : Result FieldError Span → Bool
fits (ok span) = ltb span.first sign_bit && ltb (span.last + span.step) sign_bit
fits (err e) = true

abbrev pub item_fits : ℕ → ℕ → Text → Bool
item_fits minimum maximum item = fits (parse_span minimum maximum item)

add_item :
    (minimum maximum : ℕ) (normalize : Bool) (value : ℕ) (item : Text) (items : List Text)
    (result : Result FieldError Span)
    → Ensures (IsBounded minimum maximum) IsAny result
    → parse_span minimum maximum item ≡ result
    → fits result ≡ true
    → (others : Result FieldError (List ℕ))
    → Ensures
        (λ values. contains values value ≡ any (item_has minimum maximum normalize value) items)
        IsAny
        others
    → Ensures
        (λ values.
          contains values value ≡ any (item_has minimum maximum normalize value) (item ∷ items))
        IsAny
        (result >>= λ span.
          others >>= λ values. ok (map (sunday normalize) (span_values span) ++ values))
add_item minimum maximum normalize value item items (err e) bounded q room others ih = tt
add_item minimum maximum normalize value item items (ok span) bounded q room (err e) ih = tt
add_item minimum maximum normalize value item items (ok span) bounded q room (ok values) ih = rw q (
    contains-append (map (sunday normalize) (span_values span)) values value
    ∙ ap (λ b. b || contains values value)
        (item_values-contains normalize span value bounded.2 (ground (arith, room))
          (ground (arith, room)))
    ∙ ap
        (λ b.
          (if normalize
            then (if value == 7
                then false
                else in_span span value || (value == 0) && in_span span 7)
            else in_span span value)
          || b)
        ih)

parse_items-contains :
    (minimum maximum : ℕ) (normalize : Bool) (value : ℕ) (items : List Text)
    → all (item_fits minimum maximum) items ≡ true
    → Ensures
        (λ values. contains values value ≡ any (item_has minimum maximum normalize value) items)
        IsAny
        (parse_items minimum maximum normalize items)
unfolding parse_items
parse_items-contains minimum maximum normalize value [] room = unfold contains in refl
parse_items-contains minimum maximum normalize value (item ∷ items) room =
    add_item minimum maximum normalize value item items (parse_span minimum maximum item)
      (parse_span-IsBounded minimum maximum item) refl (ground (arith, room))
      (parse_items minimum maximum normalize items)
      (parse_items-contains minimum maximum normalize value items (ground (arith, room)))

-- A value that a field holds lies within its limits, where a 7 may have become a 0.
abbrev pub is_within : ℕ → ℕ → Bool → ℕ → Bool
is_within minimum maximum normalize value =
    (leb minimum value && leb value maximum) || normalize && (value == 0)

spans-within :
    (minimum maximum : ℕ) (item : Text) (value : ℕ)
    → not (spans (parse_span minimum maximum item) value)
        || (leb minimum value && leb value maximum)
      ≡ true
spans-within minimum maximum item value =
    go (parse_span minimum maximum item) (parse_span-IsBounded minimum maximum item)
  where
    go :
        (result : Result FieldError Span)
        → Ensures (IsBounded minimum maximum) IsAny result
        → not (spans result value) || (leb minimum value && leb value maximum) ≡ true
    go (err e) bounded = refl
    go (ok span) bounded = ground (arith, bounded.0, bounded.1)

item_has-within :
    (minimum maximum : ℕ) (normalize : Bool) (value : ℕ) (item : Text)
    → not (item_has minimum maximum normalize value item)
        || is_within minimum maximum normalize value
      ≡ true
item_has-within minimum maximum normalize value item =
    ground (arith, spans-within minimum maximum item value)

items-within :
    (minimum maximum : ℕ) (normalize : Bool) (value : ℕ) (items : List Text)
    → not (any (item_has minimum maximum normalize value) items)
        || is_within minimum maximum normalize value
      ≡ true
items-within minimum maximum normalize value [] = refl
items-within minimum maximum normalize value (item ∷ items) =
    join (item_has minimum maximum normalize value item)
      (any (item_has minimum maximum normalize value) items)
      (is_within minimum maximum normalize value)
      (item_has-within minimum maximum normalize value item)
      (items-within minimum maximum normalize value items)
  where
    join : (a b c : Bool) → not a || c ≡ true → not b || c ≡ true → not (a || b) || c ≡ true
    join a b c p q = ground arith

-- What a field holds, as it concerns one value, by the spans of its items.
abbrev pub HasItems : Text → ℕ → ℕ → Bool → ℕ → List ℕ × Bool → Type 0
HasItems raw minimum maximum normalize value (values, wildcard) =
    (contains values value ≡ any (item_has minimum maximum normalize value) (split raw b','))
    × (not (contains values value) || is_within minimum maximum normalize value ≡ true)
    × (is_none_left values ≡ false)
    × (wildcard ≡ text_eq raw (b'*' ∷ []))

pub parse_field-HasItems :
    (raw : Text) (minimum maximum : ℕ) (normalize : Bool) (value : ℕ)
    → all (item_fits minimum maximum) (split raw b',') ≡ true
    → Ensures
        (HasItems raw minimum maximum normalize value)
        IsAny
        (parse_field raw minimum maximum normalize)
unfolding parse_field
parse_field-HasItems raw minimum maximum normalize value room =
    let P = Ensures (HasItems raw minimum maximum normalize value) IsAny in
    if_cases P (text_eq raw []) (λ h. tt)
      (λ h.
        Ensures-bind
          (λ values.
            contains values value ≡ any (item_has minimum maximum normalize value) (split raw b','))
          (HasItems raw minimum maximum normalize value) IsAny
          (parse_items minimum maximum normalize (split raw b',')) _
          (parse_items-contains minimum maximum normalize value (split raw b',') room)
          (λ values e.
            if_cases P (is_none_left values) (λ h. tt)
              (λ h. (
                e,
                ap (λ b. not b || is_within minimum maximum normalize value) e
                    ∙ items-within minimum maximum normalize value (split raw b','),
                h,
                refl,
              ))))
