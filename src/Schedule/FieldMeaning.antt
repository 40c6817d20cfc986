-- ===== src/Schedule/FieldMeaning.antt =====
-- The values of a cron field of internal/scheduler/cron.go by the text of its items.
use git_ci.Common.{
  Bool, true, false, not, ◌&&◌, ◌||◌, ◌⊎◌, ◌↔◌, inl, inr, List, [], ◌∷◌, ℕ, Text, text_eq, any, all,
  Result, ok, err, ◌==◌, if◌then◌else◌, Bool-cases, Ensures, Ensures-mono, ◌≡◌, refl, sym, subst,
  ◌∙◌, arith,
}
use git_ci.Schedule.Words.{split}
use git_ci.Schedule.Field.{FieldError, Span, parse_span, is_none_left, parse_field, contains}
use git_ci.Schedule.SpanLaws.{in_span, IsAny}
use git_ci.Schedule.Reading.{Reads, parse_span-Reads, Reads-parse_span}
use git_ci.Schedule.FieldLaws.{item_has, item_fits, is_within, HasItems, parse_field-HasItems}

-- Whether a value of the field is one of a span: where the field has weekdays, a 7 is a 0.
abbrev pub takes : Bool → Span → ℕ → Bool
takes normalize span value =
    if normalize
    then (if value == 7 then false else in_span span value || (value == 0) && in_span span 7)
    else in_span span value

-- An item of a list has a property.
abbrev pub Some : (Text → Type 0) → List Text → Type 0
Some P [] = ⊥
Some P (item ∷ items) = P item ⊎ Some P items

module _ (minimum maximum : ℕ) (normalize : Bool) (value : ℕ) where
  -- The item says a span to which the value belongs.
  abbrev pub Says : Text → Type 0
  Says item = (span : Span) × Reads minimum maximum item span × (takes normalize span value ≡ true)

  item_has→Says : (item : Text) → item_has minimum maximum normalize value item ≡ true → Says item
  item_has→Says item h = go (parse_span minimum maximum item) refl
    where
      go : (r : Result FieldError Span) → parse_span minimum maximum item ≡ r → Says item
      go (ok span) e = (
        span,
        subst (Ensures (Reads minimum maximum item) IsAny) e
            (parse_span-Reads minimum maximum item),
        ground (arith, h, e),
      )
      go (err f) e = absurd (ground (arith, h, e))

  Says→item_has : (item : Text) → Says item → item_has minimum maximum normalize value item ≡ true
  Says→item_has item (span, r, t) = rw (Reads-parse_span minimum maximum item span r) t

  any→Some :
      (items : List Text)
      → any (item_has minimum maximum normalize value) items ≡ true
      → Some Says items
  any→Some [] h = cc
  any→Some (item ∷ items) h = elim (Bool-cases (item_has minimum maximum normalize value item)) [
    | inl e ↦ inl (item_has→Says item e)
    | inr e ↦ inr (any→Some items (ground arith))
  ]

  Some→any :
      (items : List Text)
      → Some Says items
      → any (item_has minimum maximum normalize value) items ≡ true
  Some→any [] h = elim h [ ]
  Some→any (item ∷ items) (inl s) = ground (arith, Says→item_has item s)
  Some→any (item ∷ items) (inr s) = ground (arith, Some→any items s)

-- What a field holds, as it concerns one value.
abbrev pub IsField : Text → ℕ → ℕ → Bool → ℕ → List ℕ × Bool → Type 0
IsField raw minimum maximum normalize value (values, wildcard) =
    ((contains values value ≡ true) ↔ Some (Says minimum maximum normalize value) (split raw b','))
    × (not (contains values value) || is_within minimum maximum normalize value ≡ true)
    × (is_none_left values ≡ false)
    × (wildcard ≡ text_eq raw (b'*' ∷ []))

-- A field that is parsed holds exactly the values that an item between two commas says: those from the
-- first to the last of its range that are a multiple of its step from the first, where the star is the
-- range of all values, a range is written with a dash, a number alone is a range of one value and has
-- no step, a step stands behind a slash and is one where there is none, and a weekday 7 becomes a 0.
-- It holds a value at least, no value outside the limits, and is a wildcard exactly when it is a star.
-- This is where no item has a step so large that the counter of 64 bits overflows.
pub parse_field-IsField :
    (raw : Text) (minimum maximum : ℕ) (normalize : Bool) (value : ℕ)
    → all (item_fits minimum maximum) (split raw b',') ≡ true
    → Ensures
        (IsField raw minimum maximum normalize value)
        IsAny
        (parse_field raw minimum maximum normalize)
parse_field-IsField raw minimum maximum normalize value room =
    Ensures-mono (HasItems raw minimum maximum normalize value)
      (IsField raw minimum maximum normalize value) IsAny
      (parse_field raw minimum maximum normalize)
      (λ (values, wildcard) (same, within, filled, star). (
        (
          λ h. any→Some minimum maximum normalize value (split raw b',') (sym same ∙ h),
          λ s. same ∙ Some→any minimum maximum normalize value (split raw b',') s,
        ),
        within,
        filled,
        star,
      ))
      (parse_field-HasItems raw minimum maximum normalize value room)
