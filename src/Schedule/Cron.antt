-- ===== src/Schedule/Cron.antt =====
-- `Parse`, `Expression.matches` and `Expression.Next` of internal/scheduler/cron.go. Times are in
-- minutes; the calendar of the package `time` is a parameter.
use git_ci.Common.{
  Bool, true, false, not, ◌&&◌, ◌||◌, List, [], ◌∷◌, ℕ, zero, suc, ◌+◌, ◌-◌, ◌/◌, Text, Result, ok,
  err, ◌>>=◌, leb, if◌then◌else◌,
}
use git_ci.Schedule.Words.{fields}
use git_ci.Schedule.Field.{FieldError, parse_field, contains}

pub record Expression : Type 0 where
  pub minutes : List ℕ
  pub hours : List ℕ
  pub days : List ℕ
  pub months : List ℕ
  pub weekdays : List ℕ
  pub day_wildcard : Bool
  pub weekday_wildcard : Bool

pub data ScheduleError : Type 0 where
  wrong_field_count no_occurrence : ScheduleError
  invalid_minute invalid_hour invalid_day invalid_month invalid_weekday : FieldError → ScheduleError

-- An error of a field, with the name of the field.
abbrev pub named {ℓ} :
    {A : Type ℓ} → (FieldError → ScheduleError) → Result FieldError A → Result ScheduleError A
named wrap (ok a) = ok a
named wrap (err e) = err (wrap e)

-- `Parse`
unfoldable pub parse_parts : List Text → Result ScheduleError Expression
unfolding parse_field
parse_parts (minute ∷ hour ∷ day ∷ month ∷ weekday ∷ []) = do
  minutes ← named invalid_minute (parse_field minute 0 59 false)
  hours ← named invalid_hour (parse_field hour 0 23 false)
  days ← named invalid_day (parse_field day 1 31 false)
  months ← named invalid_month (parse_field month 1 12 false)
  weekdays ← named invalid_weekday (parse_field weekday 0 7 true)
  ok (record {
    minutes = minutes.0;
    hours = hours.0;
    days = days.0;
    months = months.0;
    weekdays = weekdays.0;
    day_wildcard = days.1;
    weekday_wildcard = weekdays.1;
  })
parse_parts _ = err wrong_field_count

unfoldable pub parse : Text → Result ScheduleError Expression
unfolding fields parse_parts
parse expression = parse_parts (fields expression)

-- What the calendar says of a minute.
pub record Moment : Type 0 where
  pub minute : ℕ
  pub hour : ℕ
  pub day : ℕ
  pub month : ℕ
  pub weekday : ℕ

-- `Expression.matches`
unfoldable pub matches : Expression → Moment → Bool
unfolding contains
matches e value =
    let day_matches = contains e.days value.day in
    let weekday_matches = contains e.weekdays value.weekday in
    if not (contains e.minutes value.minute)
      || not (contains e.hours value.hour)
      || not (contains e.months value.month)
    then false
    else if e.day_wildcard && e.weekday_wildcard
    then true
    else if e.day_wildcard
    then weekday_matches
    else if e.weekday_wildcard
    then day_matches
    else day_matches || weekday_matches

-- The calendar of a location, and `AddDate(5, 0, 0)`.
module _ (calendar : ℕ → Moment) (add_five_years : ℕ → ℕ) where
  -- The loop of `Expression.Next`. Each round costs a unit of fuel.
  unfoldable pub next_loop : ℕ → Expression → (candidate limit : ℕ) → Result ScheduleError ℕ
  unfolding matches
  next_loop zero e candidate limit = err no_occurrence
  next_loop (suc f) e candidate limit =
      let later = next_loop f e (candidate + 1) limit in
      if leb candidate limit
      then (if matches e (calendar candidate) then ok candidate else later)
      else err no_occurrence

  -- `Expression.Next`, of a time in nanoseconds. The fuel is the number of minutes up to the limit, and
  -- one more for the test that ends the loop.
  unfoldable pub next : Expression → (after : ℕ) → Result ScheduleError ℕ
  unfolding next_loop
  next e after =
      let candidate = after / 60000000000 + 1 in
      let limit = add_five_years candidate in
      next_loop (suc (suc (limit - candidate))) e candidate limit
