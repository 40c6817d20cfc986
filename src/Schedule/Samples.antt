-- ===== src/Schedule/Samples.antt =====
-- Cron expressions of internal/scheduler, and the theorems at these.
use git_ci.Common.{Bool, true, false, [], ◌∷◌, ℕ, ◌+◌, ◌/◌, ◌%◌, codes, ok, err, Ensures, ◌≡◌, refl}
use git_ci.Schedule.Words.{fields, split, cut, atoi}
use git_ci.Schedule.Field.{base_span, parse_span, parse_step, parse_field, contains}
use git_ci.Schedule.FieldMeaning.{IsField, parse_field-IsField}
use git_ci.Schedule.SpanLaws.{IsAny}
use git_ci.Schedule.Cron.{Expression, Moment, parse, next, matches}
use git_ci.Schedule.CronLaws.{IsFirst, next-IsFirst}

program : Unit {0}
unfolding fields split cut atoi base_span parse_span parse_step parse_field contains parse next
    matches
program = tt

-- Days of 24 hours in months of 30 days, and years of 12 months.
abbrev plain_calendar : ℕ → Moment
plain_calendar t = record {
  minute = t % 60;
  hour = t / 60 % 24;
  day = t / 1440 % 30 + 1;
  month = t / 43200 % 12 + 1;
  weekday = t / 1440 % 7;
}

abbrev one_day : ℕ → ℕ
one_day t = t + 1440

abbrev half_hours : Expression
half_hours = record {
  minutes = 0 ∷ 30 ∷ [];
  hours = 0 ∷ 1 ∷ [];
  days = 1 ∷ [];
  months = 1 ∷ [];
  weekdays = [];
  day_wildcard = false;
  weekday_wildcard = true;
}

weekday_field : parse_field (codes "1-7/3,5") 0 7 true ≡ ok (1 ∷ 4 ∷ 0 ∷ 5 ∷ [], false)
unfolding program
weekday_field = refl

-- A step that lets the counter overflow gives values below the range.
overflowing_field :
    (elim (parse_field (codes "59-59/9223372036854775807") 0 59 false) as (λ r. Bool) [
      | ok (values, wildcard) ↦ contains values 57
      | err e ↦ false
    ])
    ≡ true
unfolding program
overflowing_field = refl

next_half_hour : next plain_calendar one_day half_hours 60000000000 ≡ ok 30
unfolding program
next_half_hour = refl

next-IsFirst_example :
    IsFirst plain_calendar one_day half_hours 2 1442 7
      (next plain_calendar one_day half_hours 60000000000)
next-IsFirst_example = next-IsFirst plain_calendar one_day half_hours 60000000000 7

parse_field-IsField_example :
    Ensures (IsField (codes "1-7/3,5") 0 7 true 0) IsAny (parse_field (codes "1-7/3,5") 0 7 true)
unfolding program
parse_field-IsField_example = parse_field-IsField (codes "1-7/3,5") 0 7 true 0 refl
