-- ===== src/Recurrence/Examples.antt =====
-- Runs of the recurrence code, after internal/recurrence/recurrence_test.go, and witnesses.
use gamwich.Prelude.{
  ◌+◌, ◌*◌, ◌<◌, ◌≡◌, ◌≤◌, ◌%◌, ◌≢◌, refl, inl, Option, none, some, List, [], ◌∷◌, map, ℕ, All,
  arith, length, true,
}
use gamwich.Prelude.Result.{ok}
use gamwich.Calendar.{
  Time, Date, date, nanos_per_day, nanos_per_hour, date_of, sub, date_of_day, year_of_day,
  split_month, days_before_year, is_leap, month_length,
}
use gamwich.Recurrence.{Rule, daily, weekly, monthly, yearly, Occurrence, Iterator}
use gamwich.Recurrence.Advance.{new_iterator, next_month, days_in_month, on_leap_day, wanted_day}
use gamwich.Recurrence.Expand.{expand}
use gamwich.Recurrence.Rrule.{parse, to_string}
use gamwich.Recurrence.Bounds.{IsShown, expand-IsShown}
use gamwich.Recurrence.Search.{IsByDay, IsOnDay}
use gamwich.Recurrence.ByDay.{expand_by_day}
use gamwich.Recurrence.OnDay.{IsStartOrOnDay, expand_monthly}
use gamwich.Recurrence.Steady.{steady, expand_steady}
use gamwich.Recurrence.Series.{ReturnsDue}
use gamwich.Recurrence.Pairs.{IsExpressible}
use gamwich.Recurrence.RoundTrip.{parse-to_string}
use gamwich.Recurrence.Accepted.{IsAccepted, parse-IsAccepted}
use gamwich.Recurrence.Months.{days_in_month-eq-month_length}
use gamwich.Recurrence.Monthly.{next_month_total}
use gamwich.Recurrence.Endless.{monthly_endless, yearly_endless}

-- 2026-02-03, a Tuesday, at ten o'clock.
abbrev feb_3 : Time
feb_3 = 63937332000000000000

-- Midnight after the end of 2026-02-14.
abbrev feb_15 : Time
feb_15 = 63938332800000000000

abbrev hour_after : Time → Time
hour_after t = t + nanos_per_hour

abbrev every : Rule
every = record {
  freq = daily;
  interval = 1;
  by_day = [];
  by_month_day = 0;
  count = 0;
  until = none;
}

abbrev tue_thu : Rule
tue_thu = record every { freq = weekly; by_day = 2 ∷ 4 ∷ [] }

abbrev three_days : Rule
three_days = record every { interval = 3; count = 3 }

abbrev every_month : Rule
every_month = record every { freq = monthly; by_month_day = 31 }

abbrev starts : Option (List Occurrence) → List Date
starts none = []
starts (some os) = map (λ (o : Occurrence). date_of o.start) os

tue_thu-IsByDay : IsByDay tue_thu
tue_thu-IsByDay = record {
  is_weekly = refl;
  first_day = 2;
  other_days = 4 ∷ [];
  by_day_is = refl;
  weekdays = (omega arith, (omega arith, tt));
  interval_pos = omega arith;
}

expand_by_day_example :
    (found : List Occurrence) × (expand 2 tue_thu feb_3 (hour_after feb_3) feb_3 feb_15
      ≡ some found)
    × All (λ o. IsOnDay tue_thu feb_3 o.start) found
expand_by_day_example =
    expand_by_day tue_thu feb_3 (hour_after feb_3) feb_3 feb_15 tue_thu-IsByDay (omega arith)

expand_monthly_example :
    (found : List Occurrence) × (expand 5 every_month feb_3 (hour_after feb_3) feb_3 feb_15
      ≡ some found)
    × All (λ o. IsStartOrOnDay every_month feb_3 o.start) found
expand_monthly_example =
    expand_monthly every_month feb_3 (hour_after feb_3) feb_3 feb_15
      (record { is_monthly = refl; day_in = omega arith; not_yearly = λ e. cc })

expand_steady_example :
    ReturnsDue (steady three_days feb_3) 0 three_days feb_3 (hour_after feb_3) feb_3 feb_15
expand_steady_example =
    expand_steady 0 three_days feb_3 (hour_after feb_3) feb_3 feb_15 (inl refl) (omega arith)

abbrev written : Rule
written = record every { freq = weekly; interval = 2; by_day = 1 ∷ 3 ∷ []; count = 4 }

written-IsExpressible : IsExpressible written
written-IsExpressible = record {
  interval_in = (omega arith, omega arith);
  weekdays = (omega arith, (omega arith, tt));
  month_day_in = omega arith;
  count_in = omega arith;
  until_in = tt;
}

parse-to_string_example : parse (to_string written) ≡ ok written
parse-to_string_example = parse-to_string written written-IsExpressible

days_in_month_example : days_in_month 2028 2 ≡ month_length 2028 2
days_in_month_example = days_in_month-eq-month_length 2028 2 (omega arith) (omega arith)

shown_returns :
    (found : List Occurrence) × (expand 2 tue_thu feb_3 (hour_after feb_3) feb_3 feb_15
      ≡ some found)
shown_returns =
    let r =
      expand_by_day tue_thu feb_3 (hour_after feb_3) feb_3 feb_15 tue_thu-IsByDay (omega arith) in
    (r.0, r.1)

expand-IsShown_example :
    All (IsShown tue_thu (sub (hour_after feb_3) feb_3) feb_3 feb_15) shown_returns.0
    × (0 < tue_thu.count → length shown_returns.0 ≤ tue_thu.count)
expand-IsShown_example =
    expand-IsShown 2 tue_thu feb_3 (hour_after feb_3) feb_3 feb_15 shown_returns.0 shown_returns.1

parse-IsAccepted_example : IsAccepted written
parse-IsAccepted_example =
    parse-IsAccepted (to_string written) written (parse-to_string written written-IsExpressible)

abbrev second_of_monthly : Iterator
second_of_monthly = record (new_iterator every_month feb_3) { started = true; count = 1 }

not_yearly : second_of_monthly.rule.interval % 12 ≢ 0
unfolding new_iterator
not_yearly e = cc

second_wants : wanted_day second_of_monthly ≤ 31
unfolding new_iterator
second_wants = omega arith

next_month_total_example : (found : Time) × (next_month 5 second_of_monthly ≡ some found)
next_month_total_example = next_month_total second_of_monthly second_wants not_yearly

-- 2026-04-10 at ten o'clock, and a year from then.
abbrev apr_10 : Time
apr_10 = 63943034400000000000

abbrev year_after : Time → Time
year_after t = t + 366 * nanos_per_day

abbrev each_april_31 : Rule
each_april_31 = record every { freq = monthly; interval = 12; by_month_day = 31 }

apr_10-date : date_of apr_10 ≡ date 2026 4 10
unfolding date_of_day year_of_day split_month days_before_year month_length is_leap
apr_10-date = refl

april_days : (y : ℕ) → month_length y 4 ≡ 30
unfolding month_length
april_days y = refl

monthly_endless_example :
    expand 100 each_april_31 apr_10 (hour_after apr_10) apr_10 (year_after apr_10) ≡ none
monthly_endless_example =
    monthly_endless 100 each_april_31 apr_10 (hour_after apr_10) apr_10 (year_after apr_10) refl
      refl (λ y. rw apr_10-date omega (arith, april_days y))
      (λ y. rw apr_10-date omega (arith, april_days y))
      (record { real = omega arith; before_end = omega arith; within_until = refl; more = λ e. cc })

-- 2024-02-29 at ten o'clock.
abbrev leap_day : Time
leap_day = 63876420000000000000

leap_day-date : date_of leap_day ≡ date 2024 2 29
unfolding date_of_day year_of_day split_month days_before_year month_length is_leap
leap_day-date = refl

abbrev each_year : Rule
each_year = record every { freq = yearly }

yearly_endless_example :
    expand 100 each_year leap_day (hour_after leap_day) leap_day (year_after leap_day) ≡ none
unfolding on_leap_day is_leap
yearly_endless_example =
    yearly_endless 100 each_year leap_day (hour_after leap_day) leap_day (year_after leap_day) refl
      (rw leap_day-date refl) (rw leap_day-date refl)
      (record { real = omega arith; before_end = omega arith; within_until = refl; more = λ e. cc })
