-- ===== src/Calendar/Times.antt =====
-- How `Date` and `AddDate` move a time.
use native.Mathlib.Nat.{add-zero}
use gamwich.Prelude.{ℕ, ◌+◌, ◌*◌, ◌/◌, ◌%◌, ◌≤◌, ◌<◌, ◌≡◌, arith}
use gamwich.Prelude.Int.{ℤ, pos, shift}
use gamwich.Calendar.{
  Time, Date, day_number, make_time, add_date, nanos_per_day, nanos_per_second, day_of, clock_of,
  date_of, hour, minute, second,
}
use gamwich.Calendar.Civil.{day_number-date_of_day}

-- The clock of `t` cut to whole seconds, as `time.Date(…, t.Hour(), t.Minute(), t.Second(), 0, …)`
-- takes it over.
abbrev pub whole_clock : Time → ℕ
whole_clock t = clock_of t / nanos_per_second * nanos_per_second

clock_parts :
    (c : ℕ)
    → c < nanos_per_day
    → c / 3600000000000 * 3600 + c / 60000000000 % 60 * 60 + c / nanos_per_second % 60
      ≡ c / nanos_per_second
clock_parts c h = omega arith

-- `AddDate(0, 0, n)` keeps the clock and moves the day.
pub add_date-shift :
    (t : Time) (n : ℤ) → add_date t 0 0 n ≡ shift (day_of t) n * nanos_per_day + clock_of t
unfolding add_date
add_date-shift t n =
    rw (add-zero (date_of t).year, add-zero (date_of t).month, day_number-date_of_day (day_of t))

-- `AddDate(0, 0, n)` moves by n whole days.
pub add_date_days : (t n : ℕ) → add_date t 0 0 (pos n) ≡ t + n * nanos_per_day
add_date_days t n = omega (arith, add_date-shift t (pos n))

pub day_of-make_time :
    (d : Date) (t : Time)
    → day_of (make_time d (hour t) (minute t) (second t)) ≡ day_number d.year d.month d.day
unfolding make_time
day_of-make_time d t = omega arith

pub clock_of-make_time :
    (d : Date) (t : Time) → clock_of (make_time d (hour t) (minute t) (second t)) ≡ whole_clock t
unfolding make_time
clock_of-make_time d t = omega arith

-- More days of the month are more days.
pub day_number_add : (y m d k : ℕ) → 1 ≤ d → day_number y m (d + k) ≡ day_number y m d + k
unfolding day_number
day_number_add y m d k h = omega arith
