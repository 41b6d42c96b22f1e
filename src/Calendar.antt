-- ===== src/Calendar.antt =====
-- Go's package `time`, as far as the program uses it: the proleptic Gregorian calendar in one
-- zone of fixed offset (the program stores UTC). A `Time` counts the nanoseconds since
-- 0000-01-01 00:00, a day number the days since then. `Date` and `AddDate` carry an overflow of the
-- month or the day over into the next field, as Go's do.
pub mod Civil
pub mod Times
pub mod Carry
pub mod Stamp
pub mod StampLaws
use gamwich.Prelude.{
  ℕ, zero, suc, ◌+◌, ◌-◌, ◌*◌, ◌/◌, ◌%◌, Bool, true, false, not, ◌&&◌, ◌||◌, ltb, leb, ◌==◌,
  if◌then◌else◌,
}
use gamwich.Prelude.Int.{ℤ, shift}

abbrev pub nanos_per_second : ℕ
nanos_per_second = 1000000000

abbrev pub nanos_per_hour : ℕ
nanos_per_hour = 3600000000000

abbrev pub nanos_per_day : ℕ
nanos_per_day = 86400000000000

abbrev pub Time : Type 0
Time = ℕ

-- The year, the month from 1 and the day from 1.
pub record Date : Type 0 where
  pub year : ℕ
  pub month : ℕ
  pub day : ℕ

abbrev pub date : ℕ → ℕ → ℕ → Date
date yr mo dy = record { year = yr; month = mo; day = dy }

unfoldable pub is_leap : ℕ → Bool
is_leap y = y % 4 == 0 && (not (y % 100 == 0) || y % 400 == 0)

unfoldable pub month_length : ℕ → ℕ → ℕ
month_length y m =
    if m == 2
    then (if is_leap y then 29 else 28)
    else if m == 4 || (m == 6 || (m == 9 || m == 11))
    then 30
    else 31

unfoldable pub days_before_year : ℕ → ℕ
days_before_year y = y * 365 + (y + 3) / 4 - (y + 99) / 100 + (y + 399) / 400

unfoldable pub days_before_month : ℕ → ℕ → ℕ
days_before_month yr zero = 0
days_before_month yr (suc zero) = 0
days_before_month yr (suc (suc m)) = days_before_month yr (suc m) + month_length yr (suc m)

-- The day number of a date whose month may pass 12 and whose day may pass the month's length, or
-- be 0.
unfoldable pub day_number : ℕ → ℕ → ℕ → ℕ
day_number y m d =
    let year = y + (m - 1) / 12 in
    days_before_year year + days_before_month year ((m - 1) % 12 + 1) + d - 1

unfoldable pub year_of_day : ℕ → ℕ
year_of_day n =
    let y = n * 400 / 146097 in
    if leb (days_before_year (y + 1)) n
    then y + 1
    else if ltb n (days_before_year y)
    then y - 1
    else y

-- The month of a day of the year that is counted from 0, and what is left of the day: the number of
-- months to go is the first argument.
unfoldable pub split_month : ℕ → ℕ → ℕ → ℕ → Date
split_month zero y m d = date y m (d + 1)
split_month (suc left) y m d =
    let later = split_month left y (m + 1) (d - month_length y m) in
    if ltb d (month_length y m) then date y m (d + 1) else later

unfoldable pub date_of_day : ℕ → Date
date_of_day n = let y = year_of_day n in split_month 11 y 1 (n - days_before_year y)

-- 0 is Sunday; 0000-01-01 was a Saturday.
unfoldable pub weekday_of_day : ℕ → ℕ
weekday_of_day n = (n + 6) % 7

-- Methods of `time.Time`.
abbrev pub day_of : Time → ℕ
day_of t = t / nanos_per_day

abbrev pub clock_of : Time → ℕ
clock_of t = t % nanos_per_day

abbrev pub date_of : Time → Date
date_of t = date_of_day (day_of t)

abbrev pub weekday : Time → ℕ
weekday t = weekday_of_day (day_of t)

abbrev pub hour : Time → ℕ
hour t = clock_of t / nanos_per_hour

abbrev pub minute : Time → ℕ
minute t = clock_of t / 60000000000 % 60

abbrev pub second : Time → ℕ
second t = clock_of t / nanos_per_second % 60

-- `time.Date(y, m, d, h, min, s, 0, loc)`
unfoldable pub make_time : Date → ℕ → ℕ → ℕ → Time
make_time d h mi s =
    day_number d.year d.month d.day * nanos_per_day + (h * 3600 + mi * 60 + s) * nanos_per_second

-- `t.AddDate(years, months, days)`
unfoldable pub add_date : Time → ℕ → ℕ → ℤ → Time
add_date t years months days =
    let d = date_of t in
    shift (day_number (d.year + years) (d.month + months) d.day) days * nanos_per_day + clock_of t

-- A `time.Duration` is an int64 count of nanoseconds; `Sub` saturates.
abbrev pub max_duration : ℕ
max_duration = 9223372036854775807

unfoldable pub sub : Time → Time → ℤ
sub t u =
    if leb u t
    then ℤ.pos (if ltb max_duration (t - u) then max_duration else t - u)
    else ℤ.negsuc (if ltb max_duration (u - t - 1) then max_duration else u - t - 1)

-- `t.Add(d)`
abbrev pub add : Time → ℤ → Time
add t d = shift t d

-- `time.Time{}`, 0001-01-01, for which `IsZero` holds.
abbrev pub zero_time : Time
zero_time = 366 * nanos_per_day
