-- ===== src/Calendar/Civil.antt =====
-- Day numbers and dates are inverse to one another.
use mathlib.Core.Path.{subst}
use native.Mathlib.Nat.{add-zero, add-suc, le_refl}
use gamwich.Prelude.{
  ℕ, zero, suc, ◌+◌, ◌-◌, ◌/◌, ◌%◌, ◌≤◌, ◌<◌, ◌≡◌, refl, ap, ◌∙◌, arith, if◌then◌else◌,
}
use gamwich.Calendar.{
  Date, date, is_leap, month_length, days_before_year, days_before_month, day_number, year_of_day,
  split_month, date_of_day, weekday_of_day,
}

epoch_1970 : day_number 1970 1 1 ≡ 719528
unfolding day_number days_before_year days_before_month month_length is_leap
epoch_1970 = refl

thursday : weekday_of_day 719528 ≡ 4
unfolding weekday_of_day
thursday = refl

leap_day : date_of_day (day_number 2024 2 29) ≡ date 2024 2 29
unfolding day_number days_before_year days_before_month month_length is_leap date_of_day year_of_day
    split_month
leap_day = refl

-- The length of a year, by the closed formula.
abbrev pub year_length : ℕ → ℕ
year_length y = if is_leap y then 366 else 365

pub record IsValid (t : Date) : Type 0 where
  pub month_in : (1 ≤ t.month) × (t.month ≤ 12)
  pub day_in : (1 ≤ t.day) × (t.day ≤ month_length t.year t.month)

pub month_length_bounds : (y m : ℕ) → (28 ≤ month_length y m) × (month_length y m ≤ 31)
unfolding month_length
month_length_bounds y m = ground arith

pub days_before_year-suc : (y : ℕ) → days_before_year (suc y) ≡ days_before_year y + year_length y
unfolding days_before_year is_leap
days_before_year-suc y = ground arith

pub days_before_year_mono : (y z : ℕ) → y ≤ z → days_before_year y ≤ days_before_year z
unfolding days_before_year
days_before_year_mono y z h = omega arith

pub days_before_month-suc :
    (y m : ℕ) → 1 ≤ m → days_before_month y (suc m) ≡ days_before_month y m + month_length y m
unfolding days_before_month
days_before_month-suc y zero h = absurd (omega arith)
days_before_month-suc y (suc m) h = refl

pub twelve_months : (y : ℕ) → days_before_month y 13 ≡ year_length y
unfolding days_before_month month_length
twelve_months y = ground arith

pub year_of_day_bounds :
    (n : ℕ) → (days_before_year (year_of_day n) ≤ n) × (n < days_before_year (suc (year_of_day n)))
unfolding year_of_day days_before_year
year_of_day_bounds n = ground arith

-- The year is determined by its bounds.
year_unique :
    (y z n : ℕ)
    → days_before_year y ≤ n
    → n < days_before_year (suc y)
    → days_before_year z ≤ n
    → n < days_before_year (suc z)
    → y ≡ z
unfolding days_before_year
year_unique y z n a b c d = omega arith

-- What `split_month` returns for a day of the year that lies `d` days past the start of month `m`.
record IsDayOfYear (y n : ℕ) (t : Date) : Type 0 where
  valid : IsValid t
  year_is : t.year ≡ y
  place : days_before_month y t.month + t.day ≡ n + 1

split_month-IsDayOfYear :
    (left y m d n : ℕ)
    → 1 ≤ m
    → m + left ≡ 12
    → days_before_month y m + d ≡ n
    → n < year_length y
    → IsDayOfYear y n (split_month left y m d)
unfolding split_month
split_month-IsDayOfYear zero y m d n h e p lt =
    let m12 : m ≡ 12 = omega arith in
    ground (
      arith,
      days_before_month-suc y m h,
      twelve_months y,
      ap (λ k. days_before_month y (suc k)) m12,
    )
split_month-IsDayOfYear (suc left) y m d n h e p lt = ground (
  arith,
  days_before_month-suc y m h,
  split_month-IsDayOfYear left y (m + 1) (d - month_length y m) n,
)

pub january : (y : ℕ) → days_before_month y 1 ≡ 0
unfolding days_before_month
january y = refl

date_of_day-IsDayOfYear :
    (n : ℕ) → IsDayOfYear (year_of_day n) (n - days_before_year (year_of_day n)) (date_of_day n)
unfolding date_of_day
date_of_day-IsDayOfYear n = ground (
  arith,
  january (year_of_day n),
  year_of_day_bounds n,
  days_before_year-suc (year_of_day n),
  split_month-IsDayOfYear 11 (year_of_day n) 1 (n - days_before_year (year_of_day n))
      (n - days_before_year (year_of_day n)),
)

-- A date in range needs no carry from the month to the year.
pub day_number_plain :
    (y m d : ℕ)
    → 1 ≤ m
    → m ≤ 12
    → day_number y m d ≡ days_before_year y + days_before_month y m + d - 1
unfolding day_number
day_number_plain y m d h k =
    let q : y + (m - 1) / 12 ≡ y = omega arith in
    let r : (m - 1) % 12 + 1 ≡ m = omega arith in rw (q, r)

pub date_of_day-IsValid : (n : ℕ) → IsValid (date_of_day n)
date_of_day-IsValid n = (date_of_day-IsDayOfYear n).valid

-- Every day has the date whose day number it is.
pub day_number-date_of_day : (n : ℕ) → let t = date_of_day n in day_number t.year t.month t.day ≡ n
day_number-date_of_day n = ground (
  arith,
  day_number_plain (date_of_day n).year (date_of_day n).month (date_of_day n).day,
  date_of_day-IsDayOfYear n,
  year_of_day_bounds n,
  ap days_before_year (date_of_day-IsDayOfYear n).year_is,
  ap (λ y. days_before_month y (date_of_day n).month) (date_of_day-IsDayOfYear n).year_is,
)

days_before_month_mono : (y m k : ℕ) → 1 ≤ m → days_before_month y m ≤ days_before_month y (m + k)
days_before_month_mono y m zero h = rw (add-zero m) (le_refl _)
days_before_month_mono y m (suc k) h =
    rw (add-suc m k)
      (omega (arith, days_before_month-suc y (m + k) (omega arith), days_before_month_mono y m k h))

-- The end of a month comes no later than the start of a later one.
month_order :
    (y m k : ℕ) → 1 ≤ m → m < k → days_before_month y m + month_length y m ≤ days_before_month y k
month_order y m k h lt = omega (
  arith,
  days_before_month-suc y m h,
  days_before_month_mono y (suc m) (k - suc m) (omega arith),
  ap (days_before_month y) (the_rest),
)
  where
    the_rest : suc m + (k - suc m) ≡ k
    the_rest = omega arith

-- Within a year, a date is determined by its place.
place_unique :
    (y m d k e : ℕ)
    → IsValid (date y m d)
    → IsValid (date y k e)
    → days_before_month y m + d ≡ days_before_month y k + e
    → (m ≡ k) × (d ≡ e)
place_unique y m d k e v w p =
    let same : m ≡ k = ground (arith, month_order y m k, month_order y k m) in
    (same, omega (arith, p, ap (days_before_month y) same))

month_fits : (y m d : ℕ) → IsValid (date y m d) → days_before_month y m + d ≤ year_length y
month_fits y m d v = omega (arith, month_order y m 13, twelve_months y)

valid_year : (y m d : ℕ) → IsValid (date y m d) → year_of_day (day_number y m d) ≡ y
valid_year y m d v = ground (
  arith,
  day_number_plain y m d,
  month_fits y m d v,
  days_before_year-suc y,
  year_of_day_bounds (day_number y m d),
  year_unique (year_of_day (day_number y m d)) y (day_number y m d),
)

IsDayOfYear-eq :
    (t : Date) (y m d n : ℕ)
    → IsDayOfYear y n t
    → IsValid (date y m d)
    → n + 1 ≡ days_before_month y m + d
    → t ≡ date y m d
IsDayOfYear-eq t y m d n r v p =
    ground (arith, place_unique y t.month t.day m d (rw (← r.year_is) r.valid) v (r.place ∙ p))

-- A valid date is the date of its day number.
pub date_of_day-day_number :
    (y m d : ℕ) → IsValid (date y m d) → date_of_day (day_number y m d) ≡ date y m d
date_of_day-day_number y m d v =
    let n = day_number y m d in
    IsDayOfYear-eq (date_of_day n) y m d (n - days_before_year y)
      (subst (λ z. IsDayOfYear z (n - days_before_year z) (date_of_day n)) (valid_year y m d v)
        (date_of_day-IsDayOfYear n))
      v (omega (arith, day_number_plain y m d v.month_in.0 v.month_in.1))
