-- ===== src/Calendar/Carry.antt =====
-- `Date` and `AddDate` with a month or a day past its end.
use native.Mathlib.Nat.{add-zero}
use native.Mathlib.Numerals.{add-one}
use gamwich.Prelude.{
  ℕ, suc, ◌+◌, ◌-◌, ◌/◌, ◌%◌, ◌≤◌, ◌<◌, ◌≡◌, ap, ◌∙◌, arith, inl, inr, Bool-cases, leb,
}
use gamwich.Prelude.Int.{pos}
use gamwich.Calendar.{
  Time, date, month_length, days_before_year, days_before_month, day_number, date_of_day, add_date,
  date_of, day_of,
}
use gamwich.Calendar.Civil.{
  IsValid, date_of_day-IsValid, date_of_day-day_number, day_number_plain, days_before_month-suc,
  month_length_bounds, days_before_year-suc, twelve_months, january,
}

-- Months past December carry over into the year.
pub day_number_carry :
    (y m d : ℕ) → day_number y m d ≡ day_number (y + (m - 1) / 12) ((m - 1) % 12 + 1) d
unfolding day_number
day_number_carry y m d =
    let q : ((m - 1) % 12 + 1 - 1) / 12 ≡ 0 = omega arith in
    let r : (m - 1) % 12 + 1 - 1 ≡ (m - 1) % 12 = omega arith in
    let r' : ((m - 1) % 12) % 12 ≡ (m - 1) % 12 = omega arith in
    let q' : (m - 1) % 12 / 12 ≡ 0 = omega arith in rw (r, r', q', add-zero (y + (m - 1) / 12))

-- The formula of `day_number_plain` holds for the month after December too.
day_number_wide :
    (y m d : ℕ)
    → 1 ≤ m
    → m ≤ 13
    → day_number y m d ≡ days_before_year y + days_before_month y m + d - 1
day_number_wide y m d h k = elim (Bool-cases (leb m 12)) [
  | inl in_year ↦ day_number_plain y m d h (ground arith)
  | inr past ↦ let e : m ≡ 13 = ground arith in rw e (thirteen y d)
]
  where
    thirteen : (y d : ℕ) → day_number y 13 d ≡ days_before_year y + days_before_month y 13 + d - 1
    thirteen y d =
        day_number_carry y 13 d
        ∙ day_number_plain (y + 1) 1 d (omega arith) (omega arith)
        ∙ omega (
          arith,
          january (y + 1),
          twelve_months y,
          days_before_year-suc y,
          ap days_before_year (add-one y),
        )

-- Day 0 of a month is the last day of the month before.
pub day_number_zero :
    (y m : ℕ) → 1 ≤ m → m ≤ 12 → day_number y (m + 1) 0 ≡ day_number y m (month_length y m)
day_number_zero y m h k = omega (
  arith,
  day_number_wide y (suc m) 0 (omega arith) (omega arith),
  day_number_wide y m (month_length y m) (omega arith) (omega arith),
  days_before_month-suc y m h,
  ap (λ i. day_number y i 0) (add-one m),
)

-- A day past the end of a month runs on into the next month.
pub day_number_overflow :
    (y m d : ℕ)
    → 1 ≤ m
    → m ≤ 12
    → 1 ≤ d
    → day_number y m (month_length y m + d) ≡ day_number y (m + 1) d
day_number_overflow y m d h k l = omega (
  arith,
  day_number_wide y (suc m) d (omega arith) (omega arith),
  day_number_wide y m (month_length y m + d) (omega arith) (omega arith),
  days_before_month-suc y m h,
  ap (λ i. day_number y i d) (add-one m),
)

-- What `AddDate(years, months, 0)` computes.
pub add_date_lem :
    (t : Time) (years months : ℕ)
    → let d = date_of t in
      day_of (add_date t years months (pos 0))
      ≡ day_number (d.year + years) (d.month + months) d.day
unfolding add_date
add_date_lem t years months = omega arith

pub IsValid-date : (t : Time) → IsValid (date_of t)
IsValid-date t = date_of_day-IsValid (day_of t)

-- Where `AddDate(years, months, 0)` lands, if the month there has the day.
pub date_of-add_date :
    (t : Time) (years months : ℕ)
    → let d = date_of t in
      let y = d.year + years + (d.month + months - 1) / 12 in
      let m = (d.month + months - 1) % 12 + 1 in
      d.day ≤ month_length y m → date_of (add_date t years months (pos 0)) ≡ date y m d.day
date_of-add_date t years months fits =
    ap date_of_day (
      add_date_lem t years months
      ∙ day_number_carry ((date_of t).year + years) ((date_of t).month + months) (date_of t).day)
    ∙ date_of_day-day_number _ _ _ (record {
      month_in = (omega arith, omega arith);
      day_in = ((IsValid-date t).day_in.0, fits);
    })

-- The month after a month with fewer than 31 days has 31.
short_then_long :
    (y m : ℕ) → 1 ≤ m → m ≤ 12 → month_length y m < 31 → (m < 12) × (month_length y (m + 1) ≡ 31)
unfolding month_length
short_then_long y m h k short = ground arith

-- Where it lands if the month there is too short for the day: in the month after.
pub date_of-add_date_over :
    (t : Time) (years months : ℕ)
    → let d = date_of t in
      let y = d.year + years + (d.month + months - 1) / 12 in
      let m = (d.month + months - 1) % 12 + 1 in
      month_length y m < d.day
      → (date_of (add_date t years months (pos 0)) ≡ date y (m + 1) (d.day - month_length y m))
        × (month_length y (m + 1) ≡ 31)
date_of-add_date_over t years months over =
    let d = date_of t in
    let y = d.year + years + (d.month + months - 1) / 12 in
    let m = (d.month + months - 1) % 12 + 1 in
    let valid : IsValid d = IsValid-date t in
    let long =
      short_then_long y m (omega arith) (omega arith)
        (omega (arith, valid.day_in.1, month_length_bounds d.year d.month)) in
    (
      ap date_of_day (
            add_date_lem t years months
            ∙ day_number_carry (d.year + years) (d.month + months) d.day
            ∙ ap (day_number y m) (split y m d.day over)
            ∙ day_number_overflow y m (d.day - month_length y m) (omega arith) (omega arith)
                (omega arith))
          ∙ date_of_day-day_number y (m + 1) (d.day - month_length y m) (record {
            month_in = (omega arith, omega (arith, long));
            day_in = (
              omega arith,
              omega (arith, long, valid.day_in.1, month_length_bounds d.year d.month),
            );
          }),
      long.1,
    )
  where
    split : (y m d : ℕ) → month_length y m < d → d ≡ month_length y m + (d - month_length y m)
    split y m d h = omega arith
