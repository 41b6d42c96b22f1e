-- ===== src/Recurrence/Monthly.antt =====
-- What a monthly rule does: the day of each occurrence, and a rule on which `Expand` never returns.
use gamwich.Prelude.{
  ℕ, zero, suc, ◌%◌, ◌≤◌, ◌≡◌, ◌≢◌, inl, inr, ◌∙◌, ap, true, some, arith, Option-cases,
}
use gamwich.Prelude.Int.{pos}
use gamwich.Calendar.{Time, Date, date, add_date, date_of, date_of_day, clock_of}
use gamwich.Calendar.Civil.{IsValid, date_of_day-day_number}
use gamwich.Calendar.Carry.{IsValid-date}
use gamwich.Calendar.Times.{day_of-make_time, clock_of-make_time, whole_clock}
use gamwich.Recurrence.{Iterator}
use gamwich.Recurrence.Advance.{
  days_in_month, skip_months, wanted_day, next_month, advance_monthly, at_base_clock,
}
use gamwich.Recurrence.Months.{days_in_month-eq-month_length, skip_months_total}

-- A time made of a valid date and the clock of `base` has that date and that clock.
date_of-at_base_clock :
    (base : Time) (d : Date)
    → IsValid d
    → (date_of (at_base_clock base d) ≡ d) × (clock_of (at_base_clock base d) ≡ whole_clock base)
date_of-at_base_clock base d v = (
  ap date_of_day (day_of-make_time d base) ∙ date_of_day-day_number d.year d.month d.day v,
  clock_of-make_time d base,
)

skip_months-fits :
    (fuel n day : ℕ) (t found : Time)
    → skip_months fuel n day t ≡ some found
    → day ≤ days_in_month (date_of found).year (date_of found).month
unfolding skip_months
skip_months-fits zero n day t found e = cc
skip_months-fits (suc fuel) n day t found e =
    ground (arith, skip_months-fits fuel n day (add_date t 0 n (pos 0)) found)

next_month-fits :
    (fuel : ℕ) (it : Iterator) (found : Time)
    → next_month fuel it ≡ some found
    → wanted_day it ≤ days_in_month (date_of found).year (date_of found).month
unfolding next_month
next_month-fits fuel it found e = ground (
  arith,
  skip_months-fits fuel it.rule.interval (wanted_day it)
      (add_date it.current 0 it.rule.interval (pos 0)) found,
)

wanted_day_pos : (it : Iterator) → 1 ≤ wanted_day it
wanted_day_pos it = ground (arith, (IsValid-date it.base_start).day_in.0)

-- Each occurrence of a monthly rule after the first falls on the day of the month that the rule
-- asks for, BYMONTHDAY or the day of the start, at the clock of the start cut to whole seconds.
pub advance_monthly-day :
    (fuel : ℕ) (it it' : Iterator) (t : Time)
    → it.started ≡ true
    → advance_monthly fuel it ≡ some (t, it')
    → ((date_of t).day ≡ wanted_day it) × (clock_of t ≡ whole_clock it.base_start)
unfolding advance_monthly
advance_monthly-day fuel it it' t s e = elim (Option-cases (next_month fuel it)) [
  | inl p ↦ ground (arith, p)
  | inr (found, p) ↦
      let d = date_of found in
      let v = IsValid-date found in
      let landing =
        date_of-at_base_clock it.base_start (date d.year d.month (wanted_day it)) (record {
          month_in = v.month_in;
          day_in = (
            wanted_day_pos it,
            omega (
              arith,
              next_month-fits fuel it found p,
              days_in_month-eq-month_length d.year d.month v.month_in.0 v.month_in.1,
            ),
          );
        }) in
      let here : t ≡ at_base_clock it.base_start (date d.year d.month (wanted_day it)) =
        ground (arith, p) in
      rw here (ap (λ (u : Date). u.day) landing.0, landing.1)
]

-- `advanceMonthly` tests the first month as its loop tests the others.
pub next_month-eq-skip_months :
    (fuel : ℕ) (it : Iterator)
    → next_month fuel it ≡ skip_months (suc fuel) it.rule.interval (wanted_day it) it.current
unfolding next_month skip_months
next_month-eq-skip_months fuel it = ground arith

-- For a monthly rule whose interval is not a number of whole years, the next occurrence is always
-- found, with five rounds of fuel for the loop.
pub next_month_total :
    (it : Iterator)
    → wanted_day it ≤ 31
    → it.rule.interval % 12 ≢ 0
    → (found : Time) × (next_month 5 it ≡ some found)
next_month_total it h whole =
    rw (next_month-eq-skip_months 5 it)
      (skip_months_total it.rule.interval (wanted_day it) it.current h whole)
