-- ===== src/Recurrence/Endless.antt =====
-- Two kinds of rules, each accepted by `Parse`, on which `Expand` never returns.
use gamwich.Prelude.{
  ℕ, zero, suc, ◌+◌, ◌-◌, ◌%◌, ◌/◌, ◌≤◌, ◌<◌, ◌≡◌, ◌≢◌, ◌∙◌, ap, refl, true, false, none, some,
  List, [], arith,
}
use gamwich.Prelude.Int.{ℤ, pos}
use gamwich.Calendar.{Time, Date, add_date, date_of, month_length, is_leap, sub, zero_time}
use gamwich.Calendar.Civil.{month_length_bounds}
use gamwich.Calendar.Carry.{date_of-add_date, date_of-add_date_over}
use gamwich.Recurrence.{monthly, yearly, Rule, Iterator, Occurrence}
use gamwich.Recurrence.Advance.{
  skip_years, next_month, next_year, on_leap_day, advance_monthly, advance_yearly, advance,
  new_iterator, next, wanted_day,
}
use gamwich.Recurrence.Months.{skip_months_diverges}
use gamwich.Recurrence.Monthly.{next_month-eq-skip_months}
use gamwich.Recurrence.Expand.{is_past, stops, expand, expand_loop}
use gamwich.Recurrence.Series.{expand_loop-suc}

-- The first occurrence is one that `Expand` goes past.
pub record GoesOn (rule : Rule) (start range_end : Time) : Type 0 where
  pub real : zero_time < start
  pub before_end : start < range_end
  pub within_until : is_past rule.until start ≡ false
  pub more : rule.count ≢ 1

GoesOn-stops :
    (rule : Rule) (start range_end : Time)
    → GoesOn rule start range_end
    → stops rule range_end start 1 ≡ false
unfolding stops
GoesOn-stops rule start range_end g = ground arith

-- The iterator after the first occurrence.
abbrev second_state : Rule → Time → Iterator
second_state rule start = record (new_iterator rule start) { started = true; count = 1 }

module _ (fuel : ℕ) (rule : Rule) (start event_end range_start range_end : Time)
    (first_found : next fuel (new_iterator rule start) ≡ some (start, second_state rule start))
    (second_lost : next fuel (second_state rule start) ≡ none) where
  expand_loop-none :
      (rounds : ℕ) (duration : ℤ) (n : ℕ) (results : List Occurrence)
      → expand_loop fuel rule duration range_start range_end
          (suc rounds)
          (second_state rule start)
          n
          results
        ≡ none
  unfolding expand_loop
  expand_loop-none rounds duration n results = rw (second_lost, expand_loop)

  -- `Expand` does not get past the search for the second occurrence.
  expand-none :
      GoesOn rule start range_end → expand fuel rule start event_end range_start range_end ≡ none
  unfolding expand
  expand-none g =
      expand_loop-suc fuel rule (sub event_end start) range_start range_end 10000
        (new_iterator rule start) (second_state rule start) start 0 [] first_found
      ∙ rw (GoesOn-stops rule start range_end g) (expand_loop-none 9999 (sub event_end start) 1 _)

monthly_first :
    (fuel : ℕ) (rule : Rule) (start : Time)
    → rule.freq ≡ monthly
    → next fuel (new_iterator rule start) ≡ some (start, second_state rule start)
unfolding next advance advance_monthly new_iterator
monthly_first fuel rule start f = ground arith

monthly_second :
    (fuel : ℕ) (rule : Rule) (start : Time)
    → rule.freq ≡ monthly
    → next_month fuel (record (second_state rule start) { count = 2 }) ≡ none
    → next fuel (second_state rule start) ≡ none
unfolding next advance advance_monthly new_iterator
monthly_second fuel rule start f h = ground arith

-- A monthly rule whose interval is a number of whole years, whose BYMONTHDAY the month of the start
-- does not have in any year, and whose start is on a day that this month has in every year, so not on a
-- February 29th: `Expand` does not return, for no fuel is enough, if it goes past the first occurrence.
-- It goes past it where the start is after the zero time and before the range's end, UNTIL is not
-- before it, and COUNT is not one.
pub monthly_endless :
    (fuel : ℕ) (rule : Rule) (start event_end range_start range_end : Time)
    → rule.freq ≡ monthly
    → rule.interval % 12 ≡ 0
    → ((y : ℕ) → month_length y (date_of start).month < rule.by_month_day)
    → ((y : ℕ) → (date_of start).day ≤ month_length y (date_of start).month)
    → GoesOn rule start range_end
    → expand fuel rule start event_end range_start range_end ≡ none
unfolding new_iterator
monthly_endless fuel rule start event_end range_start range_end f whole never fits g =
    let it = record (second_state rule start) { count = 2 } in
    let wanted : wanted_day it ≡ rule.by_month_day = ground (arith, never 0) in
    let lost : next_month fuel it ≡ none =
      next_month-eq-skip_months fuel it
      ∙ skip_months_diverges (suc fuel) rule.interval (wanted_day it) start whole
          (λ y. rw wanted (never y)) fits in
    expand-none fuel rule start event_end range_start range_end (monthly_first fuel rule start f)
      (monthly_second fuel rule start f lost) g

skip_years-on :
    (fuel n : ℕ) (t : Time)
    → (date_of t).day ≢ 29
    → skip_years (suc fuel) n t ≡ skip_years fuel n (add_date t n 0 (pos 0))
unfolding skip_years
skip_years-on fuel n t h = ground arith

next_year-lost :
    (fuel : ℕ) (it : Iterator)
    → on_leap_day it.base_start ≡ true
    → skip_years fuel it.rule.interval (add_date it.current it.rule.interval 0 (pos 0)) ≡ none
    → next_year fuel it ≡ none
unfolding next_year
next_year-lost fuel it h e = rw h e

-- A day that no longer is 29 stays so: `AddDate` with a day of at most 28 changes the year alone.
skip_years_diverges : (fuel n : ℕ) (t : Time) → (date_of t).day ≤ 28 → skip_years fuel n t ≡ none
skip_years_diverges zero n t h = unfold skip_years in refl
skip_years_diverges (suc fuel) n t h =
    let fits : (y m : ℕ) → (date_of t).day ≤ month_length y m =
      λ y m. omega (arith, h, month_length_bounds y m) in
    let same : (date_of (add_date t n 0 (pos 0))).day ≡ (date_of t).day =
      ap (λ (u : Date). u.day) (date_of-add_date t n 0 (fits _ _)) in
    skip_years-on fuel n t (omega arith)
    ∙ skip_years_diverges fuel n (add_date t n 0 (pos 0)) (rw same h)

leap_day_parts :
    (t : Time) → on_leap_day t ≡ true → ((date_of t).month ≡ 2) × ((date_of t).day ≡ 29)
unfolding on_leap_day
leap_day_parts t h = ground arith

common_february : (y : ℕ) → is_leap y ≡ false → month_length y 2 ≡ 28
unfolding month_length
common_february y h = ground arith

-- A February 29th moved to a year with no such day is March 1st.
leap_day_moved :
    (t n : ℕ)
    → on_leap_day t ≡ true
    → is_leap ((date_of t).year + n) ≡ false
    → (date_of (add_date t n 0 (pos 0))).day ≡ 1
leap_day_moved t n h common =
    let d = date_of t in
    let (is_february, is_29) = leap_day_parts t h in
    let same_year : d.year + n + (d.month + 0 - 1) / 12 ≡ d.year + n = omega arith in
    let same_month : (d.month + 0 - 1) % 12 + 1 ≡ 2 = omega arith in
    let length_is : month_length (d.year + n + (d.month + 0 - 1) / 12) ((d.month + 0 - 1) % 12 + 1)
        ≡ 28 =
      rw (same_year, same_month) (common_february (d.year + n) common) in
    ap (λ (u : Date). u.day) (date_of-add_date_over t n 0 (omega (arith, length_is))).0
    ∙ omega (arith, length_is)

yearly_first :
    (fuel : ℕ) (rule : Rule) (start : Time)
    → rule.freq ≡ yearly
    → next fuel (new_iterator rule start) ≡ some (start, second_state rule start)
unfolding next advance advance_yearly new_iterator
yearly_first fuel rule start f = ground arith

yearly_second :
    (fuel : ℕ) (rule : Rule) (start : Time)
    → rule.freq ≡ yearly
    → next_year fuel (record (second_state rule start) { count = 2 }) ≡ none
    → next fuel (second_state rule start) ≡ none
unfolding next advance advance_yearly new_iterator
yearly_second fuel rule start f h = ground arith

-- A yearly rule that starts on a February 29th, with an interval that leads to a year that is not a
-- leap year: `Expand` does not return, for no fuel is enough, if it goes past the first occurrence.
pub yearly_endless :
    (fuel : ℕ) (rule : Rule) (start event_end range_start range_end : Time)
    → rule.freq ≡ yearly
    → on_leap_day start ≡ true
    → is_leap ((date_of start).year + rule.interval) ≡ false
    → GoesOn rule start range_end
    → expand fuel rule start event_end range_start range_end ≡ none
unfolding new_iterator
yearly_endless fuel rule start event_end range_start range_end f leap common g =
    expand-none fuel rule start event_end range_start range_end (yearly_first fuel rule start f)
      (yearly_second fuel rule start f (
        next_year-lost fuel (record (second_state rule start) { count = 2 }) leap
          (skip_years_diverges fuel rule.interval _
            (omega (arith, leap_day_moved start rule.interval leap common)))))
      g
