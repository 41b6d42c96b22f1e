-- ===== src/Recurrence/Advance.antt =====
-- internal/recurrence/expand.go: the iterator. Its unbounded loops take fuel, the first argument;
-- `none` means that the fuel ran out.
use gamwich.Prelude.{
  ℕ, zero, suc, ◌+◌, ◌-◌, ◌*◌, Bool, true, false, not, ◌&&◌, Option, none, some, List, [], ◌∷◌, ltb,
  leb, ◌==◌, if◌then◌else◌, drop,
}
use gamwich.Prelude.Int.{ℤ, pos, negsuc}
use gamwich.Calendar.{
  Time, Date, date, day_number, date_of_day, make_time, add_date, date_of, weekday, hour, minute,
  second, zero_time,
}
use gamwich.Recurrence.{Freq, daily, weekly, monthly, yearly, Rule, Iterator}

unfoldable pub new_iterator : Rule → Time → Iterator
new_iterator rule start = record {
  rule = rule;
  base_start = start;
  current = start;
  week_day_idx = 0;
  started = false;
  count = 0;
}

unfoldable pub days_in_month : ℕ → ℕ → ℕ
days_in_month y m = (date_of_day (day_number y (m + 1) 0)).day

-- How many days the weekday `d` lies past the Monday of its week.
abbrev pub monday_offset : ℕ → ℕ
monday_offset d = if ltb d 1 then d + 7 - 1 else d - 1

-- `-n` as an integer.
abbrev pub negate : ℕ → ℤ
negate zero = pos 0
negate (suc n) = negsuc n

unfoldable pub week_start : Time → Time
week_start t =
    let monday = date_of (add_date t 0 0 (negate (monday_offset (weekday t)))) in
    make_time monday 0 0 0

-- The clock of the first occurrence, on another date.
abbrev pub at_base_clock : Time → Date → Time
at_base_clock base d = make_time d (hour base) (minute base) (second base)

-- The current occurrence, for the first call of an `advance` method.
abbrev pub first : Iterator → Time × Iterator
first it = (it.current, record it { started = true })

abbrev pub move_to : Iterator → Time → Time × Iterator
move_to it t = (t, record it { current = t })

unfoldable pub advance_daily : Iterator → Time × Iterator
advance_daily it =
    if it.started then move_to it (add_date it.current 0 0 (pos it.rule.interval)) else first it

unfoldable pub advance_weekly_simple : Iterator → Time × Iterator
advance_weekly_simple it =
    if it.started
    then move_to it (add_date it.current 0 0 (pos (7 * it.rule.interval)))
    else first it

-- The occurrence on weekday `d` of the week that starts at `monday`.
unfoldable pub candidate : Time → Time → ℕ → Time
candidate base monday d =
    let m = date_of monday in at_base_clock base (date m.year m.month (m.day + monday_offset d))

-- The `for` loop of `findNextByDay`, over the days from index `idx` on.
unfoldable pub scan_week : Time → Time → ℕ → List ℕ → Option (Time × ℕ)
scan_week base monday idx [] = none
scan_week base monday idx (d ∷ ds) =
    let later = scan_week base monday (idx + 1) ds in
    if ltb (candidate base monday d) base then later else some (candidate base monday d, idx)

-- `it.current` moved on to the start of the next week period.
unfoldable pub next_period : Iterator → Iterator
next_period it = record it {
  current = week_start (add_date it.current 0 0 (pos (7 * it.rule.interval)));
  week_day_idx = 0;
}

unfoldable pub find_next_by_day : ℕ → Iterator → Option (Time × Iterator)
find_next_by_day zero it = none
find_next_by_day (suc fuel) it =
    elim (scan_week it.base_start it.current it.week_day_idx
      (drop it.week_day_idx it.rule.by_day)) [
        | some (t, idx) ↦ some (t, record it { week_day_idx = idx })
        | none ↦ find_next_by_day fuel (next_period it)
      ]

abbrev pub length_leb : List ℕ → ℕ → Bool
length_leb [] n = true
length_leb (x ∷ xs) zero = false
length_leb (x ∷ xs) (suc n) = length_leb xs n

unfoldable pub advance_weekly_by_day : ℕ → Iterator → Option (Time × Iterator)
advance_weekly_by_day fuel it =
    let idx = it.week_day_idx + 1 in
    if not it.started
    then find_next_by_day fuel
        (record it { started = true; current = week_start it.base_start; week_day_idx = 0 })
    else if length_leb it.rule.by_day idx
    then find_next_by_day fuel (next_period it)
    else find_next_by_day fuel (record it { week_day_idx = idx })

-- The inner `for` of `advanceMonthly`: on to a month that has the day.
unfoldable pub skip_months : ℕ → ℕ → ℕ → Time → Option Time
skip_months zero interval day t = none
skip_months (suc fuel) interval day t =
    let next = add_date t 0 interval (pos 0) in
    elim (leb day (days_in_month (date_of next).year (date_of next).month)) [
      | true ↦ some next
      | false ↦ skip_months fuel interval day next
    ]

-- The day of the month that a monthly rule asks for.
abbrev pub wanted_day : Iterator → ℕ
wanted_day it =
    if it.rule.by_month_day == 0 then (date_of it.base_start).day else it.rule.by_month_day

-- The month of the next occurrence, as a time in it.
unfoldable pub next_month : ℕ → Iterator → Option Time
next_month fuel it =
    let next = add_date it.current 0 it.rule.interval (pos 0) in
    if ltb (days_in_month (date_of next).year (date_of next).month) (wanted_day it)
    then skip_months fuel it.rule.interval (wanted_day it) next
    else some next

abbrev pub land_monthly : Iterator → Option Time → Option (Time × Iterator)
land_monthly it none = none
land_monthly it (some next) =
    let d = date_of next in
    some (move_to it (at_base_clock it.base_start (date d.year d.month (wanted_day it))))

unfoldable pub advance_monthly : ℕ → Iterator → Option (Time × Iterator)
advance_monthly fuel it =
    if it.started then land_monthly it (next_month fuel it) else some (first it)

-- The `for` of `advanceYearly`: on to a year with a day 29.
unfoldable pub skip_years : ℕ → ℕ → Time → Option Time
skip_years zero interval t = none
skip_years (suc fuel) interval t = elim ((date_of t).day == 29) [
  | true ↦ some t
  | false ↦ skip_years fuel interval (add_date t interval 0 (pos 0))
]

-- Whether the series starts on a February 29th.
unfoldable pub on_leap_day : Time → Bool
on_leap_day t = (date_of t).month == 2 && (date_of t).day == 29

unfoldable pub next_year : ℕ → Iterator → Option Time
next_year fuel it =
    let next = add_date it.current it.rule.interval 0 (pos 0) in
    if on_leap_day it.base_start then skip_years fuel it.rule.interval next else some next

abbrev pub land_yearly : Iterator → Option Time → Option (Time × Iterator)
land_yearly it none = none
land_yearly it (some next) = some (move_to it next)

unfoldable pub advance_yearly : ℕ → Iterator → Option (Time × Iterator)
advance_yearly fuel it = if it.started then land_yearly it (next_year fuel it) else some (first it)

advance_weekly : ℕ → List ℕ → Iterator → Option (Time × Iterator)
advance_weekly fuel [] it = some (advance_weekly_simple it)
advance_weekly fuel (d ∷ ds) it = advance_weekly_by_day fuel it

dispatch : ℕ → Freq → Iterator → Option (Time × Iterator)
unfolding advance_weekly
dispatch fuel daily it = some (advance_daily it)
dispatch fuel weekly it = advance_weekly fuel it.rule.by_day it
dispatch fuel monthly it = advance_monthly fuel it
dispatch fuel yearly it = advance_yearly fuel it

unfoldable pub advance : ℕ → Iterator → Option (Time × Iterator)
unfolding dispatch
advance fuel it = dispatch fuel it.rule.freq it

abbrev pub max_iterations : ℕ
max_iterations = 10000

unfoldable pub next : ℕ → Iterator → Option (Time × Iterator)
next fuel it =
    if ltb it.count max_iterations
    then advance fuel (record it { count = it.count + 1 })
    else some (zero_time, it)
