-- ===== src/Recurrence/Weeks.antt =====
-- Weekly rules with BYDAY: the days of the week, and enough fuel.
use mathlib.Core.List.{Memᴰ}
use gamwich.Prelude.{
  ℕ, zero, suc, ◌+◌, ◌-◌, ◌*◌, ◌≤◌, ◌<◌, ◌≡◌, inl, inr, ◌∙◌, ap, refl, some, List, [], ◌∷◌, All,
  arith, Bool-cases, ltb,
}
use gamwich.Prelude.Int.{ℤ, pos, shift}
use gamwich.Calendar.{
  Time, Date, date, make_time, add_date, date_of, day_of, weekday, weekday_of_day, day_number,
}
use gamwich.Calendar.Civil.{day_number-date_of_day}
use gamwich.Calendar.Carry.{IsValid-date}
use gamwich.Calendar.Times.{day_of-make_time, add_date-shift, day_number_add}
use gamwich.Recurrence.{Iterator}
use gamwich.Recurrence.Advance.{
  monday_offset, negate, week_start, candidate, scan_week, next_period,
}

shift-negate : (n k : ℕ) → shift n (negate k) ≡ n - k
shift-negate n zero = omega arith
shift-negate n (suc k) = refl

-- The day of `t` moved by `n` days.
day_of-add_date : (t : Time) (n : ℤ) → day_of (add_date t 0 0 n) ≡ shift (day_of t) n
day_of-add_date t n = rw (add_date-shift t n) (omega arith)

midnight : (d : Date) → day_of (make_time d 0 0 0) ≡ day_number d.year d.month d.day
unfolding make_time
midnight d = omega arith

-- `weekStart` goes back to the Monday.
pub day_of-week_start : (t : Time) → day_of (week_start t) ≡ day_of t - monday_offset (weekday t)
unfolding week_start
day_of-week_start t =
    let back = add_date t 0 0 (negate (monday_offset (weekday t))) in
    midnight (date_of back)
    ∙ day_number-date_of_day (day_of back)
    ∙ day_of-add_date t (negate (monday_offset (weekday t)))
    ∙ shift-negate (day_of t) (monday_offset (weekday t))

-- An occurrence lies so many days past the Monday.
pub day_of-candidate :
    (base monday : Time) (d : ℕ)
    → day_of (candidate base monday d) ≡ day_of monday + monday_offset d
unfolding candidate
day_of-candidate base monday d =
    let m = date_of monday in
    day_of-make_time (date m.year m.month (m.day + monday_offset d)) base
    ∙ day_number_add m.year m.month m.day (monday_offset d) (IsValid-date monday).day_in.0
    ∙ ap (λ n. n + monday_offset d) (day_number-date_of_day (day_of monday))

pub weekday-week_start : (t : Time) → 6 ≤ day_of t → weekday (week_start t) ≡ 1
unfolding weekday_of_day
weekday-week_start t h = ground (arith, day_of-week_start t)

weekday-candidate :
    (base monday : Time) (d : ℕ)
    → weekday monday ≡ 1
    → d < 7
    → weekday (candidate base monday d) ≡ d
unfolding weekday_of_day
weekday-candidate base monday d h lt = ground (arith, day_of-candidate base monday d)

-- What holds of the iterator between two calls, once it has started: `current` is a Monday, and the
-- first occurrence lies in its week or before.
pub record InWeekOf (base current : Time) : Type 0 where
  pub monday : weekday current ≡ 1
  pub reached : day_of base < day_of current + 7
  pub late : 6 ≤ day_of current

abbrev pub InWeek : Iterator → Type 0
InWeek it = InWeekOf it.base_start it.current

-- A period on from a Monday is a Monday, so `weekStart` stays there.
day_of-next_period :
    (it : Iterator)
    → weekday it.current ≡ 1
    → day_of (next_period it).current ≡ day_of it.current + 7 * it.rule.interval
unfolding next_period weekday_of_day
day_of-next_period it m =
    let t = add_date it.current 0 0 (pos (7 * it.rule.interval)) in
    ground (arith, day_of-week_start t, day_of-add_date it.current (pos (7 * it.rule.interval)))

base_start-next_period : (it : Iterator) → (next_period it).base_start ≡ it.base_start
unfolding next_period
base_start-next_period it = refl

pub next_period-InWeek : (it : Iterator) → InWeek it → InWeek (next_period it)
unfolding weekday_of_day
next_period-InWeek it w = record {
  monday = omega (arith, day_of-next_period it w.monday, w.monday);
  reached =
      omega
        (arith, day_of-next_period it w.monday, ap day_of (base_start-next_period it), w.reached);
  late = omega (arith, day_of-next_period it w.monday, w.late);
}

-- From the next week period on, no occurrence lies before the first.
pub next_period-after :
    (it : Iterator)
    → InWeek it
    → 1 ≤ it.rule.interval
    → day_of it.base_start < day_of (next_period it).current
next_period-after it w h = omega (arith, day_of-next_period it w.monday)

-- The occurrence that a scan finds.
pub record Scanned (base monday : Time) (days : List ℕ) (t : Time) : Type 0 where
  pub weekday_in : Memᴰ (weekday t) days
  pub not_before : base ≤ t

pub scan_week-Scanned :
    (base monday : Time) (idx idx' : ℕ) (days : List ℕ) (t : Time)
    → weekday monday ≡ 1
    → All (λ d. d < 7) days
    → scan_week base monday idx days ≡ some (t, idx')
    → Scanned base monday days t
unfolding scan_week
scan_week-Scanned base monday idx idx' [] t m v e = cc
scan_week-Scanned base monday idx idx' (d ∷ ds) t m v e =
    elim (Bool-cases (ltb (candidate base monday d) base)) [
      | inl past ↦
          let rest =
            scan_week-Scanned base monday (idx + 1) idx' ds t m v.1 (ground (arith, past)) in
          record { weekday_in = Memᴰ.tail rest.weekday_in; not_before = rest.not_before }
      | inr here ↦
          let same : candidate base monday d ≡ t = ground (arith, here) in
          record {
            weekday_in = Memᴰ.head (rw (← same) (weekday-candidate base monday d m v.0));
            not_before = ground (arith, here);
          }
    ]

module _ (base monday : Time) (d : ℕ) (ds : List ℕ) where
  -- In a week that lies past the first occurrence the scan finds the first day.
  pub scan_week-first :
      day_of base < day_of monday
      → scan_week base monday 0 (d ∷ ds) ≡ some (candidate base monday d, 0)
  unfolding scan_week
  scan_week-first h = ground (arith, day_of-candidate base monday d)
