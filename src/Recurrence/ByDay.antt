-- ===== src/Recurrence/ByDay.antt =====
-- `Expand` on weekly rules with BYDAY: it returns, and keeps to the days that the rule names.
use mathlib.Core.Path.{subst₂}
use gamwich.Prelude.{
  ℕ, ◌+◌, ◌≤◌, ◌<◌, ◌≡◌, inl, inr, ◌∙◌, ap, refl, true, not, some, List, All, arith, Bool-cases,
  if◌then◌else◌,
}
use gamwich.Calendar.{Time, day_of, weekday, zero_time}
use gamwich.Recurrence.{Rule, Iterator, Occurrence}
use gamwich.Recurrence.Advance.{
  length_leb, week_start, next_period, find_next_by_day, advance_weekly_by_day, advance,
  new_iterator, next, max_iterations,
}
use gamwich.Recurrence.Expand.{expand}
use gamwich.Recurrence.Weeks.{InWeek, next_period-InWeek, day_of-week_start, weekday-week_start}
use gamwich.Recurrence.Search.{IsByDay, IsOnDay, find_next_by_day_Finds, weekday-lt-7}
use gamwich.Recurrence.Total.{Gives, expand_total}

-- The iterator on which `advanceWeeklyByDay` calls `findNextByDay`.
searching : Iterator → Iterator
searching it =
    if not it.started
    then record it { started = true; current = week_start it.base_start; week_day_idx = 0 }
    else if length_leb it.rule.by_day (it.week_day_idx + 1)
    then next_period it
    else record it { week_day_idx = it.week_day_idx + 1 }

advance-searching :
    (fuel : ℕ) (it : Iterator)
    → IsByDay it.rule
    → advance fuel it ≡ find_next_by_day fuel (searching it)
unfolding advance advance_weekly_by_day searching
advance-searching fuel it r = ground (arith, r.is_weekly, r.by_day_is)

-- What holds of the iterator between two calls of `next`.
record Ready (rule : Rule) (start : Time) (it : Iterator) : Type 0 where
  rule_is : it.rule ≡ rule
  base_is : it.base_start ≡ start
  week : it.started ≡ true → InWeek it

first_week :
    (base : Time)
    → 12 ≤ day_of base
    → (weekday (week_start base) ≡ 1)
      × (day_of base < day_of (week_start base) + 7)
      × (6 ≤ day_of (week_start base))
first_week base h = (
  weekday-week_start base (omega arith),
  ground (arith, day_of-week_start base, weekday-lt-7 base),
  ground (arith, day_of-week_start base, weekday-lt-7 base),
)

-- The iterator that searches is in a week, with the rule, the start and the count as they were.
record IsReady (it : Iterator) : Type 0 where
  week : InWeek (searching it)
  rule_is : (searching it).rule ≡ it.rule
  base_is : (searching it).base_start ≡ it.base_start
  count_is : (searching it).count ≡ it.count

searching-IsReady :
    (it : Iterator) → 12 ≤ day_of it.base_start → (it.started ≡ true → InWeek it) → IsReady it
unfolding searching next_period
searching-IsReady it late w = elim (Bool-cases it.started) [
  | inr e ↦
      let (a, b, c) = first_week it.base_start late in
      record {
        week = rw e (record { monday = a; reached = b; late = c });
        rule_is = rw e;
        base_is = rw e;
        count_is = rw e;
      }
  | inl e ↦ elim (Bool-cases (length_leb it.rule.by_day (it.week_day_idx + 1))) [
    | inl past ↦ record {
      week = rw (e, past) (next_period-InWeek it (w e));
      rule_is = rw (e, past);
      base_is = rw (e, past);
      count_is = rw (e, past);
    }
    | inr more ↦ record {
      week = rw (e, more) (w e);
      rule_is = rw (e, more);
      base_is = rw (e, more);
      count_is = rw (e, more);
    }
  ]
]

next-advance :
    (fuel : ℕ) (it : Iterator)
    → it.count < max_iterations
    → next fuel it ≡ advance fuel (record it { count = it.count + 1 })
unfolding next
next-advance fuel it h = ground arith

Ready-Gives :
    (rule : Rule) (start : Time)
    → IsByDay rule
    → zero_time < start
    → (it : Iterator) → Ready rule start it
    → it.count < max_iterations
    → Gives (Ready rule start) (IsOnDay rule start) 2 it
Ready-Gives rule start r real it p lt =
    let it' = record it { count = it.count + 1 } in
    let same_rule : it'.rule ≡ rule = p.rule_is in
    let q = searching-IsReady it' (omega (arith, real, ap day_of p.base_is)) p.week in
    let f = find_next_by_day_Finds (searching it') (rw (q.rule_is, p.rule_is) r) q.week 0 in
    record {
      time = f.time;
      after = f.after;
      gives = next-advance 2 it lt ∙ advance-searching 2 it' (rw p.rule_is r) ∙ f.finds;
      kept = record {
        rule_is = f.same_rule ∙ q.rule_is ∙ p.rule_is;
        base_is = f.same_base ∙ q.base_is ∙ p.base_is;
        week = λ _. f.week;
      };
      counted = f.same_count ∙ q.count_is;
      good =
          subst₂ (λ x y. IsOnDay x y f.time) (q.rule_is ∙ p.rule_is) (q.base_is ∙ p.base_is)
            f.on_day;
    }

new_iterator-Ready : (rule : Rule) (start : Time) → Ready rule start (new_iterator rule start)
unfolding new_iterator
new_iterator-Ready rule start = record { rule_is = refl; base_is = refl; week = λ e. cc }

-- For a weekly rule with BYDAY `Expand` returns, with two rounds of fuel for `findNextByDay`, and
-- every occurrence falls on a day that the rule names and not before the start of the event. The
-- event starts after the zero time.
pub expand_by_day :
    (rule : Rule) (start event_end range_start range_end : Time)
    → IsByDay rule
    → zero_time < start
    → (found : List Occurrence) × (expand 2 rule start event_end range_start range_end ≡ some found)
      × All (λ o. IsOnDay rule start o.start) found
expand_by_day rule start event_end range_start range_end r real =
    expand_total 2 (Ready-Gives rule start r real) rule range_start range_end start event_end
      (new_iterator-Ready rule start)
