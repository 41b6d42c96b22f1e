-- ===== src/Recurrence/Steady.antt =====
-- Daily rules, and weekly rules with no BYDAY: occurrences at a fixed distance.
use gamwich.Prelude.{
  ℕ, zero, suc, ◌+◌, ◌*◌, ◌≤◌, ◌<◌, ◌≡◌, ◌⊎◌, ◌∙◌, refl, not, some, [], arith, ◌==◌, if◌then◌else◌,
}
use gamwich.Prelude.Int.{pos}
use gamwich.Calendar.{Time, nanos_per_day, add_date, zero_time}
use gamwich.Calendar.Times.{add_date_days}
use gamwich.Recurrence.{Freq, daily, weekly, Rule, Iterator}
use gamwich.Recurrence.Advance.{
  first, move_to, new_iterator, advance_daily, advance_weekly_simple, advance, next, max_iterations,
}
use gamwich.Recurrence.Series.{Series, ReturnsDue, expand-ReturnsDue}

-- The days from one occurrence to the next.
abbrev pub days_apart : Freq → ℕ → ℕ
days_apart weekly interval = 7 * interval
days_apart _ interval = interval

-- The start of the `k`-th occurrence, from 0.
abbrev pub steady : Rule → Time → ℕ → Time
steady rule start k = start + k * (days_apart rule.freq rule.interval * nanos_per_day)

-- Where `current` stands before the `k`-th occurrence.
abbrev current_before : Rule → Time → ℕ → Time
current_before rule start zero = start
current_before rule start (suc k) = steady rule start k

abbrev steady_state : Rule → Time → ℕ → Iterator
steady_state rule start k = record {
  rule = rule;
  base_start = start;
  current = current_before rule start k;
  week_day_idx = 0;
  started = not (k == 0);
  count = k;
}

-- The rules that this module is about.
abbrev pub IsSteady : Rule → Type 0
IsSteady rule = (rule.freq ≡ daily) ⊎ ((rule.freq ≡ weekly) × (rule.by_day ≡ []))

advance_steady :
    (fuel : ℕ) (it : Iterator)
    → IsSteady it.rule
    → advance fuel it
      ≡ some (
          if it.started
          then move_to it (add_date it.current 0 0 (pos (days_apart it.rule.freq it.rule.interval)))
          else first it)
unfolding advance advance_daily advance_weekly_simple
advance_steady fuel it h = ground arith

steady_step :
    (fuel : ℕ) (rule : Rule) (start : Time) (k : ℕ)
    → IsSteady rule
    → k < max_iterations
    → next fuel (steady_state rule start k)
      ≡ some (steady rule start k, steady_state rule start (k + 1))
unfolding next
steady_step fuel rule start zero f h =
    advance_steady fuel (record (steady_state rule start 0) { count = 1 }) f ∙ ground arith
steady_step fuel rule start (suc k) f h = ground (
  arith,
  advance_steady fuel (record (steady_state rule start (suc k)) { count = suc k + 1 }) f,
  add_date_days (steady rule start k) (days_apart rule.freq rule.interval),
)

steady_begins : (rule : Rule) (start : Time) → steady_state rule start 0 ≡ new_iterator rule start
unfolding new_iterator
steady_begins rule start = refl

steady_series : (fuel : ℕ) (rule : Rule) (start : Time) → IsSteady rule → Series fuel rule start
steady_series fuel rule start h = record {
  at = steady rule start;
  state = steady_state rule start;
  begins = steady_begins rule start;
  counts = λ k. refl;
  step = λ k lt. steady_step fuel rule start k h lt;
}

steady_mono :
    (rule : Rule) (start : Time) (i j : ℕ) → i ≤ j → steady rule start i ≤ steady rule start j
steady_mono rule start i j h = grind arith

-- For a daily rule, and a weekly one with no BYDAY, `Expand` always returns, with any fuel. With
-- `at k` the start moved by k intervals (of days or weeks), it returns exactly the occurrences
-- `at k`, for k below the limit of 10000 and below COUNT, that start no later than UNTIL and before
-- the end of the range, and end after its start. The event starts after the zero time.
pub expand_steady :
    (fuel : ℕ) (rule : Rule) (start event_end range_start range_end : Time)
    → IsSteady rule
    → zero_time < start
    → ReturnsDue (steady rule start) fuel rule start event_end range_start range_end
unfolding steady_series
expand_steady fuel rule start event_end range_start range_end h real =
    expand-ReturnsDue (steady_series fuel rule start h) event_end range_start range_end
      (steady_mono rule start) (omega arith)
