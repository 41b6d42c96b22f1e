-- ===== src/Recurrence/Search.antt =====
-- Weekly rules with BYDAY: `findNextByDay` ends, on a day that the rule names.
use mathlib.Core.List.{Memᴰ}
use gamwich.Prelude.{
  ℕ, zero, suc, ◌≤◌, ◌<◌, ◌≡◌, inl, inr, ◌∙◌, refl, none, some, List, [], ◌∷◌, drop, All, arith,
  Option-cases,
}
use gamwich.Calendar.{Time, weekday, weekday_of_day}
use gamwich.Recurrence.{weekly, Rule, Iterator}
use gamwich.Recurrence.Advance.{candidate, scan_week, next_period, find_next_by_day}
use gamwich.Recurrence.Weeks.{
  InWeek, scan_week-Scanned, scan_week-first, next_period-InWeek, next_period-after,
}

-- A weekly rule as `Parse` makes it, with BYDAY.
pub record IsByDay (rule : Rule) : Type 0 where
  pub is_weekly : rule.freq ≡ weekly
  pub first_day : ℕ
  pub other_days : List ℕ
  pub by_day_is : rule.by_day ≡ first_day ∷ other_days
  pub weekdays : All (λ d. d < 7) rule.by_day
  pub interval_pos : 1 ≤ rule.interval

All-drop : (n : ℕ) (xs : List ℕ) → All (λ d. d < 7) xs → All (λ d. d < 7) (drop n xs)
All-drop zero xs h = h
All-drop (suc n) [] h = h
All-drop (suc n) (x ∷ xs) h = All-drop n xs h.1

Memᴰ-drop : (n : ℕ) (xs : List ℕ) {d : ℕ} → Memᴰ d (drop n xs) → Memᴰ d xs
Memᴰ-drop zero xs m = m
Memᴰ-drop (suc n) [] m = m
Memᴰ-drop (suc n) (x ∷ xs) m = Memᴰ.tail (Memᴰ-drop n xs m)

-- An occurrence on a day of the rule, not before the first.
pub record IsOnDay (rule : Rule) (start t : Time) : Type 0 where
  pub weekday_in : Memᴰ (weekday t) rule.by_day
  pub not_before : start ≤ t

-- A search that ends.
pub record Finds (fuel : ℕ) (it : Iterator) : Type 0 where
  pub time : Time
  pub after : Iterator
  pub finds : find_next_by_day fuel it ≡ some (time, after)
  pub week : InWeek after
  pub on_day : IsOnDay it.rule it.base_start time
  pub same_rule : after.rule ≡ it.rule
  pub same_base : after.base_start ≡ it.base_start
  pub same_count : after.count ≡ it.count
  pub same_started : after.started ≡ it.started

next_find :
    (fuel : ℕ) (it : Iterator)
    → scan_week it.base_start it.current it.week_day_idx (drop it.week_day_idx it.rule.by_day)
      ≡ none
    → find_next_by_day (suc fuel) it ≡ find_next_by_day fuel (next_period it)
unfolding find_next_by_day
next_find fuel it e = rw (e, find_next_by_day)

here_Finds :
    (it : Iterator)
    → IsByDay it.rule
    → InWeek it
    → (fuel : ℕ) (t : Time) (idx : ℕ)
    → scan_week it.base_start it.current it.week_day_idx (drop it.week_day_idx it.rule.by_day)
      ≡ some (t, idx)
    → Finds (suc fuel) it
unfolding find_next_by_day
here_Finds it r w fuel t idx e =
    let s =
      scan_week-Scanned it.base_start it.current it.week_day_idx idx
        (drop it.week_day_idx it.rule.by_day) t w.monday
        (All-drop it.week_day_idx it.rule.by_day r.weekdays) e in
    record {
      time = t;
      after = record it { week_day_idx = idx };
      finds = rw (e, find_next_by_day);
      week = w;
      on_day = record {
        weekday_in = Memᴰ-drop it.week_day_idx it.rule.by_day s.weekday_in;
        not_before = s.not_before;
      };
      same_rule = refl;
      same_base = refl;
      same_count = refl;
      same_started = refl;
    }

pub weekday-lt-7 : (t : Time) → weekday t < 7
unfolding weekday_of_day
weekday-lt-7 t = omega arith

module _ (it : Iterator) (r : IsByDay it.rule) (w : InWeek it) where
  there_Finds :
      (fuel : ℕ)
      → scan_week it.base_start it.current it.week_day_idx (drop it.week_day_idx it.rule.by_day)
        ≡ none
      → Finds (suc (suc fuel)) it
  unfolding next_period
  there_Finds fuel e =
      let after_first =
        scan_week-first it.base_start (next_period it).current r.first_day r.other_days
          (next_period-after it w r.interval_pos) in
      let f =
        here_Finds (next_period it) r (next_period-InWeek it w) fuel
          (candidate it.base_start (next_period it).current r.first_day) 0
          (rw r.by_day_is after_first) in
      record {
        time = f.time;
        after = f.after;
        finds = next_find (suc fuel) it e ∙ f.finds;
        week = f.week;
        on_day = f.on_day;
        same_rule = f.same_rule;
        same_base = f.same_base;
        same_count = f.same_count;
        same_started = f.same_started;
      }

  -- Two rounds of fuel are enough for `findNextByDay`.
  pub find_next_by_day_Finds : (fuel : ℕ) → Finds (suc (suc fuel)) it
  find_next_by_day_Finds fuel =
      elim (Option-cases (
        scan_week it.base_start it.current it.week_day_idx (drop it.week_day_idx it.rule.by_day))) [
          | inl e ↦ there_Finds fuel e
          | inr ((t, idx), e) ↦ here_Finds it r w (suc fuel) t idx e
        ]
