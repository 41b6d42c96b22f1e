-- ===== src/Recurrence/OnDay.antt =====
-- `Expand` on monthly rules: it returns, and keeps to the day of the month.
use gamwich.Prelude.{
  ℕ, ◌+◌, ◌%◌, ◌≤◌, ◌<◌, ◌≡◌, ◌≢◌, ◌⊎◌, inl, inr, ◌∙◌, refl, true, false, some, List, All, arith,
  Bool-cases,
}
use gamwich.Calendar.{Time, date, date_of}
use gamwich.Calendar.Carry.{IsValid-date}
use gamwich.Calendar.Civil.{month_length_bounds}
use gamwich.Recurrence.{monthly, Rule, Iterator, Occurrence}
use gamwich.Recurrence.Advance.{
  at_base_clock, wanted_day, next_month, land_monthly, first, advance_monthly, advance,
  new_iterator, next, max_iterations,
}
use gamwich.Recurrence.Expand.{expand}
use gamwich.Recurrence.Monthly.{advance_monthly-day, next_month_total}
use gamwich.Recurrence.Total.{Gives, expand_total}

-- A monthly rule as `Parse` makes it, whose interval is not a number of whole years.
pub record IsMonthly (rule : Rule) : Type 0 where
  pub is_monthly : rule.freq ≡ monthly
  pub day_in : rule.by_month_day ≤ 31
  pub not_yearly : rule.interval % 12 ≢ 0

-- The day of the month that the rule asks for.
abbrev pub day_wanted : Rule → Time → ℕ
day_wanted rule start = wanted_day (new_iterator rule start)

record Ready (rule : Rule) (start : Time) (it : Iterator) : Type 0 where
  rule_is : it.rule ≡ rule
  base_is : it.base_start ≡ start
  first_is : it.started ≡ false → it.current ≡ start

-- The start of the event, or a time on the day of the month that the rule asks for.
abbrev pub IsStartOrOnDay : Rule → Time → Time → Type 0
IsStartOrOnDay rule start t = (t ≡ start) ⊎ ((date_of t).day ≡ day_wanted rule start)

wanted_day-le-31 : (it : Iterator) → it.rule.by_month_day ≤ 31 → wanted_day it ≤ 31
wanted_day-le-31 it h =
    let d = date_of it.base_start in
    ground (arith, (IsValid-date it.base_start).day_in.1, month_length_bounds d.year d.month)

next-monthly :
    (fuel : ℕ) (it : Iterator)
    → it.rule.freq ≡ monthly
    → it.count < max_iterations
    → next fuel it ≡ advance_monthly fuel (record it { count = it.count + 1 })
unfolding next advance
next-monthly fuel it f h = ground arith

advance_monthly-first :
    (fuel : ℕ) (it : Iterator) → it.started ≡ false → advance_monthly fuel it ≡ some (first it)
unfolding advance_monthly
advance_monthly-first fuel it e = rw e

advance_monthly-later :
    (fuel : ℕ) (it : Iterator) (found : Time)
    → it.started ≡ true
    → next_month fuel it ≡ some found
    → advance_monthly fuel it ≡ land_monthly it (some found)
unfolding advance_monthly
advance_monthly-later fuel it found e p = ground (arith, e, p)

wanted_day-Ready :
    (rule : Rule) (start : Time) (it : Iterator)
    → Ready rule start it
    → wanted_day it ≡ day_wanted rule start
unfolding new_iterator
wanted_day-Ready rule start it p = rw (p.rule_is, p.base_is)

Ready-Gives :
    (rule : Rule) (start : Time)
    → IsMonthly rule
    → (it : Iterator) → Ready rule start it
    → it.count < max_iterations
    → Gives (Ready rule start) (IsStartOrOnDay rule start) 5 it
Ready-Gives rule start r it p lt =
    let it' = record it { count = it.count + 1 } in
    let called = next-monthly 5 it (rw p.rule_is r.is_monthly) lt in
    elim (Bool-cases it.started) [
      | inr e ↦ record {
        time = it.current;
        after = record it' { started = true };
        gives = called ∙ advance_monthly-first 5 it' e;
        kept = record { rule_is = p.rule_is; base_is = p.base_is; first_is = λ c. cc };
        counted = refl;
        good = inl (p.first_is e);
      }
      | inl e ↦
          let (found, q) =
            next_month_total it' (wanted_day-le-31 it' (rw p.rule_is r.day_in))
              (rw p.rule_is r.not_yearly) in
          let d = date_of found in
          let landing = at_base_clock it.base_start (date d.year d.month (wanted_day it')) in
          let later = advance_monthly-later 5 it' found e q in
          let on_day =
            advance_monthly-day 5 it' (record it' { current = landing }) landing e later in
          record {
            time = landing;
            after = record it' { current = landing };
            gives = called ∙ later;
            kept = record {
              rule_is = p.rule_is;
              base_is = p.base_is;
              first_is = λ (c : it.started ≡ false). cc (e, c);
            };
            counted = refl;
            good = inr (on_day.0 ∙ wanted_day-Ready rule start it p);
          }
    ]

new_iterator-Ready : (rule : Rule) (start : Time) → Ready rule start (new_iterator rule start)
unfolding new_iterator
new_iterator-Ready rule start = record { rule_is = refl; base_is = refl; first_is = λ e. refl }

-- For a monthly rule whose interval is not a number of whole years `Expand` returns, with five
-- rounds of fuel for the search of a month, and every occurrence is the start of the event or falls
-- on the day of the month that the rule asks for.
pub expand_monthly :
    (rule : Rule) (start event_end range_start range_end : Time)
    → IsMonthly rule
    → (found : List Occurrence) × (expand 5 rule start event_end range_start range_end ≡ some found)
      × All (λ o. IsStartOrOnDay rule start o.start) found
expand_monthly rule start event_end range_start range_end r =
    expand_total 5 (Ready-Gives rule start r) rule range_start range_end start event_end
      (new_iterator-Ready rule start)
