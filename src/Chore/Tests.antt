-- ===== src/Chore/Tests.antt =====
-- Witnesses for the chores: one for each Tuesday and Thursday.
use gamwich.Prelude.{
  ℕ, ◌+◌, ◌*◌, ◌≡◌, refl, inl, Bool, true, Option, none, some, List, [], ◌∷◌, arith,
}
use gamwich.Prelude.Int.{pos}
use gamwich.Prelude.Result.{ok}
use gamwich.Text.{codes}
use gamwich.Calendar.{Time, add, day_of, nanos_per_hour, nanos_per_day}
use gamwich.Recurrence.{Rule, daily, weekly, Occurrence}
use gamwich.Recurrence.Rrule.{parse, to_string}
use gamwich.Recurrence.Expand.{expand}
use gamwich.Recurrence.ByDay.{expand_by_day}
use gamwich.Recurrence.RoundTrip.{parse-to_string}
use gamwich.Chore.{Chore, Status, start_of_day, event_end, compute_status, is_due_on_date}
use gamwich.Chore.Due.{Reading, compute_status-Reading}
use gamwich.Chore.Shown.{FallsOn, is_due_on_date-FallsOn}

abbrev rule : Rule
rule = record {
  freq = weekly;
  interval = 1;
  by_day = 2 ∷ 4 ∷ [];
  by_month_day = 0;
  count = 0;
  until = none;
}

-- 2026-02-03, a Tuesday, at ten o'clock.
abbrev feb_3 : Time
feb_3 = 63937332000000000000

abbrev bins : Chore
bins = record {
  id = 1;
  title = codes "Bins";
  description = [];
  area_id = none;
  points = pos 5;
  recurrence_rule = to_string rule;
  assigned_to = none;
  sort_order = pos 0;
  created_at = feb_3;
  updated_at = feb_3;
}

rule_parses : parse bins.recurrence_rule ≡ ok rule
rule_parses = parse-to_string rule (record {
  interval_in = (omega arith, omega arith);
  weekdays = (omega arith, (omega arith, tt));
  month_day_in = omega arith;
  count_in = omega arith;
  until_in = tt;
})

-- Four days later.
abbrev feb_7 : Time
feb_7 = feb_3 + 4 * nanos_per_day

to_date :
    (from until : Time)
    → (os : List Occurrence) × (expand 2 rule feb_3 (event_end bins) from until ≡ some os)
to_date from until =
    let r =
      expand_by_day rule feb_3 (event_end bins) from until
        (record {
          is_weekly = refl;
          first_day = 2;
          other_days = 4 ∷ [];
          by_day_is = refl;
          weekdays = (omega arith, (omega arith, tt));
          interval_pos = omega arith;
        })
        (omega arith) in
    (r.0, r.1)

occurrences :
    (os : List Occurrence) × (expand 2 rule feb_3
        (event_end bins)
        feb_3
        (add (start_of_day feb_7) (pos (48 * nanos_per_hour)))
      ≡ some os)
occurrences = to_date feb_3 (add (start_of_day feb_7) (pos (48 * nanos_per_hour)))

compute_status-Reading_example :
    (r : Status × Option Time) × (compute_status 2 bins (some feb_3) feb_7 ≡ some r)
    × Reading (day_of feb_7) (some feb_3) occurrences.0 r.0 r.1
compute_status-Reading_example =
    compute_status-Reading 2 bins (some feb_3) feb_7 rule occurrences.0 rule_parses occurrences.1

-- Every third day.
abbrev third_day : Rule
third_day = record {
  freq = daily;
  interval = 3;
  by_day = [];
  by_month_day = 0;
  count = 0;
  until = none;
}

abbrev dishes : Chore
dishes = record bins { recurrence_rule = to_string third_day }

third_day_parses : parse dishes.recurrence_rule ≡ ok third_day
third_day_parses = parse-to_string third_day (record {
  interval_in = (omega arith, omega arith);
  weekdays = tt;
  month_day_in = omega arith;
  count_in = omega arith;
  until_in = tt;
})

is_due_on_date-FallsOn_example :
    (due : Bool) × (is_due_on_date 0 dishes feb_7 ≡ some due)
    × (due ≡ true → (k : ℕ) × FallsOn third_day feb_3 feb_7 k)
    × ((k : ℕ) → FallsOn third_day feb_3 feb_7 k → due ≡ true)
is_due_on_date-FallsOn_example =
    is_due_on_date-FallsOn 0 dishes third_day feb_7 third_day_parses (inl refl) (omega arith)
