-- ===== src/Chore/Shown.antt =====
-- What `IsDueOnDate` says of the occurrences of a chore.
use mathlib.Core.List.{Memᴰ}
use gamwich.Prelude.{
  ℕ, ◌+◌, ◌*◌, ◌<◌, ◌≡◌, refl, Bool, true, false, some, List, [], ◌∷◌, All, arith,
}
use gamwich.Prelude.Int.{pos}
use gamwich.Prelude.Result.{ok}
use gamwich.Calendar.{Time, zero_time, nanos_per_day, nanos_per_hour, day_of, sub, add}
use gamwich.Recurrence.{Rule, Occurrence}
use gamwich.Recurrence.Rrule.{parse}
use gamwich.Recurrence.Expand.{is_past}
use gamwich.Recurrence.Series.{IsDue}
use gamwich.Recurrence.Steady.{steady, IsSteady, expand_steady}
use gamwich.Chore.{Chore, start_of_day, event_end, non_empty, is_due_on_date}
use gamwich.Chore.Due.{start_of_day-eq, midnight_after, parse-non_empty}

-- The `k`-th occurrence, from 0, of a steady rule is one that overlaps the day, taken to last an hour.
pub record FallsOn (rule : Rule) (created_at day : Time) (k : ℕ) : Type 0 where
  pub below_limit : k < 10000
  pub counted : 0 < rule.count → k < rule.count
  pub within_until : is_past rule.until (steady rule created_at k) ≡ false
  pub starts_before : steady rule created_at k < (day_of day + 1) * nanos_per_day
  pub ends_after : day_of day * nanos_per_day < steady rule created_at k + nanos_per_hour

hour_long : (t : Time) → sub (add t (pos nanos_per_hour)) t ≡ pos nanos_per_hour
unfolding sub
hour_long t = ground arith

module _ (rule : Rule) (chore : Chore) (day : Time) where
  abbrev Due : ℕ → Type 0
  Due =
      IsDue rule (steady rule chore.created_at) (sub (event_end chore) chore.created_at)
        (start_of_day day) (add (start_of_day day) (pos (24 * nanos_per_hour)))

  Due-FallsOn : (k : ℕ) → Due k → FallsOn rule chore.created_at day k
  Due-FallsOn k d =
      let hour = hour_long chore.created_at in
      record {
        below_limit = d.below_limit;
        counted = d.counted;
        within_until = d.within_until;
        starts_before = ground (arith, d.before_end, start_of_day-eq day, midnight_after day);
        ends_after = ground (arith, d.after_start, hour, start_of_day-eq day);
      }

  FallsOn-Due : (k : ℕ) → FallsOn rule chore.created_at day k → Due k
  FallsOn-Due k f =
      let hour = hour_long chore.created_at in
      record {
        below_limit = f.below_limit;
        counted = f.counted;
        within_until = f.within_until;
        before_end = ground (arith, f.starts_before, start_of_day-eq day, midnight_after day);
        after_start = ground (arith, f.ends_after, hour, start_of_day-eq day);
      }

non_empty_of_mem : (os : List Occurrence) (o : Occurrence) → Memᴰ o os → non_empty os ≡ true
non_empty_of_mem [] o m = elim m [ ]
non_empty_of_mem (x ∷ xs) o m = refl

first_of :
    (P : Occurrence → Type 0) (os : List Occurrence)
    → All P os
    → non_empty os ≡ true
    → (o : Occurrence) × P o
first_of P [] h e = absurd cc
first_of P (o ∷ os) (h, hs) e = (o, h)

-- For a chore whose rule is a daily one, or a weekly one with no BYDAY, and which was created after the
-- zero time, `IsDueOnDate` returns with any fuel. It is true exactly when an occurrence, the creation
-- moved by a number of intervals, overlaps the day where it is taken to last an hour; the occurrences
-- are those below the limit of 10000, within COUNT, and not after UNTIL.
pub is_due_on_date-FallsOn :
    (fuel : ℕ) (chore : Chore) (rule : Rule) (day : Time)
    → parse chore.recurrence_rule ≡ ok rule
    → IsSteady rule
    → zero_time < chore.created_at
    → (due : Bool) × (is_due_on_date fuel chore day ≡ some due)
      × (due ≡ true → (k : ℕ) × FallsOn rule chore.created_at day k)
      × ((k : ℕ) → FallsOn rule chore.created_at day k → due ≡ true)
unfolding is_due_on_date
is_due_on_date-FallsOn fuel chore rule day parses h real =
    let has_rule = parse-non_empty chore.recurrence_rule rule parses in
    let day_end = add (start_of_day day) (pos (24 * nanos_per_hour)) in
    let (found, expands, sound, complete) =
      expand_steady fuel rule chore.created_at (event_end chore) (start_of_day day) day_end h
        real in
    (
      non_empty found,
      ground (arith, has_rule, parses, expands),
      λ e. let r = first_of _ found sound e in (r.1.0, Due-FallsOn rule chore day r.1.0 r.1.1),
      λ k f. non_empty_of_mem found _ (complete k (FallsOn-Due rule chore day k f)),
    )
