-- ===== src/Chore.antt =====
-- internal/chore/status.go and the record `Chore` of internal/model/chore.go. A result `none` stands
-- for a call of `Expand` that does not return.
pub mod Due
pub mod Shown
pub mod Tests
use gamwich.Prelude.{
  ℕ, ◌+◌, ◌*◌, Bool, true, false, not, Option, none, some, List, [], ◌∷◌, ltb, leb, if◌then◌else◌,
}
use gamwich.Prelude.Int.{ℤ, pos}
use gamwich.Prelude.Result.{Result, ok, err}
use gamwich.Text.{is_empty, Text}
use gamwich.Calendar.{Time, make_time, date_of, nanos_per_hour, add}
use gamwich.Recurrence.{Rule, Occurrence}
use gamwich.Recurrence.Rrule.{parse}
use gamwich.Recurrence.Expand.{expand}

pub data Status : Type 0 where
  pending completed overdue not_due : Status

pub record Chore : Type 0 where
  pub id : ℕ
  pub title : Text
  pub description : Text
  pub area_id : Option ℕ
  pub points : ℤ
  pub recurrence_rule : Text
  pub assigned_to : Option ℕ
  pub sort_order : ℤ
  pub created_at : Time
  pub updated_at : Time

unfoldable pub start_of_day : Time → Time
start_of_day t = make_time (date_of t) 0 0 0

-- The status of a chore without a usable rule.
abbrev pub one_off_status : Option Time → Status × Option Time
one_off_status none = (pending, none)
one_off_status (some t) = (completed, none)

-- The search from the last occurrence back for a day before `end_of_today`.
unfoldable pub current_due : Time → List Occurrence → Option Time
current_due end_of_today [] = none
current_due end_of_today (o ∷ os) = elim (current_due end_of_today os) [
  | some due ↦ some due
  | none ↦ if ltb (start_of_day o.start) end_of_today then some (start_of_day o.start) else none
]

-- `lastCompletion != nil && !startOfDay(*lastCompletion).Before(*currentDue)`
abbrev pub done_since : Time → Option Time → Bool
done_since due none = false
done_since due (some t) = leb due (start_of_day t)

unfoldable pub status_from : Time → Option Time → Option Time → Status × Option Time
status_from today last none = (not_due, none)
status_from today last (some due) =
    if done_since due last
    then (completed, some due)
    else if ltb due today
    then (overdue, some due)
    else (pending, some due)

-- The end of the one-hour event that stands for the chore.
abbrev pub event_end : Chore → Time
event_end chore = add chore.created_at (pos nanos_per_hour)

-- `ComputeStatus` for a rule that parses; `today` is a midnight.
abbrev recurring_status : ℕ → Chore → Rule → Option Time → Time → Option (Status × Option Time)
recurring_status fuel chore rule last today =
    elim (expand fuel rule chore.created_at (event_end chore) chore.created_at
      (add today (pos (48 * nanos_per_hour)))) [
        | none ↦ none
        | some os ↦
            some (status_from today last (current_due (add today (pos (24 * nanos_per_hour))) os))
      ]

unfoldable pub compute_status : ℕ → Chore → Option Time → Time → Option (Status × Option Time)
compute_status fuel chore last now =
    let today = start_of_day now in
    if is_empty chore.recurrence_rule
    then some (one_off_status last)
    else elim (parse chore.recurrence_rule) [
      | err e ↦ some (one_off_status last)
      | ok rule ↦ recurring_status fuel chore rule last today
    ]

abbrev pub non_empty {ℓ} : {A : Type ℓ} → List A → Bool
non_empty [] = false
non_empty (x ∷ xs) = true

unfoldable pub is_due_on_date : ℕ → Chore → Time → Option Bool
is_due_on_date fuel chore day =
    let day_start = start_of_day day in
    if is_empty chore.recurrence_rule then some true else elim (parse chore.recurrence_rule) [
      | err e ↦ some false
      | ok rule ↦
          elim (expand fuel rule chore.created_at (event_end chore) day_start
            (add day_start (pos (24 * nanos_per_hour)))) [
              | none ↦ none
              | some os ↦ some (non_empty os)
            ]
    ]
