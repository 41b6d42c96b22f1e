-- ===== src/Chore/Due.antt =====
-- The due date that `ComputeStatus` finds, and what its status says of it.
use gamwich.Prelude.{
  ℕ, ◌+◌, ◌*◌, ◌≤◌, ◌<◌, ◌≡◌, refl, ap, ◌++◌, inl, inr, true, false, Option, none, some, List, [],
  ◌∷◌, All, arith, ltb, Bool-cases, Option-cases,
}
use gamwich.Prelude.Int.{pos}
use gamwich.Prelude.Result.{ok}
use gamwich.Calendar.{Time, nanos_per_day, nanos_per_hour, day_of, make_time, add}
use gamwich.Calendar.Civil.{day_number-date_of_day}
use gamwich.Text.{is_empty, Text}
use gamwich.Recurrence.{Rule, Occurrence}
use gamwich.Recurrence.Rrule.{parse}
use gamwich.Recurrence.Expand.{expand}
use gamwich.Chore.{
  Status, pending, completed, overdue, not_due, Chore, start_of_day, current_due, done_since,
  status_from, event_end, compute_status,
}

-- The start of a day is the midnight at or before the time.
pub start_of_day-eq : (t : Time) → start_of_day t ≡ day_of t * nanos_per_day
unfolding start_of_day make_time
start_of_day-eq t = rw (day_number-date_of_day (day_of t)) omega arith

-- Where the search finds the current due date: the last of the occurrences that start before the
-- end of the day.
pub record IsCurrent (end : Time) (os : List Occurrence) (o : Occurrence) : Type 0 where
  pub earlier : List Occurrence
  pub later : List Occurrence
  pub among : os ≡ earlier ++ o ∷ later
  pub has_come : o.start < end
  pub rest_later : All (λ (p : Occurrence). end ≤ p.start) later

before_midnight :
    (t day : ℕ) → ltb (start_of_day t) (day * nanos_per_day) ≡ ltb t (day * nanos_per_day)
before_midnight t day = rw (start_of_day-eq t) ground arith

current_due-none :
    (day : ℕ) (os : List Occurrence)
    → current_due (day * nanos_per_day) os ≡ none
    → All (λ (p : Occurrence). day * nanos_per_day ≤ p.start) os
unfolding current_due
current_due-none day [] e = tt
current_due-none day (o ∷ os) e = elim (Option-cases (current_due (day * nanos_per_day) os)) [
  | inl p ↦ (ground (arith, p, before_midnight o.start day), current_due-none day os p)
  | inr (d, p) ↦ absurd (ground (arith, p))
]

current_due-found :
    (day : ℕ) (os : List Occurrence) (due : Time)
    → current_due (day * nanos_per_day) os ≡ some due
    → (o : Occurrence) × (due ≡ start_of_day o.start) × IsCurrent (day * nanos_per_day) os o
unfolding current_due
current_due-found day [] due e = absurd cc
current_due-found day (o ∷ os) due e = elim (Option-cases (current_due (day * nanos_per_day) os)) [
  | inl p ↦ (
    o,
    ground (arith, p),
    record {
      earlier = [];
      later = os;
      among = refl;
      has_come = ground (arith, p, before_midnight o.start day);
      rest_later = current_due-none day os p;
    },
  )
  | inr (d, p) ↦
      let (o', same, c) = current_due-found day os d p in
      (
        o',
        ground (arith, p),
        record {
          earlier = o ∷ c.earlier;
          later = c.later;
          among = ap (λ l. o ∷ l) c.among;
          has_come = c.has_come;
          rest_later = c.rest_later;
        },
      )
]

-- The meaning of a status on a day, for a chore with these occurrences: each constructor is one
-- status, with what it says of the due date and the last completion.
pub data Reading (day : ℕ) (last : Option Time) (os : List Occurrence)
    : Status → Option Time → Type 0 where
  nothing_due :
      All (λ (p : Occurrence). (day + 1) * nanos_per_day ≤ p.start) os
      → Reading day last os not_due none
  done :
      (o : Occurrence) (t : Time)
      → IsCurrent ((day + 1) * nanos_per_day) os o
      → last ≡ some t
      → day_of o.start ≤ day_of t
      → Reading day last os completed (some (start_of_day o.start))
  late :
      (o : Occurrence)
      → IsCurrent ((day + 1) * nanos_per_day) os o
      → ((t : Time) → last ≡ some t → day_of t < day_of o.start)
      → day_of o.start < day
      → Reading day last os overdue (some (start_of_day o.start))
  today :
      (o : Occurrence)
      → IsCurrent ((day + 1) * nanos_per_day) os o
      → ((t : Time) → last ≡ some t → day_of t < day_of o.start)
      → day_of o.start ≡ day
      → Reading day last os pending (some (start_of_day o.start))

-- A completion does not count towards the due date: it is of an earlier day.
not_done :
    (start : Time) (last : Option Time)
    → done_since (start_of_day start) last ≡ false
    → (t : Time) → last ≡ some t
    → day_of t < day_of start
not_done start none h t e = absurd cc
not_done start (some u) h t e =
    let same : u ≡ t = ground arith in ground (arith, start_of_day-eq start, start_of_day-eq u)

was_done :
    (start : Time) (last : Option Time)
    → done_since (start_of_day start) last ≡ true
    → (t : Time) × (last ≡ some t) × (day_of start ≤ day_of t)
was_done start none h = absurd cc
was_done start (some u) h = (u, refl, ground (arith, start_of_day-eq start, start_of_day-eq u))

status_from-Reading :
    (now : Time) (last : Option Time) (os : List Occurrence) (o : Occurrence)
    → IsCurrent ((day_of now + 1) * nanos_per_day) os o
    → (r : Status × Option Time) × (status_from
          (start_of_day now)
          last
          (some (start_of_day o.start))
        ≡ r)
      × Reading (day_of now) last os r.0 r.1
unfolding status_from
status_from-Reading now last os o c = elim (Bool-cases (done_since (start_of_day o.start) last)) [
  | inl d ↦
      let (t, is_last, le) = was_done o.start last d in
      ((completed, some (start_of_day o.start)), rw d refl, done o t c is_last le)
  | inr d ↦ elim (Bool-cases (ltb (start_of_day o.start) (start_of_day now))) [
    | inl l ↦ (
      (overdue, some (start_of_day o.start)),
      rw (d, l) refl,
      late o c (not_done o.start last d)
          (ground (arith, start_of_day-eq o.start, start_of_day-eq now)),
    )
    | inr l ↦ (
      (pending, some (start_of_day o.start)),
      rw (d, l) refl,
      today o c (not_done o.start last d)
          (ground (arith, c.has_come, start_of_day-eq o.start, start_of_day-eq now)),
    )
  ]
]

pub midnight_after :
    (now : Time)
    → add (start_of_day now) (pos (24 * nanos_per_hour)) ≡ (day_of now + 1) * nanos_per_day
midnight_after now = omega (arith, start_of_day-eq now)

pub parse-non_empty : (s : Text) (rule : Rule) → parse s ≡ ok rule → is_empty s ≡ false
unfolding parse
parse-non_empty [] rule e = absurd cc
parse-non_empty (c ∷ cs) rule e = refl

-- For a rule that parses and whose occurrences from the chore's creation to the second midnight
-- after the day's start are `os`, `ComputeStatus` returns, and its status means what it says: the
-- due date is the day of the last of them that starts before the end of today, "completed" is a
-- completion on that day or later, "overdue" and "pending" are a due day before today and today
-- without one, and "not due" is that none starts before the end of today.
pub compute_status-Reading :
    (fuel : ℕ) (chore : Chore) (last : Option Time) (now : Time) (rule : Rule)
    (os : List Occurrence)
    → parse chore.recurrence_rule ≡ ok rule
    → expand fuel rule chore.created_at
        (event_end chore)
        chore.created_at
        (add (start_of_day now) (pos (48 * nanos_per_hour)))
      ≡ some os
    → (r : Status × Option Time) × (compute_status fuel chore last now ≡ some r)
      × Reading (day_of now) last os r.0 r.1
unfolding compute_status status_from
compute_status-Reading fuel chore last now rule os parses expands =
    let has_rule : is_empty chore.recurrence_rule ≡ false =
      parse-non_empty chore.recurrence_rule rule parses in
    elim (Option-cases (current_due ((day_of now + 1) * nanos_per_day) os)) [
      | inl p ↦ (
        (not_due, none),
        ground (arith, has_rule, parses, expands, midnight_after now, p),
        nothing_due (current_due-none (day_of now + 1) os p),
      )
      | inr (due, p) ↦
          let (o, same, c) = current_due-found (day_of now + 1) os due p in
          let (r, is_r, reading) = status_from-Reading now last os o c in
          (r, ground (arith, has_rule, parses, expands, midnight_after now, p, same, is_r), reading)
    ]
