-- ===== src/Push/Scheduler.antt =====
-- internal/push/scheduler.go and `Send` of internal/push/push.go. `gone` says for which endpoints the
-- push service answers that the subscription has expired; every other failure to send is a fault.
use gamwich.Prelude.{
  ℕ, ◌+◌, ◌*◌, ◌/◌, ◌%◌, Bool, false, not, Option, none, some, List, [], ◌∷◌, ◌++◌, ◌==◌,
  if◌then◌else◌, length,
}
use gamwich.Prelude.Result.{Result, ok, err}
use gamwich.Text.{Text, codes, itoa}
use gamwich.Calendar.{Time, nanos_per_second}
use gamwich.Sql.{DbError, pure, statement, query, attempt, otherwise, ◌>>=◌, ◌>>◌}
use gamwich.Push.{
  PushSubscription, Reminded, Payload, PushDb, PushAction, calendar_reminder, chore_due,
  grocery_added,
}
use gamwich.Push.Store.{
  list_by_household, list_household_ids, delete_by_endpoint, is_preference_enabled, was_sent,
  record_sent, list_upcoming_with_reminders,
}

-- What `Send` returns, but for a failure: nil or `ErrExpired`.
pub data Sent : Type 0 where
  accepted expired : Sent

unfoldable pub send_via :
    (Text → Bool) → PushSubscription → Payload → PushDb → Result DbError Sent × PushDb
send_via gone sub payload s = if gone sub.endpoint then (ok expired, s) else (
  ok accepted,
  record s { deliveries = s.deliveries ++ record { subscription = sub; payload = payload } ∷ [] },
)

unfoldable pub send : (Text → Bool) → PushSubscription → Payload → PushAction Sent
send gone sub payload = statement (send_via gone sub payload)

abbrev pub after_send : Text → Result DbError Sent → PushAction (Unit {0})
after_send endpoint (ok accepted) = pure tt
after_send endpoint (ok expired) = otherwise tt (delete_by_endpoint endpoint)
after_send endpoint (err e) = pure tt

abbrev pub if_enabled : (Text → Bool) → PushSubscription → Payload → Bool → PushAction (Unit {0})
if_enabled gone sub payload enabled =
    if enabled then (attempt (send gone sub payload) >>= after_send sub.endpoint) else pure tt

-- The body of the loops over the subscriptions.
unfoldable pub notify :
    (Text → Bool) → ℕ → Text → Payload → PushSubscription → PushAction (Unit {0})
notify gone household_id kind payload sub =
    otherwise false (is_preference_enabled sub.user_id household_id kind)
    >>= if_enabled gone sub payload

unfoldable pub notify_all :
    (Text → Bool) → ℕ → Text → Payload → List PushSubscription → PushAction (Unit {0})
notify_all gone household_id kind payload [] = pure tt
notify_all gone household_id kind payload (sub ∷ subs) =
    notify gone household_id kind payload sub >> notify_all gone household_id kind payload subs

-- From the subscriptions on: the notifications, and the record of them.
abbrev pub deliver :
    (Text → Bool)
    → ℕ
    → Text
    → Text
    → ℕ
    → Time
    → Payload
    → Result DbError (List PushSubscription)
    → PushAction (Unit {0})
deliver gone household_id kind ref_id lead_time now payload (err e) = pure tt
deliver gone household_id kind ref_id lead_time now payload (ok subs) =
    notify_all gone household_id kind payload subs
    >> otherwise tt (record_sent household_id kind ref_id lead_time now)

abbrev pub event_ref : ℕ → Text
event_ref id = codes "event-" ++ itoa id

abbrev pub reminder_payload : Reminded → ℕ → Payload
reminder_payload e lead_time = record {
  title = codes "Calendar Reminder";
  body = e.title ++ codes " starts in " ++ itoa lead_time ++ codes " minutes";
  url = codes "/calendar";
  tag = codes "calendar-" ++ itoa e.id;
}

abbrev pub unless_reminded :
    (Text → Bool) → ℕ → Time → Reminded → ℕ → Result DbError Bool → PushAction (Unit {0})
unless_reminded gone household_id now e lead_time (err x) = pure tt
unless_reminded gone household_id now e lead_time (ok sent) =
    if sent
    then pure tt
    else (attempt (list_by_household household_id)
        >>= deliver gone household_id calendar_reminder (event_ref e.id) lead_time now
            (reminder_payload e lead_time))

abbrev pub remind_before : (Text → Bool) → ℕ → Time → Reminded → Option ℕ → PushAction (Unit {0})
remind_before gone household_id now e none = pure tt
remind_before gone household_id now e (some lead_time) =
    attempt (was_sent household_id calendar_reminder (event_ref e.id) lead_time)
    >>= unless_reminded gone household_id now e lead_time

-- The body of the loop over the events.
unfoldable pub remind : (Text → Bool) → ℕ → Time → Reminded → PushAction (Unit {0})
remind gone household_id now e = remind_before gone household_id now e e.reminder_minutes

unfoldable pub remind_all : (Text → Bool) → ℕ → Time → List Reminded → PushAction (Unit {0})
remind_all gone household_id now [] = pure tt
remind_all gone household_id now (e ∷ es) =
    remind gone household_id now e >> remind_all gone household_id now es

abbrev pub window_end : Time → Time
window_end now = now + 60 * nanos_per_second

unfoldable pub check_calendar_reminders : (Text → Bool) → ℕ → Time → PushAction (Unit {0})
check_calendar_reminders gone household_id now =
    otherwise tt
      (list_upcoming_with_reminders now (window_end now) >>= remind_all gone household_id now)

abbrev pub chore_body : List Text → Text
chore_body [] = codes "You have 0 chores to do today"
chore_body (c ∷ []) = codes "Chore due today: " ++ c
chore_body (c ∷ d ∷ cs) =
    codes "You have " ++ itoa (length (c ∷ d ∷ cs)) ++ codes " chores to do today"

abbrev pub chore_payload : List Text → Payload
chore_payload titles = record {
  title = codes "Chore Reminders";
  body = chore_body titles;
  url = codes "/chores";
  tag = codes "chore-daily";
}

abbrev pub with_chores :
    (Text → Bool) → ℕ → Time → Text → Result DbError (List Text) → PushAction (Unit {0})
with_chores gone household_id now ref_id (err e) = pure tt
with_chores gone household_id now ref_id (ok []) = pure tt
with_chores gone household_id now ref_id (ok (c ∷ cs)) =
    attempt (list_by_household household_id)
    >>= deliver gone household_id chore_due ref_id 0 now (chore_payload (c ∷ cs))

abbrev pub unless_done :
    (Text → Bool) → ℕ → Time → Text → Result DbError Bool → PushAction (Unit {0})
unless_done gone household_id now ref_id (err e) = pure tt
unless_done gone household_id now ref_id (ok sent) =
    if sent
    then pure tt
    else (attempt (query (λ (s : PushDb). s.chores)) >>= with_chores gone household_id now ref_id)

abbrev pub minute_of : Time → ℕ
minute_of t = t / (60 * nanos_per_second) % 60

-- `chore-daily-` and the day, which `day` writes as `Format` does.
abbrev pub chore_ref : (Time → Text) → Time → Text
chore_ref day now = codes "chore-daily-" ++ day now

unfoldable pub check_chore_due : (Text → Bool) → (Time → Text) → ℕ → Time → PushAction (Unit {0})
check_chore_due gone day household_id now =
    if not (minute_of now == 0)
    then pure tt
    else (attempt (was_sent household_id chore_due (chore_ref day now) 0)
        >>= unless_done gone household_id now (chore_ref day now))

abbrev check_households : (Text → Bool) → (Time → Text) → Time → List ℕ → PushAction (Unit {0})
check_households gone day now [] = pure tt
check_households gone day now (h ∷ hs) =
    check_calendar_reminders gone h now
    >> check_chore_due gone day h now
    >> check_households gone day now hs

unfoldable pub tick : (Text → Bool) → (Time → Text) → Time → PushAction (Unit {0})
tick gone day now = otherwise tt (list_household_ids >>= check_households gone day now)

abbrev pub grocery_payload : Text → Payload
grocery_payload item_name = record {
  title = codes "Grocery List Updated";
  body = item_name ++ codes " was added to the grocery list";
  url = codes "/grocery";
  tag = codes "grocery-added";
}

abbrev pub notify_others :
    (Text → Bool) → ℕ → ℕ → Payload → List PushSubscription → PushAction (Unit {0})
notify_others gone household_id exclude_user_id payload [] = pure tt
notify_others gone household_id exclude_user_id payload (sub ∷ subs) =
    (if sub.user_id == exclude_user_id
      then pure tt
      else notify gone household_id grocery_added payload sub)
    >> notify_others gone household_id exclude_user_id payload subs

unfoldable pub send_grocery_notification : (Text → Bool) → ℕ → ℕ → Text → PushAction (Unit {0})
send_grocery_notification gone household_id exclude_user_id item_name = otherwise tt (
    list_by_household household_id
    >>= notify_others gone household_id exclude_user_id (grocery_payload item_name))
