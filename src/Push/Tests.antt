-- ===== src/Push/Tests.antt =====
-- Runs of the notifications at concrete inputs.
use gamwich.Prelude.{ℕ, ◌≡◌, refl, ◌*◌, Bool, false, some, List, [], ◌∷◌, length}
use gamwich.Prelude.Result.{ok}
use gamwich.Text.{Text, codes, itoa, digits}
use gamwich.Calendar.{Time, nanos_per_second}
use gamwich.Sql.{
  Table, statement, query, exec, pure, attempt, otherwise, ◌>>=◌, ◌>>◌, select, first, exists,
  update_where, order_by, insert_row,
}
use gamwich.Push.{PushSubscription, Reminded, PushDb}
use gamwich.Push.Store.{
  list_by_household, is_preference_enabled, preference_in, was_sent, record_sent, add_sent,
  list_upcoming_with_reminders, create_subscription, upsert_subscription, get_by_endpoint,
  get_by_id,
}
use gamwich.Push.Scheduler.{
  send, send_via, notify, notify_all, remind, remind_all, check_calendar_reminders, check_chore_due,
  send_grocery_notification,
}
use gamwich.Push.Once.{check_calendar_reminders-idempotent, check_chore_due-once}
use gamwich.Push.Audience.{Audience, send_grocery_notification-Audience}

abbrev subscription : ℕ → ℕ → ℕ → Text → PushSubscription
subscription id user_id household_id endpoint = record {
  id = id;
  user_id = user_id;
  household_id = household_id;
  endpoint = endpoint;
  p256dh_key = [];
  auth_key = [];
  device_name = [];
  created_at = 0;
}

abbrev dentist : Reminded
dentist = record {
  id = 3;
  title = codes "Dentist";
  start_time = 630 * nanos_per_second;
  reminder_minutes = some 10;
  cancelled = false;
}

abbrev table : {A : Type 0} → List A → Table A
table rows = record { rows = rows; last_id = 2 }

abbrev db : PushDb
db = record {
  subscriptions = table (subscription 1 1 1 (codes "p") ∷ subscription 2 2 1 (codes "q") ∷ []);
  preferences = table [];
  sent = [];
  events = dentist ∷ [];
  chores = codes "Dishes" ∷ [];
  deliveries = [];
}

abbrev gone : Text → Bool
gone endpoint = false

-- Both subscriptions get the reminder.
reminders : length (check_calendar_reminders gone 1 0 (db, [])).1.0.deliveries ≡ 2
unfolding check_calendar_reminders list_upcoming_with_reminders remind_all remind was_sent
    list_by_household notify_all notify is_preference_enabled preference_in send send_via
    record_sent add_sent exec query statement pure attempt otherwise ◌>>=◌ ◌>>◌ select first exists
    order_by insert_row itoa digits
reminders = refl

check_calendar_reminders-idempotent_example :
    let again = check_calendar_reminders gone 1 0 (db, []) in
    check_calendar_reminders gone 1 0 again.1 ≡ (ok tt, again.1)
check_calendar_reminders-idempotent_example = check_calendar_reminders-idempotent gone 1 0 db

abbrev day : Time → Text
day t = codes "1970-01-01"

check_chore_due-once_example :
    let first_look = check_chore_due gone day 1 0 (db, []) in
    check_chore_due gone day 1 (7200 * nanos_per_second) first_look.1 ≡ (ok tt, first_look.1)
check_chore_due-once_example =
    check_chore_due-once gone day 1 0 (7200 * nanos_per_second) db (codes "Dishes") [] refl refl
      refl

send_grocery_notification-Audience_example :
    Audience 1 2 db (send_grocery_notification gone 1 2 (codes "Milk") (db, [])).1.0
send_grocery_notification-Audience_example =
    send_grocery_notification-Audience gone 1 2 (codes "Milk") (db, [])

-- A device whose endpoint is stored stays with its first user, whoever subscribes it again.
same_user :
    (create_subscription 0 5 6 (codes "p") [] [] [] 8 (db, [])).0
    ≡ ok (some (subscription 1 1 1 (codes "p")))
unfolding create_subscription upsert_subscription get_by_endpoint get_by_id query statement ◌>>=◌
    exists first update_where
same_user = refl
