-- ===== src/Push/Store.antt =====
-- internal/store/push.go, and `ListUpcomingWithReminders` of internal/store/calendar_event.go.
use gamwich.Prelude.{
  ℕ, suc, ◌+◌, ◌*◌, ◌/◌, Bool, true, false, not, ◌&&◌, Option, none, some, List, [], ◌∷◌, ◌++◌, ltb,
  leb, ◌==◌, if◌then◌else◌,
}
use gamwich.Prelude.Result.{Result, ok}
use gamwich.Text.{Text, text_eq}
use gamwich.Calendar.{Time, nanos_per_second}
use gamwich.Sql.{
  DbError, insert, with_rows, statement, query, exec, ◌>>=◌, select, first, exists, update_where,
  delete_where, order_by,
}
use gamwich.Push.{
  PushSubscription, NotificationPreference, SentNotification, Reminded, PushDb, PushAction,
}

-- Subscriptions

abbrev pub set_subscriptions : List PushSubscription → PushDb → PushDb
set_subscriptions rows s = record s { subscriptions = with_rows rows s.subscriptions }

abbrev has_endpoint : Text → PushSubscription → Bool
has_endpoint endpoint r = text_eq r.endpoint endpoint

abbrev new_subscription : ℕ → ℕ → Text → Text → Text → Text → Time → ℕ → PushSubscription
new_subscription user_id household_id endpoint p256dh auth device_name now id = record {
  id = id;
  user_id = user_id;
  household_id = household_id;
  endpoint = endpoint;
  p256dh_key = p256dh;
  auth_key = auth;
  device_name = device_name;
  created_at = now;
}

-- The keys and the name of the device; the user and the household stay.
abbrev set_keys : Text → Text → Text → PushSubscription → PushSubscription
set_keys p256dh auth device_name r = record r {
  p256dh_key = p256dh;
  auth_key = auth;
  device_name = device_name;
}

-- The `INSERT … ON CONFLICT`, with the id that the driver reports; after an update that is `reported`.
unfoldable pub upsert_subscription :
    ℕ → ℕ → ℕ → Text → Text → Text → Text → Time → PushDb → Result DbError ℕ × PushDb
upsert_subscription reported user_id household_id endpoint p256dh auth device_name now s =
    if exists (has_endpoint endpoint) s.subscriptions.rows
    then (
      ok reported,
      set_subscriptions
          (update_where (has_endpoint endpoint) (set_keys p256dh auth device_name)
            s.subscriptions.rows)
          s,
    )
    else (
      ok (suc s.subscriptions.last_id),
      record s {
        subscriptions =
            insert (new_subscription user_id household_id endpoint p256dh auth device_name now)
              s.subscriptions;
      },
    )

abbrev is_of_household : ℕ → ℕ → PushSubscription → Bool
is_of_household id household_id r = r.id == id && r.household_id == household_id

unfoldable pub get_by_id : ℕ → ℕ → PushAction (Option PushSubscription)
get_by_id id household_id =
    query (λ (s : PushDb). first (is_of_household id household_id) s.subscriptions.rows)

unfoldable pub get_by_endpoint : Text → PushAction (Option PushSubscription)
get_by_endpoint endpoint =
    query (λ (s : PushDb). first (has_endpoint endpoint) s.subscriptions.rows)

unfoldable pub create_subscription :
    ℕ → ℕ → ℕ → Text → Text → Text → Text → Time → PushAction (Option PushSubscription)
create_subscription reported user_id household_id endpoint p256dh auth device_name now =
    statement
      (upsert_subscription reported user_id household_id endpoint p256dh auth device_name now)
    >>= λ id. if id == 0 then get_by_endpoint endpoint else get_by_id id household_id

abbrev newest_first : PushSubscription → PushSubscription → Bool
newest_first r q = ltb q.created_at r.created_at

unfoldable pub list_by_user : ℕ → ℕ → PushAction (List PushSubscription)
list_by_user user_id household_id = query (λ (s : PushDb). order_by newest_first (
    select (λ (r : PushSubscription). r.user_id == user_id && r.household_id == household_id)
      s.subscriptions.rows))

-- The subscriptions of a household, the newest first.
abbrev pub subscribers : ℕ → PushDb → List PushSubscription
subscribers household_id s =
    order_by newest_first
      (select (λ (r : PushSubscription). r.household_id == household_id) s.subscriptions.rows)

unfoldable pub list_by_household : ℕ → PushAction (List PushSubscription)
list_by_household household_id = query (subscribers household_id)

unfoldable pub delete_subscription : ℕ → ℕ → PushAction (Unit {0})
delete_subscription id household_id = exec (λ (s : PushDb).
    set_subscriptions (delete_where (is_of_household id household_id) s.subscriptions.rows) s)

unfoldable pub delete_by_endpoint : Text → PushAction (Unit {0})
delete_by_endpoint endpoint = exec (λ (s : PushDb).
    set_subscriptions (delete_where (has_endpoint endpoint) s.subscriptions.rows) s)

-- `SELECT DISTINCT household_id`
abbrev distinct_households : List PushSubscription → List ℕ
distinct_households [] = []
distinct_households (r ∷ rs) =
    let rest = distinct_households rs in
    if exists (λ (q : PushSubscription). q.household_id == r.household_id) rs
    then rest
    else r.household_id ∷ rest

unfoldable pub list_household_ids : PushAction (List ℕ)
list_household_ids = query (λ (s : PushDb). distinct_households s.subscriptions.rows)

-- Preferences

abbrev is_preference : ℕ → ℕ → Text → NotificationPreference → Bool
is_preference user_id household_id kind r =
    r.user_id == user_id && r.household_id == household_id && text_eq r.notification_type kind

unfoldable pub get_preferences : ℕ → ℕ → PushAction (List NotificationPreference)
get_preferences user_id household_id = query (λ (s : PushDb).
    select (λ (r : NotificationPreference). r.user_id == user_id && r.household_id == household_id)
      s.preferences.rows)

abbrev new_preference : ℕ → ℕ → Text → Bool → Time → ℕ → NotificationPreference
new_preference user_id household_id kind enabled now id = record {
  id = id;
  user_id = user_id;
  household_id = household_id;
  notification_type = kind;
  enabled = enabled;
  created_at = now;
  updated_at = now;
}

-- The trigger of the table keeps the time of an update.
unfoldable pub upsert_preference : ℕ → ℕ → Text → Bool → Time → PushDb → PushDb
upsert_preference user_id household_id kind enabled now s =
    if exists (is_preference user_id household_id kind) s.preferences.rows
    then record s {
      preferences =
          with_rows
            (update_where (is_preference user_id household_id kind)
              (λ (r : NotificationPreference). record r { enabled = enabled; updated_at = now })
              s.preferences.rows)
            s.preferences;
    }
    else record s {
      preferences = insert (new_preference user_id household_id kind enabled now) s.preferences;
    }

unfoldable pub set_preference : ℕ → ℕ → Text → Bool → Time → PushAction (Unit {0})
set_preference user_id household_id kind enabled now =
    exec (upsert_preference user_id household_id kind enabled now)

abbrev enabled_or_default : Option NotificationPreference → Bool
enabled_or_default none = true
enabled_or_default (some r) = r.enabled

unfoldable pub preference_in : ℕ → ℕ → Text → PushDb → Bool
preference_in user_id household_id kind s =
    enabled_or_default (first (is_preference user_id household_id kind) s.preferences.rows)

unfoldable pub is_preference_enabled : ℕ → ℕ → Text → PushAction Bool
is_preference_enabled user_id household_id kind = query (preference_in user_id household_id kind)

-- Sent notifications

abbrev pub is_same : ℕ → Text → Text → ℕ → SentNotification → Bool
is_same household_id kind ref_id lead_time r =
    r.household_id == household_id
    && text_eq r.notification_type kind
    && text_eq r.reference_id ref_id
    && r.lead_time_minutes == lead_time

abbrev pub sent_row : ℕ → Text → Text → ℕ → Time → SentNotification
sent_row household_id kind ref_id lead_time now = record {
  household_id = household_id;
  notification_type = kind;
  reference_id = ref_id;
  lead_time_minutes = lead_time;
  sent_at = now;
}

-- `INSERT OR IGNORE`
unfoldable pub add_sent : ℕ → Text → Text → ℕ → Time → PushDb → PushDb
add_sent household_id kind ref_id lead_time now s =
    if exists (is_same household_id kind ref_id lead_time) s.sent
    then s
    else record s { sent = s.sent ++ sent_row household_id kind ref_id lead_time now ∷ [] }

unfoldable pub record_sent : ℕ → Text → Text → ℕ → Time → PushAction (Unit {0})
record_sent household_id kind ref_id lead_time now =
    exec (add_sent household_id kind ref_id lead_time now)

unfoldable pub was_sent : ℕ → Text → Text → ℕ → PushAction Bool
was_sent household_id kind ref_id lead_time =
    query (λ (s : PushDb). exists (is_same household_id kind ref_id lead_time) s.sent)

unfoldable pub cleanup_sent : Time → PushAction (Unit {0})
cleanup_sent before = exec (λ (s : PushDb). record s {
  sent = delete_where (λ (r : SentNotification). ltb r.sent_at before) s.sent;
})

-- Events with reminders

-- `datetime` and the format of the bounds drop what is below a second.
abbrev seconds : Time → ℕ
seconds t = t / nanos_per_second

abbrev reminds_within : Time → Time → Option ℕ → Time → Bool
reminds_within window_start window_end none start_time = false
reminds_within window_start window_end (some minutes) start_time =
    leb (seconds window_start + 60 * minutes) (seconds start_time)
    && ltb (seconds start_time) (seconds window_end + 60 * minutes)

abbrev pub is_upcoming : Time → Time → Reminded → Bool
is_upcoming window_start window_end e =
    not e.cancelled && reminds_within window_start window_end e.reminder_minutes e.start_time

abbrev pub upcoming : Time → Time → PushDb → List Reminded
upcoming window_start window_end s =
    order_by (λ (e f : Reminded). ltb e.start_time f.start_time)
      (select (is_upcoming window_start window_end) s.events)

unfoldable pub list_upcoming_with_reminders : Time → Time → PushAction (List Reminded)
list_upcoming_with_reminders window_start window_end = query (upcoming window_start window_end)
