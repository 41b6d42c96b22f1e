-- ===== src/Push.antt =====
-- Push notifications: internal/model/push.go and the tables of the migration 013 and those beside it
-- that internal/push/scheduler.go reads. What the push service was handed is a list.
pub mod Store
pub mod Scheduler
mod Once
mod Audience
mod Tests
use gamwich.Prelude.{ℕ, Bool, List, Option}
use gamwich.Text.{Text, codes}
use gamwich.Calendar.{Time}
use gamwich.Sql.{Table, Action}

abbrev pub calendar_reminder : Text
calendar_reminder = codes "calendar_reminder"

abbrev pub chore_due : Text
chore_due = codes "chore_due"

abbrev pub grocery_added : Text
grocery_added = codes "grocery_added"

pub record PushSubscription : Type 0 where
  pub id : ℕ
  pub user_id : ℕ
  pub household_id : ℕ
  pub endpoint : Text
  pub p256dh_key : Text
  pub auth_key : Text
  pub device_name : Text
  pub created_at : Time

pub record NotificationPreference : Type 0 where
  pub id : ℕ
  pub user_id : ℕ
  pub household_id : ℕ
  pub notification_type : Text
  pub enabled : Bool
  pub created_at : Time
  pub updated_at : Time

pub record SentNotification : Type 0 where
  pub household_id : ℕ
  pub notification_type : Text
  pub reference_id : Text
  pub lead_time_minutes : ℕ
  pub sent_at : Time

-- The columns of an event that the scheduler reads.
pub record Reminded : Type 0 where
  pub id : ℕ
  pub title : Text
  pub start_time : Time
  pub reminder_minutes : Option ℕ
  pub cancelled : Bool

pub record Payload : Type 0 where
  pub title : Text
  pub body : Text
  pub url : Text
  pub tag : Text

-- A notification that the push service has accepted, for a subscription.
pub record Delivery : Type 0 where
  pub subscription : PushSubscription
  pub payload : Payload

-- `chores` are the titles of the chores, in the order of their list.
pub record PushDb : Type 0 where
  pub subscriptions : Table PushSubscription
  pub preferences : Table NotificationPreference
  pub sent : List SentNotification
  pub events : List Reminded
  pub chores : List Text
  pub deliveries : List Delivery

abbrev pub PushAction : Type 0 → Type 0
PushAction = Action PushDb
