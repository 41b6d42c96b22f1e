-- ===== src/Webhook.antt =====
-- The subscriptions of the billing service: internal/billing/model and the tables of its migration.
pub mod Store
pub mod Events
mod Canceled
mod Tests
use gamwich.Prelude.{ℕ, Bool, Option}
use gamwich.Text.{Text}
use gamwich.Calendar.{Time}
use gamwich.Sql.{Table, Action}

pub record Account : Type 0 where
  pub id : ℕ
  pub email : Text
  pub stripe_customer_id : Option Text
  pub created_at : Time
  pub updated_at : Time

pub record Subscription : Type 0 where
  pub id : ℕ
  pub account_id : ℕ
  pub stripe_subscription_id : Option Text
  pub plan : Text
  pub status : Text
  pub current_period_end : Option Time
  pub cancel_at_period_end : Bool
  pub created_at : Time
  pub updated_at : Time

pub record LicenseKey : Type 0 where
  pub id : ℕ
  pub account_id : ℕ
  pub subscription_id : ℕ
  pub key : Text
  pub plan : Text
  pub features : Text
  pub activated_at : Option Time
  pub expires_at : Option Time
  pub created_at : Time
  pub updated_at : Time

pub record BillingDb : Type 0 where
  pub accounts : Table Account
  pub subscriptions : Table Subscription
  pub license_keys : Table LicenseKey

abbrev pub BillingAction : Type 0 → Type 0
BillingAction = Action BillingDb
