-- ===== src/Webhook/Events.antt =====
-- internal/billing/handler/webhook.go. The events are what Stripe's library makes of a signed request;
-- a time of Stripe is a number of seconds that `from_unix` turns into a time of the program. Every
-- event of a known type is answered with the status 200, whatever fails.
use gamwich.Prelude.{ℕ, ◌+◌, ◌*◌, Bool, Option, none, some, List, [], ltb, if◌then◌else◌}
use gamwich.Text.{Text, codes, is_empty}
use gamwich.Calendar.{Time, nanos_per_day}
use gamwich.Sql.{pure, otherwise, ◌>>=◌, ◌>>◌}
use gamwich.Webhook.{Account, Subscription, LicenseKey, BillingAction}
use gamwich.Webhook.Store.{
  get_account_by_email, create_account, update_stripe_customer_id, create_subscription,
  update_stripe_id, create_key, get_by_stripe_id, update_status, set_cancel_at_period_end,
  get_by_subscription_id, update_expiry,
}

-- The fields of a checkout session that the handler reads.
pub record CheckoutSession : Type 0 where
  pub email : Text
  pub customer : Option Text
  pub subscription : Option Text

-- An invoice, with the subscription of its parent, where there is one, and the end of its period.
pub record Invoice : Type 0 where
  pub parent_subscription : Option Text
  pub period_end : ℕ

-- The fields of Stripe's subscription; `cancel_at` is 0 where it has none.
pub record StripeSubscription : Type 0 where
  pub id : Text
  pub status : Text
  pub cancel_at_period_end : Bool
  pub cancel_at : ℕ

pub data Event : Type 0 where
  checkout_completed : CheckoutSession → Event
  invoice_paid invoice_payment_failed : Invoice → Event
  subscription_updated subscription_deleted : StripeSubscription → Event
  other : Event

abbrev pub seven_days : ℕ
seven_days = 7 * nanos_per_day

abbrev if_given : Option Text → (Text → BillingAction (Unit {0})) → BillingAction (Unit {0})
if_given none k = pure tt
if_given (some id) k = otherwise tt (k id)

abbrev found_or_new : Text → Time → Option Account → BillingAction Account
found_or_new email now (some account) = pure account
found_or_new email now none = create_account email now

abbrev features : Text
features = codes "tunnel,backup,push"

-- What follows an error is left out, so that the errors that end the handler are raised.
unfoldable pub complete_checkout : List ℕ → CheckoutSession → Time → BillingAction (Unit {0})
complete_checkout bytes sess now = do
  found ← get_account_by_email sess.email
  account ← found_or_new sess.email now found
  if_given sess.customer (λ id. update_stripe_customer_id account.id id now)
  sub ← create_subscription account.id (codes "cloud") now
  if_given sess.subscription (λ id. update_stripe_id sub.id id now)
  key ← create_key bytes account.id sub.id (codes "cloud") features now
  pure tt

unfoldable pub handle_checkout_completed :
    List ℕ → CheckoutSession → Time → BillingAction (Unit {0})
handle_checkout_completed bytes sess now =
    if is_empty sess.email then pure tt else otherwise tt (complete_checkout bytes sess now)

unfoldable pub subscription_id_from_invoice : Invoice → Text
subscription_id_from_invoice i = elim i.parent_subscription [ none ↦ [] | some id ↦ id ]

-- The subscription that the store has for Stripe's, or the end of the handler.
abbrev on_sub :
    (Subscription → BillingAction (Unit {0})) → Option Subscription → BillingAction (Unit {0})
on_sub k none = pure tt
on_sub k (some sub) = k sub

abbrev pub with_sub : Text → (Subscription → BillingAction (Unit {0})) → BillingAction (Unit {0})
with_sub stripe_id k = otherwise tt (get_by_stripe_id stripe_id >>= on_sub k)

abbrev on_key : Time → Time → Option LicenseKey → BillingAction (Unit {0})
on_key expiry now none = pure tt
on_key expiry now (some key) = update_expiry key.id expiry now

-- The newest key of the subscription gets a new expiry.
abbrev pub expire_key : ℕ → Time → Time → BillingAction (Unit {0})
expire_key sub_id expiry now = otherwise tt (get_by_subscription_id sub_id >>= on_key expiry now)

abbrev pub expiry_of : (ℕ → Time) → StripeSubscription → Time → Time
expiry_of from_unix sub now =
    if ltb 0 sub.cancel_at then from_unix sub.cancel_at else now + seven_days

module _ (from_unix : ℕ → Time) where
  unfoldable pub handle_invoice_paid : Invoice → Time → BillingAction (Unit {0})
  handle_invoice_paid invoice now =
      let stripe_id = subscription_id_from_invoice invoice in
      if is_empty stripe_id
      then pure tt
      else with_sub stripe_id (λ sub.
        otherwise tt (update_status sub.id (codes "active") now)
        >> expire_key sub.id (from_unix invoice.period_end + seven_days) now)

  unfoldable pub handle_invoice_payment_failed : Invoice → Time → BillingAction (Unit {0})
  handle_invoice_payment_failed invoice now =
      let stripe_id = subscription_id_from_invoice invoice in
      if is_empty stripe_id
      then pure tt
      else with_sub stripe_id (λ sub. update_status sub.id (codes "past_due") now)

  unfoldable pub handle_subscription_updated : StripeSubscription → Time → BillingAction (Unit {0})
  handle_subscription_updated stripe_sub now = with_sub stripe_sub.id (λ sub.
      otherwise tt (update_status sub.id stripe_sub.status now)
      >> set_cancel_at_period_end sub.id stripe_sub.cancel_at_period_end now)

  unfoldable pub handle_subscription_deleted : StripeSubscription → Time → BillingAction (Unit {0})
  handle_subscription_deleted stripe_sub now = with_sub stripe_sub.id (λ sub.
      otherwise tt (update_status sub.id (codes "canceled") now)
      >> expire_key sub.id (expiry_of from_unix stripe_sub now) now)

  unfoldable pub handle_stripe_webhook : List ℕ → Event → Time → BillingAction (Unit {0})
  handle_stripe_webhook bytes (checkout_completed sess) now =
      handle_checkout_completed bytes sess now
  handle_stripe_webhook bytes (invoice_paid invoice) now = handle_invoice_paid invoice now
  handle_stripe_webhook bytes (invoice_payment_failed invoice) now =
      handle_invoice_payment_failed invoice now
  handle_stripe_webhook bytes (subscription_updated sub) now = handle_subscription_updated sub now
  handle_stripe_webhook bytes (subscription_deleted sub) now = handle_subscription_deleted sub now
  handle_stripe_webhook bytes other now = pure tt
