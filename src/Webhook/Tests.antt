-- ===== src/Webhook/Tests.antt =====
-- Runs of the webhook at concrete inputs.
use gamwich.Prelude.{ℕ, ◌≡◌, ◌+◌, ◌*◌, refl, false, none, some, List, [], ◌∷◌, map}
use gamwich.Text.{codes}
use gamwich.Calendar.{Time, nanos_per_second}
use gamwich.Sql.{
  Table, statement, query, exec, pure, otherwise, or_failed, ◌>>=◌, ◌>>◌, select, first, exists,
  update_where, order_by, insert_row,
}
use gamwich.Auth.Sessions.{hex}
use gamwich.Webhook.{Subscription, LicenseKey, BillingDb}
use gamwich.Webhook.Store.{
  get_account_by_email, insert_account, create_account, get_subscription, create_subscription,
  update_stripe_id, generate_key, insert_key, get_key_by_id, create_key, get_by_stripe_id,
  update_status, get_by_subscription_id, update_expiry,
}
use gamwich.Webhook.Events.{
  CheckoutSession, StripeSubscription, seven_days, complete_checkout, handle_checkout_completed,
  handle_subscription_deleted,
}

abbrev from_unix : ℕ → Time
from_unix t = t * nanos_per_second

abbrev sub : Subscription
sub = record {
  id = 2;
  account_id = 1;
  stripe_subscription_id = some (codes "sub_1");
  plan = codes "cloud";
  status = codes "active";
  current_period_end = none;
  cancel_at_period_end = false;
  created_at = 0;
  updated_at = 0;
}

abbrev key : LicenseKey
key = record {
  id = 3;
  account_id = 1;
  subscription_id = 2;
  key = codes "GW-1";
  plan = codes "cloud";
  features = codes "push";
  activated_at = none;
  expires_at = none;
  created_at = 0;
  updated_at = 0;
}

abbrev table : {A : Type 0} → List A → Table A
table rows = record { rows = rows; last_id = 3 }

abbrev db : BillingDb
db = record {
  accounts = table [];
  subscriptions = table (sub ∷ []);
  license_keys = table (key ∷ []);
}

abbrev ended : StripeSubscription
ended = record {
  id = codes "sub_1";
  status = codes "canceled";
  cancel_at_period_end = false;
  cancel_at = 0;
}

abbrev empty_db : BillingDb
empty_db = record {
  accounts = record { rows = []; last_id = 0 };
  subscriptions = record { rows = []; last_id = 0 };
  license_keys = record { rows = []; last_id = 0 };
}

abbrev bought : CheckoutSession
bought = record { email = codes "a@b.c"; customer = none; subscription = some (codes "sub_1") }

abbrev once : BillingDb
once = (handle_checkout_completed (1 ∷ 2 ∷ 3 ∷ 4 ∷ 5 ∷ 6 ∷ 7 ∷ 8 ∷ []) bought 0 (empty_db, [])).1.0

abbrev twice : BillingDb
twice = (handle_checkout_completed (8 ∷ 7 ∷ 6 ∷ 5 ∷ 4 ∷ 3 ∷ 2 ∷ 1 ∷ []) bought 1 (once, [])).1.0

-- A checkout event that is delivered twice makes two keys, and the end of the subscription gives an
-- expiry to one of them only.
second_key_stays :
    map
      (λ (k : LicenseKey). k.expires_at)
      (handle_subscription_deleted from_unix ended 5 (twice, [])).1.0.license_keys.rows
    ≡ some (5 + seven_days) ∷ none ∷ []
unfolding handle_checkout_completed complete_checkout get_account_by_email insert_account
    create_account create_subscription get_subscription update_stripe_id create_key generate_key
    insert_key get_key_by_id hex handle_subscription_deleted get_by_stripe_id update_status
    get_by_subscription_id update_expiry select first exists update_where order_by insert_row query
    exec statement pure otherwise or_failed ◌>>=◌ ◌>>◌
second_key_stays = refl
