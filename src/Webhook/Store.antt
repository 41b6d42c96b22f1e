-- ===== src/Webhook/Store.antt =====
-- internal/billing/store: account.go as far as the webhook calls it, subscription.go and
-- license_key.go. The triggers of the tables keep the time of an update.
use gamwich.Prelude.{
  ℕ, suc, ◌-◌, Bool, false, Option, none, some, List, ◌++◌, ltb, leb, ◌==◌, if◌then◌else◌, take,
  drop, map,
}
use gamwich.Prelude.Result.{Result, ok, err}
use gamwich.Text.{Text, codes, text_eq}
use gamwich.Calendar.{Time}
use gamwich.Sql.{
  DbError, constraint, insert, with_rows, statement, query, exec, or_failed, ◌>>=◌, select, first,
  exists, update_where, delete_where, order_by, head,
}
use gamwich.Auth.Sessions.{hex}
use gamwich.Webhook.{Account, Subscription, LicenseKey, BillingDb, BillingAction}

-- Accounts

abbrev account_has_id : ℕ → Account → Bool
account_has_id id a = a.id == id

abbrev has_email : Text → Account → Bool
has_email email a = text_eq a.email email

unfoldable pub get_account_by_email : Text → BillingAction (Option Account)
get_account_by_email email = query (λ (s : BillingDb). first (has_email email) s.accounts.rows)

abbrev new_account : Text → Time → ℕ → Account
new_account email now id = record {
  id = id;
  email = email;
  stripe_customer_id = none;
  created_at = now;
  updated_at = now;
}

unfoldable pub insert_account : Text → Time → BillingDb → Result DbError ℕ × BillingDb
insert_account email now s =
    if exists (has_email email) s.accounts.rows then (err constraint, s) else (
      ok (suc s.accounts.last_id),
      record s { accounts = insert (new_account email now) s.accounts },
    )

unfoldable pub create_account : Text → Time → BillingAction Account
create_account email now = do
  id ← statement (insert_account email now)
  found ← query (λ (s : BillingDb). first (account_has_id id) s.accounts.rows)
  or_failed found

unfoldable pub update_stripe_customer_id : ℕ → Text → Time → BillingAction (Unit {0})
update_stripe_customer_id id customer now = exec (λ (s : BillingDb). record s {
  accounts =
      with_rows
        (update_where (account_has_id id)
          (λ (a : Account). record a { stripe_customer_id = some customer; updated_at = now })
          s.accounts.rows)
        s.accounts;
})

-- Subscriptions

abbrev pub sub_has_id : ℕ → Subscription → Bool
sub_has_id id r = r.id == id

abbrev is_text : Text → Option Text → Bool
is_text t none = false
is_text t (some u) = text_eq u t

abbrev pub has_stripe_id : Text → Subscription → Bool
has_stripe_id stripe_id r = is_text stripe_id r.stripe_subscription_id

abbrev new_subscription : ℕ → Text → Time → ℕ → Subscription
new_subscription account_id plan now id = record {
  id = id;
  account_id = account_id;
  stripe_subscription_id = none;
  plan = plan;
  status = codes "active";
  current_period_end = none;
  cancel_at_period_end = false;
  created_at = now;
  updated_at = now;
}

abbrev insert_subscription : (ℕ → Subscription) → BillingDb → Result DbError ℕ × BillingDb
insert_subscription row s =
    (ok (suc s.subscriptions.last_id), record s { subscriptions = insert row s.subscriptions })

unfoldable pub get_subscription : ℕ → BillingAction (Option Subscription)
get_subscription id = query (λ (s : BillingDb). first (sub_has_id id) s.subscriptions.rows)

unfoldable pub create_subscription : ℕ → Text → Time → BillingAction Subscription
create_subscription account_id plan now =
    statement (insert_subscription (new_subscription account_id plan now))
    >>= get_subscription
    >>= or_failed

unfoldable pub get_by_account_id : ℕ → BillingAction (Option Subscription)
get_by_account_id account_id = query (λ (s : BillingDb). head (
    order_by (λ (r q : Subscription). ltb q.created_at r.created_at)
      (select (λ (r : Subscription). r.account_id == account_id) s.subscriptions.rows)))

unfoldable pub get_by_stripe_id : Text → BillingAction (Option Subscription)
get_by_stripe_id stripe_id =
    query (λ (s : BillingDb). first (has_stripe_id stripe_id) s.subscriptions.rows)

abbrev pub set_subscription : ℕ → (Subscription → Subscription) → BillingDb → BillingDb
set_subscription id f s = record s {
  subscriptions = with_rows (update_where (sub_has_id id) f s.subscriptions.rows) s.subscriptions;
}

unfoldable pub update_status : ℕ → Text → Time → BillingAction (Unit {0})
update_status id status now =
    exec
      (set_subscription id (λ (r : Subscription). record r { status = status; updated_at = now }))

unfoldable pub update_stripe_id : ℕ → Text → Time → BillingAction (Unit {0})
update_stripe_id id stripe_id now = exec (
    set_subscription id (λ (r : Subscription). record r {
      stripe_subscription_id = some stripe_id;
      updated_at = now;
    }))

unfoldable pub set_cancel_at_period_end : ℕ → Bool → Time → BillingAction (Unit {0})
set_cancel_at_period_end id cancel now = exec (
    set_subscription id
      (λ (r : Subscription). record r { cancel_at_period_end = cancel; updated_at = now }))

unfoldable pub update_period_end : ℕ → Option Time → Time → BillingAction (Unit {0})
update_period_end id period_end now = exec (
    set_subscription id
      (λ (r : Subscription). record r { current_period_end = period_end; updated_at = now }))

-- License keys

abbrev pub key_has_id : ℕ → LicenseKey → Bool
key_has_id id k = k.id == id

-- `ToUpper` of a digit in base 16
abbrev upper : List ℕ → List ℕ
upper = map (λ c. if leb b'a' c then c - 32 else c)

-- Eight random bytes in the form GW-XXXX-XXXX-XXXX-XXXX
unfoldable pub generate_key : List ℕ → Text
generate_key bytes =
    let h = upper (hex bytes) in
    codes "GW-"
    ++ take 4 h
    ++ codes "-"
    ++ take 4 (drop 4 h)
    ++ codes "-"
    ++ take 4 (drop 8 h)
    ++ codes "-"
    ++ take 4 (drop 12 h)

abbrev new_key : ℕ → ℕ → Text → Text → Text → Time → ℕ → LicenseKey
new_key account_id subscription_id key plan features now id = record {
  id = id;
  account_id = account_id;
  subscription_id = subscription_id;
  key = key;
  plan = plan;
  features = features;
  activated_at = none;
  expires_at = none;
  created_at = now;
  updated_at = now;
}

unfoldable pub insert_key : (ℕ → LicenseKey) → Text → BillingDb → Result DbError ℕ × BillingDb
insert_key row key s =
    if exists (λ (k : LicenseKey). text_eq k.key key) s.license_keys.rows
    then (err constraint, s)
    else (ok (suc s.license_keys.last_id), record s { license_keys = insert row s.license_keys })

unfoldable pub get_key_by_id : ℕ → BillingAction (Option LicenseKey)
get_key_by_id id = query (λ (s : BillingDb). first (key_has_id id) s.license_keys.rows)

-- Drawing the random bytes may fail as a statement may.
unfoldable pub create_key : List ℕ → ℕ → ℕ → Text → Text → Time → BillingAction LicenseKey
create_key bytes account_id subscription_id plan features now = do
  key ← query (λ (s : BillingDb). generate_key bytes)
  id ← statement (insert_key (new_key account_id subscription_id key plan features now) key)
  found ← get_key_by_id id
  or_failed found

unfoldable pub get_by_key : Text → BillingAction (Option LicenseKey)
get_by_key key =
    query (λ (s : BillingDb). first (λ (k : LicenseKey). text_eq k.key key) s.license_keys.rows)

-- The newest key of a subscription.
abbrev pub newest_key : ℕ → BillingDb → Option LicenseKey
newest_key subscription_id s = head (
    order_by (λ (k l : LicenseKey). ltb l.created_at k.created_at)
      (select (λ (k : LicenseKey). k.subscription_id == subscription_id) s.license_keys.rows))

unfoldable pub get_by_subscription_id : ℕ → BillingAction (Option LicenseKey)
get_by_subscription_id subscription_id = query (newest_key subscription_id)

abbrev pub set_key : ℕ → (LicenseKey → LicenseKey) → BillingDb → BillingDb
set_key id f s = record s {
  license_keys = with_rows (update_where (key_has_id id) f s.license_keys.rows) s.license_keys;
}

unfoldable pub activate : ℕ → Time → BillingAction (Unit {0})
activate id now =
    exec (set_key id (λ (k : LicenseKey). record k { activated_at = some now; updated_at = now }))

unfoldable pub update_expiry : ℕ → Time → Time → BillingAction (Unit {0})
update_expiry id expires_at now =
    exec
      (set_key id (λ (k : LicenseKey). record k { expires_at = some expires_at; updated_at = now }))

unfoldable pub revoke : ℕ → Time → BillingAction (Unit {0})
revoke id now =
    exec (set_key id (λ (k : LicenseKey). record k { expires_at = some now; updated_at = now }))

unfoldable pub delete_key : ℕ → BillingAction (Unit {0})
delete_key id = exec (λ (s : BillingDb). record s {
  license_keys = with_rows (delete_where (key_has_id id) s.license_keys.rows) s.license_keys;
})
