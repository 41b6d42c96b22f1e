-- ===== src/Webhook/Canceled.antt =====
-- `handleSubscriptionDeleted` of internal/billing/handler/webhook.go: the end of a subscription.
use gamwich.Prelude.{ℕ, ◌+◌, ◌*◌, ◌<◌, ◌≤◌, ◌≡◌, ◌⊎◌, Bool, true, some, All, ◌==◌}
use gamwich.Text.{codes}
use gamwich.Calendar.{Time, nanos_per_second}
use gamwich.Sql.Rows.{In}
use gamwich.Webhook.{Subscription, LicenseKey, BillingDb}
use gamwich.Webhook.Store.{sub_has_id, key_has_id}

-- The rows of the subscription are canceled, and those of the key expire at a time.
pub record IsCanceled (sub_id key_id : ℕ) (expiry : Time) (s : BillingDb) : Type 0 where
  pub subscriptions :
      All
        (λ (r : Subscription). sub_has_id sub_id r ≡ true → r.status ≡ codes "canceled")
        s.subscriptions.rows
  pub license_keys :
      All
        (λ (k : LicenseKey). key_has_id key_id k ≡ true → k.expires_at ≡ some expiry)
        s.license_keys.rows

-- No key of the subscription was created after the key, which is one of them.
pub record IsNewest (sub_id : ℕ) (key : LicenseKey) (s : BillingDb) : Type 0 where
  pub stored : In key s.license_keys.rows
  pub of_subscription : key.subscription_id ≡ sub_id
  pub newest :
      (k : LicenseKey)
      → In k s.license_keys.rows
      → k.subscription_id ≡ sub_id
      → k.created_at ≤ key.created_at

abbrev is_of : ℕ → LicenseKey → Bool
is_of sub_id k = k.subscription_id == sub_id

-- When a key of a subscription expires that Stripe has canceled: at the time that it names, or else
-- seven days from now.
abbrev pub Expires : (ℕ → Time) → ℕ → Time → Time → Type 0
Expires from_unix cancel_at now expiry =
    ((0 < cancel_at) × (expiry ≡ from_unix cancel_at))
    ⊎ ((cancel_at ≡ 0) × (expiry ≡ now + 7 * 24 * 3600 * nanos_per_second))
