-- ===== src/Billing/Endpoint.antt =====
-- The license client of internal/license against the endpoint.
use gamwich.Prelude.{
  ℕ, ◌≡◌, ◌∙◌, refl, ap, true, false, not, ◌&&◌, Option, some, List, [], ◌∷◌, All, ◌==◌,
}
use gamwich.Prelude.Result.{Result, ok}
use gamwich.Text.{Text, codes, split}
use gamwich.Calendar.{Time, sub, zero_time}
use gamwich.License.{
  Config, ValidateResponse, Client, Reply, answer, validate_all, has_feature, has_feature_in_list,
  longer,
}
use gamwich.License.Grace.{IsFailure, has_feature-grace, has_feature-revoked}
use gamwich.Billing.{LicenseKey, invalid, is_expired, features_of, granted, validate}
use gamwich.Billing.Features.{non_empty, split_features-eq}

features_of-eq : (s : Text) → features_of s ≡ non_empty (split b',' s)
unfolding split non_empty
features_of-eq [] = refl
features_of-eq (c ∷ cs) = split_features-eq (c ∷ cs)

module _ {E : Type 0} (get_by_key : Text → Result E (Option LicenseKey)) (rfc_3339 : Time → Text)
    (c : Client) (k : ℕ) (ks : Text) (keyed : c.cfg.key ≡ k ∷ ks) (lk : LicenseKey)
    (stored : get_by_key (k ∷ ks) ≡ ok (some lk)) (t : Time) (failures : List (Reply × Time))
    (fails : All IsFailure failures) where
  -- The client after it has asked the endpoint about its key at the time `t`, and has then failed.
  abbrev pub after_asking : Client
  after_asking =
      validate_all failures
        (gamwich.License.validate (validate get_by_key rfc_3339 (some c.cfg.key) t) t c).0

  replied_expired :
      is_expired lk.expires_at t ≡ true
      → validate get_by_key rfc_3339 (some c.cfg.key) t
        ≡ answer 200 (some (invalid (codes "expired")))
  unfolding validate
  replied_expired expired = rw (keyed, stored, expired) refl

  replied_granted :
      is_expired lk.expires_at t ≡ false
      → validate get_by_key rfc_3339 (some c.cfg.key) t
        ≡ answer 200 (some (granted get_by_key rfc_3339 lk))
  unfolding validate
  replied_granted fresh = rw (keyed, stored, fresh) refl

  -- Once the endpoint finds the key of a client expired, the client grants no feature, at whatever
  -- time and however often the service fails to answer afterwards.
  pub expired-has_feature :
      (now : Time) (feature : Text)
      → is_expired lk.expires_at t ≡ true
      → has_feature now after_asking feature ≡ false
  expired-has_feature now feature expired = rw (replied_expired expired) (
      has_feature-revoked c k ks keyed (invalid (codes "expired")) t failures fails now feature refl
        refl)

  -- Once the endpoint knows the key of a client and does not find it expired, the client grants
  -- exactly the features that the key's row lists between commas, however often the service fails to
  -- answer afterwards, until more than the client's grace period has passed.
  pub granted-has_feature :
      (now : Time) (feature : Text)
      → is_expired lk.expires_at t ≡ false
      → (t == zero_time) ≡ false
      → has_feature now after_asking feature ≡ (
          not (longer (sub now t) c.cfg.grace_period)
          && has_feature_in_list (non_empty (split b',' lk.features)) feature)
  granted-has_feature now feature fresh checked = rw (replied_granted fresh) (
      has_feature-grace c k ks keyed (granted get_by_key rfc_3339 lk) t failures fails now feature
        refl checked
      ∙ ap (λ fs. not (longer (sub now t) c.cfg.grace_period) && has_feature_in_list fs feature)
          (features_of-eq lk.features))
