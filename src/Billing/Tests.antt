-- ===== src/Billing/Tests.antt =====
-- Witnesses for the license endpoint and its clients.
use gamwich.Prelude.{
  ℕ, ◌*◌, ◌≡◌, refl, false, not, ◌&&◌, Option, none, some, List, [], ◌∷◌, if◌then◌else◌,
}
use gamwich.Prelude.Result.{Result, ok}
use gamwich.Text.{Text, codes, text_eq, split}
use gamwich.Calendar.{Time, sub, nanos_per_day}
use gamwich.License.{Client, Reply, no_answer, new_client, has_feature, has_feature_in_list, longer}
use gamwich.Billing.{LicenseKey, split_features}
use gamwich.Billing.Features.{non_empty, split_features-eq}
use gamwich.Billing.Endpoint.{after_asking, granted-has_feature, expired-has_feature}

abbrev client : Client
client = new_client (record {
  key = codes "GAM-1";
  validation_url = [];
  check_interval = 0;
  grace_period = 7 * nanos_per_day;
})

abbrev row : LicenseKey
row = record {
  plan = codes "cloud";
  features = codes "tunnel,backup";
  expires_at = some (740016 * nanos_per_day);
}

-- A store with one key.
abbrev get_by_key : Text → Result Text (Option LicenseKey)
get_by_key key = if text_eq key (codes "GAM-1") then ok (some row) else ok none

abbrev rfc_3339 : Time → Text
rfc_3339 t = []

abbrev day : ℕ → Time
day n = n * nanos_per_day

abbrev outage : List (Reply × Time)
outage = (no_answer, day 740017) ∷ []

keyed : client.cfg.key ≡ b'G' ∷ codes "AM-1"
unfolding new_client
keyed = refl

granted-has_feature_example :
    has_feature
      (day 740018)
      (after_asking get_by_key rfc_3339 client b'G'
        (codes "AM-1")
        keyed
        row
        refl
        (day 740015)
        outage
        (tt, tt))
      (codes "tunnel")
    ≡ (not (longer (sub (day 740018) (day 740015)) client.cfg.grace_period)
        && has_feature_in_list (non_empty (split b',' row.features)) (codes "tunnel"))
granted-has_feature_example =
    granted-has_feature get_by_key rfc_3339 client b'G' (codes "AM-1") keyed row refl (day 740015)
      outage (tt, tt) (day 740018) (codes "tunnel") refl refl

expired-has_feature_example :
    has_feature
      (day 740019)
      (after_asking get_by_key rfc_3339 client b'G'
        (codes "AM-1")
        keyed
        row
        refl
        (day 740018)
        outage
        (tt, tt))
      (codes "tunnel")
    ≡ false
expired-has_feature_example =
    expired-has_feature get_by_key rfc_3339 client b'G' (codes "AM-1") keyed row refl (day 740018)
      outage (tt, tt) (day 740019) (codes "tunnel") refl

split_features_example :
    split_features (codes "tunnel,,backup") ≡ non_empty (split b',' (codes "tunnel,,backup"))
split_features_example = split_features-eq (codes "tunnel,,backup")
