-- ===== src/License/Tests.antt =====
-- A witness for the license client.
use gamwich.Prelude.{◌*◌, ◌≡◌, refl, true, not, ◌&&◌, none, List, [], ◌∷◌}
use gamwich.Text.{codes}
use gamwich.Calendar.{Time, sub, nanos_per_day}
use gamwich.License.{
  Config, Client, ValidateResponse, Reply, no_answer, answer, new_client, has_feature,
  has_feature_in_list, longer,
}
use gamwich.License.Grace.{after_answer, has_feature-grace}

abbrev cfg : Config
cfg = record {
  key = codes "GAM-1";
  validation_url = [];
  check_interval = 0;
  grace_period = 7 * nanos_per_day;
}

abbrev client : Client
client = new_client cfg

abbrev paid : ValidateResponse
paid = record {
  valid = true;
  plan = codes "cloud";
  features = codes "tunnel" ∷ codes "backup" ∷ [];
  expires_at = none;
  reason = [];
}

abbrev outage : List (Reply × Time)
outage = (no_answer, 740016 * nanos_per_day) ∷ (answer 503 none, 740017 * nanos_per_day) ∷ []

has_feature-grace_example :
    has_feature
      (740018 * nanos_per_day)
      (after_answer paid (740015 * nanos_per_day) outage client)
      (codes "tunnel")
    ≡ (not (longer (sub (740018 * nanos_per_day) (740015 * nanos_per_day)) client.cfg.grace_period)
        && has_feature_in_list paid.features (codes "tunnel"))
unfolding new_client
has_feature-grace_example =
    has_feature-grace client b'G' (codes "AM-1") refl paid (740015 * nanos_per_day) outage
      (tt, (tt, tt)) (740018 * nanos_per_day) (codes "tunnel") refl refl
