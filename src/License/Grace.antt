-- ===== src/License/Grace.antt =====
-- How long the client grants a feature while the billing service cannot be asked.
use gamwich.Prelude.{
  ℕ, ◌≡◌, ◌∙◌, refl, ap, inl, inr, Bool, true, false, not, ◌&&◌, none, some, List, [], ◌∷◌, All,
  arith, ◌==◌, if◌then◌else◌, Bool-cases,
}
use gamwich.Text.{Text}
use gamwich.Calendar.{Time, sub, zero_time}
use gamwich.License.{
  Config, ValidateResponse, Client, Reply, no_request, no_answer, answer, answered, on_reply,
  validate, validate_all, has_feature_in_list, longer, has_feature,
}

-- The reply brings no status: there is none, or its code or body is bad.
abbrev pub IsFailure : Reply × Time → Type 0
IsFailure (no_request, now) = Unit
IsFailure (no_answer, now) = Unit
IsFailure (answer code none, now) = Unit
IsFailure (answer code (some vr), now) = (code == 200) ≡ false

-- What a failed validation leaves of a client.
record Kept (c c' : Client) : Type 0 where
  cfg : c'.cfg ≡ c.cfg
  valid : c'.status.valid ≡ c.status.valid
  features : c'.status.features ≡ c.status.features
  last_checked : c'.status.last_checked ≡ c.status.last_checked

Kept-on_reply : (r : Reply × Time) (c : Client) → IsFailure r → Kept c (on_reply r.0 r.1 c).0
unfolding on_reply
Kept-on_reply (no_request, now) c h = record {
  cfg = refl;
  valid = refl;
  features = refl;
  last_checked = refl;
}
Kept-on_reply (no_answer, now) c h = record {
  cfg = refl;
  valid = refl;
  features = refl;
  last_checked = refl;
}
Kept-on_reply (answer code none, now) c h = elim (Bool-cases (code == 200)) [
  | inl p ↦ rw p record { cfg = refl; valid = refl; features = refl; last_checked = refl }
  | inr p ↦ rw p record { cfg = refl; valid = refl; features = refl; last_checked = refl }
]
Kept-on_reply (answer code (some vr), now) c h =
    rw h record { cfg = refl; valid = refl; features = refl; last_checked = refl }

validate-keyed :
    (reply : Reply) (now : Time) (c : Client) (k : ℕ) (ks : Text)
    → c.cfg.key ≡ k ∷ ks
    → validate reply now c ≡ on_reply reply now c
unfolding validate
validate-keyed reply now c k ks e = rw e refl

Kept-validate_all :
    (rs : List (Reply × Time)) (c : Client) (k : ℕ) (ks : Text)
    → c.cfg.key ≡ k ∷ ks
    → All IsFailure rs
    → Kept c (validate_all rs c)
unfolding validate_all
Kept-validate_all [] c k ks e h = record {
  cfg = refl;
  valid = refl;
  features = refl;
  last_checked = refl;
}
Kept-validate_all ((reply, now) ∷ rs) c k ks e h =
    let one : Kept c (validate reply now c).0 =
      rw (validate-keyed reply now c k ks e) (Kept-on_reply (reply, now) c h.0) in
    let rest =
      Kept-validate_all rs (validate reply now c).0 k ks (ap (λ (f : Config). f.key) one.cfg ∙ e)
        h.1 in
    record {
      cfg = rest.cfg ∙ one.cfg;
      valid = rest.valid ∙ one.valid;
      features = rest.features ∙ one.features;
      last_checked = rest.last_checked ∙ one.last_checked;
    }

-- The client after an answer from the service and then validations that fail.
abbrev pub after_answer : ValidateResponse → Time → List (Reply × Time) → Client → Client
after_answer vr t failures c = validate_all failures (validate (answer 200 (some vr)) t c).0

module _ (c : Client) (k : ℕ) (ks : Text) (keyed : c.cfg.key ≡ k ∷ ks) (vr : ValidateResponse)
    (t : Time) (failures : List (Reply × Time)) (fails : All IsFailure failures) where
  kept : Kept (record { cfg = c.cfg; status = answered vr t }) (after_answer vr t failures c)
  unfolding on_reply
  kept =
      let c₁ : Client = record { cfg = c.cfg; status = answered vr t } in
      let first : validate (answer 200 (some vr)) t c ≡ (c₁, none) =
        validate-keyed (answer 200 (some vr)) t c k ks keyed in
      rw first (Kept-validate_all failures c₁ k ks keyed fails)

  -- After a valid answer at the time `t` and any number of failed validations, a client with a key
  -- grants exactly the features of the answer, until more than the grace period has passed since `t`,
  -- and none from then on.
  pub has_feature-grace :
      (now : Time) (feature : Text)
      → vr.valid ≡ true
      → (t == zero_time) ≡ false
      → has_feature now (after_answer vr t failures c) feature
        ≡ (not (longer (sub now t) c.cfg.grace_period) && has_feature_in_list vr.features feature)
  unfolding has_feature
  has_feature-grace now feature valid checked =
      rw (kept.valid ∙ valid, kept.features, kept.last_checked, checked, kept.cfg)
        (by_test (longer (sub now t) c.cfg.grace_period) (has_feature_in_list vr.features feature))
    where
      by_test : (b d : Bool) → (if b then false else d) ≡ (not b && d)
      by_test true d = refl
      by_test false d = refl

  -- After an invalid answer without features and any number of failed validations, a client with a key
  -- grants no feature, at whatever time.
  pub has_feature-revoked :
      (now : Time) (feature : Text)
      → vr.valid ≡ false
      → vr.features ≡ []
      → has_feature now (after_answer vr t failures c) feature ≡ false
  unfolding has_feature has_feature_in_list
  has_feature-revoked now feature invalid without =
      ground (arith, kept.valid, invalid, kept.features, without)
