-- ===== src/Billing.antt =====
-- internal/billing/handler/license.go: the endpoint that answers the license clients. The store's
-- `GetByKey` and the formatting of a time are parameters, the time of a call is an argument.
pub mod Features
pub mod Endpoint
pub mod Tests
use gamwich.Prelude.{
  ℕ, suc, ◌+◌, ◌-◌, Bool, true, false, Option, none, some, List, [], ◌∷◌, ◌++◌, ltb, ◌==◌,
  if◌then◌else◌, length, take, drop,
}
use gamwich.Prelude.Result.{Result, ok, err}
use gamwich.Text.{Text, codes}
use gamwich.Calendar.{Time}
use gamwich.License.{ValidateResponse, Reply, answer}

-- `s[start:end]`
abbrev pub slice : Text → ℕ → ℕ → Text
slice s start end = take (end - start) (drop start s)

-- The loop of `splitFeatures` from the index `i` on, where the bytes `rest` of `s` stand; `start` is
-- where the current part begins and `result` holds the parts before it.
unfoldable pub split_loop : Text → ℕ → ℕ → List Text → Text → List Text
split_loop s start i result [] =
    if ltb start (length s) then result ++ drop start s ∷ [] else result
split_loop s start i result (c ∷ rest) =
    let next =
      if c == b','
      then (if ltb start i then result ++ slice s start i ∷ [] else result)
      else result in
    let next_start = if c == b',' then suc i else start in split_loop s next_start (suc i) next rest

unfoldable pub split_features : Text → List Text
split_features s = split_loop s 0 0 [] s

-- What the endpoint reads of a license key's row.
pub record LicenseKey : Type 0 where
  pub plan : Text
  pub features : Text
  pub expires_at : Option Time

abbrev pub invalid : Text → ValidateResponse
invalid reason = record {
  valid = false;
  plan = [];
  features = [];
  expires_at = none;
  reason = reason;
}

-- The key has a date of expiry before `now`.
abbrev pub is_expired : Option Time → Time → Bool
is_expired none now = false
is_expired (some t) now = ltb t now

-- The features of a row: none for an empty text.
abbrev pub features_of : Text → List Text
features_of [] = []
features_of (c ∷ cs) = split_features (c ∷ cs)

module _ {E : Type 0} (get_by_key : Text → Result E (Option LicenseKey))
    (rfc_3339 : Time → Text) where
  abbrev formatted : Option Time → Option Text
  formatted none = none
  formatted (some t) = some (rfc_3339 t)

  abbrev pub granted : LicenseKey → ValidateResponse
  granted lk = record {
    valid = true;
    plan = lk.plan;
    features = features_of lk.features;
    expires_at = formatted lk.expires_at;
    reason = [];
  }

  abbrev on_row : Result E (Option LicenseKey) → Time → Reply
  on_row (err e) now = answer 500 none
  on_row (ok none) now = answer 200 (some (invalid (codes "not_found")))
  on_row (ok (some lk)) now =
      if is_expired lk.expires_at now
      then answer 200 (some (invalid (codes "expired")))
      else answer 200 (some (granted lk))

  abbrev on_key : Text → Time → Reply
  on_key [] now = answer 200 (some (invalid (codes "not_found")))
  on_key (k ∷ ks) now = on_row (get_by_key (k ∷ ks)) now

  -- `Validate` on a request's body: the key that it decodes to, or `none`.
  unfoldable pub validate : Option Text → Time → Reply
  validate none now = answer 400 none
  validate (some key) now = on_key key now
