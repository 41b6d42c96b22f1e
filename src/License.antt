-- ===== src/License.antt =====
-- internal/license/client.go: the client that asks the billing service about a license key. The
-- reply of the service and the time of a call are arguments; the locks and the background goroutine,
-- which calls `Validate` again and again, are the order of the calls.
pub mod Grace
pub mod Tests
use gamwich.Prelude.{
  ℕ, ◌+◌, ◌*◌, Bool, true, false, not, ◌&&◌, Option, none, some, List, [], ◌∷◌, ◌++◌, ltb, ◌==◌,
  if◌then◌else◌,
}
use gamwich.Prelude.Int.{ℤ, pos, negsuc}
use gamwich.Text.{is_empty, Text, codes, text_eq, itoa}
use gamwich.Calendar.{Time, sub, zero_time, nanos_per_hour}

-- A duration here is not negative.
pub record Config : Type 0 where
  pub key : Text
  pub validation_url : Text
  pub check_interval : ℕ
  pub grace_period : ℕ

pub record Status : Type 0 where
  pub valid : Bool
  pub plan : Text
  pub features : List Text
  pub expires_at : Text
  pub warning : Text
  pub last_checked : Time
  pub offline : Bool

pub record ValidateResponse : Type 0 where
  pub valid : Bool
  pub plan : Text
  pub features : List Text
  pub expires_at : Option Text
  pub reason : Text

pub record Client : Type 0 where
  pub cfg : Config
  pub status : Status

-- What the request to the service comes to: it cannot be made, it gets no answer, or it gets a
-- status code with a body that decodes or does not.
pub data Reply : Type 0 where
  no_request no_answer : Reply
  answer : ℕ → Option ValidateResponse → Reply

pub data ValidateError : Type 0 where
  create_request unreachable bad_body : ValidateError
  bad_status : ℕ → ValidateError

abbrev pub free_status : Time → Status
free_status now = record {
  valid = false;
  plan = codes "free";
  features = [];
  expires_at = [];
  warning = [];
  last_checked = now;
  offline = false;
}

abbrev blank_status : Status
blank_status = record {
  valid = false;
  plan = [];
  features = [];
  expires_at = [];
  warning = [];
  last_checked = zero_time;
  offline = false;
}

abbrev or_default : ℕ → ℕ → ℕ
or_default fallback n = if n == 0 then fallback else n

abbrev or_url : Text → Text
or_url [] = codes "https://gamwich.app/api/license/validate"
or_url (c ∷ cs) = c ∷ cs

abbrev first_status : Text → Status
first_status [] = free_status zero_time
first_status (c ∷ cs) = blank_status

unfoldable pub new_client : Config → Client
new_client cfg = record {
  cfg = record {
    key = cfg.key;
    validation_url = or_url cfg.validation_url;
    check_interval = or_default (24 * nanos_per_hour) cfg.check_interval;
    grace_period = or_default (7 * 24 * nanos_per_hour) cfg.grace_period;
  };
  status = first_status cfg.key;
}

abbrev set_status : Client → Status → Client
set_status c s = record { cfg = c.cfg; status = s }

-- The status kept, with a warning that the server could not be asked.
abbrev gone_offline : Text → Status → Status
gone_offline warning s = record {
  valid = s.valid;
  plan = s.plan;
  features = s.features;
  expires_at = s.expires_at;
  warning = warning;
  last_checked = s.last_checked;
  offline = true;
}

abbrev or_empty : Option Text → Text
or_empty none = []
or_empty (some s) = s

-- The warning for an answer: `License <reason>` if it is invalid and has a reason.
abbrev warning_of : Bool → Text → Text
warning_of true reason = []
warning_of false [] = []
warning_of false (c ∷ cs) = codes "License " ++ c ∷ cs

abbrev pub answered : ValidateResponse → Time → Status
answered vr now = record {
  valid = vr.valid;
  plan = vr.plan;
  features = vr.features;
  expires_at = or_empty vr.expires_at;
  warning = warning_of vr.valid vr.reason;
  last_checked = now;
  offline = false;
}

-- What `Validate` does with the reply, for a client with a key.
unfoldable pub on_reply : Reply → Time → Client → Client × Option ValidateError
on_reply no_request now c = (c, some create_request)
on_reply no_answer now c = (
  set_status c (gone_offline (codes "Unable to reach license server") c.status),
  some unreachable,
)
on_reply (answer code body) now c =
    if code == 200
    then elim body [ none ↦ (c, some bad_body) | some vr ↦ (set_status c (answered vr now), none) ]
    else (
      set_status c (gone_offline (codes "License server returned " ++ itoa code) c.status),
      some (bad_status code),
    )

abbrev validate_with : Text → Reply → Time → Client → Client × Option ValidateError
validate_with [] reply now c = (set_status c (free_status now), none)
validate_with (k ∷ ks) reply now c = on_reply reply now c

unfoldable pub validate : Reply → Time → Client → Client × Option ValidateError
validate reply now c = validate_with c.cfg.key reply now c

unfoldable pub has_feature_in_list : List Text → Text → Bool
has_feature_in_list [] feature = false
has_feature_in_list (f ∷ fs) feature =
    if text_eq f feature then true else has_feature_in_list fs feature

-- `d < n` and `d > n` for durations
abbrev pub shorter : ℤ → ℕ → Bool
shorter (pos k) n = ltb k n
shorter (negsuc k) n = true

abbrev pub longer : ℤ → ℕ → Bool
longer (pos k) n = ltb n k
longer (negsuc k) n = false

-- `HasFeature` at the time `now`.
unfoldable pub has_feature : Time → Client → Text → Bool
has_feature now c feature =
    let checked = not (c.status.last_checked == zero_time) in
    let since = sub now c.status.last_checked in
    if not c.status.valid
    then (if c.status.offline && (checked && shorter since c.cfg.grace_period)
        then has_feature_in_list c.status.features feature
        else false)
    else if checked && longer since c.cfg.grace_period
    then false
    else has_feature_in_list c.status.features feature

unfoldable pub is_free_tier : Client → Bool
is_free_tier c = is_empty c.cfg.key

abbrev with_key : Text → Config → Config
with_key key cfg = record {
  key = key;
  validation_url = cfg.validation_url;
  check_interval = cfg.check_interval;
  grace_period = cfg.grace_period;
}

-- `SetKey`, with the reply of the service to the new key.
unfoldable pub set_key : Text → Reply → Time → Client → Client
set_key [] reply now c = record { cfg = with_key [] c.cfg; status = free_status now }
set_key (k ∷ ks) reply now c =
    (validate reply now (record { cfg = with_key (k ∷ ks) c.cfg; status = c.status })).0

-- The client after the validations of a list, as the background goroutine makes them.
unfoldable pub validate_all : List (Reply × Time) → Client → Client
validate_all [] c = c
validate_all ((reply, now) ∷ rs) c = validate_all rs (validate reply now c).0
