-- ===== src/Tunnel.antt =====
-- internal/tunnel/tunnel.go: the manager of the cloudflared process. Each section under the mutex is
-- a function of the manager, and what other goroutines do to it between two sections of a call is an
-- argument; so are what the process writes and how it exits, whether the program is found and when the
-- context is cancelled.
pub mod LogParser
pub mod Run
pub mod Backoff
pub mod Tests
use gamwich.Prelude.{
  ℕ, suc, ◌+◌, ◌*◌, Bool, true, false, not, ◌&&◌, ◌||◌, Option, none, some, List, [], ◌∷◌, ◌++◌,
  ltb, leb, ◌==◌, if◌then◌else◌,
}
use gamwich.Text.{is_empty, Text, codes, text_eq, is_prefix, contains, is_digit}
use gamwich.Calendar.{Time, zero_time}

pub data State : Type 0 where
  disabled stopped connecting connected reconnecting failed : State

pub record Config : Type 0 where
  pub token : Text
  pub enabled : Bool
  pub local_url : Text
  pub cloudflared_path : Text

pub record Status : Type 0 where
  pub state : State
  pub subdomain : Text
  pub error : Text
  pub started_at : Time

-- `running` says that `m.cancel` is set: `Start` has set it, and neither the goroutine's end nor
-- `UpdateConfig` has cleared it.
pub record Manager : Type 0 where
  pub cfg : Config
  pub status : Status
  pub running : Bool
  pub failure_count : ℕ

-- `Status{State: s}`
abbrev pub plain : State → Status
plain s = record { state = s; subdomain = []; error = []; started_at = zero_time }

abbrev with_path : Config → Config
with_path cfg =
    if is_empty cfg.cloudflared_path
    then record cfg { cloudflared_path = codes "cloudflared" }
    else cfg

unfoldable pub new_manager : Config → Manager
new_manager cfg = record {
  cfg = with_path cfg;
  status = if is_empty cfg.token then plain disabled else plain stopped;
  running = false;
  failure_count = 0;
}

pub data StartError : Type 0 where
  not_found : StartError

-- `Start`; `found` says that the program is in the path.
unfoldable pub start : Bool → Time → Manager → Manager × Option StartError
start found now m =
    if m.running
    then (m, none)
    else if is_empty m.cfg.token
    then (record m { status = plain disabled }, none)
    else if not found
    then (
      record m { status = record (plain failed) { error = codes "cloudflared not found in PATH" } },
      some not_found,
    )
    else (
      record m {
        status = record (plain connecting) { started_at = now };
        running = true;
        failure_count = 0;
      },
      none,
    )

-- The section that clears `m.cancel` and `m.done`.
abbrev pub cleared : Manager → Manager
cleared m = record m { running = false }

-- `Stop`: it cancels the context and waits, ten seconds at most. It changes nothing itself; what
-- happens to the manager while it waits is an argument.
unfoldable pub stop : (Manager → Manager) → Manager → Manager
stop waiting m = if m.running then waiting m else m

-- What other goroutines do to the manager while `UpdateConfig` does not hold the mutex.
pub record Others : Type 0 where
  pub after_config : Manager → Manager
  pub while_stopping : Manager → Manager
  pub after_stop : Manager → Manager
  pub after_clear : Manager → Manager

-- The first section of `UpdateConfig`.
abbrev set_config : Config → Manager → Manager
set_config cfg m = record m { cfg = with_path cfg }

-- Its section for a disabled tunnel.
abbrev turned_off : Config → Manager → Manager
turned_off cfg m =
    cleared (record m { status = if is_empty cfg.token then plain disabled else plain stopped })

unfoldable pub update_config : Others → Config → Bool → Time → Manager → Manager
update_config others cfg found now m =
    let set = others.after_config (set_config cfg m) in
    let waited = others.after_stop (stop others.while_stopping set) in
    if not cfg.enabled || is_empty cfg.token
    then turned_off cfg waited
    else if not (text_eq cfg.token m.cfg.token) || (is_empty m.cfg.token || not m.cfg.enabled)
    then (start found now (others.after_clear (cleared waited))).0
    else set

pub record ParseEvent : Type 0 where
  pub state : State
  pub hostname : Text
