-- ===== src/Tunnel/Run.antt =====
-- The goroutine `run` of internal/tunnel/tunnel.go and `runOnce`.
use gamwich.Prelude.{
  ℕ, suc, ◌*◌, Bool, true, false, Option, none, some, List, [], ◌∷◌, ltb, leb, if◌then◌else◌,
}
use gamwich.Text.{Text, codes}
use gamwich.Tunnel.{
  State, connected, reconnecting, failed, Manager, stopped, plain, ParseEvent, cleared,
}
use gamwich.Tunnel.LogParser.{scan_logs}

abbrev or_kept : Text → Text → Text
or_kept [] kept = kept
or_kept (c ∷ cs) kept = c ∷ cs

-- The `switch` of `runOnce` on an event.
abbrev pub on_state : State → Text → Manager → Manager
on_state connected host m = record m {
  status = record (plain connected) {
    started_at = m.status.started_at;
    subdomain = or_kept host m.status.subdomain;
  };
  failure_count = 0;
}
on_state reconnecting host m = record m {
  status = record (plain reconnecting) {
    started_at = m.status.started_at;
    subdomain = m.status.subdomain;
  };
}
on_state s host m = m

-- The loop of `runOnce` over the events until the process exits.
unfoldable pub run_once : List ParseEvent → Manager → Manager
run_once [] m = m
run_once (ev ∷ evs) m = run_once evs (on_state ev.state ev.hostname m)

-- One round of `run`: the lines of the process that are read, the error with which it exits, and at which
-- of its three tests the context is cancelled.
pub record Attempt : Type 0 where
  pub lines : List Text
  pub exit : Option Text
  pub cancelled_before : Bool
  pub cancelled_after : Bool
  pub cancelled_waiting : Bool

abbrev pub max_backoff : ℕ
max_backoff = 60

abbrev pub max_failures : ℕ
max_failures = 10

abbrev message : Option Text → Text
message none = codes "too many consecutive failures"
message (some e) = e

-- The last section of the loop, before the goroutine returns: with an error, or cancelled.
abbrev gave_up : Option Text → Manager → Manager
gave_up exit m = record m { status = record (plain failed) { error = message exit } }

abbrev halted : Manager → Manager
halted m = record m { status = plain stopped }

-- The failure counted, after the process has exited.
abbrev pub counted : Manager → Manager
counted m = record m { failure_count = suc m.failure_count }

-- `backoff *= 2`, at most 60 seconds
unfoldable pub next_backoff : ℕ → ℕ
next_backoff backoff = if ltb max_backoff (backoff * 2) then max_backoff else backoff * 2

-- The loop of `run`, from a backoff in seconds: the waits that it makes, the manager after its last
-- section under the mutex, and whether it has returned by then. No other goroutine changes the manager.
unfoldable pub run_loop : List Attempt → ℕ → Manager → List ℕ × Manager × Bool
run_loop [] backoff m = ([], m, false)
run_loop (a ∷ rounds) backoff m =
    let ran = counted (run_once (scan_logs a.lines) m) in
    let rest =
      run_loop rounds (next_backoff backoff) (record ran { status = plain reconnecting }) in
    if a.cancelled_before
    then ([], halted m, true)
    else if a.cancelled_after
    then ([], halted (run_once (scan_logs a.lines) m), true)
    else if leb max_failures ran.failure_count
    then ([], gave_up a.exit ran, true)
    else if a.cancelled_waiting
    then (backoff ∷ [], halted ran, true)
    else (backoff ∷ rest.0, rest.1, rest.2)

-- The deferred section of `run`, when the loop has returned.
abbrev pub deferred : Manager × Bool → Manager
deferred (m, returned) = if returned then cleared m else m

-- `run`, from its first backoff of a second: its waits, and the manager after the deferred section or,
-- if the loop has not returned, after the attempts of the list.
unfoldable pub run : List Attempt → Manager → List ℕ × Manager
run rounds m = let done = run_loop rounds 1 m in (done.0, deferred (done.1, done.2))
