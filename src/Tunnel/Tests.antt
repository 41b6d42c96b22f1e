-- ===== src/Tunnel/Tests.antt =====
-- Witnesses for the tunnel manager.
use gamwich.Prelude.{◌≡◌, ◌^◌, refl, true, false, some, List, [], ◌∷◌, min, ltb, get_elem?, length}
use gamwich.Text.{codes}
use gamwich.Tunnel.{Config, Manager, new_manager, start}
use gamwich.Tunnel.LogParser.{scan_logs, find_hostname}
use gamwich.Tunnel.Run.{Attempt, run_once, next_backoff, run_loop, run, max_failures}
use gamwich.Tunnel.Backoff.{IsFailing, run-waits, run-gives_up}

abbrev cfg : Config
cfg = record { token = codes "t"; enabled = true; local_url = []; cloudflared_path = [] }

-- The manager after `Start`.
abbrev started : Manager
started = (start true 1000 (new_manager cfg)).0

abbrev dead : Attempt
dead = record {
  lines = [];
  exit = some (codes "exit status 1");
  cancelled_before = false;
  cancelled_after = false;
  cancelled_waiting = false;
}

abbrev four_dead : List Attempt
four_dead = dead ∷ dead ∷ dead ∷ dead ∷ []

third_wait : get_elem? (run four_dead started).0 2 ≡ some 4
unfolding run run_loop run_once scan_logs next_backoff start new_manager
third_wait = refl

run-waits_example : 4 ≡ min (2 ^ 2) 60
run-waits_example = run-waits four_dead started 2 4 third_wait

dead-IsFailing : IsFailing dead
unfolding scan_logs
dead-IsFailing = record { no_connection = tt; before = refl; after = refl; waiting = refl }

started_fresh : (started.failure_count ≡ 0) × (started.running ≡ true)
unfolding start new_manager
started_fresh = (refl, refl)

run-gives_up_example : (run four_dead started).1.running ≡ ltb (length four_dead) max_failures
run-gives_up_example =
    run-gives_up four_dead started
      (dead-IsFailing, (dead-IsFailing, (dead-IsFailing, (dead-IsFailing, tt)))) started_fresh.0
      started_fresh.1

-- A line of internal/tunnel/tunnel_test.go
registered_line :
    find_hostname (codes "url=https://my-home.tunnel.gamwich.app ok")
    ≡ some (codes "my-home.tunnel.gamwich.app")
unfolding find_hostname
registered_line = refl
