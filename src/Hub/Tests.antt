-- ===== src/Hub/Tests.antt =====
-- Runs of the hub at concrete inputs.
use gamwich.Prelude.{◌≡◌, List, [], ◌∷◌}
use gamwich.Text.{codes}
use gamwich.Hub.{
  Hub, running, Event, connected, disconnected, sent, drained, new_hub, broadcast, connect, run,
}
use gamwich.Hub.Safety.{IsSafe, Runs, run-IsSafe, new_hub-IsSafe, connect-IsSafe}
use gamwich.Hub.Delivery.{Delivered, broadcast-offers}

abbrev events : List Event
events =
    connected
    ∷ connected
    ∷ sent (codes "a")
    ∷ drained 0
    ∷ disconnected 0
    ∷ disconnected 0
    ∷ sent (codes "b")
    ∷ []

run-IsSafe_example : Runs IsSafe (run events new_hub)
run-IsSafe_example = run-IsSafe events new_hub new_hub-IsSafe

broadcast-offers_example :
    (k : Hub) × (broadcast (codes "a") (connect new_hub) ≡ running k)
    × Delivered (codes "a") (connect new_hub) k
broadcast-offers_example =
    broadcast-offers (codes "a") (connect new_hub) (connect-IsSafe new_hub new_hub-IsSafe)
