-- ===== src/RateLimit/Tests.antt =====
-- Witnesses for the rate limiter.
use gamwich.Prelude.{◌-◌, ◌≡◌, refl, some, List, [], ◌∷◌, min, arith}
use gamwich.Prelude.Int.{pos}
use gamwich.Text.{Text, codes}
use gamwich.Calendar.{Time}
use gamwich.RateLimit.{Entries, find, allow, cleanup, rate_limit_all}
use gamwich.RateLimit.Window.{Distinct, of_key, served_of, rate_limit_all-served, allow-cleanup}

abbrev host : Text
host = codes "10.0.0.1"

abbrev other_host : Text
other_host = codes "10.0.0.2"

abbrev entries : Entries
entries =
    (host, record { count = 3; window_at = 100 })
    ∷ (other_host, record { count = 1; window_at = 20 })
    ∷ []

abbrev requests : List (Text × Time)
requests = (host, 40) ∷ (other_host, 41) ∷ (host, 42) ∷ (host, 100) ∷ []

host_found : find host entries ≡ some (record { count = 3; window_at = 100 })
unfolding find
host_found = refl

rate_limit_all-served_example :
    served_of host requests (rate_limit_all 5 (pos 60) requests entries).0
    ≡ min (of_key host requests) (5 - 3)
rate_limit_all-served_example =
    rate_limit_all-served host 5 (pos 60) requests entries (record { count = 3; window_at = 100 })
      host_found (omega arith, (omega arith, (omega arith, (omega arith, tt))))

entries-Distinct : Distinct entries
unfolding Distinct find
entries-Distinct = (refl, (refl, tt))

allow-cleanup_example :
    ((allow other_host 5 (pos 60) 30 (cleanup 25 entries)).0
      ≡ (allow other_host 5 (pos 60) 30 entries).0)
    × (find other_host (allow other_host 5 (pos 60) 30 (cleanup 25 entries)).1
        ≡ find other_host (allow other_host 5 (pos 60) 30 entries).1)
allow-cleanup_example =
    allow-cleanup other_host 5 (pos 60) 25 30 entries entries-Distinct (omega arith)
