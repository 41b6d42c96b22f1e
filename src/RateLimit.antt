-- ===== src/RateLimit.antt =====
-- internal/middleware/ratelimit.go. The map of entries is an association list with one entry for a
-- key; the time of a call is an argument, as is the outcome of `net.SplitHostPort`.
pub mod Window
pub mod Tests
use gamwich.Prelude.{
  ℕ, suc, ◌+◌, Bool, true, false, Option, none, some, List, [], ◌∷◌, ltb, leb, if◌then◌else◌,
}
use gamwich.Prelude.Int.{ℤ}
use gamwich.Text.{Text, text_eq, cut, trim_space}
use gamwich.Calendar.{Time, add}

-- What `RealIP` reads of a request.
pub record Request : Type 0 where
  pub cf_connecting_ip : Text
  pub x_forwarded_for : Text
  pub remote_addr : Text

-- The first address of the chain, up to a comma that is not the first byte.
abbrev first_address : Text → Option (Text × Text) → Text
first_address xff none = trim_space xff
first_address xff (some ([], after)) = trim_space xff
first_address xff (some (c ∷ cs, after)) = trim_space (c ∷ cs)

module _ (split_host_port : Text → Option (Text × Text)) where
  abbrev host_of : Text → Text
  host_of addr = elim (split_host_port addr) [ none ↦ addr | some (host, port) ↦ host ]

  abbrev forwarded : Text → Text → Text
  forwarded [] addr = host_of addr
  forwarded (c ∷ cs) addr = first_address (c ∷ cs) (cut b',' (c ∷ cs))

  abbrev connecting : Text → Request → Text
  connecting [] r = forwarded r.x_forwarded_for r.remote_addr
  connecting (c ∷ cs) r = c ∷ cs

  unfoldable pub real_ip : Request → Text
  real_ip r = connecting r.cf_connecting_ip r

pub record Entry : Type 0 where
  pub count : ℕ
  pub window_at : Time

abbrev pub Entries : Type 0
Entries = List (Text × Entry)

-- `rl.entries[key]`
unfoldable pub find : Text → Entries → Option Entry
find key [] = none
find key ((k, e) ∷ es) = if text_eq k key then some e else find key es

-- `rl.entries[key] = e`
unfoldable pub put : Text → Entry → Entries → Entries
put key e [] = (key, e) ∷ []
put key e ((k, d) ∷ es) =
    let rest = put key e es in if text_eq k key then (key, e) ∷ es else (k, d) ∷ rest

abbrev opened : Text → Time → ℤ → Entries → Bool × Entries
opened key now window es = (true, put key (record { count = 1; window_at = add now window }) es)

-- `Allow` at the time `now`.
unfoldable pub allow : Text → ℕ → ℤ → Time → Entries → Bool × Entries
allow key limit window now es = elim (find key es) [
  | none ↦ opened key now window es
  | some e ↦ if ltb e.window_at now then opened key now window es else (
    leb (suc e.count) limit,
    put key (record { count = suc e.count; window_at = e.window_at }) es,
  )
]

-- `Cleanup` at the time `now`.
unfoldable pub cleanup : Time → Entries → Entries
cleanup now [] = []
cleanup now ((k, e) ∷ es) =
    let rest = cleanup now es in if ltb e.window_at now then rest else (k, e) ∷ rest

-- What `RateLimit` does with a request: serve it, or answer 429.
pub data Outcome : Type 0 where
  served too_many_requests : Outcome

unfoldable pub rate_limit : Text → ℕ → ℤ → Time → Entries → Outcome × Entries
rate_limit key limit window now es =
    let (allowed, after) = allow key limit window now es in
    if allowed then (served, after) else (too_many_requests, after)

-- The requests of a list, each with its key and its time, one after the other.
unfoldable pub rate_limit_all : ℕ → ℤ → List (Text × Time) → Entries → List Outcome × Entries
rate_limit_all limit window [] es = ([], es)
rate_limit_all limit window ((key, now) ∷ rs) es =
    let (o, after) = rate_limit key limit window now es in
    let (os, last) = rate_limit_all limit window rs after in (o ∷ os, last)
