-- ===== src/Hub.antt =====
-- internal/websocket/hub.go and client.go: the clients of the hub and their channels. A client is the
-- number of its connection. A message is the text that it was encoded to, which never fails to encode:
-- its extra values are strings and numbers. Each operation that the hub does under its lock is one
-- step.
mod Delivery
mod Safety
mod Tests
use gamwich.Prelude.{
  ℕ, suc, ◌+◌, Bool, true, false, not, ◌||◌, Option, none, some, List, [], ◌∷◌, ◌++◌, ltb, ◌==◌,
  if◌then◌else◌, length,
}
use gamwich.Text.{Text}

-- `chan []byte`: what it holds, and whether it was closed.
pub record Channel : Type 0 where
  pub buffer : List Text
  pub closed : Bool

abbrev pub send_buffer_size : ℕ
send_buffer_size = 16

abbrev pub new_channel : Channel
new_channel = record { buffer = []; closed = false }

-- The clients of the map, the channel of each client there has been, and the next client's number.
pub record Hub : Type 0 where
  pub clients : List ℕ
  pub channels : ℕ → Channel
  pub next : ℕ

abbrev pub new_hub : Hub
new_hub = record { clients = []; channels = λ c. new_channel; next = 0 }

-- A send on a closed channel panics, and so does closing it again.
pub data Outcome : Type 0 where
  panicked : Outcome
  running : Hub → Outcome

abbrev pub is_client : ℕ → List ℕ → Bool
is_client c [] = false
is_client c (d ∷ ds) = (d == c) || is_client c ds

abbrev pub set_channel : ℕ → Channel → Hub → Hub
set_channel c ch h = record h { channels = λ d. if d == c then ch else h.channels d }

-- `Register`; the map holds a client once.
unfoldable pub register : ℕ → Hub → Hub
register c h = if is_client c h.clients then h else record h { clients = c ∷ h.clients }

abbrev pub without : ℕ → List ℕ → List ℕ
without c [] = []
without c (d ∷ ds) = let rest = without c ds in if d == c then rest else d ∷ rest

abbrev close : ℕ → Hub → Outcome
close c h =
    if (h.channels c).closed
    then panicked
    else running (set_channel c (record { buffer = (h.channels c).buffer; closed = true }) h)

-- `Unregister`
unfoldable pub unregister : ℕ → Hub → Outcome
unregister c h =
    if is_client c h.clients
    then close c (record h { clients = without c h.clients })
    else running h

-- The `select` with a default: a full buffer drops the message.
abbrev pub offer : Text → Channel → Channel
offer msg ch =
    if ltb (length ch.buffer) send_buffer_size
    then record { buffer = ch.buffer ++ msg ∷ []; closed = ch.closed }
    else ch

-- The loop over the clients.
unfoldable pub send_all : Text → List ℕ → Hub → Outcome
send_all msg [] h = running h
send_all msg (c ∷ cs) h =
    let rest = send_all msg cs (set_channel c (offer msg (h.channels c)) h) in
    if (h.channels c).closed then panicked else rest

unfoldable pub broadcast : Text → Hub → Outcome
broadcast msg h = send_all msg h.clients h

unfoldable pub client_count : Hub → ℕ
client_count h = length h.clients

-- `NewClient`, with the registration at the beginning of `Run`; the client is new.
unfoldable pub connect : Hub → Hub
unfolding register
connect h = register h.next (set_channel h.next new_channel (record h { next = suc h.next }))

abbrev pub tail_of : List Text → List Text
tail_of [] = []
tail_of (m ∷ ms) = ms

-- A receive of the write pump takes the oldest message.
unfoldable pub drain : ℕ → Hub → Hub
drain c h =
    set_channel c
      (record { buffer = tail_of (h.channels c).buffer; closed = (h.channels c).closed }) h

pub data Event : Type 0 where
  connected : Event
  disconnected : ℕ → Event
  sent : Text → Event
  drained : ℕ → Event

unfoldable pub step : Event → Hub → Outcome
step connected h = running (connect h)
step (disconnected c) h = unregister c h
step (sent msg) h = broadcast msg h
step (drained c) h = running (drain c h)

abbrev go_on : (Hub → Outcome) → Outcome → Outcome
go_on f panicked = panicked
go_on f (running h) = f h

unfoldable pub run : List Event → Hub → Outcome
run [] h = running h
run (e ∷ es) h = go_on (run es) (step e h)
