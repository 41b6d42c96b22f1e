-- ===== src/Hub/Delivery.antt =====
-- internal/websocket/hub.go: who receives a broadcast.
use mathlib.Core.Path.{subst}
use gamwich.Prelude.{
  ℕ, ◌≡◌, ◌<◌, ◌≤◌, refl, sym, ◌∙◌, inl, inr, true, false, List, [], ◌∷◌, ◌++◌, ◌==◌, length,
  Bool-cases, if◌then◌else◌, arith,
}
use gamwich.Text.{Text}
use gamwich.Hub.{Channel, Hub, running, is_client, set_channel, offer, send_all, broadcast}
use gamwich.Hub.Safety.{IsSafe, IsDistinct, ==-sound, offer-closed, send_all-open}

-- The channel of a client after a message was offered to the clients of a list.
abbrev offered : Text → List ℕ → Hub → ℕ → Channel
offered msg cs h d = if is_client d cs then offer msg (h.channels d) else h.channels d

offered-cons :
    (msg : Text) (c : ℕ) (cs : List ℕ) (h : Hub)
    → is_client c cs ≡ false
    → (d : ℕ)
    → offered msg cs (set_channel c (offer msg (h.channels c)) h) d ≡ offered msg (c ∷ cs) h d
offered-cons msg c cs h new d = elim (Bool-cases (d == c)) [
  | inl q ↦
      let same = ==-sound d c q in
      let left : is_client d cs ≡ false = subst (λ z. is_client z cs ≡ false) (sym same) new in
      let right : (c == d) ≡ true = ground arith in rw (q, left, right, same)
  | inr q ↦ let right : (c == d) ≡ false = ground arith in rw (q, right)
]

send_all-offers :
    (msg : Text) (cs : List ℕ) (h : Hub)
    → IsDistinct cs
    → ((c : ℕ) → is_client c cs ≡ true → (h.channels c).closed ≡ false)
    → (k : Hub) × (send_all msg cs h ≡ running k)
      × ((d : ℕ) → k.channels d ≡ offered msg cs h d)
      × (k.clients ≡ h.clients)
unfolding send_all
send_all-offers msg [] h distinct opened = (h, refl, λ d. refl, refl)
send_all-offers msg (c ∷ cs) h (new, distinct) opened =
    let h' = set_channel c (offer msg (h.channels c)) h in
    let own : is_client c (c ∷ cs) ≡ true = ground arith in
    let opened' : (d : ℕ) → is_client d cs ≡ true → (h'.channels d).closed ≡ false = λ d m.
      elim (Bool-cases (d == c)) [
        | inl q ↦ rw q (offer-closed msg (h.channels c) ∙ opened c own)
        | inr q ↦ rw q (opened d (ground arith))
      ] in
    let r = send_all-offers msg cs h' distinct opened' in
    (
      r.0,
      send_all-open msg c cs h (opened c own) ∙ r.1,
      λ d. r.2 d ∙ offered-cons msg c cs h new d,
      r.3,
    )

-- What a broadcast of a message has done to the channels of a hub.
pub record Delivered (msg : Text) (before after : Hub) : Type 0 where
  pub with_room :
      (d : ℕ)
      → is_client d before.clients ≡ true
      → length (before.channels d).buffer < 16
      → after.channels d
        ≡ record (before.channels d) { buffer = (before.channels d).buffer ++ msg ∷ [] }
  pub with_full_buffer :
      (d : ℕ)
      → is_client d before.clients ≡ true
      → 16 ≤ length (before.channels d).buffer
      → after.channels d ≡ before.channels d
  pub no_client :
      (d : ℕ) → is_client d before.clients ≡ false → after.channels d ≡ before.channels d
  pub same_clients : after.clients ≡ before.clients

offer-room :
    (msg : Text) (ch : Channel)
    → length ch.buffer < 16
    → offer msg ch ≡ record ch { buffer = ch.buffer ++ msg ∷ [] }
offer-room msg ch h = ground arith

offer-full : (msg : Text) (ch : Channel) → 16 ≤ length ch.buffer → offer msg ch ≡ ch
offer-full msg ch h = ground arith

-- A broadcast never panics, puts the message at the end of the buffer of every client that the hub has
-- and whose buffer holds less than sixteen messages, and changes neither the channel of any other
-- client nor the clients themselves.
pub broadcast-offers :
    (msg : Text) (h : Hub)
    → IsSafe h
    → (k : Hub) × (broadcast msg h ≡ running k) × Delivered msg h k
unfolding broadcast
broadcast-offers msg h s =
    let r = send_all-offers msg h.clients h s.distinct s.opened in
    (
      r.0,
      r.1,
      record {
        with_room = λ d c room. r.2 d ∙ rw c (offer-room msg (h.channels d) room);
        with_full_buffer = λ d c full. r.2 d ∙ rw c (offer-full msg (h.channels d) full);
        no_client = λ d c. r.2 d ∙ rw c refl;
        same_clients = r.3;
      },
    )
