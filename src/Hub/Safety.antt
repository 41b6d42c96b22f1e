-- ===== src/Hub/Safety.antt =====
-- internal/websocket/hub.go: no sequence of operations panics.
use mathlib.Core.Path.{subst}
use gamwich.Prelude.{
  ℕ, ◌≤◌, ◌<◌, ◌≡◌, refl, sym, ap, ◌∙◌, inl, inr, true, false, List, [], ◌∷◌, ◌==◌, Bool-cases,
  if◌then◌else◌, length, length-append, arith,
}
use gamwich.Text.{Text}
use gamwich.Hub.{
  Channel, Hub, Outcome, panicked, running, Event, connected, disconnected, sent, drained,
  send_buffer_size, new_hub, is_client, without, set_channel, register, unregister, offer, send_all,
  broadcast, connect, drain, tail_of, step, run,
}

-- No client stands in the list twice.
abbrev pub IsDistinct : List ℕ → Type 0
IsDistinct [] = Unit {0}
IsDistinct (c ∷ cs) = (is_client c cs ≡ false) × IsDistinct cs

-- The clients are distinct, their channels are open, their numbers are given away, and no buffer is above its size.
pub record IsSafe (h : Hub) : Type 0 where
  pub opened : (c : ℕ) → is_client c h.clients ≡ true → (h.channels c).closed ≡ false
  pub known : (c : ℕ) → is_client c h.clients ≡ true → c < h.next
  pub bounded : (c : ℕ) → length (h.channels c).buffer ≤ send_buffer_size
  pub distinct : IsDistinct h.clients

-- An outcome that is no panic and keeps to a condition.
abbrev pub Runs : (Hub → Type 0) → Outcome → Type 0
Runs P o = (h : Hub) × (o ≡ running h) × P h

is_client-without :
    (c d : ℕ) (ds : List ℕ) → is_client d (without c ds) ≡ true → is_client d ds ≡ true
is_client-without c d (e ∷ es) h = let r = is_client-without c d es in ground arith
is_client-without c d [] h = cc

not_client-without : (c : ℕ) (ds : List ℕ) → is_client c (without c ds) ≡ false
not_client-without c [] = refl
not_client-without c (d ∷ ds) = let r = not_client-without c ds in ground arith

without-IsDistinct : (c : ℕ) (ds : List ℕ) → IsDistinct ds → IsDistinct (without c ds)
without-IsDistinct c [] h = tt
without-IsDistinct c (d ∷ ds) (new, h) =
    let r = without-IsDistinct c ds h in
    elim (Bool-cases (d == c)) [
      | inl p ↦ rw p r
      | inr p ↦ rw p (elim (Bool-cases (is_client d (without c ds))) [
        | inl q ↦ let m = is_client-without c d ds q in cc
        | inr q ↦ (q, r)
      ])
    ]

pub ==-sound : (a b : ℕ) → (a == b) ≡ true → a ≡ b
==-sound a b h = ground arith

-- Another content of a channel, which is as open and small enough.
set_channel-IsSafe :
    (c : ℕ) (ch : Channel) (h : Hub)
    → IsSafe h
    → ch.closed ≡ (h.channels c).closed
    → length ch.buffer ≤ send_buffer_size
    → IsSafe (set_channel c ch h)
set_channel-IsSafe c ch h s e b = record {
  opened = λ d m. elim (Bool-cases (d == c)) [
    | inl q ↦ rw q (e ∙ s.opened c (subst (λ z. is_client z h.clients ≡ true) (==-sound d c q) m))
    | inr q ↦ rw q (s.opened d m)
  ];
  known = s.known;
  bounded = λ d. elim (Bool-cases (d == c)) [ inl q ↦ rw q b | inr q ↦ rw q (s.bounded d) ];
  distinct = s.distinct;
}

pub connect-IsSafe : (h : Hub) → IsSafe h → IsSafe (connect h)
unfolding connect register
connect-IsSafe h s = elim (Bool-cases (is_client h.next h.clients)) [
  | inl p ↦ let k = s.known h.next p in absurd (omega (arith, k))
  | inr p ↦ rw p (record {
    opened = λ c m. let k = s.opened c in ground (arith, k);
    known = λ c m. let k = s.known c in ground (arith, k);
    bounded = λ c. let k = s.bounded c in ground (arith, k);
    distinct = (p, s.distinct);
  })
]

unregister-IsSafe : (c : ℕ) (h : Hub) → IsSafe h → Runs IsSafe (unregister c h)
unfolding unregister
unregister-IsSafe c h s = elim (Bool-cases (is_client c h.clients)) [
  | inr p ↦ rw p (h, refl, s)
  | inl p ↦
      rw (p, s.opened c p)
        (
          _,
          refl,
          record {
            opened = λ d m. elim (Bool-cases (d == c)) [
              | inl q ↦
                  let left =
                    subst (λ z. is_client z (without c h.clients) ≡ true) (==-sound d c q) m in
                  let gone = not_client-without c h.clients in cc
              | inr q ↦ rw q (s.opened d (is_client-without c d h.clients m))
            ];
            known = λ d m. s.known d (is_client-without c d h.clients m);
            bounded = λ d. let k = s.bounded d in let j = s.bounded c in ground (arith, k, j);
            distinct = without-IsDistinct c h.clients s.distinct;
          },
        )
]

pub offer-bounded :
    (msg : Text) (ch : Channel) → length ch.buffer ≤ 16 → length (offer msg ch).buffer ≤ 16
offer-bounded msg ch h = let e = length-append ch.buffer (msg ∷ []) in ground arith

pub offer-closed : (msg : Text) (ch : Channel) → (offer msg ch).closed ≡ ch.closed
offer-closed msg ch = ground arith

pub send_all-open :
    (msg : Text) (c : ℕ) (cs : List ℕ) (h : Hub)
    → (h.channels c).closed ≡ false
    → send_all msg (c ∷ cs) h ≡ send_all msg cs (set_channel c (offer msg (h.channels c)) h)
unfolding send_all
send_all-open msg c cs h e =
    ap (λ b. if b then panicked else send_all msg cs (set_channel c (offer msg (h.channels c)) h)) e

send_all-IsSafe :
    (msg : Text) (cs : List ℕ) (h : Hub)
    → ((c : ℕ) → is_client c cs ≡ true → is_client c h.clients ≡ true)
    → IsSafe h
    → Runs IsSafe (send_all msg cs h)
unfolding send_all
send_all-IsSafe msg [] h sub s = (h, refl, s)
send_all-IsSafe msg (c ∷ cs) h sub s =
    let member : is_client c (c ∷ cs) ≡ true = ground arith in
    subst (Runs IsSafe) (sym (send_all-open msg c cs h (s.opened c (sub c member)))) (
      send_all-IsSafe msg cs (set_channel c (offer msg (h.channels c)) h)
        (λ d m. sub d (ground arith))
        (set_channel-IsSafe c _ h s (offer-closed msg (h.channels c))
          (offer-bounded msg (h.channels c) (s.bounded c))))

tail-bounded : (ms : List Text) → length ms ≤ 16 → length (tail_of ms) ≤ 16
tail-bounded [] h = h
tail-bounded (m ∷ ms) h = omega arith

step-IsSafe : (e : Event) (h : Hub) → IsSafe h → Runs IsSafe (step e h)
unfolding step broadcast drain
step-IsSafe connected h s = (connect h, refl, connect-IsSafe h s)
step-IsSafe (disconnected c) h s = unregister-IsSafe c h s
step-IsSafe (sent msg) h s = send_all-IsSafe msg h.clients h (λ c m. m) s
step-IsSafe (drained c) h s = (
  drain c h,
  refl,
  set_channel-IsSafe c _ h s refl (tail-bounded (h.channels c).buffer (s.bounded c)),
)

-- Whatever clients connect and disconnect, messages are broadcast and read, in any order and any
-- number, the hub never sends on a closed channel nor closes one twice, and afterwards the channel of
-- every client of the map is open and no buffer holds more than sixteen messages.
pub run-IsSafe : (es : List Event) (h : Hub) → IsSafe h → Runs IsSafe (run es h)
unfolding run
run-IsSafe [] h s = (h, refl, s)
run-IsSafe (e ∷ es) h s = let r = step-IsSafe e h s in rw r.1 (run-IsSafe es r.0 r.2)

pub new_hub-IsSafe : IsSafe new_hub
new_hub-IsSafe = record {
  opened = λ c m. refl;
  known = λ c m. cc;
  bounded = λ c. omega arith;
  distinct = tt;
}
