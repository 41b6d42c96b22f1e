-- ===== src/Tunnel/Backoff.antt =====
-- The waits of the goroutine `run`, and when it gives up.
use gamwich.Prelude.{
  ℕ, zero, suc, ◌+◌, ◌^◌, ◌<◌, ◌≡◌, ◌∙◌, refl, ap, inl, inr, Bool, true, false, some, List, [], ◌∷◌,
  All, arith, ltb, leb, min, Bool-cases, length, get_elem?,
}
use gamwich.Text.{Text}
use gamwich.Tunnel.{
  State, connected, reconnecting, disabled, stopped, connecting, failed, plain, Manager, ParseEvent,
}
use gamwich.Tunnel.LogParser.{scan_logs}
use gamwich.Tunnel.Run.{
  Attempt, run_once, on_state, next_backoff, max_failures, counted, run_loop, deferred, run,
}

next_backoff-min : (k : ℕ) → next_backoff (min (2 ^ k) 60) ≡ min (2 ^ suc k) 60
unfolding next_backoff
next_backoff-min k = ground arith

at_once :
    (b k i wait : ℕ)
    → get_elem? (b ∷ []) i ≡ some wait
    → b ≡ min (2 ^ k) 60
    → wait ≡ min (2 ^ (k + i)) 60
at_once b k zero wait e h = ground arith
at_once b k (suc i) wait e h = absurd cc

later :
    (waits : List ℕ) (k i wait : ℕ)
    → ((j w : ℕ) → get_elem? waits j ≡ some w → w ≡ min (2 ^ (suc k + j)) 60)
    → get_elem? (min (2 ^ k) 60 ∷ waits) i ≡ some wait
    → wait ≡ min (2 ^ (k + i)) 60
later waits k zero wait h e = ground arith
later waits k (suc i) wait h e = h i wait e ∙ ap (λ n. min (2 ^ n) 60) (omega arith)

run_loop-waits :
    (attempts : List Attempt) (k : ℕ) (m : Manager) (i wait : ℕ)
    → get_elem? (run_loop attempts (min (2 ^ k) 60) m).0 i ≡ some wait
    → wait ≡ min (2 ^ (k + i)) 60
unfolding run_loop
run_loop-waits [] k m i wait e = absurd cc
run_loop-waits (a ∷ rounds) k m i wait e =
    let ran = counted (run_once (scan_logs a.lines) m) in
    let retry = record ran { status = plain reconnecting } in
    let rest = run_loop-waits rounds (suc k) retry in
    elim (Bool-cases a.cancelled_before) [
      | inl p ↦ absurd (ground (arith, p))
      | inr p ↦ elim (Bool-cases a.cancelled_after) [
        | inl q ↦ absurd (ground (arith, p, q))
        | inr q ↦ elim (Bool-cases (leb max_failures ran.failure_count)) [
          | inl r ↦ absurd (ground (arith, p, q, r))
          | inr r ↦ elim (Bool-cases a.cancelled_waiting) [
            | inl s ↦ at_once (min (2 ^ k) 60) k i wait (ground (arith, p, q, r, s)) refl
            | inr s ↦
                later (run_loop rounds (min (2 ^ suc k) 60) retry).0 k i wait (λ j w. rest j w)
                  (ground (arith, p, q, r, s, next_backoff-min k))
          ]
        ]
      ]
    ]

-- Whatever the process does, the wait of `run` before its next attempt number i + 1 is 2 ^ i seconds, and
-- a minute where that is longer.
pub run-waits :
    (attempts : List Attempt) (m : Manager) (i wait : ℕ)
    → get_elem? (run attempts m).0 i ≡ some wait
    → wait ≡ min (2 ^ i) 60
unfolding run
run-waits attempts m i wait e =
    let start : 0 + i ≡ i = omega arith in
    run_loop-waits attempts 0 m i wait e ∙ ap (λ n. min (2 ^ n) 60) start

abbrev is_connected : State → Bool
is_connected connected = true
is_connected s = false

-- An attempt that nobody cancels and in which the process never reports a connection.
pub record IsFailing (a : Attempt) : Type 0 where
  pub no_connection : All (λ (ev : ParseEvent). is_connected ev.state ≡ false) (scan_logs a.lines)
  pub before : a.cancelled_before ≡ false
  pub after : a.cancelled_after ≡ false
  pub waiting : a.cancelled_waiting ≡ false

on_state-failing :
    (s : State) (host : Text) (m : Manager)
    → is_connected s ≡ false
    → ((on_state s host m).failure_count ≡ m.failure_count)
      × ((on_state s host m).running ≡ m.running)
on_state-failing disabled host m h = (refl, refl)
on_state-failing stopped host m h = (refl, refl)
on_state-failing connecting host m h = (refl, refl)
on_state-failing connected host m h = absurd cc
on_state-failing reconnecting host m h = (refl, refl)
on_state-failing failed host m h = (refl, refl)

run_once-failing :
    (evs : List ParseEvent) (m : Manager)
    → All (λ (ev : ParseEvent). is_connected ev.state ≡ false) evs
    → ((run_once evs m).failure_count ≡ m.failure_count) × ((run_once evs m).running ≡ m.running)
unfolding run_once
run_once-failing [] m h = (refl, refl)
run_once-failing (ev ∷ evs) m h =
    let one = on_state-failing ev.state ev.hostname m h.0 in
    let rest = run_once-failing evs (on_state ev.state ev.hostname m) h.1 in
    (rest.0 ∙ one.0, rest.1 ∙ one.1)

run_loop-failing :
    (attempts : List Attempt) (backoff : ℕ) (m : Manager)
    → All IsFailing attempts
    → m.failure_count < max_failures
    → m.running ≡ true
    → let done = run_loop attempts backoff m in
      (deferred (done.1, done.2)).running ≡ ltb (m.failure_count + length attempts) max_failures
unfolding run_loop
run_loop-failing [] backoff m h below run = ground arith
run_loop-failing (a ∷ rounds) backoff m h below run =
    let ran = counted (run_once (scan_logs a.lines) m) in
    let retry = record ran { status = plain reconnecting } in
    let once = run_once-failing (scan_logs a.lines) m h.0.no_connection in
    elim (Bool-cases (leb max_failures ran.failure_count)) [
      | inl r ↦ ground (arith, h.0.before, h.0.after, r, once)
      | inr r ↦
          let rest =
            run_loop-failing rounds (next_backoff backoff) retry h.1 (ground (arith, r))
              (once.1 ∙ run) in
          ground (arith, h.0.before, h.0.after, h.0.waiting, r, once, rest)
    ]

-- A manager that has just started, that no other goroutine changes, and whose attempts all fail without
-- a connection and without a cancellation, runs exactly as long as there are fewer than ten of them.
pub run-gives_up :
    (attempts : List Attempt) (m : Manager)
    → All IsFailing attempts
    → m.failure_count ≡ 0
    → m.running ≡ true
    → (run attempts m).1.running ≡ ltb (length attempts) max_failures
unfolding run
run-gives_up attempts m h fresh going =
    let start : m.failure_count + length attempts ≡ length attempts = omega (arith, fresh) in
    run_loop-failing attempts 1 m h (omega (arith, fresh)) going
    ∙ ap (λ n. ltb n max_failures) start
