-- ===== src/Auth/Attempts.antt =====
-- `validateCode` of internal/handler/auth.go: how many guesses a code withstands.
use mathlib.Core.Path.{subst}
use gamwich.Prelude.{
  ℕ, suc, ◌+◌, ◌≤◌, ◌≡◌, ◌≢◌, refl, sym, ap, ◌∙◌, ◌⊎◌, inl, inr, true, false, Option, none, some,
  List, [], ◌∷◌, leb, Bool-cases, All, length, arith,
}
use gamwich.Prelude.Result.{ok}
use gamwich.Text.{Text, text_eq, is_empty}
use gamwich.Calendar.{Time}
use gamwich.Sql.{
  World, pure, raise, statement, query, exec, attempt, ◌>>=◌, ◌>>◌, or_failed, select, update_where,
  order_by, insert_row,
}
use gamwich.Sql.Rows.{In, In-select, select-head, select-update_where-one, select-update_where-none}
use gamwich.Auth.Guesses.{validate_code-Accepts}
use gamwich.Auth.{MagicLink, AuthDb}
use gamwich.Auth.Codes.{
  is_pending_for, set_used, has_id, set_links, get_latest_by_email, more_attempts,
  increment_attempts, mark_used, max_code_attempts, accepted, check_link, or_zero, validate_code,
}

-- The database after guesses for an address, each at its time, with no fault of a statement.
unfoldable pub guess_all : Text → List (Time × Text) → AuthDb → AuthDb
guess_all email [] s = s
guess_all email ((now, code) ∷ guesses) s =
    guess_all email guesses (validate_code email code now (s, [])).1.0

-- Guesses that come one after the other between two times.
abbrev pub InOrder : Time → List (Time × Text) → Time → Type 0
InOrder start [] end = start ≤ end
InOrder start ((now, code) ∷ guesses) end = (start ≤ now) × InOrder now guesses end

abbrev pub IsWrong : Text → Time × Text → Type 0
IsWrong token (now, code) = (is_empty code ≡ false) × (text_eq token code ≡ false)

or_failed-keeps : {A : Type 0} (o : Option A) (w : World AuthDb) → (or_failed o w).1 ≡ w
unfolding or_failed pure raise
or_failed-keeps none w = refl
or_failed-keeps (some a) w = refl

abbrev counted : ℕ → AuthDb → AuthDb
counted id s = set_links (update_where (has_id id) more_attempts s.magic_links.rows) s

-- An attempt is counted, whatever is read afterwards.
increment-counts : (id : ℕ) (s : AuthDb) → (increment_attempts id (s, [])).1 ≡ (counted id s, [])
unfolding increment_attempts exec statement query ◌>>=◌ ◌>>◌
increment-counts id s = or_failed-keeps _ (counted id s, [])

module _ (email token : Text) (now : Time) where
  -- The code is gone, or it has had a number of wrong guesses.
  abbrev Withstands : ℕ → AuthDb → Type 0
  Withstands n s =
      (select (is_pending_for email now) s.magic_links.rows ≡ [])
      ⊎ ((l : MagicLink) × (select (is_pending_for email now) s.magic_links.rows ≡ l ∷ [])
          × (l.token ≡ token)
          × (n ≤ l.attempts))

  set_used-unpending : (l : MagicLink) → is_pending_for email now (set_used now l) ≡ false
  set_used-unpending l = ground arith

  pending-gone :
      (id : ℕ) (rows : List MagicLink)
      → select (is_pending_for email now) rows ≡ []
      → select (is_pending_for email now) (update_where (has_id id) (set_used now) rows) ≡ []
  pending-gone id rows e =
      select-update_where-none (is_pending_for email now) (has_id id) (set_used now)
        (λ x h. set_used-unpending x) rows e

  mark-gone :
      (l : MagicLink) (rows : List MagicLink)
      → select (is_pending_for email now) rows ≡ l ∷ []
      → select (is_pending_for email now) (update_where (has_id l.id) (set_used now) rows) ≡ []
  mark-gone l rows e =
      select-update_where-one (is_pending_for email now) (has_id l.id) (set_used now)
        (λ x h. set_used-unpending x) l rows (ground arith) e
      ∙ rw (set_used-unpending l)

  attempt-counted :
      (l : MagicLink) (rows : List MagicLink)
      → select (is_pending_for email now) rows ≡ l ∷ []
      → select (is_pending_for email now) (update_where (has_id l.id) more_attempts rows)
        ≡ more_attempts l ∷ []
  attempt-counted l rows e =
      select-update_where-one (is_pending_for email now) (has_id l.id) more_attempts (λ x h. h) l
        rows (ground arith) e
      ∙ rw (select-head (is_pending_for email now) rows l [] e)

  module _ (code : Text) (nonempty : is_empty email ≡ false)
      (wrong : IsWrong token (now, code)) where
    guess-gone :
        (s : AuthDb)
        → select (is_pending_for email now) s.magic_links.rows ≡ []
        → (validate_code email code now (s, [])).1.0 ≡ s
    unfolding validate_code ◌>>=◌ pure attempt get_latest_by_email query statement order_by
    guess-gone s e = rw (nonempty, wrong.0, e)

    guess-latest :
        (s : AuthDb) (l : MagicLink)
        → select (is_pending_for email now) s.magic_links.rows ≡ l ∷ []
        → validate_code email code now (s, []) ≡ check_link code now l (s, [])
    unfolding validate_code ◌>>=◌ attempt get_latest_by_email query statement order_by insert_row
    guess-latest s l e = rw (nonempty, wrong.0, e)

    check-Withstands :
        (n : ℕ) (s : AuthDb) (l : MagicLink)
        → select (is_pending_for email now) s.magic_links.rows ≡ l ∷ []
        → l.token ≡ token
        → n ≤ l.attempts
        → Withstands (suc n) (check_link code now l (s, [])).1.0
    unfolding ◌>>=◌ ◌>>◌ pure attempt mark_used exec statement
    check-Withstands n s l e t k = elim (Bool-cases (leb max_code_attempts l.attempts)) [
      | inl p ↦ rw p (inl (mark-gone l s.magic_links.rows e))
      | inr p ↦
          let r = increment_attempts l.id (s, []) in
          let q : text_eq l.token code ≡ false = rw t wrong.1 in
          let c = attempt-counted l s.magic_links.rows e in
          rw (p, q, increment-counts l.id s)
            (elim (Bool-cases (leb max_code_attempts (or_zero r.0))) [
              | inl z ↦ rw z (inl (mark-gone (more_attempts l) _ c))
              | inr z ↦ rw z (inr (more_attempts l, c, t, omega (arith, k)))
            ])
    ]

    guess-Withstands :
        (n : ℕ) (s : AuthDb)
        → Withstands n s
        → Withstands (suc n) (validate_code email code now (s, [])).1.0
    guess-Withstands n s (inl e) = rw (guess-gone s e) (inl e)
    guess-Withstands n s (inr (l, e, t, k)) = rw (guess-latest s l e) (check-Withstands n s l e t k)

  cant : (l : MagicLink) → 5 ≤ l.attempts → leb max_code_attempts l.attempts ≡ false → ⊥
  cant l = ground arith

  Withstands-le : (n k : ℕ) (s : AuthDb) → n ≤ k → Withstands k s → Withstands n s
  Withstands-le n k s h (inl e) = inl e
  Withstands-le n k s h (inr (l, e, t, m)) = inr (l, e, t, omega arith)

  exhausted-rejects :
      (code : Text) (m : MagicLink) (s : AuthDb)
      → Withstands 5 s
      → (validate_code email code now (s, [])).0 ≢ ok (accepted m)
  exhausted-rejects code m s h e =
      let r = validate_code-Accepts email code now m (s, []) e in
      let k = In-select (is_pending_for email now) s.magic_links.rows m r.row.0 r.row.1 in
      elim h [
        | inl gone ↦ subst (In m) gone k
        | inr (l, one, t, n) ↦ elim (subst (In m) one k) [
          | inl same ↦ cant m (rw same at n) r.attempts
          | inr missing ↦ missing
        ]
      ]

-- A code that is pending at a later time was pending before.
still_pending :
    (email : Text) (now end : Time) (l : MagicLink)
    → now ≤ end
    → is_pending_for email end l ≡ true
    → is_pending_for email now l ≡ true
still_pending email now end l h p = ground arith

select-still :
    (email : Text) (now end : Time) (rows : List MagicLink)
    → now ≤ end
    → select (is_pending_for email end) (select (is_pending_for email now) rows)
      ≡ select (is_pending_for email end) rows
unfolding select
select-still email now end [] h = refl
select-still email now end (l ∷ rows) h =
    let rest = select-still email now end rows h in
    elim (Bool-cases (is_pending_for email end l)) [
      | inl p ↦ rw (p, still_pending email now end l h p, p, rest)
      | inr p ↦ elim (Bool-cases (is_pending_for email now l)) [
        | inl q ↦ rw (p, q, p, rest)
        | inr q ↦ rw (p, q, rest)
      ]
    ]

Withstands-later :
    (email token : Text) (now end : Time) (n : ℕ) (s : AuthDb)
    → now ≤ end
    → Withstands email token now n s
    → Withstands email token end n s
unfolding select
Withstands-later email token now end n s h (inl e) =
    inl (sym (select-still email now end s.magic_links.rows h) ∙ rw e)
Withstands-later email token now end n s h (inr (l, e, t, k)) =
    let found =
      sym (select-still email now end s.magic_links.rows h)
      ∙ ap (select (is_pending_for email end)) e in
    elim (Bool-cases (is_pending_for email end l)) [
      | inl p ↦ inr (l, found ∙ rw p, t, k)
      | inr p ↦ inl (found ∙ rw p)
    ]

guess_all-Withstands :
    (email token : Text) (guesses : List (Time × Text)) (start end : Time) (n : ℕ) (s : AuthDb)
    → is_empty email ≡ false
    → InOrder start guesses end
    → All (IsWrong token) guesses
    → Withstands email token start n s
    → Withstands email token end (n + length guesses) (guess_all email guesses s)
unfolding guess_all
guess_all-Withstands email token [] start end n s nonempty order wrong h =
    subst (λ k. Withstands email token end k s) (omega arith)
      (Withstands-later email token start end n s order h)
guess_all-Withstands email token ((now, c) ∷ guesses) start end n s nonempty (le, order) (w, ws) h =
    subst (λ k. Withstands email token end k (guess_all email ((now, c) ∷ guesses) s)) (omega arith)
      (guess_all-Withstands email token guesses now end (suc n) _ nonempty order ws (
        guess-Withstands email token now c nonempty w n s
          (Withstands-later email token start now n s le h)))

-- Where no statement fails and a single code is pending for an address at a time, five wrong guesses
-- and more that come one after the other from then on use it up: no code is accepted for the address
-- at a time after them, the right one included. No new code is made between them.
pub guess_all-rejects :
    (email : Text) (start now : Time) (guesses : List (Time × Text)) (s : AuthDb) (l : MagicLink)
    → is_empty email ≡ false
    → select (is_pending_for email start) s.magic_links.rows ≡ l ∷ []
    → InOrder start guesses now
    → All (IsWrong l.token) guesses
    → 5 ≤ length guesses
    → (code : Text) (m : MagicLink)
    → (validate_code email code now (guess_all email guesses s, [])).0 ≢ ok (accepted m)
guess_all-rejects email start now guesses s l nonempty one order wrong enough code m =
    let after = guess_all email guesses s in
    exhausted-rejects email l.token now code m after (
      Withstands-le email l.token now 5 (0 + length guesses) after (omega arith) (
        guess_all-Withstands email l.token guesses start now 0 s nonempty order wrong
          (inr (l, one, refl, omega arith))))
