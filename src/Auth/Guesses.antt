-- ===== src/Auth/Guesses.antt =====
-- `validateCode` of internal/handler/auth.go: which codes it accepts, and how many guesses it allows.
use mathlib.Core.Path.{subst}
use gamwich.Prelude.{
  ℕ, ◌≡◌, refl, ◌⊎◌, inl, inr, true, false, ◌||◌, Option, none, some, leb, Bool-cases,
}
use gamwich.Prelude.Result.{ok, err}
use gamwich.Text.{Text, codes, text_eq, is_empty}
use gamwich.Calendar.{Time}
use gamwich.Sql.{failed, World, pure, attempt, ◌>>=◌, ◌>>◌, select, update_where, order_by, head}
use gamwich.Sql.Rows.{In, All-select, All-order_by, All-head}
use gamwich.Sql.Faults.{later, query-cases, exec-cases}
use gamwich.Auth.{MagicLink, AuthDb}
use gamwich.Auth.Codes.{
  is_pending_for, set_used, has_id, set_links, is_later, get_latest_by_email, increment_attempts,
  mark_used, max_code_attempts, accepted, rejected, too_many, internal, after_match, or_zero,
  after_mismatch, check_link, check_latest, validate_code,
}

-- The link is a row of the table that stands for the address and is pending.
abbrev pub IsPendingRow : Text → Time → AuthDb → MagicLink → Type 0
IsPendingRow email now s l = In l s.magic_links.rows × (is_pending_for email now l ≡ true)

-- The latest pending link, as `GetLatestByEmail` reads it.
abbrev latest : Text → Time → AuthDb → Option MagicLink
latest email now s = head (order_by is_later (select (is_pending_for email now) s.magic_links.rows))

latest-IsPendingRow :
    (email : Text) (now : Time) (s : AuthDb) (l : MagicLink)
    → latest email now s ≡ some l
    → IsPendingRow email now s l
latest-IsPendingRow email now s l e =
    let P = IsPendingRow email now s in
    All-head P _ l
      (All-order_by P is_later _
        (All-select P (is_pending_for email now) s.magic_links.rows (λ x m h. (m, h))))
      e

-- The database after a link was marked as used.
abbrev pub after_use : MagicLink → Time → AuthDb → AuthDb
after_use l now s = set_links (update_where (has_id l.id) (set_used now) s.magic_links.rows) s

-- What is to hold where a code is accepted, for the database before and after.
pub record Accepts (email code : Text) (now : Time) (l : MagicLink) (s s' : AuthDb) : Type 0 where
  pub row : IsPendingRow email now s l
  pub token : text_eq l.token code ≡ true
  pub attempts : leb max_code_attempts l.attempts ≡ false
  pub used : s' ≡ after_use l now s

mark_used-cases :
    (l : MagicLink) (now : Time) (w : World AuthDb)
    → (mark_used l.id now w ≡ (err failed, (w.0, later w)))
      ⊎ (mark_used l.id now w ≡ (ok tt, (after_use l now w.0, later w)))
unfolding mark_used
mark_used-cases l now w =
    exec-cases
      (λ (s : AuthDb). set_links (update_where (has_id l.id) (set_used now) s.magic_links.rows) s) w

after_mismatch-rejects :
    (id : ℕ) (now : Time) (n : ℕ) (w : World AuthDb)
    → (why : Text) × ((after_mismatch id now n w).0 ≡ ok (rejected why))
unfolding ◌>>=◌ ◌>>◌ pure attempt
after_mismatch-rejects id now n w = elim (Bool-cases (leb max_code_attempts n)) [
  | inl p ↦ (codes "Too many incorrect attempts. Please request a new code.", rw p)
  | inr p ↦ (codes "Incorrect code. Please try again.", rw p)
]

check_link-accepts :
    (code : Text) (now : Time) (l m : MagicLink) (w : World AuthDb)
    → (check_link code now l w).0 ≡ ok (accepted m)
    → (l ≡ m)
      × (leb max_code_attempts l.attempts ≡ false)
      × (text_eq l.token code ≡ true)
      × ((check_link code now l w).1.0 ≡ after_use l now w.0)
unfolding ◌>>=◌ ◌>>◌ pure attempt mark_used
check_link-accepts code now l m w e = elim (Bool-cases (leb max_code_attempts l.attempts)) [
  | inl p ↦ let e' : ok too_many ≡ ok (accepted m) = rw p at e in cc
  | inr p ↦ elim (Bool-cases (text_eq l.token code)) [
    | inl q ↦
        let e' : ok (after_match l (mark_used l.id now w).0) ≡ ok (accepted m) = rw (p, q) at e in
        elim (mark_used-cases l now w) [
          | inl x ↦ let e'' : ok internal ≡ ok (accepted m) = rw x at e' in cc
          | inr x ↦
              let e'' : ok (accepted l) ≡ ok (accepted m) = rw x at e' in (cc, p, q, rw (p, q, x))
        ]
    | inr q ↦
        let n = or_zero (increment_attempts l.id w).0 in
        let r = after_mismatch-rejects l.id now n (increment_attempts l.id w).1 in
        let e' : (after_mismatch l.id now n (increment_attempts l.id w).1).0 ≡ ok (accepted m) =
          rw (p, q) at e in
        cc
  ]
]

check_latest-Accepts :
    (email code : Text) (now : Time) (m : MagicLink) (w : World AuthDb)
    → (found : Option MagicLink) → latest email now w.0 ≡ found
    → (check_latest code now (ok found) w).0 ≡ ok (accepted m)
    → Accepts email code now m w.0 (check_latest code now (ok found) w).1.0
unfolding pure
check_latest-Accepts email code now m w none h e = cc
check_latest-Accepts email code now m w (some l) h e =
    let r = check_link-accepts code now l m w e in
    subst (λ z. Accepts email code now z w.0 (check_link code now l w).1.0) r.0
      (record {
        row = latest-IsPendingRow email now w.0 l h;
        token = r.2;
        attempts = r.1;
        used = r.3;
      })

-- Whichever statements fail, `validateCode` hands a link out only for its own code, where it is a
-- row of the table that stands for the address, is unused, unexpired and has had fewer than five
-- wrong guesses, and the database afterwards is the one before with that link marked as used.
pub validate_code-Accepts :
    (email code : Text) (now : Time) (m : MagicLink) (w : World AuthDb)
    → (validate_code email code now w).0 ≡ ok (accepted m)
    → Accepts email code now m w.0 (validate_code email code now w).1.0
unfolding validate_code ◌>>=◌ pure attempt get_latest_by_email
validate_code-Accepts email code now m w e = elim (Bool-cases (is_empty email || is_empty code)) [
  | inl p ↦
      let e' : ok (rejected (codes "Email and code are required")) ≡ ok (accepted m) = rw p at e in
      cc
  | inr p ↦ elim (query-cases (latest email now) w) [
    | inl x ↦ let e' : ok internal ≡ ok (accepted m) = rw (p, x) at e in cc
    | inr x ↦
        rw (p, x) (check_latest-Accepts email code now m (w.0, later w) _ refl (rw (p, x) at e))
  ]
]
