-- ===== src/Auth/Codes.antt =====
-- internal/store/magic_link.go, and `validateCode` of internal/handler/auth.go. The time of a call
-- and the random number behind a code are arguments.
use gamwich.Prelude.{
  ℕ, suc, ◌+◌, ◌*◌, ◌%◌, Bool, true, false, not, ◌&&◌, ◌||◌, Option, none, some, List, ltb, leb,
  ◌==◌, if◌then◌else◌, length,
}
use gamwich.Prelude.Result.{Result, ok, err}
use gamwich.Text.{Text, codes, text_eq, itoa, is_empty}
use gamwich.Calendar.{Time, nanos_per_second}
use gamwich.Sql.{
  DbError, constraint, insert, with_rows, pure, statement, query, exec, attempt, ◌>>=◌, ◌>>◌,
  select, first, exists, update_where, delete_where, order_by, head, or_failed,
}
use gamwich.Auth.{MagicLink, AuthDb, AuthAction}

abbrev pub is_unused : MagicLink → Bool
is_unused l = elim l.used_at [ none ↦ true | some t ↦ false ]

-- `expires_at > datetime('now') AND used_at IS NULL`
abbrev pub is_pending : Time → MagicLink → Bool
is_pending now l = ltb now l.expires_at && is_unused l

abbrev pub is_pending_for : Text → Time → MagicLink → Bool
is_pending_for email now l = text_eq l.email email && is_pending now l

abbrev pub set_used : Time → MagicLink → MagicLink
set_used now l = record l { used_at = some now }

abbrev pub has_id : ℕ → MagicLink → Bool
has_id id l = l.id == id

abbrev pub set_links : List MagicLink → AuthDb → AuthDb
set_links rows s = record s { magic_links = with_rows rows s.magic_links }

-- A number below 900000 as a code of six digits.
unfoldable pub generate_code : ℕ → AuthAction Text
generate_code random = query (λ s. itoa (random % 900000 + 100000))

-- 15 minutes
abbrev pub code_lifetime : ℕ
code_lifetime = 900 * nanos_per_second

unfoldable pub new_link : Text → Text → Text → Option ℕ → Time → ℕ → MagicLink
new_link code email purpose household_id now id = record {
  id = id;
  token = code;
  email = email;
  purpose = purpose;
  household_id = household_id;
  expires_at = now + code_lifetime;
  used_at = none;
  attempts = 0;
  created_at = now;
}

-- The `INSERT`; a token stands in the table once.
unfoldable pub insert_link : (ℕ → MagicLink) → Text → AuthDb → Result DbError ℕ × AuthDb
insert_link row code s =
    if exists (λ (l : MagicLink). text_eq l.token code) s.magic_links.rows
    then (err constraint, s)
    else (ok (suc s.magic_links.last_id), record s { magic_links = insert row s.magic_links })

-- `Create`
unfoldable pub create_link : ℕ → Text → Text → Option ℕ → Time → AuthAction MagicLink
create_link random email purpose household_id now = do
  exec (λ (s : AuthDb).
      set_links (update_where (is_pending_for email now) (set_used now) s.magic_links.rows) s)
  code ← generate_code random
  id ← statement (insert_link (new_link code email purpose household_id now) code)
  found ← query (λ (s : AuthDb). first (has_id id) s.magic_links.rows)
  or_failed found

-- `GetByEmailAndCode`
unfoldable pub get_by_email_and_code : Text → Text → Time → AuthAction (Option MagicLink)
get_by_email_and_code email code now = query (λ (s : AuthDb).
    first (λ (l : MagicLink). text_eq l.token code && is_pending_for email now l)
      s.magic_links.rows)

abbrev pub is_later : MagicLink → MagicLink → Bool
is_later l m = ltb m.created_at l.created_at

-- `GetLatestByEmail`
unfoldable pub get_latest_by_email : Text → Time → AuthAction (Option MagicLink)
get_latest_by_email email now = query (λ (s : AuthDb).
    head (order_by is_later (select (is_pending_for email now) s.magic_links.rows)))

abbrev pub more_attempts : MagicLink → MagicLink
more_attempts l = record l { attempts = l.attempts + 1 }

abbrev attempts_of : Option MagicLink → Option ℕ
attempts_of none = none
attempts_of (some l) = some l.attempts

-- `IncrementAttempts`
unfoldable pub increment_attempts : ℕ → AuthAction ℕ
increment_attempts id = do
  exec (λ (s : AuthDb). set_links (update_where (has_id id) more_attempts s.magic_links.rows) s)
  found ← query (λ (s : AuthDb). attempts_of (first (has_id id) s.magic_links.rows))
  or_failed found

-- `MarkUsed`
unfoldable pub mark_used : ℕ → Time → AuthAction (Unit {0})
mark_used id now =
    exec (λ (s : AuthDb). set_links (update_where (has_id id) (set_used now) s.magic_links.rows) s)

-- `DeleteExpired`, with the number of the rows
unfoldable pub delete_expired_links : Time → AuthAction ℕ
delete_expired_links now = statement (λ (s : AuthDb). (
  ok (length (select (λ (l : MagicLink). leb l.expires_at now) s.magic_links.rows)),
  set_links (delete_where (λ (l : MagicLink). leb l.expires_at now) s.magic_links.rows) s,
))

abbrev pub max_code_attempts : ℕ
max_code_attempts = 5

-- What `validateCode` returns: a link, or the message of an error.
pub data Checked : Type 0 where
  accepted : MagicLink → Checked
  rejected : Text → Checked

abbrev pub too_many : Checked
too_many = rejected (codes "Too many incorrect attempts. Please request a new code.")

abbrev pub internal : Checked
internal = rejected (codes "Internal error")

-- After the code was right and the link was to be marked as used.
abbrev pub after_match : MagicLink → Result DbError (Unit {0}) → Checked
after_match l (ok u) = accepted l
after_match l (err e) = internal

-- The attempts that `IncrementAttempts` returns: 0 with an error.
abbrev pub or_zero : Result DbError ℕ → ℕ
or_zero (ok n) = n
or_zero (err e) = 0

-- After the code was wrong.
abbrev pub after_mismatch : ℕ → Time → ℕ → AuthAction Checked
after_mismatch id now attempts =
    if leb max_code_attempts attempts
    then (attempt (mark_used id now) >> pure too_many)
    else pure (rejected (codes "Incorrect code. Please try again."))

abbrev pub check_link : Text → Time → MagicLink → AuthAction Checked
check_link code now l =
    if leb max_code_attempts l.attempts
    then (attempt (mark_used l.id now) >> pure too_many)
    else if not (text_eq l.token code)
    then (attempt (increment_attempts l.id) >>= λ r. after_mismatch l.id now (or_zero r))
    else (attempt (mark_used l.id now) >>= λ r. pure (after_match l r))

abbrev pub check_latest : Text → Time → Result DbError (Option MagicLink) → AuthAction Checked
check_latest code now (err e) = pure internal
check_latest code now (ok none) =
    pure (rejected (codes "Code has expired or already been used. Please request a new one."))
check_latest code now (ok (some l)) = check_link code now l

unfoldable pub validate_code : Text → Text → Time → AuthAction Checked
validate_code email code now =
    if is_empty email || is_empty code
    then pure (rejected (codes "Email and code are required"))
    else (attempt (get_latest_by_email email now) >>= λ r. check_latest code now r)
