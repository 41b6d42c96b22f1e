-- ===== src/Auth/Sessions.antt =====
-- internal/store/session.go, internal/auth/context.go and internal/middleware/auth.go.
use gamwich.Prelude.{
  ℕ, suc, ◌+◌, ◌*◌, ◌/◌, ◌%◌, Bool, false, ◌&&◌, Option, none, some, List, [], ◌∷◌, ltb, leb, ◌==◌,
  if◌then◌else◌, length,
}
use gamwich.Prelude.Result.{Result, ok, err}
use gamwich.Text.{Text, codes, text_eq, is_empty}
use gamwich.Calendar.{Time, nanos_per_day}
use gamwich.Sql.{
  DbError, constraint, insert, with_rows, pure, statement, query, exec, attempt, ◌>>=◌, first,
  exists, select, update_where, delete_where, or_failed,
}
use gamwich.Auth.{Session, HouseholdMember, AuthDb, AuthAction}
use gamwich.Auth.Households.{get_member}

abbrev hex_digit : ℕ → ℕ
hex_digit n = if ltb n 10 then n + b'0' else n + 87

-- `hex.EncodeToString`
unfoldable pub hex : List ℕ → Text
hex [] = []
hex (b ∷ bs) = hex_digit (b / 16) ∷ hex_digit (b % 16) ∷ hex bs

-- 90 days
abbrev pub session_lifetime : ℕ
session_lifetime = 90 * nanos_per_day

abbrev new_session : Text → ℕ → ℕ → Time → ℕ → Session
new_session token user_id household_id now id = record {
  id = id;
  token = token;
  user_id = user_id;
  household_id = household_id;
  expires_at = now + session_lifetime;
  created_at = now;
}

unfoldable pub insert_session : Text → ℕ → ℕ → Time → AuthDb → Result DbError ℕ × AuthDb
insert_session token user_id household_id now s =
    if exists (λ (r : Session). text_eq r.token token) s.sessions.rows
    then (err constraint, s)
    else (
      ok (suc s.sessions.last_id),
      record s { sessions = insert (new_session token user_id household_id now) s.sessions },
    )

abbrev session_has_id : ℕ → Session → Bool
session_has_id id r = r.id == id

-- `Create`, with the random bytes of the token; drawing them may fail as a statement may.
unfoldable pub create_session : List ℕ → ℕ → ℕ → Time → AuthAction Session
create_session random user_id household_id now = do
  token ← query (λ (s : AuthDb). hex random)
  id ← statement (insert_session token user_id household_id now)
  found ← query (λ (s : AuthDb). first (session_has_id id) s.sessions.rows)
  or_failed found

-- `token = ? AND expires_at > datetime('now')`
abbrev pub is_session : Text → Time → Session → Bool
is_session token now r = text_eq r.token token && ltb now r.expires_at

unfoldable pub get_session : Text → Time → AuthAction (Option Session)
get_session token now = query (λ (s : AuthDb). first (is_session token now) s.sessions.rows)

abbrev pub set_sessions : List Session → AuthDb → AuthDb
set_sessions rows s = record s { sessions = with_rows rows s.sessions }

unfoldable pub delete_session : ℕ → AuthAction (Unit {0})
delete_session id =
    exec (λ (s : AuthDb). set_sessions (delete_where (session_has_id id) s.sessions.rows) s)

unfoldable pub delete_expired_sessions : Time → AuthAction ℕ
delete_expired_sessions now = statement (λ (s : AuthDb). (
  ok (length (select (λ (r : Session). leb r.expires_at now) s.sessions.rows)),
  set_sessions (delete_where (λ (r : Session). leb r.expires_at now) s.sessions.rows) s,
))

unfoldable pub delete_sessions_of : ℕ → AuthAction (Unit {0})
delete_sessions_of user_id = exec (λ (s : AuthDb).
    set_sessions (delete_where (λ (r : Session). r.user_id == user_id) s.sessions.rows) s)

unfoldable pub update_household_id : ℕ → ℕ → AuthAction (Unit {0})
update_household_id id household_id = exec (λ (s : AuthDb).
    set_sessions
      (update_where (session_has_id id) (λ (r : Session). record r { household_id = household_id })
        s.sessions.rows)
      s)

-- `AuthContext`; a request without one has `none`.
pub record AuthContext : Type 0 where
  pub user_id : ℕ
  pub household_id : ℕ
  pub role : Text
  pub session_id : ℕ

unfoldable pub household_id_of : Option AuthContext → ℕ
household_id_of none = 0
household_id_of (some ac) = ac.household_id

unfoldable pub user_id_of : Option AuthContext → ℕ
user_id_of none = 0
user_id_of (some ac) = ac.user_id

unfoldable pub is_admin : Option AuthContext → Bool
is_admin none = false
is_admin (some ac) = text_eq ac.role (codes "admin")

-- What the middleware does with a request: hand it on with a context, send it to the login (by a
-- header for HTMX, by a redirection otherwise), or refuse it.
pub data Passage : Type 0 where
  served : Option AuthContext → Passage
  hx_redirect see_other forbidden : Passage

abbrev pub redirect_to_login : Bool → Passage
redirect_to_login hx_request = if hx_request then hx_redirect else see_other

abbrev pub context_of : Session → HouseholdMember → AuthContext
context_of sess member = record {
  user_id = sess.user_id;
  household_id = sess.household_id;
  role = member.role;
  session_id = sess.id;
}

abbrev pub on_member : Bool → Session → Result DbError (Option HouseholdMember) → Passage
on_member hx sess (ok (some member)) = served (some (context_of sess member))
on_member hx sess (ok none) = redirect_to_login hx
on_member hx sess (err e) = redirect_to_login hx

abbrev pub on_session : Bool → Result DbError (Option Session) → AuthAction Passage
on_session hx (ok (some sess)) =
    attempt (get_member sess.household_id sess.user_id) >>= λ r. pure (on_member hx sess r)
on_session hx (ok none) = pure (redirect_to_login hx)
on_session hx (err e) = pure (redirect_to_login hx)

-- `RequireAuth`, for the value of the session cookie, which is empty without one.
unfoldable pub require_auth : Bool → Text → Time → AuthAction Passage
require_auth hx cookie now =
    if is_empty cookie
    then pure (redirect_to_login hx)
    else (attempt (get_session cookie now) >>= λ r. on_session hx r)

-- `RequireAdmin`
unfoldable pub require_admin : Option AuthContext → Passage
require_admin ctx = if is_admin ctx then served ctx else forbidden
