-- ===== src/Auth/Login.antt =====
-- internal/handler/auth.go: the login, the registration, the check of a code, the logout. A mail that
-- is sent is a row of the outbox, and its sending may fail as a statement may; the time, the random
-- numbers and the fields of the form are arguments. What is logged is left out.
use gamwich.Prelude.{ℕ, Bool, false, ◌||◌, Option, none, some, List, [], ◌∷◌, ◌++◌, if◌then◌else◌}
use gamwich.Prelude.Result.{Result, ok, err}
use gamwich.Text.{Text, codes, text_eq, is_empty, trim_space}
use gamwich.Calendar.{Time}
use gamwich.Sql.{DbError, pure, exec, otherwise, attempt, ◌>>=◌, ◌>>◌}
use gamwich.Auth.{User, Household, Session, MagicLink, Mail, AuthDb, AuthAction}
use gamwich.Auth.Codes.{Checked, accepted, rejected, create_link, validate_code}
use gamwich.Auth.Households.{
  get_user_by_email, create_user, create_household, add_member, seed_defaults,
  list_households_for_user,
}
use gamwich.Auth.Sessions.{create_session, get_session, delete_session}

-- A session cookie, with its token and whether it is for secure connections only, or the removal of
-- the cookie of a name.
pub data Cookie : Type 0 where
  session_cookie : Text → Bool → Cookie
  cleared : Text → Cookie

pub data Response : Type 0 where
  -- The page of the code: the address, whether it is for an invitation, the error or an empty text.
  check_email : Text → Bool → Text → Response
  -- The page of the households, with the current one.
  household_list : List Household → ℕ → Response
  http_error : ℕ → Text → Response
  redirect : Text → List Cookie → Response
  message : Text → Response

abbrev pub internal_error : Response
internal_error = http_error 500 (codes "Internal error")

-- `isSecure`: over TLS, or a proxy says so.
abbrev pub is_secure : Bool → Text → Bool
is_secure tls forwarded_proto = tls || text_eq forwarded_proto (codes "https")

-- `SendAuthCode`, as far as the handlers see it.
unfoldable pub send_auth_code : Mail → AuthAction (Unit {0})
send_auth_code mail = exec (λ (s : AuthDb). record s { outbox = s.outbox ++ mail ∷ [] })

abbrev pub mail_to : Text → Text → Text → Text → Mail
mail_to email token purpose household_name = record {
  to = email;
  token = token;
  purpose = purpose;
  household_name = household_name;
}

-- The part of `Login` whose outcome the response does not show.
abbrev on_login_households : ℕ → Text → Time → List Household → AuthAction (Unit {0})
on_login_households random email now [] = pure tt
on_login_households random email now (h ∷ hs) =
    create_link random email (codes "login") none now >>= λ ml.
    send_auth_code (mail_to email ml.token (codes "login") [])

abbrev on_login_user : ℕ → Text → Time → Option User → AuthAction (Unit {0})
on_login_user random email now none = pure tt
on_login_user random email now (some user) =
    list_households_for_user user.id >>= on_login_households random email now

unfoldable pub send_login_code : ℕ → Text → Time → AuthAction (Unit {0})
send_login_code random email now = get_user_by_email email >>= on_login_user random email now

unfoldable pub login : ℕ → Text → Time → AuthAction Response
login random email_field now =
    let email = trim_space email_field in
    if is_empty email
    then pure (http_error 400 (codes "Email is required"))
    else otherwise tt (send_login_code random email now) >> pure (check_email email false [])

-- `Register`, once the address is known to be new; an error of any statement but the mail ends it.
unfoldable pub register_user : ℕ → Text → Text → Time → AuthAction Response
register_user random email household_name now = do
  household ← create_household household_name now
  user ← create_user email [] now
  member ← add_member household.id user.id (codes "admin") now
  seed_defaults household.id
  ml ← create_link random email (codes "register") (some household.id) now
  otherwise tt (send_auth_code (mail_to email ml.token (codes "register") household_name))
  pure (check_email email false [])

abbrev pub on_existing : ℕ → Text → Text → Time → Option User → AuthAction Response
on_existing random email household_name now (some user) = pure (check_email email false [])
on_existing random email household_name now none = register_user random email household_name now

unfoldable pub register : ℕ → Text → Text → Time → AuthAction Response
register random email_field name_field now =
    let email = trim_space email_field in
    let household_name = trim_space name_field in
    if is_empty email || is_empty household_name
    then pure (http_error 400 (codes "Email and household name are required"))
    else otherwise internal_error
        (get_user_by_email email >>= on_existing random email household_name now)

-- The household of the link, or the first one.
abbrev or_first : Option ℕ → ℕ → ℕ
or_first none id = id
or_first (some household_id) id = household_id

abbrev home : List Household → Text
home [] = codes "/"
home (h ∷ hs) = codes "/households"

abbrev on_households :
    Bool → List ℕ → Time → MagicLink → User → Result DbError (List Household) → AuthAction Response
on_households secure random now ml user (ok (h ∷ hs)) = otherwise internal_error (
    create_session random user.id (or_first ml.household_id h.id) now >>= λ sess.
    pure (redirect (home hs) (session_cookie sess.token secure ∷ [])))
on_households secure random now ml user (ok []) = pure (http_error 400 (codes "No household found"))
on_households secure random now ml user (err e) = pure (http_error 400 (codes "No household found"))

abbrev on_user :
    Bool → List ℕ → Time → MagicLink → Result DbError (Option User) → AuthAction Response
on_user secure random now ml (ok (some user)) =
    attempt (list_households_for_user user.id) >>= on_households secure random now ml user
on_user secure random now ml (ok none) = pure (http_error 400 (codes "User not found"))
on_user secure random now ml (err e) = pure (http_error 400 (codes "User not found"))

abbrev on_checked : Bool → List ℕ → Text → Time → Checked → AuthAction Response
on_checked secure random email now (rejected error) = pure (check_email email false error)
on_checked secure random email now (accepted ml) =
    attempt (get_user_by_email ml.email) >>= on_user secure random now ml

unfoldable pub verify : Bool → List ℕ → Text → Text → Time → AuthAction Response
verify secure random email_field code_field now =
    validate_code (trim_space email_field) (trim_space code_field) now
    >>= on_checked secure random (trim_space email_field) now

abbrev delete_found : Option Session → AuthAction (Unit {0})
delete_found none = pure tt
delete_found (some sess) = delete_session sess.id

abbrev pub session_cookie_name : Text
session_cookie_name = codes "gamwich_session"

abbrev pub active_user_cookie : Text
active_user_cookie = codes "gamwich_active_user"

unfoldable pub logout : Text → Time → AuthAction Response
logout cookie now =
    (if is_empty cookie then pure tt else otherwise tt (get_session cookie now >>= delete_found))
    >> pure
        (redirect (codes "/login") (cleared session_cookie_name ∷ cleared active_user_cookie ∷ []))
