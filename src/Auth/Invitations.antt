-- ===== src/Auth/Invitations.antt =====
-- internal/handler/auth.go: invitations, the list of the user's households and the change between
-- them.
use gamwich.Prelude.{
  ℕ, ◌+◌, ◌*◌, ◌-◌, Bool, true, false, not, ◌||◌, Option, none, some, List, [], ◌∷◌, ◌++◌, leb,
  ◌==◌, if◌then◌else◌,
}
use gamwich.Prelude.Int.{ℤ, pos, negsuc}
use gamwich.Prelude.Result.{Result, ok, err}
use gamwich.Text.{Text, codes, text_eq, is_empty, is_digit, trim_space, max_int}
use gamwich.Calendar.{Time}
use gamwich.Sql.{DbError, pure, otherwise, attempt, or_failed, ◌>>=◌, ◌>>◌}
use gamwich.Auth.{User, Household, HouseholdMember, MagicLink, AuthAction}
use gamwich.Auth.Codes.{Checked, accepted, rejected, create_link, validate_code}
use gamwich.Auth.Households.{
  get_user_by_email, create_user, get_household, add_member, get_member, list_households_for_user,
}
use gamwich.Auth.Sessions.{AuthContext, create_session, update_household_id}
use gamwich.Auth.Login.{
  Response, check_email, household_list, http_error, redirect, message, internal_error,
  session_cookie, cleared, active_user_cookie, send_auth_code, mail_to,
}

abbrev found_or_new : Text → Time → Option User → AuthAction User
found_or_new email now (some user) = pure user
found_or_new email now none = create_user email [] now

-- After `AddMember`: an error is passed over for a user that is a member already.
abbrev or_existing : ℕ → ℕ → Result DbError HouseholdMember → AuthAction HouseholdMember
or_existing household_id user_id (ok member) = pure member
or_existing household_id user_id (err e) =
    otherwise none (get_member household_id user_id) >>= or_failed

unfoldable pub join_household : Bool → List ℕ → Text → ℕ → Time → AuthAction Response
join_household secure random email household_id now = do
  found ← get_user_by_email email
  user ← found_or_new email now found
  added ← attempt (add_member household_id user.id (codes "member") now)
  member ← or_existing household_id user.id added
  sess ← create_session random user.id household_id now
  pure (redirect (codes "/") (session_cookie sess.token secure ∷ []))

abbrev not_invitation : Text → Response
not_invitation email = check_email email true (codes "This code is not a valid invitation.")

abbrev on_invitation : Bool → List ℕ → Text → Time → MagicLink → Option ℕ → AuthAction Response
on_invitation secure random email now ml none = pure (not_invitation email)
on_invitation secure random email now ml (some household_id) =
    if not (text_eq ml.purpose (codes "invite"))
    then pure (not_invitation email)
    else otherwise internal_error (join_household secure random ml.email household_id now)

abbrev on_invited : Bool → List ℕ → Text → Time → Checked → AuthAction Response
on_invited secure random email now (rejected error) = pure (check_email email true error)
on_invited secure random email now (accepted ml) =
    on_invitation secure random email now ml ml.household_id

unfoldable pub invite_accept : Bool → List ℕ → Text → Text → Time → AuthAction Response
invite_accept secure random email_field code_field now =
    validate_code (trim_space email_field) (trim_space code_field) now
    >>= on_invited secure random (trim_space email_field) now

-- The code of an invitation and its mail; the mail has its own error.
abbrev after_mail : Text → Result DbError (Unit {0}) → Response
after_mail email (ok u) = message (codes "Invitation sent to " ++ email)
after_mail email (err e) = http_error 500 (codes "Failed to send invitation")

abbrev send_invitation : Text → Household → MagicLink → AuthAction Response
send_invitation email household ml =
    attempt (send_auth_code (mail_to email ml.token (codes "invite") household.name)) >>= λ sent.
    pure (after_mail email sent)

abbrev on_household : ℕ → Text → ℕ → Time → Result DbError (Option Household) → AuthAction Response
on_household random email household_id now (ok (some household)) = otherwise internal_error (
    create_link random email (codes "invite") (some household_id) now
    >>= send_invitation email household)
on_household random email household_id now (ok none) =
    pure (http_error 500 (codes "Household not found"))
on_household random email household_id now (err e) =
    pure (http_error 500 (codes "Household not found"))

unfoldable pub invite : Option AuthContext → ℕ → Text → Time → AuthAction Response
invite none random email_field now = pure (http_error 401 (codes "Unauthorized"))
invite (some ac) random email_field now =
    let email = trim_space email_field in
    if not (text_eq ac.role (codes "admin"))
    then pure (http_error 403 (codes "Forbidden"))
    else if is_empty email
    then pure (http_error 400 (codes "Email is required"))
    else (attempt (get_household ac.household_id) >>= on_household random email ac.household_id now)

abbrev on_list : ℕ → Result DbError (List Household) → Response
on_list current (ok households) = household_list households current
on_list current (err e) = internal_error

unfoldable pub households_page : Option AuthContext → AuthAction Response
households_page none = pure (redirect (codes "/login") [])
households_page (some ac) =
    attempt (list_households_for_user ac.user_id) >>= λ r. pure (on_list ac.household_id r)

-- `Sscanf` with "%d" into an `int64`: spaces, a sign, at least one digit; what follows is not read.
-- The digits' value, with what has been read before them.
abbrev digits_value : ℕ → Text → ℕ
digits_value n [] = n
digits_value n (c ∷ cs) =
    let rest = digits_value (n * 10 + (c - b'0')) cs in if is_digit c then rest else n

abbrev starts_with_digit : Text → Bool
starts_with_digit [] = false
starts_with_digit (c ∷ cs) = is_digit c

abbrev positive : Text → Option ℤ
positive s =
    if starts_with_digit s
    then (if leb (digits_value 0 s) max_int then some (pos (digits_value 0 s)) else none)
    else none

-- `-9223372036854775808` is an `int64` too.
abbrev negative : Text → Option ℤ
negative s =
    if starts_with_digit s
    then (if digits_value 0 s == 0
        then some (pos 0)
        else if leb (digits_value 0 s) (max_int + 1)
        then some (negsuc (digits_value 0 s - 1))
        else none)
    else none

abbrev signed : Text → Option ℤ
signed [] = none
signed (c ∷ cs) =
    if c == b'-' then negative cs else if c == b'+' then positive cs else positive (c ∷ cs)

abbrev skip_blanks : Text → Text
skip_blanks [] = []
skip_blanks (c ∷ cs) = let rest = skip_blanks cs in if (c == b' ') || (c == 9) then rest else c ∷ cs

unfoldable pub scan_int : Text → Option ℤ
scan_int s = signed (skip_blanks s)

abbrev not_member : Response
not_member = http_error 403 (codes "Not a member of this household")

abbrev on_membership :
    AuthContext → ℕ → Result DbError (Option HouseholdMember) → AuthAction Response
on_membership ac household_id (ok (some member)) = otherwise internal_error (
    update_household_id ac.session_id household_id
    >> pure (redirect (codes "/") (cleared active_user_cookie ∷ [])))
on_membership ac household_id (ok none) = pure not_member
on_membership ac household_id (err e) = pure not_member

-- No row has a negative id.
abbrev on_scanned : AuthContext → Option ℤ → AuthAction Response
on_scanned ac none = pure (http_error 400 (codes "Invalid household ID"))
on_scanned ac (some (pos household_id)) =
    attempt (get_member household_id ac.user_id) >>= on_membership ac household_id
on_scanned ac (some (negsuc n)) = pure not_member

unfoldable pub switch_household : Option AuthContext → Text → AuthAction Response
switch_household none field = pure (redirect (codes "/login") [])
switch_household (some ac) field =
    if is_empty field
    then pure (http_error 400 (codes "Household ID required"))
    else on_scanned ac (scan_int field)
