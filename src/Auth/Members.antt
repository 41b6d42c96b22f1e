-- ===== src/Auth/Members.antt =====
-- internal/middleware/auth.go and `InviteAccept` of internal/handler/auth.go: who is let in.
use mathlib.Core.Path.{subst}
use gamwich.Prelude.{
  ◌≡◌, refl, inl, inr, Bool, true, false, Option, none, some, List, Bool-cases, Option-cases,
  if◌then◌else◌,
}
use gamwich.Prelude.Result.{Result, ok}
use gamwich.Text.{Text, codes, text_eq, is_empty}
use gamwich.Text.Equality.{text_eq_sound}
use gamwich.Calendar.{Time}
use gamwich.Sql.{DbError, World, pure, attempt, ◌>>=◌, first}
use gamwich.Sql.Faults.{later, query-cases}
use gamwich.Sql.Rows.{In, first-In}
use gamwich.Auth.{Session, HouseholdMember, AuthDb}
use gamwich.Auth.Households.{is_member_row, get_member}
use gamwich.Auth.Sessions.{
  AuthContext, Passage, served, forbidden, redirect_to_login, is_session, context_of, on_session,
  get_session, require_auth, require_admin, is_admin,
}

-- A context as the tables give it to the bearer of a token: an unexpired session, and the user's row
-- in the members of the session's household, with its role.
pub record Entitled (token : Text) (now : Time) (s : AuthDb) (ac : AuthContext) : Type 0 where
  pub sess : Session
  pub session_row : In sess s.sessions.rows × (is_session token now sess ≡ true)
  pub member : HouseholdMember
  pub member_row :
      In member s.members.rows × (is_member_row sess.household_id sess.user_id member ≡ true)
  pub context : context_of sess member ≡ ac

abbrev Outcome : Type 0
Outcome = Result DbError Passage

unserved :
    (hx : Bool) (c : Option AuthContext)
    → ◌≡◌ {A = Outcome} (ok (redirect_to_login hx)) (ok (served c))
    → ⊥
unserved true c e = cc
unserved false c e = cc

on_session-Entitled :
    (hx : Bool) (token : Text) (now : Time) (s : AuthDb) (bs : List Bool) (c : Option AuthContext)
    (found : Option Session)
    → first (is_session token now) s.sessions.rows ≡ found
    → (on_session hx (ok found) (s, bs)).0 ≡ ok (served c)
    → (ac : AuthContext) × (c ≡ some ac) × Entitled token now s ac
unfolding ◌>>=◌ attempt pure get_member
on_session-Entitled hx token now s bs c none h e = elim (unserved hx c e) [ ]
on_session-Entitled hx token now s bs c (some sess) h e =
    elim (query-cases
      (λ (s : AuthDb). first (is_member_row sess.household_id sess.user_id) s.members.rows)
      (s, bs)) [
        | inl x ↦ elim (unserved hx c (rw x at e)) [ ]
        | inr x ↦
            elim (Option-cases
              (first (is_member_row sess.household_id sess.user_id) s.members.rows)) [
                | inl y ↦ elim (unserved hx c (rw (x, y) at e)) [ ]
                | inr (member, y) ↦
                    let e' : ◌≡◌ {A = Outcome} (ok (served (some (context_of sess member))))
                        (ok (served c)) =
                      rw (x, y) at e in
                    (
                      context_of sess member,
                      cc,
                      record {
                        sess = sess;
                        session_row = first-In (is_session token now) s.sessions.rows sess h;
                        member = member;
                        member_row =
                            first-In (is_member_row sess.household_id sess.user_id) s.members.rows
                              member y;
                        context = refl;
                      },
                    )
              ]
      ]

-- However the statements fare, `RequireAuth` serves a request only as a session that is unexpired, of
-- the cookie's token, and whose user is a member of its household now, with that member's role.
pub require_auth-Entitled :
    (hx : Bool) (cookie : Text) (now : Time) (w : World AuthDb) (c : Option AuthContext)
    → (require_auth hx cookie now w).0 ≡ ok (served c)
    → (ac : AuthContext) × (c ≡ some ac) × Entitled cookie now w.0 ac
unfolding require_auth ◌>>=◌ attempt pure get_session
require_auth-Entitled hx cookie now w c e = elim (Bool-cases (is_empty cookie)) [
  | inl p ↦ elim (unserved hx c (rw p at e)) [ ]
  | inr p ↦ elim (query-cases (λ (s : AuthDb). first (is_session cookie now) s.sessions.rows) w) [
    | inl x ↦ elim (unserved hx c (rw (p, x) at e)) [ ]
    | inr x ↦ on_session-Entitled hx cookie now w.0 (later w) c _ refl (rw (p, x) at e)
  ]
]

-- However the statements fare, what `RequireAdmin` serves behind `RequireAuth` is a session that is
-- unexpired, of the cookie's token, and whose user is now a member of its household with the role
-- "admin".
pub require_admin-admin :
    (hx : Bool) (cookie : Text) (now : Time) (w : World AuthDb) (c d : Option AuthContext)
    → (require_auth hx cookie now w).0 ≡ ok (served c)
    → require_admin c ≡ served d
    → (ac : AuthContext) × (d ≡ some ac) × Entitled cookie now w.0 ac × (ac.role ≡ codes "admin")
unfolding require_admin is_admin
require_admin-admin hx cookie now w c d e f =
    let r = require_auth-Entitled hx cookie now w c e in
    let admin = text_eq_sound r.0.role (codes "admin") in
    let g : (if text_eq r.0.role (codes "admin") then served (some r.0) else forbidden) ≡ served d =
      subst (λ x. require_admin x ≡ served d) r.1 f in
    elim (Bool-cases (text_eq r.0.role (codes "admin"))) [
      | inl p ↦ let g' : served (some r.0) ≡ served d = rw p at g in (r.0, cc, r.2, admin p)
      | inr p ↦ let g' : forbidden ≡ served d = rw p at g in cc
    ]
