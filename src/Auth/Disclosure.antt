-- ===== src/Auth/Disclosure.antt =====
-- internal/handler/auth.go: what a stranger learns about the addresses that have an account.
use gamwich.Prelude.{
  ℕ, ◌≡◌, refl, ap, ◌∙◌, ◌⊎◌, inl, inr, false, ◌||◌, Option, none, some, [], Bool-cases,
}
use gamwich.Prelude.Result.{ok}
use gamwich.Text.{Text, is_empty, trim_space}
use gamwich.Calendar.{Time}
use gamwich.Sql.{World, pure, otherwise, ◌>>=◌, ◌>>◌}
use gamwich.Sql.Yields.{Yields, Yields-pure, Yields->>=, Yields->>, Yields-otherwise}
use gamwich.Auth.{User, AuthDb}
use gamwich.Auth.Login.{
  Response, check_email, internal_error, login, register, register_user, on_existing,
}

-- The answer to a login is the same whatever the database holds and whatever fails, and whichever
-- random number and time the code is made of.
pub login-same :
    (random other : ℕ) (email_field : Text) (now moment : Time) (w v : World AuthDb)
    → (login random email_field now w).0 ≡ (login other email_field moment v).0
unfolding login pure otherwise ◌>>=◌ ◌>>◌
login-same random other email_field now moment w v =
    elim (Bool-cases (is_empty (trim_space email_field))) [ inl p ↦ rw p | inr p ↦ rw p ]

abbrev IsPage : Text → Response → Type 0
IsPage email r = (r ≡ internal_error) ⊎ (r ≡ check_email email false [])

register_user-IsPage :
    (random : ℕ) (email household_name : Text) (now : Time)
    → Yields (IsPage email) (register_user random email household_name now)
unfolding register_user
register_user-IsPage random email household_name now =
    let P = IsPage email in
    Yields->>= P _ _ (λ household. Yields->>= P _ _ (λ user. Yields->>= P _ _ (λ member.
      Yields->> P _ _ (Yields->>= P _ _ (λ ml. Yields->> P _ _ (Yields-pure P _ (inr refl)))))))

on_existing-IsPage :
    (random : ℕ) (email household_name : Text) (now : Time) (found : Option User)
    → Yields (IsPage email) (on_existing random email household_name now found)
on_existing-IsPage random email household_name now (some user) =
    Yields-pure (IsPage email) _ (inr refl)
on_existing-IsPage random email household_name now none =
    register_user-IsPage random email household_name now

-- A registration with an address and a name for the household is answered with the page of the code
-- or, after an error, with the page of the error: the answer names no other reason.
pub register-page :
    (random : ℕ) (email_field name_field : Text) (now : Time) (w : World AuthDb)
    → (is_empty (trim_space email_field) || is_empty (trim_space name_field)) ≡ false
    → let answer = (register random email_field name_field now w).0 in
      (answer ≡ ok internal_error) ⊎ (answer ≡ ok (check_email (trim_space email_field) false []))
unfolding register
register-page random email_field name_field now w given =
    let email = trim_space email_field in
    let P = IsPage email in
    let r =
      Yields-otherwise P internal_error _ (inl refl)
        (Yields->>= P _ _ (on_existing-IsPage random email (trim_space name_field) now)) w in
    rw given (elim r.2 [ inl e ↦ inl (r.1 ∙ ap ok e) | inr e ↦ inr (r.1 ∙ ap ok e) ])
