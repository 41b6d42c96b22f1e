-- ===== src/Auth/Pending.antt =====
-- internal/store/magic_link.go and its uses in internal/handler/auth.go: one code at a time.
use mathlib.Core.Path.{subst}
use gamwich.Prelude.{
  ℕ, suc, ◌+◌, ◌≤◌, ◌≡◌, refl, sym, ap, ◌∙◌, ◌%◌, inl, inr, false, Option, List, [], Bool-cases,
  length, arith,
}
use gamwich.Prelude.Result.{Result}
use gamwich.Text.{Text, text_eq, itoa}
use gamwich.Text.Equality.{text_eq_sound}
use gamwich.Calendar.{Time}
use gamwich.Sql.{DbError, go_on, first, query, ◌>>=◌, ◌>>◌, or_failed, select, update_where, exists}
use gamwich.Sql.Faults.{later, statement-cases, query-cases, exec-cases}
use gamwich.Sql.Keeps.{Keeps, Keeps-query, Keeps-go_on, Keeps-or_failed, Keeps->>=}
use gamwich.Sql.Rows.{
  length-select-update_where, select-update_where-all, length-select-≤, length-select-snoc,
}
use gamwich.Auth.{MagicLink, AuthDb, AuthAction}
use gamwich.Auth.Codes.{
  is_pending_for, set_used, set_links, has_id, generate_code, new_link, insert_link, create_link,
}

abbrev pub pending : Text → Time → AuthDb → List MagicLink
pending email now s = select (is_pending_for email now) s.magic_links.rows

-- No address has two codes that are unused and unexpired.
pub record OnePending (now : Time) (s : AuthDb) : Type 0 where
  pub one : (email : Text) → length (pending email now s) ≤ 1

used-unpending :
    (email : Text) (now : Time) (l : MagicLink) → is_pending_for email now (set_used now l) ≡ false
used-unpending email now l = ground arith

abbrev cleared_for : Text → Time → AuthDb → AuthDb
cleared_for email now s =
    set_links (update_where (is_pending_for email now) (set_used now) s.magic_links.rows) s

cleared_for-OnePending :
    (email : Text) (now : Time) (s : AuthDb)
    → OnePending now s
    → OnePending now (cleared_for email now s)
cleared_for-OnePending email now s h = record {
  one = λ other.
      let k =
        length-select-update_where (is_pending_for other now) (is_pending_for email now)
          (set_used now) (λ l e. used-unpending other now l) s.magic_links.rows in
      let j = h.one other in omega (arith, k, j);
}

insert_link-OnePending :
    (row : ℕ → MagicLink) (code email : Text) (now : Time) (s : AuthDb)
    → ((id : ℕ) → (row id).email ≡ email)
    → OnePending now s
    → pending email now s ≡ []
    → OnePending now (insert_link row code s).1
unfolding insert_link
insert_link-OnePending row code email now s same h none_left =
    elim (Bool-cases (exists (λ (l : MagicLink). text_eq l.token code) s.magic_links.rows)) [
      | inl p ↦ rw p h
      | inr p ↦ rw p (record {
        one = λ other.
            let l = row (suc s.magic_links.last_id) in
            let e = length-select-snoc (is_pending_for other now) s.magic_links.rows l in
            let k = h.one other in
            elim (Bool-cases (text_eq l.email other)) [
              | inl q ↦
                  let t : email ≡ other =
                    sym (same (suc s.magic_links.last_id)) ∙ text_eq_sound l.email other q in
                  let n : length (pending other now s) ≡ 0 =
                    subst (λ z. length (pending z now s) ≡ 0) t (ap length none_left) in
                  ground (arith, e, n)
              | inr q ↦ ground (arith, e, k)
            ];
      })
    ]

new_link-email :
    (code email purpose : Text) (household_id : Option ℕ) (now : Time) (id : ℕ)
    → (new_link code email purpose household_id now id).email ≡ email
unfolding new_link
new_link-email code email purpose household_id now id = refl

abbrev read_link : ℕ → AuthAction MagicLink
read_link id = query (λ (s : AuthDb). first (has_id id) s.magic_links.rows) >>= or_failed

after_insert : (now : Time) (r : Result DbError ℕ) → Keeps (OnePending now) (go_on r read_link)
after_insert now r =
    let P = OnePending now in
    Keeps-go_on P r read_link
      (λ id. Keeps->>= P _ or_failed (Keeps-query P _) (λ o. Keeps-or_failed P o))

-- However the statements fare, `Create` keeps at most one pending code for every address.
pub create_link-OnePending :
    (random : ℕ) (email purpose : Text) (household_id : Option ℕ) (now : Time)
    → Keeps (OnePending now) (create_link random email purpose household_id now)
unfolding create_link ◌>>=◌ ◌>>◌ generate_code
create_link-OnePending random email purpose household_id now = record {
  keeps = λ w h. elim (exec-cases (cleared_for email now) w) [
    | inl x ↦ rw x h
    | inr x ↦
        let s = cleared_for email now w.0 in
        let h' = cleared_for-OnePending email now w.0 h in
        let code = itoa (random % 900000 + 100000) in
        let row = new_link code email purpose household_id now in
        let left =
          select-update_where-all (is_pending_for email now) (set_used now)
            (used-unpending email now) w.0.magic_links.rows in
        elim (query-cases (λ (s : AuthDb). code) (s, later w)) [
          | inl y ↦ rw (x, y) h'
          | inr y ↦ elim (statement-cases (insert_link row code) (s, later (s, later w))) [
            | inl z ↦ rw (x, y, z) h'
            | inr z ↦
                rw (x, y, z)
                  ((after_insert now (insert_link row code s).0).keeps _ (
                    insert_link-OnePending row code email now s
                      (λ id. new_link-email code email purpose household_id now id) h' left))
          ]
        ]
  ];
}

-- A time that passes adds no pending code.
pub OnePending-later :
    (now moment : Time) (s : AuthDb) → now ≤ moment → OnePending now s → OnePending moment s
OnePending-later now moment s h k = record {
  one = λ email.
      let j =
        length-select-≤ (is_pending_for email moment) (is_pending_for email now)
          (λ l p. ground arith) s.magic_links.rows in
      let o = k.one email in omega (arith, j, o);
}
