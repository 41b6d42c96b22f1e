-- ===== src/Reward/Redeeming.antt =====
-- `Redeem` of internal/handler/reward.go and the balance of the member that pays.
use gamwich.Prelude.{
  ℕ, suc, ◌≡◌, refl, sym, ap, ◌∙◌, inl, inr, Bool, true, false, not, ◌&&◌, some, List, [], ◌∷◌,
  ◌++◌, ◌==◌, Bool-cases, Option-cases, arith,
}
use gamwich.Prelude.Int.{ℤ, pos, ◌+ℤ◌, ◌-ℤ◌, int_ltb, sub-add, int_ltb-sub}
use gamwich.Prelude.Result.{Result, ok, err, Result-cases}
use gamwich.Text.{codes}
use gamwich.Calendar.{Time}
use gamwich.Sql.{
  DbError, constraint, World, pure, raise, statement, query, attempt, otherwise, or_failed, ◌>>=◌,
  ◌>>◌, select, first,
}
use gamwich.Sql.Faults.{later, query-go, query-cases, statement-cases}
use gamwich.Sql.Rows.{select-append, first-snoc}
use gamwich.Reward.{Reward, RewardRedemption, PointBalance, Member, RewardDb}
use gamwich.Reward.Store.{
  has_id, is_of, insert_redemption, new_redemption, refers, get_by_id, redeem,
}
use gamwich.Reward.Balances.{
  sum_from, earned_of, spent_of, get_point_balance, point_balance, name_of,
}
use gamwich.Reward.Requests.{
  Response, failure, redemption, broadcast, redeem_with, finish_redeem, redeem_reward,
}

-- The points that a member has left.
abbrev pub points_left : ℕ → RewardDb → ℤ
points_left member_id s = earned_of member_id s -ℤ spent_of member_id s

sum_from-snoc :
    {A : Type 0} (f : A → ℤ) (n : ℤ) (xs : List A) (x : A)
    → sum_from f n (xs ++ x ∷ []) ≡ sum_from f n xs +ℤ f x
unfolding sum_from
sum_from-snoc f n [] x = refl
sum_from-snoc f n (y ∷ ys) x = sum_from-snoc f (n +ℤ f y) ys x

-- What is to hold of a redemption by a member, for the database before and after.
pub record Redeemed (id member_id : ℕ) (s s' : RewardDb) : Type 0 where
  pub bought : Reward
  pub found : first (has_id id) s.rewards.rows ≡ some bought
  pub active : bought.active ≡ true
  pub enough : int_ltb (points_left member_id s) bought.point_cost ≡ false
  pub paid : points_left member_id s' ≡ points_left member_id s -ℤ bought.point_cost

insert_redemption-paid :
    (enforced : Bool) (id member_id : ℕ) (cost : ℤ) (now : Time) (s : RewardDb) (key : ℕ)
    → (insert_redemption enforced id (some member_id) cost now s).0 ≡ ok key
    → points_left member_id (insert_redemption enforced id (some member_id) cost now s).1
      ≡ points_left member_id s -ℤ cost
unfolding insert_redemption earned_of spent_of select
insert_redemption-paid enforced id member_id cost now s key e =
    elim (Bool-cases (enforced && not (refers id (some member_id) s))) [
      | inl p ↦ let e' : err constraint ≡ ok key = rw p at e in cc
      | inr p ↦
          let rows = s.redemptions.rows in
          let row = new_redemption id (some member_id) cost now (suc s.redemptions.last_id) in
          let mine = λ (r : RewardRedemption). is_of member_id r.redeemed_by in
          let same : (member_id == member_id) ≡ true = ground arith in
          let split : select mine (rows ++ row ∷ []) ≡ select mine rows ++ row ∷ [] =
            select-append mine rows (row ∷ []) ∙ rw same in
          rw
            (
              p,
              split,
              sum_from-snoc (λ (r : RewardRedemption). r.points_spent) (pos 0) (select mine rows)
                  row,
            )
            (sub-add (earned_of member_id s) (spent_of member_id s) cost)
    ]

abbrev failed_redeem : Response
failed_redeem = failure 500 (codes "failed to redeem reward")

finish_redeem-paid :
    (enforced : Bool) (id member_id : ℕ) (cost : ℤ) (now : Time) (w : World RewardDb)
    (r : RewardRedemption)
    → (finish_redeem enforced id (some member_id) cost now w).0 ≡ ok (redemption r)
    → points_left member_id (finish_redeem enforced id (some member_id) cost now w).1.0
      ≡ points_left member_id w.0 -ℤ cost
unfolding finish_redeem redeem otherwise ◌>>=◌ ◌>>◌ broadcast pure raise or_failed earned_of
    spent_of
finish_redeem-paid enforced id member_id cost now w r e =
    elim (statement-cases (insert_redemption enforced id (some member_id) cost now) w) [
      | inl x ↦ let e' : ok failed_redeem ≡ ok (redemption r) = rw x at e in cc
      | inr x ↦
          elim (Result-cases (insert_redemption enforced id (some member_id) cost now w.0).0) [
            | inl (z, y) ↦ let e' : ok failed_redeem ≡ ok (redemption r) = rw (x, y) at e in cc
            | inr (key, y) ↦
                let s = (insert_redemption enforced id (some member_id) cost now w.0).1 in
                let paid = insert_redemption-paid enforced id member_id cost now w.0 key y in
                let is_new = λ (q : RewardRedemption). q.id == key in
                elim (query-cases (λ (s : RewardDb). first is_new s.redemptions.rows)
                  (s, later w)) [
                    | inl u ↦
                        let e' : ok failed_redeem ≡ ok (redemption r) = rw (x, y, u) at e in cc
                    | inr u ↦ elim (Option-cases (first is_new s.redemptions.rows)) [
                      | inl v ↦
                          let e' : ok failed_redeem ≡ ok (redemption r) = rw (x, y, u, v) at e in cc
                      | inr (row, v) ↦ rw (x, y, u, v) paid
                    ]
                  ]
          ]
    ]

abbrev balance_in : Result DbError PointBalance → ℤ
balance_in (ok b) = b.balance
balance_in (err e) = pos 0

-- The reading of the three parts of the balance.
get_point_balance-balance :
    (member_id : ℕ) (w : World RewardDb) (b : PointBalance)
    → (get_point_balance member_id w).0 ≡ ok b
    → (b.balance ≡ points_left member_id w.0) × ((get_point_balance member_id w).1.0 ≡ w.0)
unfolding get_point_balance ◌>>=◌ pure
get_point_balance-balance member_id w b e =
    let name = λ (s : RewardDb). first (λ (m : Member). m.id == member_id) s.members in
    let w1 : World RewardDb = (w.0, later w) in
    let w2 : World RewardDb = (w.0, later w1) in
    let c =
      point_balance member_id (name_of (name w.0)) (earned_of member_id w.0)
        (spent_of member_id w.0) in
    let x = query-go (earned_of member_id) _ w b e in
    let y = query-go (spent_of member_id) _ w1 b (sym (ap (λ r. r.0) x) ∙ e) in
    let z = query-go name _ w2 b (sym (ap (λ r. r.0) (x ∙ y)) ∙ e) in
    let all : get_point_balance member_id w ≡ (ok c, (w.0, later w2)) = x ∙ y ∙ z in
    let e' : ok c ≡ ok b = sym (ap (λ r. r.0) all) ∙ e in
    (sym (ap balance_in e'), ap (λ r. r.1.0) all)

redeem_with-Redeemed :
    (enforced : Bool) (id member_id : ℕ) (now : Time) (w : World RewardDb) (bought : Reward)
    (r : RewardRedemption)
    → first (has_id id) w.0.rewards.rows ≡ some bought
    → (redeem_with enforced (some (some member_id)) now id bought w).0 ≡ ok (redemption r)
    → Redeemed id member_id w.0 (redeem_with enforced (some (some member_id)) now id bought w).1.0
unfolding ◌>>=◌ pure attempt
redeem_with-Redeemed enforced id member_id now w bought r h e = elim (Bool-cases bought.active) [
  | inr p ↦
      let e' : ok (failure 400 (codes "reward is not active")) ≡ ok (redemption r) = rw p at e in cc
  | inl p ↦ elim (Result-cases (get_point_balance member_id w).0) [
    | inl (z, x) ↦
        let e' : ok (failure 500 (codes "failed to check balance")) ≡ ok (redemption r) =
          rw (p, x) at e in
        cc
    | inr (b, x) ↦
        let known = get_point_balance-balance member_id w b x in
        elim (Bool-cases (int_ltb b.balance bought.point_cost)) [
          | inl q ↦
              let e' : ok (failure 400 (codes "insufficient points")) ≡ ok (redemption r) =
                rw (p, x, q) at e in
              cc
          | inr q ↦
              let w' = (get_point_balance member_id w).1 in
              let paid =
                finish_redeem-paid enforced id member_id bought.point_cost now w' r
                  (rw (p, x, q) at e) in
              record {
                bought = bought;
                found = h;
                active = p;
                enough = rw known.0 at q;
                paid =
                    rw (p, x, q)
                      (paid ∙ ap (λ s. points_left member_id s -ℤ bought.point_cost) known.1);
              }
        ]
  ]
]

-- However the statements fare, a redemption by a member is of an active reward, for which the member
-- has points enough, and takes its cost off them.
pub redeem_reward-Redeemed :
    (enforced : Bool) (id member_id : ℕ) (now : Time) (w : World RewardDb) (r : RewardRedemption)
    → (redeem_reward enforced (some id) (some (some member_id)) now w).0 ≡ ok (redemption r)
    → Redeemed id member_id w.0 (redeem_reward enforced (some id) (some (some member_id)) now w).1.0
unfolding redeem_reward get_by_id ◌>>=◌ pure attempt
redeem_reward-Redeemed enforced id member_id now w r e =
    elim (query-cases (λ (s : RewardDb). first (has_id id) s.rewards.rows) w) [
      | inl x ↦
          let e' : ok (failure 500 (codes "failed to get reward")) ≡ ok (redemption r) =
            rw x at e in
          cc
      | inr x ↦ elim (Option-cases (first (has_id id) w.0.rewards.rows)) [
        | inl y ↦
            let e' : ok (failure 404 (codes "reward not found")) ≡ ok (redemption r) =
              rw (x, y) at e in
            cc
        | inr (bought, y) ↦
            rw (x, y)
              (redeem_with-Redeemed enforced id member_id now (w.0, later w) bought r y
                (rw (x, y) at e))
      ]
    ]

-- Points that are not below nothing are not so after a redemption either.
pub redeem_reward-nonnegative :
    (enforced : Bool) (id member_id : ℕ) (now : Time) (w : World RewardDb) (r : RewardRedemption)
    → (redeem_reward enforced (some id) (some (some member_id)) now w).0 ≡ ok (redemption r)
    → int_ltb
        (points_left member_id (redeem_reward enforced (some id) (some (some member_id)) now w).1.0)
        (pos 0)
      ≡ false
redeem_reward-nonnegative enforced id member_id now w r e =
    let d = redeem_reward-Redeemed enforced id member_id now w r e in
    rw d.paid (int_ltb-sub (points_left member_id w.0) d.bought.point_cost d.enough)

-- Where no statement fails, an active reward is handed out to a member of the family who has the
-- points.
pub redeem_reward-succeeds :
    (enforced : Bool) (id member_id : ℕ) (now : Time) (s : RewardDb) (bought : Reward)
    → first (has_id id) s.rewards.rows ≡ some bought
    → bought.active ≡ true
    → int_ltb (points_left member_id s) bought.point_cost ≡ false
    → refers id (some member_id) s ≡ true
    → (r : RewardRedemption) × ((redeem_reward enforced
          (some id)
          (some (some member_id))
          now
          (s, [])).0
        ≡ ok (redemption r))
unfolding redeem_reward get_by_id get_point_balance finish_redeem redeem otherwise broadcast query
    statement insert_redemption ◌>>=◌ ◌>>◌ pure attempt or_failed
redeem_reward-succeeds enforced id member_id now s bought found active enough known =
    let key = suc s.redemptions.last_id in
    let row = new_redemption id (some member_id) bought.point_cost now key in
    let same : (key == key) ≡ true = ground arith in
    let r = first-snoc (λ (q : RewardRedemption). q.id == key) s.redemptions.rows row same in
    let allowed : (enforced && not (refers id (some member_id) s)) ≡ false =
      elim (Bool-cases enforced) [ inl p ↦ rw (p, known) | inr p ↦ rw p ] in
    (r.0, rw (found, active, enough, allowed, r.1))
