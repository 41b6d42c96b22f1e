-- ===== src/Reward/Store.antt =====
-- internal/store/reward.go: the rewards and their redemptions. `enforced` says whether the database
-- follows the foreign keys of the migration 009.
use gamwich.Prelude.{
  ℕ, suc, Bool, true, false, not, ◌&&◌, ◌||◌, Option, none, some, List, ltb, ◌==◌, if◌then◌else◌,
}
use gamwich.Prelude.Int.{ℤ}
use gamwich.Prelude.Result.{Result, ok, err}
use gamwich.Text.{Text, text_lt}
use gamwich.Calendar.{Time}
use gamwich.Sql.{
  DbError, constraint, insert, with_rows, statement, query, exec, ◌>>=◌, ◌>>◌, select, first,
  exists, update_where, delete_where, order_by, or_failed,
}
use gamwich.Reward.{Reward, RewardRedemption, Member, RewardDb, RewardAction}

abbrev pub has_id : ℕ → Reward → Bool
has_id id r = r.id == id

abbrev new_reward : Text → Text → ℤ → Bool → Time → ℕ → Reward
new_reward title description point_cost active now id = record {
  id = id;
  title = title;
  description = description;
  point_cost = point_cost;
  active = active;
  created_at = now;
}

abbrev insert_reward : (ℕ → Reward) → RewardDb → Result DbError ℕ × RewardDb
insert_reward row s = (ok (suc s.rewards.last_id), record s { rewards = insert row s.rewards })

unfoldable pub get_by_id : ℕ → RewardAction (Option Reward)
get_by_id id = query (λ (s : RewardDb). first (has_id id) s.rewards.rows)

unfoldable pub create : Text → Text → ℤ → Bool → Time → RewardAction (Option Reward)
create title description point_cost active now =
    statement (insert_reward (new_reward title description point_cost active now)) >>= get_by_id

-- Active rewards come first, then the title decides.
abbrev listed_before : Reward → Reward → Bool
listed_before r q =
    (r.active && not q.active) || (not (q.active && not r.active) && text_lt r.title q.title)

unfoldable pub list_all : RewardAction (List Reward)
list_all = query (λ (s : RewardDb). order_by listed_before s.rewards.rows)

unfoldable pub list_active : RewardAction (List Reward)
list_active = query (λ (s : RewardDb).
    order_by (λ (r q : Reward). text_lt r.title q.title)
      (select (λ (r : Reward). r.active) s.rewards.rows))

unfoldable pub update : ℕ → Text → Text → ℤ → Bool → RewardAction (Option Reward)
update id title description point_cost active = do
  exec (λ (s : RewardDb). record s {
    rewards =
        with_rows
          (update_where (has_id id)
            (λ (r : Reward). record r {
              title = title;
              description = description;
              point_cost = point_cost;
              active = active;
            })
            s.rewards.rows)
          s.rewards;
  })
  get_by_id id

-- `ON DELETE CASCADE`
abbrev pub cascade : Bool → ℕ → List RewardRedemption → List RewardRedemption
cascade enforced id rows =
    if enforced then delete_where (λ (r : RewardRedemption). r.reward_id == id) rows else rows

unfoldable pub delete : Bool → ℕ → RewardAction (Unit {0})
delete enforced id = exec (λ (s : RewardDb). record s {
  rewards = with_rows (delete_where (has_id id) s.rewards.rows) s.rewards;
  redemptions = with_rows (cascade enforced id s.redemptions.rows) s.redemptions;
})

-- A member that is referred to exists; so does the reward.
abbrev member_exists : Option ℕ → List Member → Bool
member_exists none members = true
member_exists (some id) members = exists (λ (m : Member). m.id == id) members

abbrev pub refers : ℕ → Option ℕ → RewardDb → Bool
refers reward_id redeemed_by s =
    exists (has_id reward_id) s.rewards.rows && member_exists redeemed_by s.members

abbrev pub new_redemption : ℕ → Option ℕ → ℤ → Time → ℕ → RewardRedemption
new_redemption reward_id redeemed_by points_spent now id = record {
  id = id;
  reward_id = reward_id;
  redeemed_by = redeemed_by;
  points_spent = points_spent;
  redeemed_at = now;
}

unfoldable pub insert_redemption :
    Bool → ℕ → Option ℕ → ℤ → Time → RewardDb → Result DbError ℕ × RewardDb
insert_redemption enforced reward_id redeemed_by points_spent now s =
    if enforced && not (refers reward_id redeemed_by s) then (err constraint, s) else (
      ok (suc s.redemptions.last_id),
      record s {
        redemptions = insert (new_redemption reward_id redeemed_by points_spent now) s.redemptions;
      },
    )

unfoldable pub redeem : Bool → ℕ → Option ℕ → ℤ → Time → RewardAction RewardRedemption
redeem enforced reward_id redeemed_by points_spent now = do
  id ← statement (insert_redemption enforced reward_id redeemed_by points_spent now)
  found ← query (λ (s : RewardDb). first (λ (r : RewardRedemption). r.id == id) s.redemptions.rows)
  or_failed found

abbrev pub is_of : ℕ → Option ℕ → Bool
is_of member_id none = false
is_of member_id (some id) = id == member_id

unfoldable pub list_redemptions_by_member : ℕ → RewardAction (List RewardRedemption)
list_redemptions_by_member member_id = query (λ (s : RewardDb).
    order_by (λ (r q : RewardRedemption). ltb q.redeemed_at r.redeemed_at)
      (select (λ (r : RewardRedemption). is_of member_id r.redeemed_by) s.redemptions.rows))
