-- ===== src/Reward.antt =====
-- Rewards and points: internal/model/reward.go and internal/store/reward.go. Points are integers that
-- do not wrap around: the requests of a household stay far below 2 ^ 63.
pub mod Store
pub mod Balances
pub mod Requests
mod Redeeming
mod Leaderboard
mod Tests
use gamwich.Prelude.{ℕ, Bool, List, Option}
use gamwich.Prelude.Int.{ℤ}
use gamwich.Text.{Text}
use gamwich.Calendar.{Time}
use gamwich.Sql.{Table, Action}

pub record Reward : Type 0 where
  pub id : ℕ
  pub title : Text
  pub description : Text
  pub point_cost : ℤ
  pub active : Bool
  pub created_at : Time

pub record RewardRedemption : Type 0 where
  pub id : ℕ
  pub reward_id : ℕ
  pub redeemed_by : Option ℕ
  pub points_spent : ℤ
  pub redeemed_at : Time

pub record PointBalance : Type 0 where
  pub member_id : ℕ
  pub member_name : Text
  pub total_earned : ℤ
  pub total_spent : ℤ
  pub balance : ℤ

-- The columns of `chore_completions` and `family_members` that the store reads.
pub record Completion : Type 0 where
  pub completed_by : Option ℕ
  pub points_earned : ℤ

pub record Member : Type 0 where
  pub id : ℕ
  pub name : Text
  pub sort_order : ℕ

-- A message for the clients of the hub, by its entity, action and id.
pub record Notice : Type 0 where
  pub entity : Text
  pub action : Text
  pub id : ℕ

pub record RewardDb : Type 0 where
  pub rewards : Table Reward
  pub redemptions : Table RewardRedemption
  pub completions : List Completion
  pub members : List Member
  pub notices : List Notice

abbrev pub RewardAction : Type 0 → Type 0
RewardAction = Action RewardDb
