-- ===== src/Reward/Requests.antt =====
-- internal/handler/reward.go. A request's body is the value that the JSON decoder has made of it, or
-- `none`; so is the id of its path, and a negative id, which no row has, is left out. What a handler
-- broadcasts is a row of the notices.
use gamwich.Prelude.{ℕ, Bool, not, Option, none, some, List, [], ◌∷◌, ◌++◌, if◌then◌else◌}
use gamwich.Prelude.Int.{ℤ, pos, int_ltb}
use gamwich.Prelude.Result.{Result, ok, err}
use gamwich.Text.{Text, codes, is_empty, trim_space}
use gamwich.Calendar.{Time}
use gamwich.Sql.{DbError, pure, attempt, otherwise, ◌>>=◌, ◌>>◌}
use gamwich.Reward.{Reward, RewardRedemption, PointBalance, RewardAction}
use gamwich.Reward.Store.{get_by_id, create, list_all, update, delete, redeem}
use gamwich.Reward.Balances.{get_point_balance, get_all_point_balances}

pub record RewardRequest : Type 0 where
  pub title : Text
  pub description : Text
  pub point_cost : ℤ
  pub active : Bool

-- The status with the body, or with the text of the error.
pub data Response : Type 0 where
  failure : ℕ → Text → Response
  reward : ℕ → Option Reward → Response
  rewards : List Reward → Response
  redemption : RewardRedemption → Response
  balance : PointBalance → Response
  leaderboard : List PointBalance → Response
  no_content : Response

-- `broadcast`; it is no statement and does not fail.
unfoldable pub broadcast : Text → ℕ → RewardAction (Unit {0})
broadcast action id w = (
  ok tt,
  (
    record w.0 {
      notices = w.0.notices ++ record { entity = codes "reward"; action = action; id = id } ∷ [];
    },
    w.1,
  ),
)

abbrev server_error : Text → Response
server_error what = failure 500 what

-- The tests that `Create` and `Update` share, in their order.
abbrev checked : RewardRequest → (Text → RewardAction Response) → RewardAction Response
checked req k =
    let title = trim_space req.title in
    if is_empty title
    then pure (failure 400 (codes "title is required"))
    else if int_ltb req.point_cost (pos 0)
    then pure (failure 400 (codes "point_cost must be >= 0"))
    else k title

abbrev created_id : Option Reward → ℕ
created_id none = 0
created_id (some r) = r.id

-- The row was inserted before it was read, so that it is there.
abbrev finish_create : Option Reward → RewardAction Response
finish_create row = broadcast (codes "created") (created_id row) >> pure (reward 201 row)

unfoldable pub create_reward : Option RewardRequest → Time → RewardAction Response
create_reward none now = pure (failure 400 (codes "invalid JSON"))
create_reward (some req) now = checked req (λ title.
    otherwise (server_error (codes "failed to create reward"))
      (create title req.description req.point_cost req.active now >>= finish_create))

unfoldable pub list_rewards : RewardAction Response
list_rewards =
    otherwise (server_error (codes "failed to list rewards")) (list_all >>= λ rs. pure (rewards rs))

-- The reward of the path, or the response that ends the request.
abbrev pub on_found :
    (Reward → RewardAction Response) → Result DbError (Option Reward) → RewardAction Response
on_found k (err e) = pure (server_error (codes "failed to get reward"))
on_found k (ok none) = pure (failure 404 (codes "reward not found"))
on_found k (ok (some r)) = k r

abbrev pub with_reward : Option ℕ → (ℕ → Reward → RewardAction Response) → RewardAction Response
with_reward none k = pure (failure 400 (codes "invalid id"))
with_reward (some id) k = attempt (get_by_id id) >>= on_found (k id)

abbrev update_with : Option RewardRequest → ℕ → Reward → RewardAction Response
update_with none id existing = pure (failure 400 (codes "invalid JSON"))
update_with (some req) id existing = checked req (λ title.
    otherwise (server_error (codes "failed to update reward")) (
      update id title req.description req.point_cost req.active >>= λ r.
      broadcast (codes "updated") id >> pure (reward 200 r)))

unfoldable pub update_reward : Option ℕ → Option RewardRequest → RewardAction Response
update_reward id body = with_reward id (update_with body)

unfoldable pub delete_reward : Bool → Option ℕ → RewardAction Response
delete_reward enforced id = with_reward id (λ key existing.
    otherwise (server_error (codes "failed to delete reward"))
      (delete enforced key >> broadcast (codes "deleted") key >> pure no_content))

-- The redemption itself, after all tests.
unfoldable pub finish_redeem : Bool → ℕ → Option ℕ → ℤ → Time → RewardAction Response
finish_redeem enforced id redeemed_by point_cost now =
    otherwise (server_error (codes "failed to redeem reward")) (
      redeem enforced id redeemed_by point_cost now >>= λ r.
      broadcast (codes "redeemed") id >> pure (redemption r))

abbrev pub on_balance :
    Bool → ℕ → ℕ → ℤ → Time → Result DbError PointBalance → RewardAction Response
on_balance enforced id member_id point_cost now (err e) =
    pure (server_error (codes "failed to check balance"))
on_balance enforced id member_id point_cost now (ok b) =
    if int_ltb b.balance point_cost
    then pure (failure 400 (codes "insufficient points"))
    else finish_redeem enforced id (some member_id) point_cost now

-- The body is the member that pays, which may be left out.
abbrev pub redeem_with : Bool → Option (Option ℕ) → Time → ℕ → Reward → RewardAction Response
redeem_with enforced body now id r =
    if not r.active then pure (failure 400 (codes "reward is not active")) else elim body [
      | none ↦ pure (failure 400 (codes "invalid JSON"))
      | some redeemed_by ↦ elim redeemed_by [
        | none ↦ finish_redeem enforced id none r.point_cost now
        | some member_id ↦
            attempt (get_point_balance member_id)
            >>= on_balance enforced id member_id r.point_cost now
      ]
    ]

unfoldable pub redeem_reward : Bool → Option ℕ → Option (Option ℕ) → Time → RewardAction Response
redeem_reward enforced id body now = with_reward id (redeem_with enforced body now)

unfoldable pub point_balance_of : Option ℕ → RewardAction Response
point_balance_of none = pure (failure 400 (codes "invalid member id"))
point_balance_of (some member_id) =
    otherwise (server_error (codes "failed to get balance"))
      (get_point_balance member_id >>= λ b. pure (balance b))

unfoldable pub get_leaderboard : RewardAction Response
get_leaderboard =
    otherwise (server_error (codes "failed to get leaderboard"))
      (get_all_point_balances >>= λ bs. pure (leaderboard bs))
