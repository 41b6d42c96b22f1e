-- ===== src/Reward/Tests.antt =====
-- Runs of the rewards at concrete inputs.
use gamwich.Prelude.{◌==◌, ◌≡◌, refl, true, false, some, List, [], ◌∷◌}
use gamwich.Prelude.Int.{pos, int_ltb}
use gamwich.Prelude.Result.{ok}
use gamwich.Text.{codes}
use gamwich.Sql.{
  Table, statement, query, exec, pure, attempt, otherwise, or_failed, ◌>>=◌, ◌>>◌, select, first,
  exists, delete_where,
}
use gamwich.Reward.{Reward, RewardRedemption, PointBalance, RewardDb}
use gamwich.Reward.Store.{new_redemption, get_by_id, redeem, insert_redemption, delete, refers}
use gamwich.Reward.Balances.{
  point_balance, get_point_balance, earned_of, spent_of, sum_from, sort_balances, sort_from,
  exchange,
}
use gamwich.Reward.Requests.{redemption, redeem_reward, finish_redeem, broadcast}
use gamwich.Reward.Redeeming.{points_left, Redeemed, redeem_reward-Redeemed, redeem_reward-succeeds}
use gamwich.Reward.Leaderboard.{IsDescending, sort_balances-IsDescending}
use mathlib.Core.List.{Perm}

abbrev movie : Reward
movie = record {
  id = 1;
  title = codes "Movie";
  description = [];
  point_cost = pos 3;
  active = true;
  created_at = 0;
}

abbrev table : {A : Type 0} → List A → Table A
table rows = record { rows = rows; last_id = 1 }

abbrev db : RewardDb
db = record {
  rewards = table (movie ∷ []);
  redemptions = table [];
  completions = record { completed_by = some 7; points_earned = pos 5 } ∷ [];
  members = record { id = 7; name = codes "Ann"; sort_order = 0 } ∷ [];
  notices = [];
}

abbrev paid_row : RewardRedemption
paid_row = new_redemption 1 (some 7) (pos 3) 9 2

redeemed_row : (redeem_reward true (some 1) (some (some 7)) 9 (db, [])).0 ≡ ok (redemption paid_row)
unfolding redeem_reward get_by_id get_point_balance finish_redeem redeem insert_redemption broadcast
    earned_of spent_of sum_from select first exists query statement pure attempt otherwise or_failed
    ◌>>=◌ ◌>>◌
redeemed_row = refl

redeem_reward-Redeemed_example :
    Redeemed 1 7 db (redeem_reward true (some 1) (some (some 7)) 9 (db, [])).1.0
redeem_reward-Redeemed_example = redeem_reward-Redeemed true 1 7 9 (db, []) paid_row redeemed_row

found_movie : first (λ (r : Reward). r.id == 1) db.rewards.rows ≡ some movie
unfolding first
found_movie = refl

enough_points : int_ltb (points_left 7 db) movie.point_cost ≡ false
unfolding earned_of spent_of sum_from select
enough_points = refl

known_rows : refers 1 (some 7) db ≡ true
unfolding exists
known_rows = refl

redeem_reward-succeeds_example :
    (r : RewardRedemption) × ((redeem_reward true (some 1) (some (some 7)) 9 (db, [])).0
      ≡ ok (redemption r))
redeem_reward-succeeds_example =
    redeem_reward-succeeds true 1 7 9 db movie found_movie refl enough_points known_rows

-- Where the database follows its foreign keys, the deletion of a reward gives the points back.
refund :
    points_left 7 (delete true 1 (record db { redemptions = table (paid_row ∷ []) }, [])).1.0
    ≡ pos 5
unfolding delete exec statement earned_of spent_of sum_from select delete_where
refund = refl

abbrev balances : List PointBalance
balances =
    point_balance 1 [] (pos 1) (pos 3)
    ∷ point_balance 2 [] (pos 4) (pos 0)
    ∷ point_balance 3 [] (pos 4) (pos 1)
    ∷ []

sort_balances-IsDescending_example :
    IsDescending (sort_balances balances) × Perm balances (sort_balances balances)
sort_balances-IsDescending_example = sort_balances-IsDescending balances

in_order :
    sort_balances balances
    ≡ point_balance 2 [] (pos 4) (pos 0)
      ∷ point_balance 3 [] (pos 4) (pos 1)
      ∷ point_balance 1 [] (pos 1) (pos 3)
      ∷ []
unfolding sort_balances sort_from exchange
in_order = refl
