-- ===== src/Reward/Balances.antt =====
-- internal/store/reward.go: `GetPointBalance` and `GetAllPointBalances`.
use gamwich.Prelude.{
  ℕ, zero, suc, Bool, ◌&&◌, ◌||◌, Option, none, some, List, [], ◌∷◌, ltb, ◌==◌, if◌then◌else◌,
  length,
}
use gamwich.Prelude.Int.{ℤ, pos, ◌+ℤ◌, ◌-ℤ◌, int_ltb}
use gamwich.Text.{Text, codes, text_lt}
use gamwich.Sql.{pure, query, ◌>>=◌, select, first, order_by}
use gamwich.Reward.{RewardRedemption, PointBalance, Completion, Member, RewardDb, RewardAction}
use gamwich.Reward.Store.{is_of}

-- `COALESCE(SUM(…), 0)`, row by row
unfoldable pub sum_from : {A : Type 0} → (A → ℤ) → ℤ → List A → ℤ
sum_from f n [] = n
sum_from f n (x ∷ xs) = sum_from f (n +ℤ f x) xs

unfoldable pub earned_of : ℕ → RewardDb → ℤ
unfolding sum_from select
earned_of member_id s =
    sum_from (λ (c : Completion). c.points_earned) (pos 0)
      (select (λ (c : Completion). is_of member_id c.completed_by) s.completions)

unfoldable pub spent_of : ℕ → RewardDb → ℤ
unfolding sum_from select
spent_of member_id s =
    sum_from (λ (r : RewardRedemption). r.points_spent) (pos 0)
      (select (λ (r : RewardRedemption). is_of member_id r.redeemed_by) s.redemptions.rows)

abbrev pub name_of : Option Member → Text
name_of none = codes "Unknown"
name_of (some m) = m.name

abbrev pub point_balance : ℕ → Text → ℤ → ℤ → PointBalance
point_balance member_id name earned spent = record {
  member_id = member_id;
  member_name = name;
  total_earned = earned;
  total_spent = spent;
  balance = earned -ℤ spent;
}

unfoldable pub get_point_balance : ℕ → RewardAction PointBalance
get_point_balance member_id = do
  earned ← query (earned_of member_id)
  spent ← query (spent_of member_id)
  member ← query (λ (s : RewardDb). first (λ (m : Member). m.id == member_id) s.members)
  pure (point_balance member_id (name_of member) earned spent)

abbrev member_before : Member → Member → Bool
member_before m k =
    ltb m.sort_order k.sort_order || (m.sort_order == k.sort_order && text_lt m.name k.name)

-- The loop over the members, two queries for each.
unfoldable pub balances_of : List Member → RewardAction (List PointBalance)
balances_of [] = pure []
balances_of (m ∷ ms) = query (earned_of m.id) >>= λ earned. query (spent_of m.id) >>= λ spent.
    balances_of ms >>= λ rest. pure (point_balance m.id m.name earned spent ∷ rest)

-- The inner loop, for the value at `i` and those after it: a greater one takes its place.
unfoldable pub exchange : PointBalance → List PointBalance → PointBalance × List PointBalance
exchange b [] = (b, [])
exchange b (c ∷ cs) =
    let swaps = int_ltb b.balance c.balance in
    let rest = exchange (if swaps then c else b) cs in (rest.0, (if swaps then b else c) ∷ rest.1)

-- The outer loop, for as many places as are left.
unfoldable pub sort_from : ℕ → List PointBalance → List PointBalance
sort_from n [] = []
sort_from zero (b ∷ bs) = b ∷ bs
sort_from (suc n) (b ∷ bs) = let pass = exchange b bs in pass.0 ∷ sort_from n pass.1

unfoldable pub sort_balances : List PointBalance → List PointBalance
sort_balances bs = sort_from (length bs) bs

unfoldable pub get_all_point_balances : RewardAction (List PointBalance)
get_all_point_balances = do
  members ← query (λ (s : RewardDb). order_by member_before s.members)
  balances ← balances_of members
  pure (sort_balances balances)
