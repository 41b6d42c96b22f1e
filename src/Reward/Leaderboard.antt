-- ===== src/Reward/Leaderboard.antt =====
-- internal/store/reward.go: the order of `GetAllPointBalances`.
use mathlib.Core.List.{Perm}
use mathlib.Core.List.Perm
use gamwich.Prelude.{
  ℕ, zero, suc, ◌≤◌, ◌≡◌, refl, ap, false, inl, inr, List, [], ◌∷◌, Bool-cases, if◌then◌else◌, All,
  length, arith,
}
use gamwich.Prelude.Int.{int_ltb, int_ltb_trans, int_ltb-asym}
use gamwich.Reward.{PointBalance}
use gamwich.Reward.Balances.{exchange, sort_from, sort_balances}

-- No balance of a list is above a balance.
abbrev IsTop : PointBalance → PointBalance → Type 0
IsTop b c = int_ltb b.balance c.balance ≡ false

-- Every balance is at least as high as each of those after it.
abbrev pub IsDescending : List PointBalance → Type 0
IsDescending [] = Unit {0}
IsDescending (b ∷ bs) = All (IsTop b) bs × IsDescending bs

exchange-length : (b : PointBalance) (cs : List PointBalance) → length (exchange b cs).1 ≡ length cs
unfolding exchange
exchange-length b [] = refl
exchange-length b (c ∷ cs) =
    ap suc (exchange-length (if int_ltb b.balance c.balance then c else b) cs)

exchange-Perm :
    (b : PointBalance) (cs : List PointBalance)
    → Perm (b ∷ cs) ((exchange b cs).0 ∷ (exchange b cs).1)
unfolding exchange
exchange-Perm b [] = Perm.refl (b ∷ [])
exchange-Perm b (c ∷ cs) = elim (Bool-cases (int_ltb b.balance c.balance)) [
  | inl p ↦ rw p (Perm.trans (Perm.cons b (exchange-Perm c cs)) (Perm.swap _ b _))
  | inr p ↦ rw p (
      Perm.trans (Perm.swap c b cs)
        (Perm.trans (Perm.cons c (exchange-Perm b cs)) (Perm.swap _ c _)))
]

-- What the inner loop leaves in its place is above the value it began with,
exchange-above : (b : PointBalance) (cs : List PointBalance) → IsTop (exchange b cs).0 b
unfolding exchange
exchange-above b [] = ground arith
exchange-above b (c ∷ cs) = elim (Bool-cases (int_ltb b.balance c.balance)) [
  | inl p ↦ rw p (
      int_ltb_trans _ c.balance b.balance (exchange-above c cs)
        (int_ltb-asym b.balance c.balance p))
  | inr p ↦ rw p (exchange-above b cs)
]

-- and above the others.
exchange-IsTop :
    (b : PointBalance) (cs : List PointBalance) → All (IsTop (exchange b cs).0) (exchange b cs).1
unfolding exchange
exchange-IsTop b [] = tt
exchange-IsTop b (c ∷ cs) = (
  elim (Bool-cases (int_ltb b.balance c.balance)) [
    | inl p ↦ rw p (
        int_ltb_trans _ c.balance b.balance (exchange-above c cs)
          (int_ltb-asym b.balance c.balance p))
    | inr p ↦ rw p (int_ltb_trans _ b.balance c.balance (exchange-above b cs) p)
  ],
  exchange-IsTop (if int_ltb b.balance c.balance then c else b) cs,
)

module _ (P : PointBalance → Type 0) where
  All-exchange :
      (b : PointBalance) (cs : List PointBalance)
      → P b
      → All P cs
      → P (exchange b cs).0 × All P (exchange b cs).1
  unfolding exchange
  All-exchange b [] h hs = (h, tt)
  All-exchange b (c ∷ cs) h (k, ks) = elim (Bool-cases (int_ltb b.balance c.balance)) [
    | inl p ↦ let r = All-exchange c cs k ks in rw p (r.0, (h, r.1))
    | inr p ↦ let r = All-exchange b cs h ks in rw p (r.0, (k, r.1))
  ]

  All-sort_from : (n : ℕ) (bs : List PointBalance) → All P bs → All P (sort_from n bs)
  unfolding sort_from
  All-sort_from n [] hs = tt
  All-sort_from zero (b ∷ bs) hs = hs
  All-sort_from (suc n) (b ∷ bs) (h, hs) =
      let r = All-exchange b bs h hs in (r.0, All-sort_from n (exchange b bs).1 r.1)

sort_from-IsDescending :
    (n : ℕ) (bs : List PointBalance) → length bs ≤ n → IsDescending (sort_from n bs)
unfolding sort_from
sort_from-IsDescending n [] h = tt
sort_from-IsDescending zero (b ∷ bs) h = absurd (omega arith)
sort_from-IsDescending (suc n) (b ∷ bs) h = (
  All-sort_from (IsTop (exchange b bs).0) n (exchange b bs).1 (exchange-IsTop b bs),
  sort_from-IsDescending n (exchange b bs).1 (rw exchange-length (omega arith)),
)

sort_from-Perm : (n : ℕ) (bs : List PointBalance) → Perm bs (sort_from n bs)
unfolding sort_from
sort_from-Perm n [] = Perm.refl []
sort_from-Perm zero (b ∷ bs) = Perm.refl (b ∷ bs)
sort_from-Perm (suc n) (b ∷ bs) =
    Perm.trans (exchange-Perm b bs) (Perm.cons _ (sort_from-Perm n (exchange b bs).1))

-- The exchanges of `GetAllPointBalances` put the balances of all members, each as often as before, in
-- an order in which none is below a later one.
pub sort_balances-IsDescending :
    (bs : List PointBalance) → IsDescending (sort_balances bs) × Perm bs (sort_balances bs)
unfolding sort_balances
sort_balances-IsDescending bs =
    (sort_from-IsDescending (length bs) bs (omega arith), sort_from-Perm (length bs) bs)
