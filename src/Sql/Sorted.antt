-- ===== src/Sql/Sorted.antt =====
-- The first row of an `ORDER BY`.
use mathlib.Core.Path.{subst}
use gamwich.Prelude.{
  ℕ, ◌≤◌, ◌≡◌, refl, ◌⊎◌, inl, inr, Bool, some, List, [], ◌∷◌, Bool-cases, All, ltb, arith,
}
use gamwich.Sql.{insert_row, order_by, head}
use gamwich.Sql.Rows.{In, All-insert_row}

module _ {A : Type 0} where
  pub In-insert_row :
      (before : A → A → Bool) (x a : A) (xs : List A)
      → (x ≡ a) ⊎ In a xs
      → In a (insert_row before x xs)
  unfolding insert_row
  In-insert_row before x a [] h = h
  In-insert_row before x a (y ∷ ys) h = elim (Bool-cases (before y x)) [
    | inr p ↦ rw p h
    | inl p ↦ rw p (elim h [
      | inl e ↦ inr (In-insert_row before x a ys (inl e))
      | inr m ↦ elim m [ inl e ↦ inl e | inr k ↦ inr (In-insert_row before x a ys (inr k)) ]
    ])
  ]

  pub In-order_by :
      (before : A → A → Bool) (xs : List A) (a : A) → In a xs → In a (order_by before xs)
  unfolding order_by
  In-order_by before [] a m = m
  In-order_by before (x ∷ xs) a (inl e) = In-insert_row before x a (order_by before xs) (inl e)
  In-order_by before (x ∷ xs) a (inr m) =
      In-insert_row before x a (order_by before xs) (inr (In-order_by before xs a m))

  pub All-In : (P : A → Type 0) (xs : List A) (a : A) → All P xs → In a xs → P a
  All-In P [] a hs m = elim m [ ]
  All-In P (x ∷ xs) a (h, hs) (inl e) = subst P e h
  All-In P (x ∷ xs) a (h, hs) (inr m) = All-In P xs a hs m

  -- In a descending order of numbers no row has a greater one than the first.
  module _ (f : A → ℕ) where
    abbrev descending : A → A → Bool
    descending x y = ltb (f y) (f x)

    abbrev StartsGreatest : List A → Type 0
    StartsGreatest [] = Unit
    StartsGreatest (x ∷ xs) = All (λ y. f y ≤ f x) xs

    All-≤ : (x y : A) (xs : List A) → f x ≤ f y → All (λ z. f z ≤ f x) xs → All (λ z. f z ≤ f y) xs
    All-≤ x y [] h hs = tt
    All-≤ x y (z ∷ zs) h (k, ks) = (omega arith, All-≤ x y zs h ks)

    insert_row-StartsGreatest :
        (x : A) (xs : List A) → StartsGreatest xs → StartsGreatest (insert_row descending x xs)
    unfolding insert_row
    insert_row-StartsGreatest x [] h = tt
    insert_row-StartsGreatest x (y ∷ ys) h = elim (Bool-cases (descending y x)) [
      | inl p ↦ rw p (All-insert_row (λ z. f z ≤ f y) descending x ys (ground arith) h)
      | inr p ↦ let le : f y ≤ f x = ground arith in rw p (le, All-≤ y x ys le h)
    ]

    order_by-StartsGreatest : (xs : List A) → StartsGreatest (order_by descending xs)
    unfolding order_by
    order_by-StartsGreatest [] = tt
    order_by-StartsGreatest (x ∷ xs) =
        insert_row-StartsGreatest x (order_by descending xs) (order_by-StartsGreatest xs)

    greatest :
        (xs : List A) (m : A)
        → StartsGreatest xs
        → In m xs
        → (a : A) × (head xs ≡ some a) × All (λ y. f y ≤ f a) xs
    greatest [] m h k = elim k [ ]
    greatest (x ∷ xs) m h k = (x, refl, (omega arith, h))

    -- The first of the rows in a descending order, where there is one.
    pub head-order_by-greatest :
        (xs : List A) (m : A)
        → In m xs
        → (a : A) × (head (order_by descending xs) ≡ some a) × ((y : A) → In y xs → f y ≤ f a)
    head-order_by-greatest xs m k =
        let r =
          greatest (order_by descending xs) m (order_by-StartsGreatest xs)
            (In-order_by descending xs m k) in
        (
          r.0,
          r.1,
          λ y i.
              All-In (λ z. f z ≤ f r.0) (order_by descending xs) y r.2
                (In-order_by descending xs y i),
        )
