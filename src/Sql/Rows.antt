-- ===== src/Sql/Rows.antt =====
-- The selections, updates and sorted rows of a table.
use mathlib.Core.Path.{subst}
use gamwich.Prelude.{
  ◌+◌, ◌≤◌, ◌≡◌, refl, ap, ◌⊎◌, inl, inr, Bool, true, false, none, some, List, [], ◌∷◌, ◌++◌,
  Bool-cases, if◌then◌else◌, All, length, arith,
}
use gamwich.Sql.{select, first, exists, update_where, insert_row, order_by, head}

-- Membership in a list.
abbrev pub In : {A : Type 0} → A → List A → Type 0
In a [] = ⊥
In a (x ∷ xs) = (x ≡ a) ⊎ In a xs

abbrev tail_of : {A : Type 0} → List A → List A
tail_of [] = []
tail_of (x ∷ xs) = xs

abbrev head_or : {A : Type 0} → A → List A → A
head_or a [] = a
head_or a (x ∷ xs) = x

abbrev is_cons : {A : Type 0} → List A → Bool
is_cons [] = false
is_cons (x ∷ xs) = true

module _ {A : Type 0} where
  pub ∷-injective : (x y : A) (xs ys : List A) → x ∷ xs ≡ y ∷ ys → (x ≡ y) × (xs ≡ ys)
  ∷-injective x y xs ys e = (ap (head_or x) e, ap tail_of e)

  pub All-insert_row :
      (P : A → Type 0) (before : A → A → Bool) (x : A) (xs : List A)
      → P x
      → All P xs
      → All P (insert_row before x xs)
  unfolding insert_row
  All-insert_row P before x [] h hs = (h, tt)
  All-insert_row P before x (y ∷ ys) h (k, ks) = elim (Bool-cases (before y x)) [
    | inl p ↦ rw p (k, All-insert_row P before x ys h ks)
    | inr p ↦ rw p (h, (k, ks))
  ]

  pub All-order_by :
      (P : A → Type 0) (before : A → A → Bool) (xs : List A) → All P xs → All P (order_by before xs)
  unfolding order_by
  All-order_by P before [] hs = tt
  All-order_by P before (x ∷ xs) (h, hs) =
      All-insert_row P before x (order_by before xs) h (All-order_by P before xs hs)

  -- What is selected is a row for which the condition holds.
  pub All-select :
      (P : A → Type 0) (p : A → Bool) (xs : List A)
      → ((x : A) → In x xs → p x ≡ true → P x)
      → All P (select p xs)
  unfolding select
  All-select P p [] k = tt
  All-select P p (x ∷ xs) k = elim (Bool-cases (p x)) [
    | inl h ↦ rw h (k x (inl refl) h, All-select P p xs (λ y m. k y (inr m)))
    | inr h ↦ rw h (All-select P p xs (λ y m. k y (inr m)))
  ]

  pub In-select : (p : A → Bool) (xs : List A) (a : A) → In a xs → p a ≡ true → In a (select p xs)
  unfolding select
  In-select p [] a m h = elim m [ ]
  In-select p (x ∷ xs) a (inl e) h = let k : p x ≡ true = rw e h in rw k (inl e)
  In-select p (x ∷ xs) a (inr m) h =
      let r = In-select p xs a m h in
      elim (Bool-cases (p x)) [ inl k ↦ rw k (inr r) | inr k ↦ rw k r ]

  pub select-head :
      (p : A → Bool) (xs : List A) (a : A) (as' : List A) → select p xs ≡ a ∷ as' → p a ≡ true
  select-head p xs a as' e =
      (subst (All (λ x. p x ≡ true)) e (All-select (λ x. p x ≡ true) p xs (λ x m h. h))).0

  pub some-injective : (x y : A) → some x ≡ some y → x ≡ y
  some-injective x y e = ap (λ o. elim o [ none ↦ x | some z ↦ z ]) e

  pub All-head : (P : A → Type 0) (xs : List A) (a : A) → All P xs → head xs ≡ some a → P a
  All-head P (x ∷ xs) a (h, hs) e = subst P (some-injective x a e) h
  All-head P [] a hs e = cc

  -- The first row is one for which the condition holds.
  pub first-In : (p : A → Bool) (xs : List A) (a : A) → first p xs ≡ some a → In a xs × (p a ≡ true)
  unfolding first
  first-In p [] a e = cc
  first-In p (x ∷ xs) a e = elim (Bool-cases (p x)) [
    | inl h ↦ (
      inl (some-injective x a (rw h at e)),
      subst (λ y. p y ≡ true) (some-injective x a (rw h at e)) h,
    )
    | inr h ↦ let r = first-In p xs a (rw h at e) in (inr r.0, r.1)
  ]

  module _ (p q : A → Bool) (f : A → A) (stays : (x : A) → p x ≡ false → p (f x) ≡ false) where
    -- An update that selects no more rows than before: none stays none,
    pub select-update_where-none :
        (xs : List A) → select p xs ≡ [] → select p (update_where q f xs) ≡ []
    unfolding select update_where
    select-update_where-none [] e = refl
    select-update_where-none (x ∷ xs) e = elim (Bool-cases (p x)) [
      | inl h ↦ let e' : x ∷ select p xs ≡ [] = rw h at e in cc
      | inr h ↦
          let e' : select p xs ≡ [] = rw h at e in
          let k : p (if q x then f x else x) ≡ false = elim (Bool-cases (q x)) [
            | inl t ↦ rw t (stays x h)
            | inr t ↦ rw t h
          ] in
          rw k (select-update_where-none xs e')
    ]

    -- and a single one becomes what the update makes of it.
    pub select-update_where-one :
        (l : A) (xs : List A)
        → q l ≡ true
        → select p xs ≡ l ∷ []
        → select p (update_where q f xs) ≡ (if p (f l) then f l ∷ [] else [])
    unfolding select update_where
    select-update_where-one l [] h e = cc
    select-update_where-one l (x ∷ xs) h e = elim (Bool-cases (p x)) [
      | inl t ↦
          let e' = ∷-injective x l (select p xs) [] (rw t at e) in
          let r = select-update_where-none xs e'.1 in
          let g : q x ≡ true = rw (e'.0) h in rw (g, e'.0, r)
      | inr t ↦
          let e' : select p xs ≡ l ∷ [] = rw t at e in
          let k : p (if q x then f x else x) ≡ false = elim (Bool-cases (q x)) [
            | inl u ↦ rw u (stays x t)
            | inr u ↦ rw u t
          ] in
          rw k (select-update_where-one l xs h e')
    ]

  pub select-append :
      (p : A → Bool) (xs ys : List A) → select p (xs ++ ys) ≡ select p xs ++ select p ys
  unfolding select
  select-append p [] ys = refl
  select-append p (x ∷ xs) ys = elim (Bool-cases (p x)) [
    | inl h ↦ rw (h, select-append p xs ys)
    | inr h ↦ rw (h, select-append p xs ys)
  ]

  pub length-select-update_where :
      (p q : A → Bool) (f : A → A)
      → ((x : A) → p x ≡ false → p (f x) ≡ false)
      → (xs : List A) → length (select p (update_where q f xs)) ≤ length (select p xs)
  unfolding select update_where
  length-select-update_where p q f stays [] = omega arith
  length-select-update_where p q f stays (x ∷ xs) =
      let r = length-select-update_where p q f stays xs in let k = stays x in ground arith

  -- After an update of all rows with a condition that does not hold for what it makes of them, none
  -- is left.
  pub select-update_where-all :
      (p : A → Bool) (f : A → A)
      → ((x : A) → p (f x) ≡ false)
      → (xs : List A) → select p (update_where p f xs) ≡ []
  unfolding select update_where
  select-update_where-all p f k [] = refl
  select-update_where-all p f k (x ∷ xs) = elim (Bool-cases (p x)) [
    | inl h ↦ rw (h, k x) (select-update_where-all p f k xs)
    | inr h ↦ rw (h, h) (select-update_where-all p f k xs)
  ]

  pub length-select-≤ :
      (p q : A → Bool)
      → ((x : A) → p x ≡ true → q x ≡ true)
      → (xs : List A) → length (select p xs) ≤ length (select q xs)
  unfolding select
  length-select-≤ p q k [] = omega arith
  length-select-≤ p q k (x ∷ xs) = let r = length-select-≤ p q k xs in let h = k x in ground arith

  pub length-select-snoc :
      (p : A → Bool) (xs : List A) (y : A)
      → length (select p (xs ++ y ∷ [])) ≡ length (select p xs) + (if p y then 1 else 0)
  unfolding select
  length-select-snoc p [] y = elim (Bool-cases (p y)) [
    | inl h ↦ rw h (omega arith)
    | inr h ↦ rw h (omega arith)
  ]
  length-select-snoc p (x ∷ xs) y =
      let r = length-select-snoc p xs y in
      elim (Bool-cases (p x)) [ inl h ↦ rw h (omega (arith, r)) | inr h ↦ rw h r ]

  -- A row that has just been added is found, unless one before it is.
  pub first-snoc :
      (p : A → Bool) (xs : List A) (y : A)
      → p y ≡ true
      → (a : A) × (first p (xs ++ y ∷ []) ≡ some a)
  unfolding first
  first-snoc p [] y h = (y, rw h)
  first-snoc p (x ∷ xs) y h = elim (Bool-cases (p x)) [
    | inl k ↦ (x, rw k)
    | inr k ↦ let r = first-snoc p xs y h in (r.0, rw k r.1)
  ]

  pub exists-append :
      (p : A → Bool) (xs ys : List A) → exists p xs ≡ true → exists p (xs ++ ys) ≡ true
  unfolding exists
  exists-append p [] ys h = cc
  exists-append p (x ∷ xs) ys h = elim (Bool-cases (p x)) [
    | inl k ↦ rw k
    | inr k ↦ rw k (exists-append p xs ys (rw k at h))
  ]

  pub exists-snoc :
      (p : A → Bool) (xs : List A) (y : A) → p y ≡ true → exists p (xs ++ y ∷ []) ≡ true
  unfolding exists
  exists-snoc p [] y h = rw h
  exists-snoc p (x ∷ xs) y h = elim (Bool-cases (p x)) [
    | inl k ↦ rw k
    | inr k ↦ rw k (exists-snoc p xs y h)
  ]

  -- What an update makes of the rows that it is about, and what holds of the others.
  pub All-update_where :
      (P : A → Type 0) (p : A → Bool) (f : A → A)
      → ((x : A) → p x ≡ true → P (f x))
      → ((x : A) → p x ≡ false → P x)
      → (xs : List A) → All P (update_where p f xs)
  unfolding update_where
  All-update_where P p f hit miss [] = tt
  All-update_where P p f hit miss (x ∷ xs) = (
    elim (Bool-cases (p x)) [ inl h ↦ rw h (hit x h) | inr h ↦ rw h (miss x h) ],
    All-update_where P p f hit miss xs,
  )
