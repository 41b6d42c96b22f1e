-- ===== src/Sql.antt =====
-- Statements against a database, as the stores of internal/store and internal/billing/store make
-- them. A table is a list of rows in the order of their ids. Each statement may fail: a list of faults
-- says which of them do, and a statement after its end does not.
pub mod Faults
pub mod Keeps
pub mod Rows
pub mod Sorted
pub mod Yields
use gamwich.Prelude.{
  ℕ, suc, ◌+◌, Bool, true, false, not, Option, none, some, List, [], ◌∷◌, ◌++◌, if◌then◌else◌,
}
use gamwich.Prelude.Result.{Result, ok, err}

-- An error of the database itself, or a violated constraint of a table.
pub data DbError : Type 0 where
  failed constraint : DbError

-- The database and the faults to come.
abbrev pub World : Type 0 → Type 0
World S = S × List Bool

abbrev pub Action : Type 0 → Type 0 → Type 0
Action S A = World S → Result DbError A × World S

abbrev pub next_fault : List Bool → Bool × List Bool
next_fault [] = (false, [])
next_fault (b ∷ bs) = (b, bs)

abbrev pub or_value : {A : Type 0} → A → Result DbError A → A
or_value a (ok x) = x
or_value a (err e) = a

module _ {S A : Type 0} where
  unfoldable pub pure : A → Action S A
  pure a w = (ok a, w)

  unfoldable pub raise : DbError → Action S A
  raise e w = (err e, w)

  -- One statement: what it does to the database, unless it fails.
  unfoldable pub statement : (S → Result DbError A × S) → Action S A
  statement f w =
      let fault = next_fault w.1 in
      if fault.0 then (err failed, (w.0, fault.1)) else ((f w.0).0, ((f w.0).1, fault.1))

  -- A statement that only reads.
  unfoldable pub query : (S → A) → Action S A
  unfolding statement
  query f = statement (λ s. (ok (f s), s))

  -- The action, with another outcome in place of an error.
  unfoldable pub otherwise : A → Action S A → Action S A
  otherwise a m w = (ok (or_value a (m w).0), (m w).1)

  abbrev commit : S → Result DbError A → World S → Result DbError A × World S
  commit s (ok x) w = (ok x, w)
  commit s (err e) w = (err e, (s, w.1))

  -- The action, undone if it ends in an error.
  unfoldable pub transaction : Action S A → Action S A
  transaction m w = commit w.0 (m w).0 (m w).1

-- A statement that only writes.
unfoldable pub exec : {S : Type 0} → (S → S) → Action S (Unit {0})
unfolding statement
exec f = statement (λ s. (ok tt, f s))

abbrev pub go_on : {S A B : Type 0} → Result DbError A → (A → Action S B) → Action S B
go_on (ok a) f w = f a w
go_on (err e) f w = (err e, w)

infixl 5 ◌>>=◌ ◌>>◌
unfoldable pub ◌>>=◌ : {S A B : Type 0} → Action S A → (A → Action S B) → Action S B
◌>>=◌ m f w = go_on (m w).0 f (m w).1

unfoldable pub ◌>>◌ : {S A B : Type 0} → Action S A → Action S B → Action S B
unfolding ◌>>=◌
m >> k = m >>= λ a. k

-- The outcome of an action as a value: the error is looked at, and the caller goes on.
unfoldable pub attempt : {S A : Type 0} → Action S A → Action S (Result DbError A)
attempt m w = (ok (m w).0, (m w).1)

-- A row that has to be there: `Scan` fails without one.
unfoldable pub or_failed : {S A : Type 0} → Option A → Action S A
unfolding pure raise
or_failed none = raise failed
or_failed (some a) = pure a

pub record Table (A : Type 0) : Type 0 where
  pub rows : List A
  pub last_id : ℕ

module _ {A : Type 0} where
  -- `INSERT`: a new row under the next id.
  abbrev pub insert : (ℕ → A) → Table A → Table A
  insert row t = record { rows = t.rows ++ row (suc t.last_id) ∷ []; last_id = suc t.last_id }

  -- The rows for which a condition holds, the first of them, and whether there is one.
  unfoldable pub select : (A → Bool) → List A → List A
  select p [] = []
  select p (x ∷ xs) = if p x then x ∷ select p xs else select p xs

  unfoldable pub first : (A → Bool) → List A → Option A
  first p [] = none
  first p (x ∷ xs) = if p x then some x else first p xs

  unfoldable pub exists : (A → Bool) → List A → Bool
  exists p [] = false
  exists p (x ∷ xs) = if p x then true else exists p xs

  -- `UPDATE … WHERE`
  unfoldable pub update_where : (A → Bool) → (A → A) → List A → List A
  update_where p f [] = []
  update_where p f (x ∷ xs) = (if p x then f x else x) ∷ update_where p f xs

  -- `DELETE … WHERE`
  unfoldable pub delete_where : (A → Bool) → List A → List A
  delete_where p [] = []
  delete_where p (x ∷ xs) = if p x then delete_where p xs else x ∷ delete_where p xs

  -- `ORDER BY`, where `before x y` says that `x` comes before `y` for certain; ties keep their order.
  unfoldable pub insert_row : (A → A → Bool) → A → List A → List A
  insert_row before x [] = x ∷ []
  insert_row before x (y ∷ ys) = if before y x then y ∷ insert_row before x ys else x ∷ y ∷ ys

  unfoldable pub order_by : (A → A → Bool) → List A → List A
  order_by before [] = []
  order_by before (x ∷ xs) = insert_row before x (order_by before xs)

  -- `LIMIT 1`
  abbrev pub head : List A → Option A
  head [] = none
  head (x ∷ xs) = some x

  -- The table after its rows have changed.
  abbrev pub with_rows : List A → Table A → Table A
  with_rows rows t = record { rows = rows; last_id = t.last_id }
