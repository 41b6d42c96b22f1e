-- ===== src/Sql/Faults.antt =====
-- The two outcomes of a statement, and the one it has where no fault is to come.
use gamwich.Prelude.{◌≡◌, ◌⊎◌, inl, inr, Bool, List, Bool-cases}
use gamwich.Prelude.Result.{Result, ok, err}
use gamwich.Sql.{DbError, failed, World, Action, next_fault, statement, query, exec, ◌>>=◌, ◌>>◌}

abbrev pub later : {S : Type 0} → World S → List Bool
later w = (next_fault w.1).1

module _ {S : Type 0} where
  pub statement-cases :
      {A : Type 0} (f : S → Result DbError A × S) (w : World S)
      → (statement f w ≡ (err failed, (w.0, later w)))
        ⊎ (statement f w ≡ ((f w.0).0, ((f w.0).1, later w)))
  unfolding statement
  statement-cases f w = elim (Bool-cases (next_fault w.1).0) [
    | inl p ↦ inl (rw p)
    | inr p ↦ inr (rw p)
  ]

  pub query-cases :
      {A : Type 0} (f : S → A) (w : World S)
      → (query f w ≡ (err failed, (w.0, later w))) ⊎ (query f w ≡ (ok (f w.0), (w.0, later w)))
  unfolding query
  query-cases f w = statement-cases (λ s. (ok (f s), s)) w

  pub exec-cases :
      (f : S → S) (w : World S)
      → (exec f w ≡ (err failed, (w.0, later w))) ⊎ (exec f w ≡ (ok tt, (f w.0, later w)))
  unfolding exec
  exec-cases f w = statement-cases (λ s. (ok tt, f s)) w

  -- What starts with a query and has no error goes on with the query's answer.
  pub query-go :
      {A B : Type 0} (f : S → A) (k : A → Action S B) (w : World S) (b : B)
      → ((query f >>= k) w).0 ≡ ok b
      → (query f >>= k) w ≡ k (f w.0) (w.0, later w)
  unfolding ◌>>=◌
  query-go {B = B} f k w b e = elim (query-cases f w) [
    | inl x ↦ let e' : ◌≡◌ {A = Result DbError B} (err failed) (ok b) = rw x at e in cc
    | inr x ↦ rw x
  ]

  pub exec-go :
      {B : Type 0} (f : S → S) (k : Action S B) (w : World S) (b : B)
      → ((exec f >> k) w).0 ≡ ok b
      → (exec f >> k) w ≡ k (f w.0, later w)
  unfolding ◌>>◌ ◌>>=◌
  exec-go {B = B} f k w b e = elim (exec-cases f w) [
    | inl x ↦ let e' : ◌≡◌ {A = Result DbError B} (err failed) (ok b) = rw x at e in cc
    | inr x ↦ rw x
  ]
