-- ===== src/Sql/Yields.antt =====
-- What holds of the value of every action that ends without an error.
use mathlib.Core.Path.{subst}
use gamwich.Prelude.{◌≡◌, ap, inl, inr}
use gamwich.Prelude.Result.{Result, ok, err, Result-cases}
use gamwich.Sql.{DbError, World, Action, pure, otherwise, or_value, ◌>>=◌, ◌>>◌}

elim_ok :
    {A : Type 0} (P : A → Type 0) (a b : A) → ◌≡◌ {A = Result DbError A} (ok a) (ok b) → P a → P b
elim_ok P a b e h = subst P (ap (or_value a) e) h

module _ {S A : Type 0} (P : A → Type 0) where
  pub record Yields (m : Action S A) : Type 0 where
    pub yields : (w : World S) (a : A) → (m w).0 ≡ ok a → P a

  pub Yields-pure : (a : A) → P a → Yields (pure a)
  unfolding pure
  Yields-pure a h = record { yields = λ w b e. elim_ok P a b e h }

  pub Yields->>= :
      {B : Type 0} (m : Action S B) (k : B → Action S A)
      → ((b : B) → Yields (k b))
      → Yields (m >>= k)
  unfolding ◌>>=◌
  Yields->>= m k h = record {
    yields = λ w a e. elim (Result-cases (m w).0) [
      | inl (x, p) ↦ let e' : ◌≡◌ {A = Result DbError A} (err x) (ok a) = rw p at e in cc
      | inr (b, p) ↦ (h b).yields (m w).1 a (rw p at e)
    ];
  }

  pub Yields->> : {B : Type 0} (m : Action S B) (n : Action S A) → Yields n → Yields (m >> n)
  unfolding ◌>>◌
  Yields->> m n h = Yields->>= m (λ b. n) (λ b. h)

  -- The value that replaces an error counts as well.
  pub Yields-otherwise :
      (d : A) (m : Action S A)
      → P d
      → Yields m
      → (w : World S) → (a : A) × ((otherwise d m w).0 ≡ ok a) × P a
  unfolding otherwise
  Yields-otherwise d m h k w = elim (Result-cases (m w).0) [
    | inl (x, p) ↦ (d, rw p, h)
    | inr (a, p) ↦ (a, rw p, k.yields w a p)
  ]
