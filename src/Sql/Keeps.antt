-- ===== src/Sql/Keeps.antt =====
-- What every action of a database keeps, whichever of its statements fail.
use gamwich.Prelude.{Option, none, some, inl, inr, Bool-cases}
use gamwich.Prelude.Result.{Result, ok, err, Result-cases}
use gamwich.Sql.{
  DbError, failed, World, Action, next_fault, pure, raise, statement, query, exec, otherwise,
  transaction, attempt, go_on, or_failed, ◌>>=◌, ◌>>◌,
}

module _ {S : Type 0} (P : S → Type 0) where
  pub record Keeps {A : Type 0} (m : Action S A) : Type 0 where
    pub keeps : (w : World S) → P w.0 → P (m w).1.0

  module _ {A : Type 0} where
    pub Keeps-pure : (a : A) → Keeps (pure {S = S} a)
    unfolding pure
    Keeps-pure a = record { keeps = λ w h. h }

    pub Keeps-raise : (e : DbError) → Keeps (raise {S = S} {A = A} e)
    unfolding raise
    Keeps-raise e = record { keeps = λ w h. h }

    pub Keeps-statement :
        (f : S → Result DbError A × S) → ((s : S) → P s → P (f s).1) → Keeps (statement f)
    unfolding statement
    Keeps-statement f k = record {
      keeps =
          λ w h. elim (Bool-cases (next_fault w.1).0) [ inl p ↦ rw p h | inr p ↦ rw p (k w.0 h) ];
    }

    pub Keeps-query : (f : S → A) → Keeps (query f)
    unfolding query
    Keeps-query f = Keeps-statement (λ s. (ok (f s), s)) (λ s h. h)

    pub Keeps-otherwise : (a : A) (m : Action S A) → Keeps m → Keeps (otherwise a m)
    unfolding otherwise
    Keeps-otherwise a m k = record { keeps = λ w h. k.keeps w h }

    pub Keeps-transaction : (m : Action S A) → Keeps m → Keeps (transaction m)
    unfolding transaction
    Keeps-transaction m k = record {
      keeps = λ w h. elim (Result-cases (m w).0) [
        | inl (e, p) ↦ rw p h
        | inr (x, p) ↦ rw p (k.keeps w h)
      ];
    }

    pub Keeps-attempt : (m : Action S A) → Keeps m → Keeps (attempt m)
    unfolding attempt
    Keeps-attempt m k = record { keeps = λ w h. k.keeps w h }

    pub Keeps-or_failed : (o : Option A) → Keeps (or_failed {S = S} o)
    unfolding or_failed
    Keeps-or_failed none = Keeps-raise failed
    Keeps-or_failed (some a) = Keeps-pure a

  pub Keeps-exec : (f : S → S) → ((s : S) → P s → P (f s)) → Keeps (exec f)
  unfolding exec
  Keeps-exec f k = Keeps-statement (λ s. (ok tt, f s)) k

  module _ {A B : Type 0} where
    pub Keeps-go_on :
        (r : Result DbError A) (f : A → Action S B) → ((a : A) → Keeps (f a)) → Keeps (go_on r f)
    Keeps-go_on (ok a) f k = record { keeps = λ w h. (k a).keeps w h }
    Keeps-go_on (err e) f k = record { keeps = λ w h. h }

    pub Keeps->>= :
        (m : Action S A) (f : A → Action S B) → Keeps m → ((a : A) → Keeps (f a)) → Keeps (m >>= f)
    unfolding ◌>>=◌
    Keeps->>= m f k l = record {
      keeps = λ w h. elim (Result-cases (m w).0) [
        | inl (e, p) ↦ rw p (k.keeps w h)
        | inr (x, p) ↦ rw p ((l x).keeps (m w).1 (k.keeps w h))
      ];
    }

    pub Keeps->> : (m : Action S A) (n : Action S B) → Keeps m → Keeps n → Keeps (m >> n)
    unfolding ◌>>◌
    Keeps->> m n k l = Keeps->>= m (λ a. n) k (λ a. l)
