-- ===== src/Text/Splitting.antt =====
-- `split` undoes `join`, and `cut` finds the first separator.
use gamwich.Prelude.{ℕ, ◌≡◌, ◌≢◌, refl, ap, ◌∙◌, some, List, [], ◌∷◌, ◌++◌, All, arith}
use gamwich.Text.{Text, split, join, cut}

-- A text without the byte `c`.
abbrev pub Lacks : ℕ → Text → Type 0
Lacks c = All (λ x. x ≢ c)

split-Lacks : (c : ℕ) (p : Text) → Lacks c p → split c p ≡ p ∷ []
unfolding split
split-Lacks c [] h = refl
split-Lacks c (x ∷ p) h = ground (arith, split-Lacks c p h.1)

split-append : (c : ℕ) (p r : Text) → Lacks c p → split c (p ++ c ∷ r) ≡ p ∷ split c r
unfolding split
split-append c [] r h = ground arith
split-append c (x ∷ p) r h = ground (arith, split-append c p r h.1)

pub split-join :
    (c : ℕ) (p : Text) (ps : List Text)
    → All (Lacks c) (p ∷ ps)
    → split c (join c (p ∷ ps)) ≡ p ∷ ps
unfolding join
split-join c p [] h = split-Lacks c p h.0
split-join c p (q ∷ ps) h =
    split-append c p (join c (q ∷ ps)) h.0 ∙ ap (λ r. p ∷ r) (split-join c q ps h.1)

pub cut-append : (c : ℕ) (k v : Text) → Lacks c k → cut c (k ++ c ∷ v) ≡ some (k, v)
unfolding cut
cut-append c [] v h = ground arith
cut-append c (x ∷ k) v h = ground (arith, cut-append c k v h.1)

pub Lacks-append : (c : ℕ) (xs ys : Text) → Lacks c xs → Lacks c ys → Lacks c (xs ++ ys)
Lacks-append c [] ys h k = k
Lacks-append c (x ∷ xs) ys h k = (h.0, Lacks-append c xs ys h.1 k)
