-- ===== src/Text/Equality.antt =====
-- The test whether two texts are equal.
use gamwich.Prelude.{◌≡◌, refl, true, [], ◌∷◌, arith}
use gamwich.Text.{Text, text_eq}

pub text_eq_refl : (s : Text) → text_eq s s ≡ true
text_eq_refl [] = refl
text_eq_refl (x ∷ xs) = ground (arith, text_eq_refl xs)

pub text_eq_sound : (s t : Text) → text_eq s t ≡ true → s ≡ t
text_eq_sound [] [] h = refl
text_eq_sound [] (y ∷ ys) h = absurd cc
text_eq_sound (x ∷ xs) [] h = absurd cc
text_eq_sound (x ∷ xs) (y ∷ ys) h = ground (arith, text_eq_sound xs ys)
