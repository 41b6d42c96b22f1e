-- ===== src/Text/Decimal.antt =====
-- `atoi` reads what `itoa` writes.
use native.Mathlib.Numerals.{add-one}
use gamwich.Prelude.{
  ℕ, zero, suc, ◌+◌, ◌-◌, ◌*◌, ◌/◌, ◌%◌, ◌≤◌, ◌<◌, ◌≡◌, ◌≢◌, ◌⊎◌, refl, ap, ◌∙◌, some, [], ◌∷◌,
  ◌++◌, All, All-append, arith, ltb, Bool-cases, inl, inr,
}
use gamwich.Prelude.Int.{pos}
use gamwich.Text.{Text, read_digits, max_int, atoi, digits, itoa}
use gamwich.Text.Splitting.{Lacks}

abbrev pub AreDigits : Text → Type 0
AreDigits = All (λ c. (b'0' ≤ c) × (c ≤ b'9'))

read_digits-last :
    (acc : ℕ) (xs : Text) (n d : ℕ)
    → read_digits acc xs ≡ some n
    → d < 10
    → read_digits acc (xs ++ (d + b'0') ∷ []) ≡ some (n * 10 + d)
unfolding read_digits
read_digits-last acc [] n d e h = ground arith
read_digits-last acc (c ∷ xs) n d e h =
    ground (arith, read_digits-last (acc * 10 + (c - b'0')) xs n d)

read_digits-digits : (fuel n : ℕ) → n < fuel → read_digits 0 (digits fuel n) ≡ some n
unfolding digits
read_digits-digits zero n h = absurd (omega arith)
read_digits-digits (suc fuel) n h = elim (Bool-cases (ltb n 10)) [
  | inl small ↦ rw small (unfold read_digits in ground arith)
  | inr big ↦ rw big (
      read_digits-last 0 (digits fuel (n / 10)) (n / 10) (n % 10)
        (read_digits-digits fuel (n / 10) (ground arith)) (omega arith)
      ∙ ap some (omega arith))
]

digits-AreDigits : (fuel n : ℕ) → AreDigits (digits fuel n)
unfolding digits
digits-AreDigits zero n = tt
digits-AreDigits (suc fuel) n = elim (Bool-cases (ltb n 10)) [
  | inl small ↦ rw small (ground arith)
  | inr big ↦ rw big (
      All-append (λ c. (b'0' ≤ c) × (c ≤ b'9')) (digits fuel (n / 10)) ((n % 10 + b'0') ∷ [])
        (digits-AreDigits fuel (n / 10)) (omega arith))
]

append-ne-nil : (xs : Text) (y : ℕ) → xs ++ y ∷ [] ≢ []
append-ne-nil [] y e = cc
append-ne-nil (x ∷ xs) y e = cc

digits-ne-nil : (fuel n : ℕ) → digits (suc fuel) n ≢ []
unfolding digits
digits-ne-nil fuel n e = ground (arith, append-ne-nil (digits fuel (n / 10)) (n % 10 + b'0'))

pub itoa-AreDigits : (n : ℕ) → AreDigits (itoa n)
unfolding itoa
itoa-AreDigits n = digits-AreDigits (n + 1) n

pub AreDigits-Lacks : (c : ℕ) (xs : Text) → (c < b'0') ⊎ (b'9' < c) → AreDigits xs → Lacks c xs
AreDigits-Lacks c [] h ds = tt
AreDigits-Lacks c (x ∷ xs) h ds = (λ e. omega (arith, h, e), AreDigits-Lacks c xs h ds.1)

atoi-digits :
    (xs : Text) (n : ℕ)
    → AreDigits xs
    → xs ≢ []
    → n ≤ max_int
    → read_digits 0 xs ≡ some n
    → atoi xs ≡ some (pos n)
unfolding atoi
atoi-digits [] n ds ne fits e = absurd (ne refl)
atoi-digits (c ∷ xs) n ds ne fits e = ground arith

pub atoi-itoa : (n : ℕ) → n ≤ max_int → atoi (itoa n) ≡ some (pos n)
unfolding itoa
atoi-itoa n h = rw (add-one n) (
    atoi-digits (digits (suc n) n) n (digits-AreDigits (suc n) n) (digits-ne-nil n n) h
      (read_digits-digits (suc n) n (omega arith)))
