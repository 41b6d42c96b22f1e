-- ===== src/Prelude/Int.antt =====
-- Signed integers over the native numbers, under the library's names.
use gamwich.Prelude.{ℕ, suc, ◌+◌, ◌-◌, ◌≡◌, refl, Bool, true, false, ltb, leb, if◌then◌else◌, arith}

-- `negsuc n` is -(n + 1).
pub data ℤ : Type 0 where
  pos : ℕ → ℤ
  negsuc : ℕ → ℤ

-- A number moved by an integer. It stops at 0.
abbrev pub shift : ℕ → ℤ → ℕ
shift n (pos k) = n + k
shift n (negsuc k) = n - suc k

-- `a - b`, which may be negative.
abbrev pub difference : ℕ → ℕ → ℤ
difference a b = if leb b a then pos (a - b) else negsuc (b - a - 1)

infixl 6 ◌+ℤ◌ ◌-ℤ◌
abbrev pub ◌+ℤ◌ : ℤ → ℤ → ℤ
pos a +ℤ pos b = pos (a + b)
pos a +ℤ negsuc b = difference a (suc b)
negsuc a +ℤ pos b = difference b (suc a)
negsuc a +ℤ negsuc b = negsuc (suc (a + b))

abbrev pub negate : ℤ → ℤ
negate (pos a) = difference 0 a
negate (negsuc a) = pos (suc a)

abbrev pub ◌-ℤ◌ : ℤ → ℤ → ℤ
a -ℤ b = a +ℤ negate b

-- `a < b`
abbrev pub int_ltb : ℤ → ℤ → Bool
int_ltb (pos a) (pos b) = ltb a b
int_ltb (pos a) (negsuc b) = false
int_ltb (negsuc a) (pos b) = true
int_ltb (negsuc a) (negsuc b) = ltb b a

-- Twice what is taken away, at once.
pub sub-add : (a b c : ℤ) → a -ℤ (b +ℤ c) ≡ (a -ℤ b) -ℤ c
sub-add (pos a) (pos b) (pos c) = ground arith
sub-add (pos a) (pos b) (negsuc c) = ground arith
sub-add (pos a) (negsuc b) (pos c) = ground arith
sub-add (pos a) (negsuc b) (negsuc c) = ground arith
sub-add (negsuc a) (pos b) (pos c) = ground arith
sub-add (negsuc a) (pos b) (negsuc c) = ground arith
sub-add (negsuc a) (negsuc b) (pos c) = ground arith
sub-add (negsuc a) (negsuc b) (negsuc c) = ground arith

pub int_ltb-sub : (a b : ℤ) → int_ltb a b ≡ false → int_ltb (a -ℤ b) (pos 0) ≡ false
int_ltb-sub (pos a) (pos b) h = ground arith
int_ltb-sub (pos a) (negsuc b) h = ground arith
int_ltb-sub (negsuc a) (pos b) h = ground arith
int_ltb-sub (negsuc a) (negsuc b) h = ground arith

pub int_ltb_trans : (a b c : ℤ) → int_ltb a b ≡ false → int_ltb b c ≡ false → int_ltb a c ≡ false
int_ltb_trans (pos a) (pos b) (pos c) h k = ground arith
int_ltb_trans (pos a) b (negsuc c) h k = refl
int_ltb_trans (pos a) (negsuc b) (pos c) h k = ground arith
int_ltb_trans (negsuc a) (pos b) c h k = ground arith
int_ltb_trans (negsuc a) (negsuc b) (pos c) h k = ground arith
int_ltb_trans (negsuc a) (negsuc b) (negsuc c) h k = ground arith

pub int_ltb-asym : (a b : ℤ) → int_ltb a b ≡ true → int_ltb b a ≡ false
int_ltb-asym (pos a) (pos b) h = ground arith
int_ltb-asym (pos a) (negsuc b) h = ground arith
int_ltb-asym (negsuc a) (pos b) h = refl
int_ltb-asym (negsuc a) (negsuc b) h = ground arith
