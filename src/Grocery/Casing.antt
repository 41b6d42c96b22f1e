-- ===== src/Grocery/Casing.antt =====
-- `Categorize` reads an item's name whatever its letters' case and the spaces around it.
use gamwich.Prelude.{
  ℕ, ◌-◌, ◌≡◌, refl, true, ◌&&◌, [], ◌∷◌, ◌++◌, map, arith, leb, if◌then◌else◌, Bool-cases, inl,
  inr,
}
use gamwich.Text.{Text, is_space, trim_space, trim_left, trim_right}
use gamwich.Grocery.Categorize.{lower_byte, to_lower, categorize}

abbrev pub upper_byte : ℕ → ℕ
upper_byte c = if leb b'a' c && leb c b'z' then c - 32 else c

abbrev pub to_upper : Text → Text
to_upper = map upper_byte

is_space-upper_byte : (c : ℕ) → is_space (upper_byte c) ≡ is_space c
is_space-upper_byte c = ground arith

trim_left-to_upper : (s : Text) → trim_left (to_upper s) ≡ to_upper (trim_left s)
unfolding trim_left
trim_left-to_upper [] = refl
trim_left-to_upper (c ∷ cs) = elim (Bool-cases (is_space c)) [
  | inl p ↦ ground (arith, p, is_space-upper_byte c, trim_left-to_upper cs)
  | inr p ↦ ground (arith, p, is_space-upper_byte c, trim_left-to_upper cs)
]

trim_right-to_upper : (s : Text) → trim_right (to_upper s) ≡ to_upper (trim_right s)
unfolding trim_right
trim_right-to_upper [] = refl
trim_right-to_upper (c ∷ cs) = ground (arith, is_space-upper_byte c, trim_right-to_upper cs)

lower-upper : (c : ℕ) → lower_byte (upper_byte c) ≡ lower_byte c
lower-upper c = ground arith

to_lower-to_upper : (s : Text) → to_lower (to_upper s) ≡ to_lower s
to_lower-to_upper [] = refl
to_lower-to_upper (c ∷ cs) = rw (lower-upper c, to_lower-to_upper cs) refl

trim_right-space : (s : Text) (c : ℕ) → is_space c ≡ true → trim_right (s ++ c ∷ []) ≡ trim_right s
unfolding trim_right
trim_right-space [] c h = rw h refl
trim_right-space (x ∷ xs) c h = rw (trim_right-space xs c h) refl

trim_left-last :
    (s : Text) (c : ℕ)
    → is_space c ≡ true
    → trim_right (trim_left (s ++ c ∷ [])) ≡ trim_right (trim_left s)
unfolding trim_left trim_right
trim_left-last [] c h = rw h refl
trim_left-last (x ∷ xs) c h = elim (Bool-cases (is_space x)) [
  | inl p ↦ ground (arith, p, trim_left-last xs c h)
  | inr p ↦ ground (arith, p, trim_right-space xs c h)
]

-- `Categorize` gives a name in upper case, and one with a further space before or behind it, the
-- category of the name itself.
pub categorize-normalised :
    (name : Text) (c : ℕ)
    → is_space c ≡ true
    → (categorize (to_upper name) ≡ categorize name)
      × (categorize (c ∷ name) ≡ categorize name)
      × (categorize (name ++ c ∷ []) ≡ categorize name)
unfolding categorize trim_space trim_left
categorize-normalised name c h = (
  rw
      (
        trim_left-to_upper name,
        trim_right-to_upper (trim_left name),
        to_lower-to_upper (trim_right (trim_left name)),
      )
      refl,
  rw (spaced name c h) refl,
  rw (trim_left-last name c h) refl,
)
  where
    spaced : (name : Text) (c : ℕ) → is_space c ≡ true → trim_left (c ∷ name) ≡ trim_left name
    spaced name c h = ground (arith, h)
