-- ===== src/Grocery/Order.antt =====
-- Which entries of the two tables decide.
use gamwich.Prelude.{
  ◌≡◌, ◌⊎◌, inl, inr, refl, Bool, true, ◌&&◌, ◌||◌, none, some, List, [], ◌∷◌, ◌++◌, take, drop,
  arith, Bool-cases,
}
use gamwich.Text.{Text, codes, text_eq, trim_space, is_prefix, contains}
use gamwich.Text.Equality.{text_eq_sound}
use gamwich.Grocery.{Entry, dairy, meat_seafood}
use gamwich.Grocery.Exact.{exact_match}
use gamwich.Grocery.Phrases.{substring_matches}
use gamwich.Grocery.Categorize.{lookup, first_within, categorize, categorize_name, to_lower}

abbrev all_of : (Entry → Bool) → List Entry → Bool
all_of p [] = true
all_of p (e ∷ es) = p e && all_of p es

is_prefix_trans :
    (j k s : Text) → is_prefix j k ≡ true → is_prefix k s ≡ true → is_prefix j s ≡ true
is_prefix_trans [] k s h e = refl
is_prefix_trans (c ∷ j) [] s h e = absurd cc
is_prefix_trans (c ∷ j) (d ∷ k) [] h e = absurd cc
is_prefix_trans (c ∷ j) (d ∷ k) (x ∷ xs) h e = ground (arith, is_prefix_trans j k xs)

contains-prefix : (k s j : Text) → is_prefix k s ≡ true → contains k j ≡ true → contains s j ≡ true
unfolding contains
contains-prefix [] s (c ∷ j) e h = absurd cc
contains-prefix [] [] [] e h = refl
contains-prefix [] (x ∷ xs) [] e h = refl
contains-prefix (c ∷ k) [] j e h = absurd cc
contains-prefix (c ∷ k) (x ∷ xs) j e h = elim (Bool-cases (is_prefix j (c ∷ k))) [
  | inl p ↦ rw (is_prefix_trans j (c ∷ k) (x ∷ xs) p e) refl
  | inr p ↦ ground (arith, p, contains-prefix k xs j)
]

-- Containing is transitive.
contains_trans : (s k j : Text) → contains s k ≡ true → contains k j ≡ true → contains s j ≡ true
unfolding contains
contains_trans [] k j e h = contains-prefix k [] j e h
contains_trans (x ∷ xs) k j e h = elim (Bool-cases (is_prefix k (x ∷ xs))) [
  | inl p ↦ contains-prefix k (x ∷ xs) j p h
  | inr p ↦ ground (arith, p, contains_trans xs k j)
]

-- An entry that is contained ends the search with it or with an entry before it.
first_within-stops :
    (p : Entry → Bool) (es rest : List Entry) (e : Entry) (name : Text)
    → all_of p es ≡ true
    → p e ≡ true
    → contains name e.keyword ≡ true
    → (f : Entry) × (first_within (es ++ e ∷ rest) name ≡ some f.category) × (p f ≡ true)
unfolding first_within
first_within-stops p [] rest e name h k c = (e, rw c refl, k)
first_within-stops p (d ∷ es) rest e name h k c = elim (Bool-cases (contains name d.keyword)) [
  | inl q ↦ (d, rw q refl, ground arith)
  | inr q ↦
      let (f, is_f, ok) = first_within-stops p es rest e name (ground arith) k c in
      (f, rw q is_f, ok)
]

-- The entries down to the 20th are meat and dairy.
abbrev early : Entry → Bool
early e = text_eq e.category meat_seafood || text_eq e.category dairy

abbrev butter : Entry
butter = record { keyword = codes "butter"; category = dairy }

butter_at : substring_matches ≡ take 19 substring_matches ++ butter ∷ drop 20 substring_matches
unfolding substring_matches
butter_at = refl

before_butter : all_of early (take 19 substring_matches) ≡ true
unfolding substring_matches
before_butter = refl

early-category : (e : Entry) → early e ≡ true → (e.category ≡ meat_seafood) ⊎ (e.category ≡ dairy)
early-category e h = elim (Bool-cases (text_eq e.category meat_seafood)) [
  | inl p ↦ inl (text_eq_sound e.category meat_seafood p)
  | inr p ↦ inr (text_eq_sound e.category dairy (ground (arith, p)))
]

named_peanut_butter :
    (name : Text)
    → contains name (codes "peanut butter") ≡ true
    → lookup exact_match name ≡ none
    → (categorize_name name ≡ meat_seafood) ⊎ (categorize_name name ≡ dairy)
unfolding contains substring_matches
named_peanut_butter [] h none_exact = absurd cc
named_peanut_butter (c ∷ cs) h none_exact =
    let (f, is_f, ok) =
      first_within-stops early (take 19 substring_matches) (drop 20 substring_matches) butter
        (c ∷ cs) before_butter refl
        (contains_trans (c ∷ cs) (codes "peanut butter") (codes "butter") h refl) in
    let found : first_within substring_matches (c ∷ cs) ≡ some f.category = rw butter_at is_f in
    let filed : categorize_name (c ∷ cs) ≡ f.category = ground (arith, none_exact, found) in
    rw filed (early-category f ok)

-- A name that contains "peanut butter" but is no keyword of the exact table is filed as meat or
-- dairy: the entry "butter" stands before the entry "peanut butter" of the pantry.
pub categorize-peanut_butter :
    (item : Text)
    → contains (to_lower (trim_space item)) (codes "peanut butter") ≡ true
    → lookup exact_match (to_lower (trim_space item)) ≡ none
    → (categorize item ≡ meat_seafood) ⊎ (categorize item ≡ dairy)
unfolding categorize
categorize-peanut_butter item h none_exact =
    named_peanut_butter (to_lower (trim_space item)) h none_exact
