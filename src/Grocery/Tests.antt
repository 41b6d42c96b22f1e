-- ===== src/Grocery/Tests.antt =====
-- Witnesses for the categories of groceries.
use gamwich.Prelude.{◌≡◌, ◌⊎◌, ◌++◌, refl, true, none, [], ◌∷◌}
use gamwich.Text.{Text, codes, trim_space, trim_left, trim_right, contains}
use gamwich.Grocery.{meat_seafood, dairy}
use gamwich.Grocery.Exact.{exact_match}
use gamwich.Grocery.Categorize.{categorize, lookup, to_lower}
use gamwich.Grocery.Casing.{to_upper, categorize-normalised}
use gamwich.Grocery.Order.{categorize-peanut_butter}

abbrev crunchy : Text
crunchy = codes "Crunchy Peanut Butter"

crunchy-contains : contains (to_lower (trim_space crunchy)) (codes "peanut butter") ≡ true
unfolding contains trim_space trim_left trim_right
crunchy-contains = refl

crunchy_not_exact : lookup exact_match (to_lower (trim_space crunchy)) ≡ none
unfolding lookup exact_match trim_space trim_left trim_right
crunchy_not_exact = refl

categorize-peanut_butter_example :
    (categorize crunchy ≡ meat_seafood) ⊎ (categorize crunchy ≡ dairy)
categorize-peanut_butter_example =
    categorize-peanut_butter crunchy crunchy-contains crunchy_not_exact

categorize-normalised_example :
    (categorize (to_upper crunchy) ≡ categorize crunchy)
    × (categorize (b' ' ∷ crunchy) ≡ categorize crunchy)
    × (categorize (crunchy ++ b' ' ∷ []) ≡ categorize crunchy)
categorize-normalised_example = categorize-normalised crunchy b' ' refl
