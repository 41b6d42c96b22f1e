-- ===== src/Grocery/Phrases.antt =====
-- The list `substringMatches` of internal/grocery/categorize.go, one list for each of its sections.
use gamwich.Prelude.{List, [], ◌∷◌, ◌++◌}
use gamwich.Text.{codes}
use gamwich.Grocery.{
  Entry, under, bakery, beverages, dairy, frozen, household, meat_seafood, pantry, personal_care,
  produce, snacks,
}

abbrev phrase_meat_seafood : List Entry
phrase_meat_seafood = under meat_seafood (
    codes "chicken breast"
    ∷ codes "chicken thigh"
    ∷ codes "chicken wing"
    ∷ codes "ground beef"
    ∷ codes "ground turkey"
    ∷ codes "deli meat"
    ∷ codes "pork chop"
    ∷ codes "hot dog"
    ∷ [])

abbrev phrase_dairy : List Entry
phrase_dairy = under dairy (
    codes "cream cheese"
    ∷ codes "sour cream"
    ∷ codes "heavy cream"
    ∷ codes "cottage cheese"
    ∷ codes "half and half"
    ∷ codes "greek yogurt"
    ∷ codes "almond milk"
    ∷ codes "oat milk"
    ∷ codes "yogurt"
    ∷ codes "cheese"
    ∷ codes "milk"
    ∷ codes "butter"
    ∷ codes "cream"
    ∷ codes "egg"
    ∷ [])

abbrev phrase_produce : List Entry
phrase_produce = under produce (
    codes "salad mix"
    ∷ codes "baby spinach"
    ∷ codes "green onion"
    ∷ codes "sweet potato"
    ∷ codes "bell pepper"
    ∷ codes "cherry tomato"
    ∷ codes "romaine"
    ∷ codes "arugula"
    ∷ codes "cabbage"
    ∷ codes "cauliflower"
    ∷ codes "squash"
    ∷ codes "melon"
    ∷ codes "berry"
    ∷ codes "berries"
    ∷ codes "fruit"
    ∷ codes "herb"
    ∷ codes "lettuce"
    ∷ codes "spinach"
    ∷ codes "kale"
    ∷ codes "apple"
    ∷ codes "banana"
    ∷ codes "tomato"
    ∷ codes "potato"
    ∷ codes "onion"
    ∷ codes "pepper"
    ∷ codes "carrot"
    ∷ codes "celery"
    ∷ [])

abbrev phrase_bakery : List Entry
phrase_bakery = under bakery (
    codes "sourdough"
    ∷ codes "whole wheat"
    ∷ codes "bread"
    ∷ codes "bagel"
    ∷ codes "tortilla"
    ∷ codes "bun"
    ∷ codes "roll"
    ∷ codes "muffin"
    ∷ codes "croissant"
    ∷ [])

abbrev phrase_pantry : List Entry
phrase_pantry = under pantry (
    codes "peanut butter"
    ∷ codes "olive oil"
    ∷ codes "coconut oil"
    ∷ codes "maple syrup"
    ∷ codes "hot sauce"
    ∷ codes "soy sauce"
    ∷ codes "pasta sauce"
    ∷ codes "tomato sauce"
    ∷ codes "canned"
    ∷ codes "cereal"
    ∷ codes "oatmeal"
    ∷ codes "granola"
    ∷ codes "rice"
    ∷ codes "pasta"
    ∷ codes "noodle"
    ∷ codes "flour"
    ∷ codes "sugar"
    ∷ codes "spice"
    ∷ codes "seasoning"
    ∷ codes "sauce"
    ∷ codes "broth"
    ∷ codes "stock"
    ∷ codes "soup"
    ∷ codes "bean"
    ∷ codes "lentil"
    ∷ [])

abbrev phrase_frozen : List Entry
phrase_frozen = under frozen (codes "frozen" ∷ codes "ice cream" ∷ codes "popsicle" ∷ [])

abbrev phrase_beverages : List Entry
phrase_beverages = under beverages (
    codes "sparkling water"
    ∷ codes "orange juice"
    ∷ codes "apple juice"
    ∷ codes "coffee"
    ∷ codes "tea"
    ∷ codes "juice"
    ∷ codes "soda"
    ∷ codes "water"
    ∷ codes "beer"
    ∷ codes "wine"
    ∷ codes "drink"
    ∷ [])

abbrev phrase_snacks : List Entry
phrase_snacks = under snacks (
    codes "granola bar"
    ∷ codes "trail mix"
    ∷ codes "fruit snack"
    ∷ codes "chip"
    ∷ codes "cracker"
    ∷ codes "cookie"
    ∷ codes "popcorn"
    ∷ codes "pretzel"
    ∷ codes "candy"
    ∷ codes "chocolate"
    ∷ codes "snack"
    ∷ [])

abbrev phrase_household : List Entry
phrase_household = under household (
    codes "paper towel"
    ∷ codes "toilet paper"
    ∷ codes "trash bag"
    ∷ codes "garbage bag"
    ∷ codes "dish soap"
    ∷ codes "laundry"
    ∷ codes "detergent"
    ∷ codes "cleaner"
    ∷ codes "cleaning"
    ∷ codes "sponge"
    ∷ codes "foil"
    ∷ codes "plastic wrap"
    ∷ codes "ziplock"
    ∷ codes "battery"
    ∷ codes "light bulb"
    ∷ [])

abbrev phrase_personal_care : List Entry
phrase_personal_care = under personal_care (
    codes "body wash"
    ∷ codes "shampoo"
    ∷ codes "conditioner"
    ∷ codes "toothpaste"
    ∷ codes "toothbrush"
    ∷ codes "deodorant"
    ∷ codes "lotion"
    ∷ codes "sunscreen"
    ∷ codes "razor"
    ∷ codes "tissue"
    ∷ codes "band-aid"
    ∷ [])

-- `substringMatches`, in its order
unfoldable pub substring_matches : List Entry
substring_matches =
    phrase_meat_seafood ++ phrase_dairy ++ phrase_produce ++ phrase_bakery ++ phrase_pantry
    ++ phrase_frozen ++ phrase_beverages ++ phrase_snacks ++ phrase_household
    ++ phrase_personal_care
