-- ===== src/Grocery/Exact.antt =====
-- The map `exactMatch` of internal/grocery/categorize.go, one list for each of its sections.
use gamwich.Prelude.{List, [], ◌∷◌, ◌++◌}
use gamwich.Text.{codes}
use gamwich.Grocery.{
  Entry, under, bakery, beverages, dairy, frozen, household, meat_seafood, pantry, personal_care,
  produce, snacks,
}

abbrev exact_produce : List Entry
exact_produce = under produce (
    codes "apple"
    ∷ codes "apples"
    ∷ codes "banana"
    ∷ codes "bananas"
    ∷ codes "orange"
    ∷ codes "oranges"
    ∷ codes "lemon"
    ∷ codes "lemons"
    ∷ codes "lime"
    ∷ codes "limes"
    ∷ codes "avocado"
    ∷ codes "avocados"
    ∷ codes "tomato"
    ∷ codes "tomatoes"
    ∷ codes "potato"
    ∷ codes "potatoes"
    ∷ codes "onion"
    ∷ codes "onions"
    ∷ codes "garlic"
    ∷ codes "lettuce"
    ∷ codes "spinach"
    ∷ codes "kale"
    ∷ codes "broccoli"
    ∷ codes "carrots"
    ∷ codes "celery"
    ∷ codes "cucumber"
    ∷ codes "cucumbers"
    ∷ codes "peppers"
    ∷ codes "mushrooms"
    ∷ codes "corn"
    ∷ codes "grapes"
    ∷ codes "strawberries"
    ∷ codes "blueberries"
    ∷ codes "raspberries"
    ∷ codes "watermelon"
    ∷ codes "pineapple"
    ∷ codes "mango"
    ∷ codes "peach"
    ∷ codes "peaches"
    ∷ codes "pear"
    ∷ codes "pears"
    ∷ codes "cilantro"
    ∷ codes "basil"
    ∷ codes "parsley"
    ∷ codes "ginger"
    ∷ (codes "jalape" ++ 195 ∷ 177 ∷ codes "o")
    ∷ codes "zucchini"
    ∷ codes "asparagus"
    ∷ codes "green beans"
    ∷ [])

abbrev exact_dairy : List Entry
exact_dairy = under dairy (
    codes "milk"
    ∷ codes "eggs"
    ∷ codes "butter"
    ∷ codes "cheese"
    ∷ codes "yogurt"
    ∷ codes "cream cheese"
    ∷ codes "sour cream"
    ∷ codes "heavy cream"
    ∷ codes "half and half"
    ∷ codes "cottage cheese"
    ∷ [])

abbrev exact_meat_seafood : List Entry
exact_meat_seafood = under meat_seafood (
    codes "chicken"
    ∷ codes "beef"
    ∷ codes "pork"
    ∷ codes "turkey"
    ∷ codes "bacon"
    ∷ codes "sausage"
    ∷ codes "ham"
    ∷ codes "steak"
    ∷ codes "salmon"
    ∷ codes "shrimp"
    ∷ codes "tuna"
    ∷ codes "fish"
    ∷ codes "ground beef"
    ∷ codes "ground turkey"
    ∷ codes "hot dogs"
    ∷ codes "deli meat"
    ∷ codes "lamb"
    ∷ codes "crab"
    ∷ codes "lobster"
    ∷ codes "tilapia"
    ∷ [])

abbrev exact_bakery : List Entry
exact_bakery = under bakery (
    codes "bread"
    ∷ codes "bagels"
    ∷ codes "tortillas"
    ∷ codes "rolls"
    ∷ codes "buns"
    ∷ codes "muffins"
    ∷ codes "croissants"
    ∷ codes "pita"
    ∷ [])

abbrev exact_pantry : List Entry
exact_pantry = under pantry (
    codes "rice"
    ∷ codes "pasta"
    ∷ codes "flour"
    ∷ codes "sugar"
    ∷ codes "salt"
    ∷ codes "pepper"
    ∷ codes "oil"
    ∷ codes "olive oil"
    ∷ codes "vinegar"
    ∷ codes "soy sauce"
    ∷ codes "ketchup"
    ∷ codes "mustard"
    ∷ codes "mayonnaise"
    ∷ codes "honey"
    ∷ codes "peanut butter"
    ∷ codes "jelly"
    ∷ codes "jam"
    ∷ codes "cereal"
    ∷ codes "oatmeal"
    ∷ codes "canned beans"
    ∷ codes "canned tomatoes"
    ∷ codes "soup"
    ∷ codes "broth"
    ∷ codes "beans"
    ∷ codes "lentils"
    ∷ codes "nuts"
    ∷ codes "almonds"
    ∷ codes "spaghetti"
    ∷ codes "noodles"
    ∷ codes "maple syrup"
    ∷ codes "hot sauce"
    ∷ codes "salsa"
    ∷ [])

abbrev exact_frozen : List Entry
exact_frozen = under frozen (
    codes "ice cream"
    ∷ codes "frozen pizza"
    ∷ codes "frozen veggies"
    ∷ codes "frozen fruit"
    ∷ codes "frozen waffles"
    ∷ codes "popsicles"
    ∷ [])

abbrev exact_beverages : List Entry
exact_beverages = under beverages (
    codes "water"
    ∷ codes "juice"
    ∷ codes "coffee"
    ∷ codes "tea"
    ∷ codes "soda"
    ∷ codes "beer"
    ∷ codes "wine"
    ∷ codes "kombucha"
    ∷ codes "lemonade"
    ∷ codes "sparkling water"
    ∷ [])

abbrev exact_snacks : List Entry
exact_snacks = under snacks (
    codes "chips"
    ∷ codes "crackers"
    ∷ codes "cookies"
    ∷ codes "popcorn"
    ∷ codes "pretzels"
    ∷ codes "granola bars"
    ∷ codes "trail mix"
    ∷ codes "candy"
    ∷ codes "chocolate"
    ∷ codes "fruit snacks"
    ∷ [])

abbrev exact_household : List Entry
exact_household = under household (
    codes "paper towels"
    ∷ codes "toilet paper"
    ∷ codes "trash bags"
    ∷ codes "dish soap"
    ∷ codes "laundry detergent"
    ∷ codes "sponges"
    ∷ codes "aluminum foil"
    ∷ codes "plastic wrap"
    ∷ codes "zip bags"
    ∷ codes "ziplock bags"
    ∷ codes "light bulbs"
    ∷ codes "batteries"
    ∷ codes "napkins"
    ∷ codes "cleaning spray"
    ∷ codes "bleach"
    ∷ [])

abbrev exact_personal_care : List Entry
exact_personal_care = under personal_care (
    codes "shampoo"
    ∷ codes "conditioner"
    ∷ codes "soap"
    ∷ codes "body wash"
    ∷ codes "toothpaste"
    ∷ codes "toothbrush"
    ∷ codes "deodorant"
    ∷ codes "lotion"
    ∷ codes "sunscreen"
    ∷ codes "floss"
    ∷ codes "razors"
    ∷ codes "tissues"
    ∷ codes "band-aids"
    ∷ [])

-- `exactMatch`
unfoldable pub exact_match : List Entry
exact_match =
    exact_produce ++ exact_dairy ++ exact_meat_seafood ++ exact_bakery ++ exact_pantry
    ++ exact_frozen ++ exact_beverages ++ exact_snacks ++ exact_household ++ exact_personal_care
