-- ===== src/Grocery.antt =====
-- internal/grocery/categorize.go: the entries of its two tables and the names of its categories.
pub mod Exact
pub mod Phrases
pub mod Categorize
pub mod Casing
pub mod Order
pub mod Tests
use gamwich.Prelude.{List, map}
use gamwich.Text.{Text, codes}

-- A keyword and its category, as in `substringEntry`; an item of the map `exactMatch` as well.
pub record Entry : Type 0 where
  pub keyword : Text
  pub category : Text

abbrev pub under : Text → List Text → List Entry
under category = map (λ (k : Text). record { keyword = k; category = category })

abbrev pub produce : Text
produce = codes "Produce"

abbrev pub dairy : Text
dairy = codes "Dairy"

abbrev pub meat_seafood : Text
meat_seafood = codes "Meat & Seafood"

abbrev pub bakery : Text
bakery = codes "Bakery"

abbrev pub pantry : Text
pantry = codes "Pantry"

abbrev pub frozen : Text
frozen = codes "Frozen"

abbrev pub beverages : Text
beverages = codes "Beverages"

abbrev pub snacks : Text
snacks = codes "Snacks"

abbrev pub household : Text
household = codes "Household"

abbrev pub personal_care : Text
personal_care = codes "Personal Care"

abbrev pub other : Text
other = codes "Other"
