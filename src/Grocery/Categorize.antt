-- ===== src/Grocery/Categorize.antt =====
-- `Categorize` of internal/grocery/categorize.go. `to_lower` knows the ASCII letters alone.
use gamwich.Prelude.{ℕ, ◌+◌, ◌&&◌, Option, none, some, List, [], ◌∷◌, map, leb, if◌then◌else◌}
use gamwich.Text.{Text, text_eq, trim_space, contains}
use gamwich.Grocery.{Entry, other}
use gamwich.Grocery.Exact.{exact_match}
use gamwich.Grocery.Phrases.{substring_matches}

abbrev pub lower_byte : ℕ → ℕ
lower_byte c = if leb b'A' c && leb c b'Z' then c + 32 else c

-- `strings.ToLower`
abbrev pub to_lower : Text → Text
to_lower = map lower_byte

-- `exactMatch[name]`
unfoldable pub lookup : List Entry → Text → Option Text
lookup [] name = none
lookup (e ∷ es) name = if text_eq e.keyword name then some e.category else lookup es name

-- The loop over `substringMatches`.
unfoldable pub first_within : List Entry → Text → Option Text
first_within [] name = none
first_within (e ∷ es) name =
    if contains name e.keyword then some e.category else first_within es name

abbrev or_other : Option Text → Text
or_other none = other
or_other (some category) = category

-- The phases of `Categorize`, on a name in lower case without outer spaces.
abbrev pub categorize_name : Text → Text
categorize_name [] = other
categorize_name (c ∷ cs) = elim (lookup exact_match (c ∷ cs)) [
  | some category ↦ category
  | none ↦ or_other (first_within substring_matches (c ∷ cs))
]

unfoldable pub categorize : Text → Text
categorize item_name = categorize_name (to_lower (trim_space item_name))
