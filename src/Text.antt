-- ===== src/Text.antt =====
-- Go's packages `strings` and `strconv`, as far as the program uses them, over texts as lists of
-- bytes. `trim_space` knows the ASCII spaces alone.
pub mod Splitting
pub mod Decimal
pub mod Equality
use Prim.Native.Char.{code}
use Prim.Native.String.{String}
use gamwich.Prelude.{
  ℕ, zero, suc, ◌+◌, ◌-◌, ◌*◌, ◌/◌, ◌%◌, Bool, true, false, ◌&&◌, ◌||◌, Option, none, some, List,
  [], ◌∷◌, ◌++◌, ltb, leb, ◌==◌, if◌then◌else◌,
}
use gamwich.Prelude.Int.{ℤ, pos, negsuc}

abbrev pub Text : Type 0
Text = List ℕ

-- The bytes of an ASCII literal.
abbrev pub codes : String → Text
codes String.[] = []
codes (String.◌∷◌ c s) = code c ∷ codes s

-- `s == ""`
abbrev pub is_empty : Text → Bool
is_empty [] = true
is_empty (c ∷ cs) = false

-- `a == b`
abbrev pub text_eq : Text → Text → Bool
text_eq [] [] = true
text_eq [] (y ∷ ys) = false
text_eq (x ∷ xs) [] = false
text_eq (x ∷ xs) (y ∷ ys) = (x == y) && text_eq xs ys

-- `a < b` for texts, byte by byte
abbrev pub text_lt : Text → Text → Bool
text_lt [] [] = false
text_lt [] (y ∷ ys) = true
text_lt (x ∷ xs) [] = false
text_lt (x ∷ xs) (y ∷ ys) = ltb x y || (x == y && text_lt xs ys)

abbrev pub push : ℕ → List Text → List Text
push c [] = (c ∷ []) ∷ []
push c (p ∷ ps) = (c ∷ p) ∷ ps

-- `strings.Split(s, c)` for one byte `c`
unfoldable pub split : ℕ → Text → List Text
split c [] = [] ∷ []
split c (x ∷ xs) = let rest = split c xs in if x == c then [] ∷ rest else push x rest

-- `strings.Join(parts, c)` for one byte `c`
unfoldable pub join : ℕ → List Text → Text
join c [] = []
join c (p ∷ []) = p
join c (p ∷ q ∷ ps) = p ++ c ∷ join c (q ∷ ps)

abbrev on_key : ℕ → Option (Text × Text) → Option (Text × Text)
on_key x none = none
on_key x (some (k, v)) = some (x ∷ k, v)

-- `strings.SplitN(s, c, 2)`, when it gives two parts
unfoldable pub cut : ℕ → Text → Option (Text × Text)
cut c [] = none
cut c (x ∷ xs) = let rest = cut c xs in if x == c then some ([], xs) else on_key x rest

abbrev pub is_space : ℕ → Bool
is_space c = c == 32 || (leb 9 c && leb c 13)

unfoldable pub trim_left : Text → Text
trim_left [] = []
trim_left (x ∷ xs) = let rest = trim_left xs in if is_space x then rest else x ∷ xs

-- A text without its last byte `x`, if that is a space and nothing but spaces follows.
abbrev trim_last : ℕ → Text → Text
trim_last x [] = if is_space x then [] else x ∷ []
trim_last x (y ∷ ys) = x ∷ y ∷ ys

unfoldable pub trim_right : Text → Text
trim_right [] = []
trim_right (x ∷ xs) = trim_last x (trim_right xs)

-- `strings.TrimSpace`
unfoldable pub trim_space : Text → Text
trim_space s = trim_right (trim_left s)

abbrev pub is_digit : ℕ → Bool
is_digit c = leb b'0' c && leb c b'9'

-- The number that the digits write after `acc`.
unfoldable pub read_digits : ℕ → Text → Option ℕ
read_digits acc [] = some acc
read_digits acc (c ∷ cs) =
    let rest = read_digits (acc * 10 + (c - b'0')) cs in if is_digit c then rest else none

abbrev pub max_int : ℕ
max_int = 9223372036854775807

-- A sign and digits as an `int`, if it fits.
abbrev signed : Bool → Option ℕ → Option ℤ
signed minus none = none
signed true (some zero) = some (pos 0)
signed true (some (suc n)) = if leb n max_int then some (negsuc n) else none
signed false (some n) = if leb n max_int then some (pos n) else none

abbrev read_some_digits : Text → Option ℕ
read_some_digits [] = none
read_some_digits (c ∷ cs) = read_digits 0 (c ∷ cs)

-- `strconv.Atoi`; `none` stands for an error.
unfoldable pub atoi : Text → Option ℤ
atoi [] = none
atoi (c ∷ cs) =
    if c == b'-'
    then signed true (read_some_digits cs)
    else if c == b'+'
    then signed false (read_some_digits cs)
    else signed false (read_digits 0 (c ∷ cs))

unfoldable pub digits : ℕ → ℕ → Text
digits zero n = []
digits (suc fuel) n =
    let front = digits fuel (n / 10) in
    if ltb n 10 then (n + b'0') ∷ [] else front ++ (n % 10 + b'0') ∷ []

-- `%d` of a number
unfoldable pub itoa : ℕ → Text
itoa n = digits (n + 1) n

-- `strings.HasPrefix(s, p)`, the prefix first
abbrev pub is_prefix : Text → Text → Bool
is_prefix [] s = true
is_prefix (p ∷ ps) [] = false
is_prefix (p ∷ ps) (x ∷ xs) = p == x && is_prefix ps xs

-- `strings.Contains(s, keyword)`
unfoldable pub contains : Text → Text → Bool
contains [] keyword = is_prefix keyword []
contains (x ∷ xs) keyword = is_prefix keyword (x ∷ xs) || contains xs keyword
