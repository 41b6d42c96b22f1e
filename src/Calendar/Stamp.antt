-- ===== src/Calendar/Stamp.antt =====
-- `time.Parse` and `Time.Format` for the layouts "20060102T150405Z" and "20060102". As in Go, a
-- fraction of a second is read though the layout has none; digits past the ninth are dropped.
use gamwich.Prelude.{
  ℕ, ◌+◌, ◌-◌, ◌*◌, ◌/◌, ◌%◌, Bool, ◌&&◌, ◌||◌, Option, none, some, [], ◌∷◌, ◌++◌, ltb, leb, ◌==◌,
  if◌then◌else◌,
}
use gamwich.Calendar.{Time, Date, date, month_length, make_time, date_of, hour, minute, second}
use gamwich.Text.{Text, is_digit, itoa}

infixl 5 ◌>>=◌
abbrev ◌>>=◌ {ℓ κ} : {A : Type ℓ} {B : Type κ} → Option A → (A → Option B) → Option B
none >>= f = none
some a >>= f = f a

abbrev when {ℓ} : {A : Type ℓ} → Bool → Option A → Option A
when b m = if b then m else none

-- A number of exactly two digits, and the text after it.
unfoldable pub read_two : Text → Option (ℕ × Text)
read_two [] = none
read_two (a ∷ []) = none
read_two (a ∷ b ∷ r) =
    if is_digit a && is_digit b then some ((a - b'0') * 10 + (b - b'0'), r) else none

-- A two-digit number below a limit.
abbrev read_below : ℕ → Text → Option (ℕ × Text)
read_below limit s = do (n, r) ← read_two s; when (ltb n limit) (some (n, r))

unfoldable pub read_date : Text → Option (Date × Text)
read_date s = do
  (century, s₁) ← read_two s
  (years, s₂) ← read_two s₁
  (month, s₃) ← read_two s₂
  (day, r) ← read_two s₃
  let y = century * 100 + years
  when (leb 1 month && leb month 12)
      (when (leb 1 day && leb day (month_length y month)) (some (date y month day, r)))

abbrev skip_byte : ℕ → Text → Option Text
skip_byte c [] = none
skip_byte c (x ∷ xs) = if x == c then some xs else none

-- Digits of a fraction; the first one counts `scale` nanoseconds.
unfoldable pub read_fraction : ℕ → ℕ → Text → ℕ × Text
read_fraction scale acc [] = (acc, [])
read_fraction scale acc (c ∷ cs) =
    let rest = read_fraction (scale / 10) (acc + (c - b'0') * scale) cs in
    if is_digit c then rest else (acc, c ∷ cs)

-- `.` or `,` with a digit behind it starts a fraction.
unfoldable pub read_nanos : Text → ℕ × Text
read_nanos [] = (0, [])
read_nanos (p ∷ []) = (0, p ∷ [])
read_nanos (p ∷ c ∷ cs) =
    if (p == b'.' || p == b',') && is_digit c
    then read_fraction 100000000 0 (c ∷ cs)
    else (0, p ∷ c ∷ cs)

abbrev at_end : Text → Time → Option Time
at_end [] t = some t
at_end (x ∷ xs) t = none

unfoldable pub parse_date_time : Text → Option Time
parse_date_time s = do
  (d, s₁) ← read_date s
  s₂ ← skip_byte b'T' s₁
  (h, s₃) ← read_below 24 s₂
  (mi, s₄) ← read_below 60 s₃
  (sec, s₅) ← read_below 60 s₄
  let (nanos, s₆) = read_nanos s₅
  r ← skip_byte b'Z' s₆
  at_end r (make_time d h mi sec + nanos)

unfoldable pub parse_date : Text → Option Time
parse_date s = do (d, r) ← read_date s; at_end r (make_time d 0 0 0)

abbrev two : ℕ → Text → Text
two n r = (n / 10 + b'0') ∷ (n % 10 + b'0') ∷ r

abbrev four : ℕ → Text → Text
four n r = if ltb n 10000 then two (n / 100) (two (n % 100) r) else itoa n ++ r

-- `t.Format("20060102T150405Z")`
unfoldable pub format_date_time : Time → Text
format_date_time t =
    let d = date_of t in
    four d.year
      (two d.month (two d.day (b'T' ∷ two (hour t) (two (minute t) (two (second t) (b'Z' ∷ []))))))
