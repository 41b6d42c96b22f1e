-- ===== src/Recurrence/Months.antt =====
-- Monthly rules: the day of the month, and when the search for a month ends.
use gamwich.Prelude.{
  ℕ, zero, suc, ◌+◌, ◌-◌, ◌/◌, ◌%◌, ◌≤◌, ◌<◌, ◌≡◌, ◌≢◌, ◌⊎◌, inl, inr, ◌∙◌, ap, refl, true, false,
  Bool, not, none, some, arith, all_below, all_below_sound, ◌||◌, Bool-cases, leb, ◌==◌,
  if◌then◌else◌,
}
use gamwich.Prelude.Int.{pos}
use gamwich.Calendar.{Time, Date, add_date, date_of, month_length, date_of_day}
use gamwich.Calendar.Civil.{IsValid, date_of_day-day_number, month_length_bounds}
use gamwich.Calendar.Carry.{day_number_zero, date_of-add_date, date_of-add_date_over, IsValid-date}
use gamwich.Recurrence.Advance.{days_in_month, skip_months}

-- `daysInMonth` is the length of the month.
pub days_in_month-eq-month_length :
    (y m : ℕ) → 1 ≤ m → m ≤ 12 → days_in_month y m ≡ month_length y m
unfolding days_in_month
days_in_month-eq-month_length y m h k =
    ap (λ n. (date_of_day n).day) (day_number_zero y m h k)
    ∙ ap (λ (t : Date). t.day)
        (date_of_day-day_number y m (month_length y m) (record {
          month_in = (h, k);
          day_in = (ground (arith, month_length_bounds y m), omega arith);
        }))

-- The month that lies `n` months after month `m`.
abbrev month_after : ℕ → ℕ → ℕ
month_after m n = (m + n - 1) % 12 + 1

abbrev is_long : ℕ → Bool
is_long m = not (m == 2 || (m == 4 || (m == 6 || (m == 9 || m == 11))))

-- Whether one of the next `fuel` months, at the distance `n`, has 31 days.
long_ahead : ℕ → ℕ → ℕ → Bool
long_ahead zero m n = false
long_ahead (suc fuel) m n =
    let rest = long_ahead fuel (month_after m n) n in
    if is_long (month_after m n) then true else rest

abbrev entry : ℕ → ℕ → Bool
entry m n = n == 0 || (m == 0 || long_ahead 6 m n)

-- A month has 31 days within six steps, unless the distance is a number of whole years.
long_ahead_table : all_below 13 (λ m. all_below 12 (entry m)) ≡ true
unfolding long_ahead
long_ahead_table = refl

long_ahead_soon : (m n : ℕ) → 1 ≤ m → m ≤ 12 → 1 ≤ n → n < 12 → long_ahead 6 m n ≡ true
long_ahead_soon m n a b c d =
    let row : all_below 12 (entry m) ≡ true =
      all_below_sound 13 (λ m. all_below 12 (entry m)) m long_ahead_table (omega arith) in
    ground (arith, all_below_sound 12 (entry m) n row d)

long_ahead_mod : (fuel m n : ℕ) → 1 ≤ m → long_ahead fuel m (n % 12) ≡ long_ahead fuel m n
unfolding long_ahead
long_ahead_mod zero m n h = refl
long_ahead_mod (suc fuel) m n h =
    let same : month_after m (n % 12) ≡ month_after m n = omega arith in
    rw (same, long_ahead_mod fuel (month_after m n) n (omega arith))

abbrev length_at : Time → ℕ
length_at t = month_length (date_of t).year (date_of t).month

length_at-eq : (t : Time) → days_in_month (date_of t).year (date_of t).month ≡ length_at t
length_at-eq t =
    days_in_month-eq-month_length _ _ (IsValid-date t).month_in.0 (IsValid-date t).month_in.1

-- One step of the search reaches a month of 31 days, or exactly the month `n` months on.
step_months :
    (t n : ℕ)
    → let next = add_date t 0 n (pos 0) in
      (length_at next ≡ 31) ⊎ ((date_of next).month ≡ month_after (date_of t).month n)
step_months t n =
    let d = date_of t in
    let y = d.year + 0 + (d.month + n - 1) / 12 in
    let m = month_after d.month n in
    elim (Bool-cases (leb d.day (month_length y m))) [
      | inl fits ↦ inr (ap (λ (u : Date). u.month) (date_of-add_date t 0 n (ground arith)))
      | inr over ↦
          let (lands, long) = date_of-add_date_over t 0 n (ground arith) in
          inl (ap (λ (u : Date). month_length u.year u.month) lands ∙ long)
    ]

is_long-month_length : (y m : ℕ) → is_long m ≡ true → month_length y m ≡ 31
unfolding month_length
is_long-month_length y m h = ground arith

skip_months-found :
    (fuel n day : ℕ) (t : Time)
    → day ≤ length_at (add_date t 0 n (pos 0))
    → skip_months (suc fuel) n day t ≡ some (add_date t 0 n (pos 0))
unfolding skip_months
skip_months-found fuel n day t h = ground (arith, length_at-eq (add_date t 0 n (pos 0)))

skip_months-on :
    (fuel n day : ℕ) (t : Time)
    → length_at (add_date t 0 n (pos 0)) < day
    → skip_months (suc fuel) n day t ≡ skip_months fuel n day (add_date t 0 n (pos 0))
unfolding skip_months
skip_months-on fuel n day t h = ground (arith, length_at-eq (add_date t 0 n (pos 0)))

long_ahead-on :
    (fuel m n y : ℕ)
    → long_ahead (suc fuel) m n ≡ true
    → month_length y (month_after m n) < 31
    → long_ahead fuel (month_after m n) n ≡ true
unfolding long_ahead
long_ahead-on fuel m n y h short = ground (arith, is_long-month_length y (month_after m n))

-- The search ends if a long month lies ahead.
skip_months_ends :
    (fuel n day : ℕ) (t : Time)
    → day ≤ 31
    → long_ahead fuel (date_of t).month n ≡ true
    → (found : Time) × (skip_months fuel n day t ≡ some found)
skip_months_ends zero n day t h ahead = absurd (unfold long_ahead in cc)
skip_months_ends (suc fuel) n day t h ahead =
    let next = add_date t 0 n (pos 0) in
    elim (Bool-cases (leb day (length_at next))) [
      | inl fits ↦ (next, skip_months-found fuel n day t (ground arith))
      | inr short ↦
          let same : (date_of next).month ≡ month_after (date_of t).month n =
            ground (arith, step_months t n) in
          let shorter : month_length (date_of next).year (month_after (date_of t).month n) < 31 =
            ground (arith, ap (month_length (date_of next).year) same) in
          let ahead' = long_ahead-on fuel (date_of t).month n (date_of next).year ahead shorter in
          rw (skip_months-on fuel n day t (ground arith))
            (skip_months_ends fuel n day next h (rw same ahead'))
    ]

-- Six rounds are enough for the loop of `advanceMonthly`, whatever the day, unless the interval is
-- a number of whole years.
pub skip_months_total :
    (n day : ℕ) (t : Time)
    → day ≤ 31
    → n % 12 ≢ 0
    → (found : Time) × (skip_months 6 n day t ≡ some found)
skip_months_total n day t h whole =
    let valid : IsValid (date_of t) = IsValid-date t in
    skip_months_ends 6 n day t h (
      rw (← long_ahead_mod 6 (date_of t).month n valid.month_in.0) (
        long_ahead_soon (date_of t).month (n % 12) valid.month_in.0 valid.month_in.1 (ground arith)
          (omega arith)))

-- The loop of `advanceMonthly` never ends if the interval is a number of whole years and the month
-- of `t` never has the day that is asked for: no fuel is enough.
pub skip_months_diverges :
    (fuel n day : ℕ) (t : Time)
    → n % 12 ≡ 0
    → ((y : ℕ) → month_length y (date_of t).month < day)
    → ((y : ℕ) → (date_of t).day ≤ month_length y (date_of t).month)
    → skip_months fuel n day t ≡ none
skip_months_diverges zero n day t whole never fits = unfold skip_months in refl
skip_months_diverges (suc fuel) n day t whole never fits =
    let next = add_date t 0 n (pos 0) in
    let m = (date_of t).month in
    let same : month_after m n ≡ m =
      omega (arith, (IsValid-date t).month_in.0, (IsValid-date t).month_in.1) in
    let room : (y : ℕ) → (date_of t).day ≤ month_length y (month_after m n) =
      λ y. rw same (fits y) in
    let lands = date_of-add_date t 0 n (room _) in
    let month_is : (date_of next).month ≡ m = ap (λ (u : Date). u.month) lands ∙ same in
    let day_is : (date_of next).day ≡ (date_of t).day = ap (λ (u : Date). u.day) lands in
    skip_months-on fuel n day t (rw month_is (never _))
    ∙ skip_months_diverges fuel n day next whole (λ y. rw month_is (never y))
        (λ y. rw (month_is, day_is) (fits y))

length_of_30 : (y m : ℕ) → is_long m ≡ false → 1 ≤ m → m ≢ 2 → month_length y m ≡ 30
unfolding month_length
length_of_30 y m h a b = ground arith
