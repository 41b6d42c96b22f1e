-- ===== src/Calendar/StampLaws.antt =====
-- `parse_date_time` reads what `format_date_time` writes.
use gamwich.Prelude.{ℕ, ◌+◌, ◌/◌, ◌%◌, ◌≤◌, ◌<◌, ◌≡◌, some, [], ◌∷◌, arith}
use gamwich.Calendar.{
  Time, Date, month_length, make_time, date_of, day_of, hour, minute, second, nanos_per_second,
}
use gamwich.Calendar.Civil.{IsValid, month_length_bounds, day_number-date_of_day}
use gamwich.Calendar.Carry.{IsValid-date}
use gamwich.Calendar.Stamp.{read_two, read_date, read_nanos, parse_date_time, format_date_time}
use gamwich.Text.{Text}
use gamwich.Text.Splitting.{Lacks}

-- The times that the layout can write in full.
pub record IsWritable (t : Time) : Type 0 where
  pub year_in : (date_of t).year < 10000
  pub whole : t % nanos_per_second ≡ 0

read_two_lem :
    (n : ℕ) (r : Text) → n < 100 → read_two ((n / 10 + b'0') ∷ (n % 10 + b'0') ∷ r) ≡ some (n, r)
unfolding read_two
read_two_lem n r h = ground arith

read_date_lem :
    (d : Date) (r : Text)
    → IsValid d
    → d.year < 10000
    → month_length d.year d.month ≤ 31
    → read_date (
        (d.year / 100 / 10 + b'0')
        ∷ (d.year / 100 % 10 + b'0')
        ∷ (d.year % 100 / 10 + b'0')
        ∷ (d.year % 100 % 10 + b'0')
        ∷ (d.month / 10 + b'0')
        ∷ (d.month % 10 + b'0')
        ∷ (d.day / 10 + b'0')
        ∷ (d.day % 10 + b'0')
        ∷ r)
      ≡ some (d, r)
unfolding read_date
read_date_lem d r v h k = ground (
  arith,
  read_two_lem (d.year / 100) (
      (d.year % 100 / 10 + b'0')
      ∷ (d.year % 100 % 10 + b'0')
      ∷ (d.month / 10 + b'0')
      ∷ (d.month % 10 + b'0')
      ∷ (d.day / 10 + b'0')
      ∷ (d.day % 10 + b'0')
      ∷ r),
  read_two_lem (d.year % 100) (
      (d.month / 10 + b'0')
      ∷ (d.month % 10 + b'0')
      ∷ (d.day / 10 + b'0')
      ∷ (d.day % 10 + b'0')
      ∷ r),
  read_two_lem d.month ((d.day / 10 + b'0') ∷ (d.day % 10 + b'0') ∷ r),
  read_two_lem d.day r,
)

make_time_self :
    (t : Time) → t % nanos_per_second ≡ 0 → make_time (date_of t) (hour t) (minute t) (second t) ≡ t
unfolding make_time
make_time_self t h = omega (arith, day_number-date_of_day (day_of t))

-- The clock as written, from the seconds, the minutes and the hours on.
abbrev sec_text : Time → Text
sec_text t = (second t / 10 + b'0') ∷ (second t % 10 + b'0') ∷ b'Z' ∷ []

abbrev min_text : Time → Text
min_text t = (minute t / 10 + b'0') ∷ (minute t % 10 + b'0') ∷ sec_text t

abbrev clock_text : Time → Text
clock_text t = (hour t / 10 + b'0') ∷ (hour t % 10 + b'0') ∷ min_text t

clock_bounds : (t : Time) → (hour t < 24) × (minute t < 60) × (second t < 60)
clock_bounds t = omega arith

-- What is written for a time in whole seconds, before the year 10000, is read as that time.
pub parse-format_date_time :
    (t : Time) → IsWritable t → parse_date_time (format_date_time t) ≡ some t
unfolding parse_date_time format_date_time read_nanos
parse-format_date_time t w =
    let d = date_of t in
    let v = IsValid-date t in
    let (h, mi, s) = clock_bounds t in
    ground (
      arith,
      read_date_lem d (b'T' ∷ clock_text t) v w.year_in,
      month_length_bounds d.year d.month,
      read_two_lem (hour t) (min_text t),
      read_two_lem (minute t) (sec_text t),
      read_two_lem (second t) (b'Z' ∷ []),
      make_time_self t w.whole,
      h,
      mi,
      s,
    )

-- Nothing that is written is a semicolon.
pub format_date_time-Lacks : (t : Time) → IsWritable t → Lacks b';' (format_date_time t)
unfolding format_date_time
format_date_time-Lacks t w =
    let d = date_of t in
    let v = IsValid-date t in
    let (h, mi, s) = clock_bounds t in
    ground
      (arith, month_length_bounds d.year d.month, v.day_in.1, v.month_in.1, h, mi, s, w.year_in)
