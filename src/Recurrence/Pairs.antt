-- ===== src/Recurrence/Pairs.antt =====
-- `Parse` on one part of the text, `KEY=value`, as `Rule.String` writes it.
use mathlib.Core.List.{append-nil, append_assoc}
use gamwich.Prelude.{
  ℕ, zero, suc, ◌≤◌, ◌<◌, ◌≡◌, ◌∙◌, refl, ap, true, Option, none, some, List, [], ◌∷◌, ◌++◌, map,
  All, arith,
}
use gamwich.Prelude.Result.{ok}
use gamwich.Calendar.{Time}
use gamwich.Calendar.Stamp.{format_date_time}
use gamwich.Calendar.StampLaws.{IsWritable, parse-format_date_time}
use gamwich.Text.{Text, codes, join, trim_space, trim_left, trim_right, max_int, itoa}
use gamwich.Text.Splitting.{Lacks, split-join, cut-append}
use gamwich.Text.Decimal.{atoi-itoa}
use gamwich.Recurrence.{Freq, daily, weekly, monthly, yearly, Rule}
use gamwich.Recurrence.Rrule.{
  Parsed, freq_name, freq_from_name, day_abbrev, day_from_name, parse_days, parse_pair, parse_parts,
}

abbrev pub IsWritableUntil : Option Time → Type 0
IsWritableUntil none = Unit {0}
IsWritableUntil (some t) = IsWritable t

-- The rules that a text can express: the numbers in the ranges of `Parse`, weekdays below 7, and an
-- UNTIL in whole seconds before the year 10000.
pub record IsExpressible (r : Rule) : Type 0 where
  pub interval_in : (1 ≤ r.interval) × (r.interval ≤ max_int)
  pub weekdays : All (λ d. d < 7) r.by_day
  pub month_day_in : r.by_month_day ≤ 31
  pub count_in : r.count ≤ max_int
  pub until_in : IsWritableUntil r.until

day_from_name-day_abbrev : (d : ℕ) → d < 7 → day_from_name (trim_space (day_abbrev d)) ≡ some d
unfolding day_from_name day_abbrev trim_space trim_left trim_right
day_from_name-day_abbrev zero h = refl
day_from_name-day_abbrev (suc zero) h = refl
day_from_name-day_abbrev (suc (suc zero)) h = refl
day_from_name-day_abbrev (suc (suc (suc zero))) h = refl
day_from_name-day_abbrev (suc (suc (suc (suc zero)))) h = refl
day_from_name-day_abbrev (suc (suc (suc (suc (suc zero))))) h = refl
day_from_name-day_abbrev (suc (suc (suc (suc (suc (suc zero)))))) h = refl
day_from_name-day_abbrev (suc (suc (suc (suc (suc (suc (suc d))))))) h = absurd (omega arith)

day_abbrev-Lacks : (c d : ℕ) → c < 65 → Lacks c (day_abbrev d)
unfolding day_abbrev
day_abbrev-Lacks c d h = ground arith

parse_days-map :
    (days ds : List ℕ) → All (λ d. d < 7) ds → parse_days days (map day_abbrev ds) ≡ ok (days ++ ds)
unfolding parse_days
parse_days-map days [] h = rw append-nil
parse_days-map days (d ∷ ds) h =
    rw (day_from_name-day_abbrev d h.0, parse_days)
      (parse_days-map (days ++ d ∷ []) ds h.1 ∙ ap ok (append_assoc days (d ∷ []) ds))

pub map-Lacks : (c : ℕ) (ds : List ℕ) → c < 65 → All (Lacks c) (map day_abbrev ds)
map-Lacks c [] h = tt
map-Lacks c (d ∷ ds) h = (day_abbrev-Lacks c d h, map-Lacks c ds h)

-- One part of the text, with a key that has no `=`.
pub parse_parts-pair :
    (p p' : Parsed) (key val : Text) (rest : List Text)
    → Lacks b'=' key
    → parse_pair p key val ≡ ok p'
    → parse_parts p ((key ++ b'=' ∷ val) ∷ rest) ≡ parse_parts p' rest
unfolding parse_parts
parse_parts-pair p p' key val rest h e = ground (arith, cut-append b'=' key val h, e)

abbrev pub with_freq : Freq → Parsed → Parsed
with_freq f p = record { rule = record p.rule { freq = f }; has_freq = true }

abbrev pub with_interval : ℕ → Parsed → Parsed
with_interval n p = record p { rule = record p.rule { interval = n } }

abbrev pub with_days : List ℕ → Parsed → Parsed
with_days ds p = record p { rule = record p.rule { by_day = ds } }

abbrev pub with_month_day : ℕ → Parsed → Parsed
with_month_day n p = record p { rule = record p.rule { by_month_day = n } }

abbrev pub with_count : ℕ → Parsed → Parsed
with_count n p = record p { rule = record p.rule { count = n } }

abbrev pub with_until : Option Time → Parsed → Parsed
with_until u p = record p { rule = record p.rule { until = u } }

pub pair_freq :
    (p : Parsed) (f : Freq) → parse_pair p (codes "FREQ") (freq_name f) ≡ ok (with_freq f p)
unfolding parse_pair freq_name freq_from_name
pair_freq p daily = refl
pair_freq p weekly = refl
pair_freq p monthly = refl
pair_freq p yearly = refl

pub pair_interval :
    (p : Parsed) (n : ℕ)
    → 1 ≤ n
    → n ≤ max_int
    → parse_pair p (codes "INTERVAL") (itoa n) ≡ ok (with_interval n p)
unfolding parse_pair
pair_interval p n h k = rw (atoi-itoa n k) (ground arith)

pub pair_month_day :
    (p : Parsed) (n : ℕ)
    → 1 ≤ n
    → n ≤ 31
    → parse_pair p (codes "BYMONTHDAY") (itoa n) ≡ ok (with_month_day n p)
unfolding parse_pair
pair_month_day p n h k = rw (atoi-itoa n (omega arith)) (ground arith)

pub pair_count :
    (p : Parsed) (n : ℕ)
    → 1 ≤ n
    → n ≤ max_int
    → parse_pair p (codes "COUNT") (itoa n) ≡ ok (with_count n p)
unfolding parse_pair
pair_count p n h k = rw (atoi-itoa n k) (ground arith)

pub pair_days :
    (p : Parsed) (d : ℕ) (ds : List ℕ)
    → p.rule.by_day ≡ []
    → All (λ d. d < 7) (d ∷ ds)
    → parse_pair p (codes "BYDAY") (join b',' (map day_abbrev (d ∷ ds))) ≡ ok (with_days (d ∷ ds) p)
unfolding parse_pair
pair_days p d ds e h = rw (
  split-join b',' (day_abbrev d) (map day_abbrev ds) (map-Lacks b',' (d ∷ ds) (omega arith)),
  e,
  parse_days-map [] (d ∷ ds) h,
)

pub pair_until :
    (p : Parsed) (t : Time)
    → IsWritable t
    → parse_pair p (codes "UNTIL") (format_date_time t) ≡ ok (with_until (some t) p)
unfolding parse_pair
pair_until p t w = ground (arith, parse-format_date_time t w)
