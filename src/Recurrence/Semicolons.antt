-- ===== src/Recurrence/Semicolons.antt =====
-- No part that `Rule.String` writes holds a semicolon.
use gamwich.Prelude.{
  ℕ, ◌≢◌, inr, Bool, true, false, Option, none, some, List, [], ◌∷◌, ◌++◌, map, All, All-append,
  arith, ltb,
}
use gamwich.Calendar.{Time}
use gamwich.Calendar.StampLaws.{format_date_time-Lacks}
use gamwich.Text.{Text, codes, join, itoa}
use gamwich.Text.Splitting.{Lacks, Lacks-append}
use gamwich.Text.Decimal.{itoa-AreDigits, AreDigits-Lacks}
use gamwich.Recurrence.{Freq, daily, weekly, monthly, yearly, Rule}
use gamwich.Recurrence.Rrule.{
  freq_name, day_abbrev, key_value, part_if, until_part, day_part, rule_parts,
}
use gamwich.Recurrence.Pairs.{IsWritableUntil, IsExpressible, map-Lacks}

itoa-Lacks : (n : ℕ) → Lacks b';' (itoa n)
itoa-Lacks n = AreDigits-Lacks b';' (itoa n) (inr (omega arith)) (itoa-AreDigits n)

freq_name-Lacks : (f : Freq) → Lacks b';' (freq_name f)
unfolding freq_name
freq_name-Lacks daily = omega arith
freq_name-Lacks weekly = omega arith
freq_name-Lacks monthly = omega arith
freq_name-Lacks yearly = omega arith

key_value-Lacks :
    (key val : Text) → Lacks b';' key → Lacks b';' val → Lacks b';' (key_value key val)
key_value-Lacks key val h k = Lacks-append b';' key (b'=' ∷ val) h (omega arith, k)

part_if-Lacks : (b : Bool) (part : Text) → Lacks b';' part → All (Lacks b';') (part_if b part)
part_if-Lacks true part h = (h, tt)
part_if-Lacks false part h = tt

join-Lacks : (c : ℕ) (ps : List Text) → All (Lacks b';') ps → c ≢ b';' → Lacks b';' (join c ps)
unfolding join
join-Lacks c [] h ne = tt
join-Lacks c (p ∷ []) h ne = h.0
join-Lacks c (p ∷ q ∷ ps) h ne =
    Lacks-append b';' p (c ∷ join c (q ∷ ps)) h.0 (ne, join-Lacks c (q ∷ ps) h.1 ne)

day_part-Lacks : (ds : List ℕ) → All (Lacks b';') (day_part ds)
day_part-Lacks [] = tt
day_part-Lacks (d ∷ ds) = (
  key_value-Lacks (codes "BYDAY") _ (omega arith) (
      join-Lacks b',' (map day_abbrev (d ∷ ds)) (map-Lacks b';' (d ∷ ds) (omega arith))
        (omega arith)),
  tt,
)

until_part-Lacks : (u : Option Time) → IsWritableUntil u → All (Lacks b';') (until_part u)
until_part-Lacks none w = tt
until_part-Lacks (some t) w =
    (key_value-Lacks (codes "UNTIL") _ (omega arith) (format_date_time-Lacks t w), tt)

-- A part that a number fills.
abbrev number_part : Bool → Text → ℕ → List Text
number_part b key n = part_if b (key_value key (itoa n))

number_part-Lacks :
    (b : Bool) (key : Text) (n : ℕ) → Lacks b';' key → All (Lacks b';') (number_part b key n)
number_part-Lacks b key n h =
    part_if-Lacks b (key_value key (itoa n)) (key_value-Lacks key (itoa n) h (itoa-Lacks n))

append-Lacks :
    (ps qs : List Text) → All (Lacks b';') ps → All (Lacks b';') qs → All (Lacks b';') (ps ++ qs)
append-Lacks = All-append (Lacks b';')

pub rule_parts-Lacks : (r : Rule) → IsExpressible r → All (Lacks b';') (rule_parts r)
unfolding rule_parts
rule_parts-Lacks r h =
    let interval = number_part (ltb 1 r.interval) (codes "INTERVAL") r.interval in
    let month_day = number_part (ltb 0 r.by_month_day) (codes "BYMONTHDAY") r.by_month_day in
    let count = number_part (ltb 0 r.count) (codes "COUNT") r.count in
    let until = until_part r.until in
    (
      key_value-Lacks (codes "FREQ") (freq_name r.freq) (omega arith) (freq_name-Lacks r.freq),
      append-Lacks interval (day_part r.by_day ++ (month_day ++ (count ++ until)))
          (number_part-Lacks (ltb 1 r.interval) (codes "INTERVAL") r.interval (omega arith))
          (append-Lacks (day_part r.by_day) (month_day ++ (count ++ until))
            (day_part-Lacks r.by_day)
            (append-Lacks month_day (count ++ until)
              (number_part-Lacks (ltb 0 r.by_month_day) (codes "BYMONTHDAY") r.by_month_day
                (omega arith))
              (append-Lacks count until
                (number_part-Lacks (ltb 0 r.count) (codes "COUNT") r.count (omega arith))
                (until_part-Lacks r.until h.until_in)))),
    )
