-- ===== src/Recurrence/Rrule.antt =====
-- internal/recurrence/rrule.go: `Parse` and `Rule.String`, over texts as lists of bytes.
use gamwich.Prelude.{
  ℕ, Bool, true, false, Option, none, some, List, [], ◌∷◌, ◌++◌, map, ltb, ◌==◌, if◌then◌else◌,
}
use gamwich.Prelude.Int.{ℤ, pos, negsuc}
use gamwich.Prelude.Result.{Result, ok, err, ◌>>=◌}
use gamwich.Calendar.{Time}
use gamwich.Calendar.Stamp.{parse_date_time, parse_date, format_date_time}
use gamwich.Text.{Text, codes, text_eq, split, join, cut, trim_space, atoi, itoa}
use gamwich.Recurrence.{Freq, daily, weekly, monthly, yearly, Rule}

pub data ParseError : Type 0 where
  empty_rule invalid_part unknown_frequency invalid_interval unknown_day : ParseError
  invalid_month_day invalid_count invalid_until unsupported_key freq_required : ParseError

unfoldable pub freq_name : Freq → Text
freq_name daily = codes "DAILY"
freq_name weekly = codes "WEEKLY"
freq_name monthly = codes "MONTHLY"
freq_name yearly = codes "YEARLY"

unfoldable pub freq_from_name : Text → Option Freq
freq_from_name s =
    if text_eq s (codes "DAILY")
    then some daily
    else if text_eq s (codes "WEEKLY")
    then some weekly
    else if text_eq s (codes "MONTHLY")
    then some monthly
    else if text_eq s (codes "YEARLY")
    then some yearly
    else none

unfoldable pub day_abbrev : ℕ → Text
day_abbrev d =
    if d == 0
    then codes "SU"
    else if d == 1
    then codes "MO"
    else if d == 2
    then codes "TU"
    else if d == 3
    then codes "WE"
    else if d == 4
    then codes "TH"
    else if d == 5
    then codes "FR"
    else if d == 6
    then codes "SA"
    else []

unfoldable pub day_from_name : Text → Option ℕ
day_from_name s =
    if text_eq s (codes "SU")
    then some 0
    else if text_eq s (codes "MO")
    then some 1
    else if text_eq s (codes "TU")
    then some 2
    else if text_eq s (codes "WE")
    then some 3
    else if text_eq s (codes "TH")
    then some 4
    else if text_eq s (codes "FR")
    then some 5
    else if text_eq s (codes "SA")
    then some 6
    else none

-- The variables of `Parse`.
pub record Parsed : Type 0 where
  pub rule : Rule
  pub has_freq : Bool

abbrev pub or_error {ℓ} : {A : Type ℓ} → ParseError → Option A → Result ParseError A
or_error e none = err e
or_error e (some a) = ok a

-- An `int` from 1 to `max`, or an error; `max` is absent where `Parse` tests no upper bound.
abbrev pub in_range : ParseError → Option ℕ → Option ℤ → Result ParseError ℕ
in_range e max none = err e
in_range e max (some (negsuc n)) = err e
in_range e none (some (pos n)) = if ltb n 1 then err e else ok n
in_range e (some max) (some (pos n)) = if ltb n 1 then err e else if ltb max n then err e else ok n

-- The loop over the days of BYDAY: `r.ByDay` is `days` so far.
unfoldable pub parse_days : List ℕ → List Text → Result ParseError (List ℕ)
parse_days days [] = ok days
parse_days days (p ∷ ps) = elim (day_from_name (trim_space p)) [
  | none ↦ err unknown_day
  | some d ↦ parse_days (days ++ d ∷ []) ps
]

abbrev pub parse_until : Text → Result ParseError Time
parse_until s = elim (parse_date_time s) [
  | some t ↦ ok t
  | none ↦ or_error invalid_until (parse_date s)
]

-- The `switch` of `Parse`.
unfoldable pub parse_pair : Parsed → Text → Text → Result ParseError Parsed
parse_pair p key val =
    if text_eq key (codes "FREQ")
    then (do
      f ← or_error unknown_frequency (freq_from_name val)
      ok (record { rule = record p.rule { freq = f }; has_freq = true }))
    else if text_eq key (codes "INTERVAL")
    then (do
      n ← in_range invalid_interval none (atoi val)
      ok (record p { rule = record p.rule { interval = n } }))
    else if text_eq key (codes "BYDAY")
    then (do
      days ← parse_days p.rule.by_day (split b',' val)
      ok (record p { rule = record p.rule { by_day = days } }))
    else if text_eq key (codes "BYMONTHDAY")
    then (do
      n ← in_range invalid_month_day (some 31) (atoi val)
      ok (record p { rule = record p.rule { by_month_day = n } }))
    else if text_eq key (codes "COUNT")
    then (do
      n ← in_range invalid_count none (atoi val)
      ok (record p { rule = record p.rule { count = n } }))
    else if text_eq key (codes "UNTIL")
    then (do t ← parse_until val; ok (record p { rule = record p.rule { until = some t } }))
    else err unsupported_key

abbrev pub parse_cut : Parsed → Option (Text × Text) → Result ParseError Parsed
parse_cut p none = err invalid_part
parse_cut p (some (key, val)) = parse_pair p key val

-- The loop of `Parse` over the parts.
unfoldable pub parse_parts : Parsed → List Text → Result ParseError Parsed
parse_parts p [] = ok p
parse_parts p (part ∷ parts) = elim (parse_cut p (cut b'=' part)) [
  | ok p' ↦ parse_parts p' parts
  | err e ↦ err e
]

-- `Rule{Interval: 1}`
abbrev pub default_rule : Rule
default_rule = record {
  freq = daily;
  interval = 1;
  by_day = [];
  by_month_day = 0;
  count = 0;
  until = none;
}

abbrev pub finish : Parsed → Result ParseError Rule
finish p = if p.has_freq then ok p.rule else err freq_required

unfoldable pub parse : Text → Result ParseError Rule
parse [] = err empty_rule
parse (c ∷ cs) = do
  p ← parse_parts (record { rule = default_rule; has_freq = false }) (split b';' (c ∷ cs))
  finish p

abbrev pub key_value : Text → Text → Text
key_value key val = key ++ b'=' ∷ val

abbrev pub part_if : Bool → Text → List Text
part_if b part = if b then part ∷ [] else []

abbrev pub until_part : Option Time → List Text
until_part none = []
until_part (some t) = key_value (codes "UNTIL") (format_date_time t) ∷ []

abbrev pub day_part : List ℕ → List Text
day_part [] = []
day_part (d ∷ ds) = key_value (codes "BYDAY") (join b',' (map day_abbrev (d ∷ ds))) ∷ []

-- The parts that `Rule.String` joins.
unfoldable pub rule_parts : Rule → List Text
rule_parts r =
    key_value (codes "FREQ") (freq_name r.freq)
    ∷ (part_if (ltb 1 r.interval) (key_value (codes "INTERVAL") (itoa r.interval))
        ++ (day_part r.by_day
            ++ (part_if (ltb 0 r.by_month_day)
                  (key_value (codes "BYMONTHDAY") (itoa r.by_month_day))
                ++ (part_if (ltb 0 r.count) (key_value (codes "COUNT") (itoa r.count))
                    ++ until_part r.until))))

unfoldable pub to_string : Rule → Text
to_string r = join b';' (rule_parts r)
