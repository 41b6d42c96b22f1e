-- ===== src/Recurrence/Accepted.antt =====
-- What holds of every rule that `Parse` accepts.
use gamwich.Prelude.{
  ℕ, ◌≤◌, ◌<◌, ◌≡◌, inl, inr, false, Option, none, some, List, [], ◌∷◌, ◌++◌, All, All-append,
  arith, Option-cases,
}
use gamwich.Prelude.Result.{Result-cases, ok}
use gamwich.Text.{Text, split, cut, trim_space}
use gamwich.Recurrence.{Rule}
use gamwich.Recurrence.Rrule.{
  Parsed, day_from_name, parse_days, parse_pair, parse_cut, parse_parts, parse, default_rule,
}

pub record IsAccepted (r : Rule) : Type 0 where
  pub interval_pos : 1 ≤ r.interval
  pub weekdays : All (λ d. d < 7) r.by_day
  pub month_day_in : r.by_month_day ≤ 31

day_from_name-lt-7 : (s : Text) (d : ℕ) → day_from_name s ≡ some d → d < 7
unfolding day_from_name
day_from_name-lt-7 s d e = ground arith

parse_days-lt-7 :
    (days found : List ℕ) (ps : List Text)
    → All (λ d. d < 7) days
    → parse_days days ps ≡ ok found
    → All (λ d. d < 7) found
unfolding parse_days
parse_days-lt-7 days found [] h e = let same : days ≡ found = ground arith in rw (← same) h
parse_days-lt-7 days found (p ∷ ps) h e = elim (Option-cases (day_from_name (trim_space p))) [
  | inl none_found ↦ ground (arith, none_found)
  | inr (d, is_d) ↦
      parse_days-lt-7 (days ++ d ∷ []) found ps
        (All-append (λ d. d < 7) days (d ∷ []) h (day_from_name-lt-7 (trim_space p) d is_d, tt))
        (ground (arith, is_d))
]

parse_pair-IsAccepted :
    (p p' : Parsed) (key val : Text)
    → IsAccepted p.rule
    → parse_pair p key val ≡ ok p'
    → IsAccepted p'.rule
unfolding parse_pair
parse_pair-IsAccepted p p' key val h e =
    ground (arith, parse_days-lt-7 p.rule.by_day p'.rule.by_day (split b',' val) h.weekdays)

parse_parts-IsAccepted :
    (p found : Parsed) (parts : List Text)
    → IsAccepted p.rule
    → parse_parts p parts ≡ ok found
    → IsAccepted found.rule
unfolding parse_parts
parse_parts-IsAccepted p found [] h e = let same : p ≡ found = ground arith in rw (← same) h
parse_parts-IsAccepted p found (part ∷ parts) h e =
    elim (Result-cases (parse_cut p (cut b'=' part))) [
      | inl (x, failed) ↦ ground (arith, failed)
      | inr (p', went) ↦
          parse_parts-IsAccepted p' found parts (cut_accepted (cut b'=' part) p' went)
            (ground (arith, went))
    ]
  where
    cut_accepted :
        (c : Option (Text × Text)) (p' : Parsed) → parse_cut p c ≡ ok p' → IsAccepted p'.rule
    cut_accepted none p' e = cc
    cut_accepted (some (key, val)) p' e = parse_pair-IsAccepted p p' key val h e

-- Every rule that `Parse` accepts has a positive interval, weekdays below 7 and a day of the month
-- of at most 31.
pub parse-IsAccepted : (s : Text) (r : Rule) → parse s ≡ ok r → IsAccepted r
unfolding parse
parse-IsAccepted [] r e = cc
parse-IsAccepted (c ∷ cs) r e =
    let p₀ : Parsed = record { rule = default_rule; has_freq = false } in
    elim (Result-cases (parse_parts p₀ (split b';' (c ∷ cs)))) [
      | inl (x, failed) ↦ ground (arith, failed)
      | inr (p, went) ↦
          let same : p.rule ≡ r = ground (arith, went) in
          rw (← same) (
            parse_parts-IsAccepted p₀ p (split b';' (c ∷ cs))
              (record { interval_pos = omega arith; weekdays = tt; month_day_in = omega arith })
              went)
    ]
