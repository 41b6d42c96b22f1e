-- ===== src/Recurrence/RoundTrip.antt =====
-- `Parse` reads back what `Rule.String` writes.
use gamwich.Prelude.{
  ℕ, ◌≤◌, ◌<◌, ◌≡◌, ◌≢◌, inl, inr, ◌∙◌, refl, ap, true, false, Option, none, some, List, [], ◌∷◌,
  ◌++◌, All, arith, ltb, Bool-cases,
}
use gamwich.Prelude.Result.{ok, ◌>>=◌}
use gamwich.Calendar.{Time}
use gamwich.Text.{Text, codes, split, join, max_int, itoa}
use gamwich.Text.Splitting.{split-join}
use gamwich.Recurrence.{Rule}
use gamwich.Recurrence.Rrule.{
  Parsed, freq_name, parse_parts, parse, finish, default_rule, key_value, part_if, until_part,
  day_part, rule_parts, to_string,
}
use gamwich.Recurrence.Semicolons.{rule_parts-Lacks}
use gamwich.Recurrence.Pairs.{
  IsWritableUntil, IsExpressible, parse_parts-pair, pair_freq, pair_interval, pair_month_day,
  pair_count, pair_days, pair_until, with_freq, with_interval, with_days, with_month_day,
  with_count, with_until,
}

-- Each optional part, written or not, sets its field.
opt_interval :
    (p : Parsed) (n : ℕ) (rest : List Text)
    → p.rule.interval ≡ 1
    → (1 ≤ n) × (n ≤ max_int)
    → parse_parts p (part_if (ltb 1 n) (key_value (codes "INTERVAL") (itoa n)) ++ rest)
      ≡ parse_parts (with_interval n p) rest
opt_interval p n rest e h = elim (Bool-cases (ltb 1 n)) [
  | inl long ↦ rw long (
      parse_parts-pair p (with_interval n p) (codes "INTERVAL") (itoa n) rest (omega arith)
        (pair_interval p n h.0 h.1))
  | inr plain ↦
      let same : p ≡ with_interval n p = ground arith in
      rw plain (ap (λ q. parse_parts q rest) same)
]

opt_month_day :
    (p : Parsed) (n : ℕ) (rest : List Text)
    → p.rule.by_month_day ≡ 0
    → n ≤ 31
    → parse_parts p (part_if (ltb 0 n) (key_value (codes "BYMONTHDAY") (itoa n)) ++ rest)
      ≡ parse_parts (with_month_day n p) rest
opt_month_day p n rest e h = elim (Bool-cases (ltb 0 n)) [
  | inl given ↦ rw given (
      parse_parts-pair p (with_month_day n p) (codes "BYMONTHDAY") (itoa n) rest (omega arith)
        (pair_month_day p n (ground arith) h))
  | inr plain ↦
      let same : p ≡ with_month_day n p = ground arith in
      rw plain (ap (λ q. parse_parts q rest) same)
]

opt_count :
    (p : Parsed) (n : ℕ) (rest : List Text)
    → p.rule.count ≡ 0
    → n ≤ max_int
    → parse_parts p (part_if (ltb 0 n) (key_value (codes "COUNT") (itoa n)) ++ rest)
      ≡ parse_parts (with_count n p) rest
opt_count p n rest e h = elim (Bool-cases (ltb 0 n)) [
  | inl given ↦ rw given (
      parse_parts-pair p (with_count n p) (codes "COUNT") (itoa n) rest (omega arith)
        (pair_count p n (ground arith) h))
  | inr plain ↦
      let same : p ≡ with_count n p = ground arith in rw plain (ap (λ q. parse_parts q rest) same)
]

opt_days :
    (p : Parsed) (ds : List ℕ) (rest : List Text)
    → p.rule.by_day ≡ []
    → All (λ d. d < 7) ds
    → parse_parts p (day_part ds ++ rest) ≡ parse_parts (with_days ds p) rest
opt_days p [] rest e h =
    let same : p ≡ with_days [] p = ground arith in ap (λ q. parse_parts q rest) same
opt_days p (d ∷ ds) rest e h =
    parse_parts-pair p (with_days (d ∷ ds) p) (codes "BYDAY") _ rest (omega arith)
      (pair_days p d ds e h)

opt_until :
    (p : Parsed) (u : Option Time)
    → p.rule.until ≡ none
    → IsWritableUntil u
    → parse_parts p (until_part u) ≡ ok (with_until u p)
unfolding parse_parts
opt_until p none e w = ground arith
opt_until p (some t) e w =
    parse_parts-pair p (with_until (some t) p) (codes "UNTIL") _ [] (omega arith) (pair_until p t w)

-- The loop over the parts ends with the rule.
parse_parts-rule_parts :
    (r : Rule)
    → IsExpressible r
    → parse_parts (record { rule = default_rule; has_freq = false }) (rule_parts r)
      ≡ ok (record { rule = r; has_freq = true })
unfolding rule_parts
parse_parts-rule_parts r h =
    let p₀ : Parsed = record { rule = default_rule; has_freq = false } in
    let p₁ = with_freq r.freq p₀ in
    let p₂ = with_interval r.interval p₁ in
    let p₃ = with_days r.by_day p₂ in
    let p₄ = with_month_day r.by_month_day p₃ in
    let p₅ = with_count r.count p₄ in
    parse_parts-pair p₀ p₁ (codes "FREQ") (freq_name r.freq) _ (omega arith) (pair_freq p₀ r.freq)
    ∙ opt_interval p₁ r.interval _ refl h.interval_in
    ∙ opt_days p₂ r.by_day _ refl h.weekdays
    ∙ opt_month_day p₃ r.by_month_day _ refl h.month_day_in
    ∙ opt_count p₄ r.count _ refl h.count_in
    ∙ opt_until p₅ r.until refl h.until_in

parse-text :
    (s : Text)
    → s ≢ []
    → parse s
      ≡ (parse_parts (record { rule = default_rule; has_freq = false }) (split b';' s) >>= finish)
unfolding parse
parse-text [] ne = absurd (ne refl)
parse-text (c ∷ cs) ne = refl

join-ne-nil : (c x : ℕ) (p : Text) (ps : List Text) → join c ((x ∷ p) ∷ ps) ≢ []
unfolding join
join-ne-nil c x p [] e = cc
join-ne-nil c x p (q ∷ ps) e = cc

-- For a rule that a text can express, `Parse` returns the rule of which `String` wrote the text.
pub parse-to_string : (r : Rule) → IsExpressible r → parse (to_string r) ≡ ok r
unfolding to_string rule_parts
parse-to_string r h =
    parse-text (to_string r) (join-ne-nil b';' b'F' _ _)
    ∙ rw (split-join b';' _ _ (rule_parts-Lacks r h)) (rw (parse_parts-rule_parts r h))
