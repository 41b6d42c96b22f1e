-- ===== src/Recurrence/Expand.antt =====
-- internal/recurrence/expand.go: `Expand`.
use gamwich.Prelude.{
  ℕ, zero, suc, ◌+◌, Bool, false, ◌&&◌, ◌||◌, Option, none, some, List, [], ◌∷◌, ◌++◌, ltb, ◌==◌,
  if◌then◌else◌,
}
use gamwich.Prelude.Int.{ℤ}
use gamwich.Calendar.{Time, sub, add, zero_time}
use gamwich.Recurrence.{Rule, Occurrence, Iterator}
use gamwich.Recurrence.Advance.{new_iterator, next, max_iterations}

-- `rule.Until != nil && t.After(*rule.Until)`
abbrev pub is_past : Option Time → Time → Bool
is_past none t = false
is_past (some until) t = ltb until t

-- The conditions on which the loop stops at the occurrence `t`, the `n`-th of the series.
unfoldable pub stops : Rule → Time → Time → ℕ → Bool
stops rule range_end t n =
    t == zero_time
    || (is_past rule.until t
        || ((ltb range_end t || t == range_end) || (ltb 0 rule.count && ltb rule.count n)))

abbrev pub occurrence : ℤ → Time → Occurrence
occurrence duration t = record { start = t; end = add t duration }

-- The occurrence overlaps the range.
unfoldable pub overlaps : Time → Time → Occurrence → Bool
overlaps range_start range_end o = ltb o.start range_end && ltb range_start o.end

module _ (fuel : ℕ) (rule : Rule) (duration : ℤ) (range_start range_end : Time) where
  -- The `for` loop, at most `rounds` times: `count` occurrences are done, `results` are found.
  unfoldable pub expand_loop : ℕ → Iterator → ℕ → List Occurrence → Option (List Occurrence)
  expand_loop zero it count results = none
  expand_loop (suc rounds) it count results = elim (next fuel it) [
    | none ↦ none
    | some (t, it') ↦
        let o = occurrence duration t in
        let rest =
          expand_loop rounds it' (count + 1)
            (if overlaps range_start range_end o then results ++ o ∷ [] else results) in
        if stops rule range_end t (count + 1) then some results else rest
  ]

-- One round more than the iterator's limit: the last one gets the zero time.
abbrev pub max_rounds : ℕ
max_rounds = max_iterations + 1

unfoldable pub expand : ℕ → Rule → Time → Time → Time → Time → Option (List Occurrence)
expand fuel rule event_start event_end range_start range_end =
    expand_loop fuel rule (sub event_end event_start) range_start range_end max_rounds
      (new_iterator rule event_start) 0 []
