-- ===== src/Recurrence/Bounds.antt =====
-- What holds of every result of `Expand`, whatever the rule.
use gamwich.Prelude.{
  ℕ, zero, suc, ◌+◌, ◌≤◌, ◌<◌, ◌≡◌, false, some, List, [], ◌∷◌, ◌++◌, inl, inr, arith, length,
  length-append, All, All-append, Bool-cases, Option-cases, if◌then◌else◌,
}
use gamwich.Prelude.Int.{ℤ}
use gamwich.Calendar.{Time, sub, add}
use gamwich.Recurrence.{Rule, Occurrence, Iterator}
use gamwich.Recurrence.Advance.{new_iterator, next}
use gamwich.Recurrence.Expand.{
  is_past, stops, occurrence, overlaps, expand_loop, max_rounds, expand,
}

-- What a caller of `Expand` may rely on for each occurrence.
pub record IsShown (rule : Rule) (duration : ℤ) (range_start range_end : Time) (o : Occurrence)
    : Type 0 where
  pub before_end : o.start < range_end
  pub after_start : range_start < o.end
  pub has_duration : o.end ≡ add o.start duration
  pub within_until : is_past rule.until o.start ≡ false

module _ (fuel : ℕ) (rule : Rule) (duration : ℤ) (range_start range_end : Time) where
  -- What the loop keeps: `n` occurrences of the series are done.
  record Kept (n : ℕ) (results : List Occurrence) : Type 0 where
    shown : All (IsShown rule duration range_start range_end) results
    no_more : length results ≤ n
    counted : 0 < rule.count → n ≤ rule.count

  Kept-step :
      (n : ℕ) (results : List Occurrence) (t : Time)
      → Kept n results
      → stops rule range_end t (n + 1) ≡ false
      → Kept (n + 1) (
          if overlaps range_start range_end (occurrence duration t)
          then results ++ occurrence duration t ∷ []
          else results)
  unfolding stops overlaps
  Kept-step n results t k go = ground (
    arith,
    length-append results (occurrence duration t ∷ []),
    All-append (IsShown rule duration range_start range_end) results (occurrence duration t ∷ []),
  )

  Kept-expand_loop :
      (rounds : ℕ) (it : Iterator) (n : ℕ) (results found : List Occurrence)
      → Kept n results
      → expand_loop fuel rule duration range_start range_end rounds it n results ≡ some found
      → (m : ℕ) × Kept m found
  unfolding expand_loop
  Kept-expand_loop zero it n results found k e = cc
  Kept-expand_loop (suc rounds) it n results found k e = elim (Option-cases (next fuel it)) [
    | inl p ↦ ground (arith, p)
    | inr ((t, it'), p) ↦ elim (Bool-cases (stops rule range_end t (n + 1))) [
      | inl stop ↦ (n, ground (arith, p, stop))
      | inr go ↦
          Kept-expand_loop rounds it' (n + 1)
            (if overlaps range_start range_end (occurrence duration t)
              then results ++ occurrence duration t ∷ []
              else results)
            found (Kept-step n results t k go) (ground (arith, p, go))
    ]
  ]

-- If `Expand` returns, every occurrence that it returns starts before the end of the range, ends
-- after its start, has the length of the first occurrence and does not start after UNTIL; and with
-- a COUNT there are at most COUNT of them.
pub expand-IsShown :
    (fuel : ℕ) (rule : Rule) (event_start event_end range_start range_end : Time)
    (found : List Occurrence)
    → expand fuel rule event_start event_end range_start range_end ≡ some found
    → All (IsShown rule (sub event_end event_start) range_start range_end) found
      × (0 < rule.count → length found ≤ rule.count)
unfolding expand
expand-IsShown fuel rule event_start event_end range_start range_end found e =
    let (m, k) =
      Kept-expand_loop fuel rule (sub event_end event_start) range_start range_end max_rounds
        (new_iterator rule event_start) 0 [] found
        (record { shown = tt; no_more = omega arith; counted = λ h. omega arith }) e in
    (k.shown, λ h. omega (arith, k.no_more, k.counted h))
