-- ===== src/Recurrence/Total.antt =====
-- `Expand` returns if each call of the iterator does, and returns what the iterator gives.
use gamwich.Prelude.{
  ℕ, zero, suc, ◌+◌, ◌<◌, ◌≡◌, ◌∙◌, refl, Bool, true, false, inl, inr, some, List, [], ◌∷◌, ◌++◌,
  All, All-append, arith, Bool-cases, if◌then◌else◌,
}
use gamwich.Prelude.Int.{ℤ}
use gamwich.Calendar.{Time, sub, zero_time}
use gamwich.Recurrence.{Rule, Occurrence, Iterator}
use gamwich.Recurrence.Advance.{new_iterator, next, max_iterations}
use gamwich.Recurrence.Expand.{stops, occurrence, overlaps, expand_loop, expand}
use gamwich.Recurrence.Series.{expand_loop-suc, next_limit, stops-zero_time}

-- A call of `next` that returns: an occurrence with `Q`, and an iterator with `P`.
pub record Gives (P : Iterator → Type 0) (Q : Time → Type 0) (fuel : ℕ) (it : Iterator)
    : Type 0 where
  pub time : Time
  pub after : Iterator
  pub gives : next fuel it ≡ some (time, after)
  pub kept : P after
  pub counted : after.count ≡ it.count + 1
  pub good : Q time

module _ {P : Iterator → Type 0} {Q : Time → Type 0} (fuel : ℕ)
    (keeps : (it : Iterator) → P it → it.count < max_iterations → Gives P Q fuel it) (rule : Rule)
    (range_start range_end : Time) where
  abbrev Good : Occurrence → Type 0
  Good o = Q o.start

  keep-Good :
      (b : Bool) (results : List Occurrence) (o : Occurrence)
      → All Good results
      → Good o
      → All Good (if b then results ++ o ∷ [] else results)
  keep-Good true results o h k = All-append Good results (o ∷ []) h (k, tt)
  keep-Good false results o h k = h

  expand_loop_total :
      (duration : ℤ) (left : ℕ) (it : Iterator) (n : ℕ) (results : List Occurrence)
      → it.count + left ≡ max_iterations
      → P it
      → All Good results
      → (found : List Occurrence) × (expand_loop fuel rule duration range_start range_end
            (suc left)
            it
            n
            results
          ≡ some found)
        × All Good found
  expand_loop_total duration zero it n results e p h = (
    results,
    expand_loop-suc fuel rule duration range_start range_end zero it it zero_time n results
          (next_limit fuel it (omega arith))
        ∙ rw (stops-zero_time rule range_end (n + 1)),
    h,
  )
  expand_loop_total duration (suc left) it n results e p h =
      let g = keeps it p (omega arith) in
      let o = occurrence duration g.time in
      let round =
        expand_loop-suc fuel rule duration range_start range_end (suc left) it g.after g.time n
          results g.gives in
      elim (Bool-cases (stops rule range_end g.time (n + 1))) [
        | inl stop ↦ (results, round ∙ rw stop, h)
        | inr go ↦
            let rest =
              expand_loop_total duration left g.after (n + 1) _ (omega (arith, g.counted)) g.kept
                (keep-Good (overlaps range_start range_end o) results o h g.good) in
            (rest.0, round ∙ rw go rest.1, rest.2)
      ]

  -- From a first iterator with `P`, `Expand` returns, and every occurrence has `Q`.
  pub expand_total :
      (start event_end : Time)
      → P (new_iterator rule start)
      → (found : List Occurrence) × (expand fuel rule start event_end range_start range_end
          ≡ some found)
        × All (λ o. Q o.start) found
  unfolding expand new_iterator
  expand_total start event_end p =
      expand_loop_total (sub event_end start) 10000 (new_iterator rule start) 0 [] refl p tt
