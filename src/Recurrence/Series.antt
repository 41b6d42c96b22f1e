-- ===== src/Recurrence/Series.antt =====
-- A series whose occurrences are known: `Expand` returns exactly those that the range shows.
use mathlib.Core.List.{Memᴰ}
use mathlib.Core.List.{append-nil, append_assoc}
use native.Mathlib.Nat.{le_trans}
use gamwich.Prelude.{
  ℕ, zero, suc, ◌+◌, ◌≤◌, ◌<◌, ◌≡◌, refl, sym, ap, ◌∙◌, inl, inr, true, false, some, List, [], ◌∷◌,
  ◌++◌, All, All-map, arith, Bool-cases, ◌==◌, if◌then◌else◌,
}
use gamwich.Prelude.Int.{ℤ}
use gamwich.Calendar.{Time, sub, add, zero_time}
use gamwich.Recurrence.{Rule, Occurrence, Iterator}
use gamwich.Recurrence.Advance.{new_iterator, next, max_iterations}
use gamwich.Recurrence.Expand.{is_past, stops, occurrence, overlaps, expand_loop, expand}

-- The `k`-th occurrence, from 0, starts at `at k`, and `state k` is the iterator before it.
pub record Series (fuel : ℕ) (rule : Rule) (start : Time) : Type 0 where
  pub at : ℕ → Time
  pub state : ℕ → Iterator
  pub begins : state 0 ≡ new_iterator rule start
  pub counts : (k : ℕ) → (state k).count ≡ k
  pub step : (k : ℕ) → k < max_iterations → next fuel (state k) ≡ some (at k, state (k + 1))

pub next_limit :
    (fuel : ℕ) (it : Iterator) → it.count ≡ max_iterations → next fuel it ≡ some (zero_time, it)
unfolding next
next_limit fuel it h = rw h

-- The results after the occurrence `o`.
abbrev keep_shown : Time → Time → Occurrence → List Occurrence → List Occurrence
keep_shown range_start range_end o results =
    if overlaps range_start range_end o then results ++ o ∷ [] else results

-- One round of the loop.
pub expand_loop-suc :
    (fuel : ℕ) (rule : Rule) (duration : ℤ) (range_start range_end : Time) (rounds : ℕ)
    (it it' : Iterator) (t : Time) (n : ℕ) (results : List Occurrence)
    → next fuel it ≡ some (t, it')
    → expand_loop fuel rule duration range_start range_end (suc rounds) it n results ≡ (
        if stops rule range_end t (n + 1)
        then some results
        else expand_loop fuel rule duration range_start range_end rounds it' (n + 1) (
            if overlaps range_start range_end (occurrence duration t)
            then results ++ occurrence duration t ∷ []
            else results))
unfolding expand_loop
expand_loop-suc fuel rule duration range_start range_end rounds it it' t n results e =
    rw (e, expand_loop)

pub stops-zero_time :
    (rule : Rule) (range_end : Time) (n : ℕ) → stops rule range_end zero_time n ≡ true
unfolding stops
stops-zero_time rule range_end n = refl

module _ {fuel : ℕ} {rule : Rule} {start : Time} (s : Series fuel rule start) (duration : ℤ)
    (range_start range_end : Time) where
  open s use {at, state, counts, step}

  -- The occurrences from the `k`-th on, at most so many, up to the first at which the loop stops.
  pub select : ℕ → ℕ → List Occurrence
  select zero k = []
  select (suc left) k =
      let rest = select left (k + 1) in
      let o = occurrence duration (at k) in
      if stops rule range_end (at k) (k + 1)
      then []
      else if overlaps range_start range_end o
      then o ∷ rest
      else rest

  select-suc :
      (left k : ℕ) (results : List Occurrence)
      → stops rule range_end (at k) (k + 1) ≡ false
      → results ++ select (suc left) k
        ≡ (if overlaps range_start range_end (occurrence duration (at k))
            then results ++ occurrence duration (at k) ∷ []
            else results)
          ++ select left (k + 1)
  unfolding select
  select-suc left k results go =
      rw go (elim (Bool-cases (overlaps range_start range_end (occurrence duration (at k)))) [
        | inl p ↦ rw p (simp append_assoc)
        | inr p ↦ rw p
      ])

  expand_loop-select :
      (left k : ℕ) (results : List Occurrence)
      → k + left ≡ max_iterations
      → expand_loop fuel rule duration range_start range_end (suc left) (state k) k results
        ≡ some (results ++ select left k)
  expand_loop-select zero k results e =
      let at_end : k ≡ max_iterations = omega arith in
      expand_loop-suc fuel rule duration range_start range_end zero (state k) (state k) zero_time k
        results (next_limit fuel (state k) (counts k ∙ at_end))
      ∙ rw (stops-zero_time rule range_end (k + 1)) (unfold select in rw append-nil)
  expand_loop-select (suc left) k results e =
      expand_loop-suc fuel rule duration range_start range_end (suc left) (state k) (state (k + 1))
        (at k) k results (step k (omega arith))
      ∙ elim (Bool-cases (stops rule range_end (at k) (k + 1))) [
        | inl stop ↦ rw stop (unfold select in rw (stop, append-nil))
        | inr go ↦ rw go (
            expand_loop-select left (k + 1) _ (omega arith)
            ∙ ap some (sym (select-suc left k results go)))
      ]

  -- What the loop has tested of the `i`-th occurrence when it adds it.
  abbrev IsAdded : ℕ → Type 0
  IsAdded i =
      (stops rule range_end (at i) (i + 1) ≡ false)
      × (overlaps range_start range_end (occurrence duration (at i)) ≡ true)

  -- Everything selected is an occurrence of the series that passed the tests.
  All-select :
      (left k n : ℕ)
      → k + left ≤ n
      → All (λ o. (i : ℕ) × (i < n) × IsAdded i × (o ≡ occurrence duration (at i))) (select left k)
  unfolding select
  All-select zero k n h = tt
  All-select (suc left) k n h =
      let rest = All-select left (k + 1) n (omega arith) in
      elim (Bool-cases (stops rule range_end (at k) (k + 1))) [
        | inl stop ↦ rw stop tt
        | inr go ↦
            rw go (elim (Bool-cases (overlaps range_start range_end (occurrence duration (at k)))) [
              | inl p ↦ rw p ((k, omega arith, (go, p), refl), rest)
              | inr p ↦ rw p rest
            ])
      ]

  -- An occurrence that overlaps is selected if the loop stops at no occurrence up to it.
  mem-select :
      (left k i : ℕ)
      → k ≤ i
      → i < k + left
      → ((j : ℕ) → j ≤ i → stops rule range_end (at j) (j + 1) ≡ false)
      → overlaps range_start range_end (occurrence duration (at i)) ≡ true
      → Memᴰ (occurrence duration (at i)) (select left k)
  unfolding select
  mem-select zero k i h lt go shown = absurd (omega arith)
  mem-select (suc left) k i h lt go shown = rw (go k h) (elim (Bool-cases (k == i)) [
    | inl here ↦ let e : k ≡ i = ground arith in rw (ap at e, shown) (Memᴰ.head refl)
    | inr later ↦
        let rest = mem-select left (k + 1) i (ground arith) (omega arith) go shown in
        elim (Bool-cases (overlaps range_start range_end (occurrence duration (at k)))) [
          | inl p ↦ rw p (Memᴰ.tail rest)
          | inr p ↦ rw p rest
        ]
  ])

module _ {fuel : ℕ} {rule : Rule} {start : Time} (s : Series fuel rule start)
    (event_end range_start range_end : Time) where
  -- `Expand` returns, and returns the selection.
  pub expand-select :
      expand fuel rule start event_end range_start range_end
      ≡ some (select s (sub event_end start) range_start range_end max_iterations 0)
  unfolding expand
  expand-select =
      rw (← s.begins)
        (expand_loop-select s (sub event_end start) range_start range_end max_iterations 0 [] refl)

-- When the `k`-th occurrence, from 0, of a series is one that `Expand` is to return.
pub record IsDue (rule : Rule) (at : ℕ → Time) (duration : ℤ) (range_start range_end : Time) (k : ℕ)
    : Type 0 where
  pub below_limit : k < max_iterations
  pub counted : 0 < rule.count → k < rule.count
  pub within_until : is_past rule.until (at k) ≡ false
  pub before_end : at k < range_end
  pub after_start : range_start < add (at k) duration

-- `Expand` returns exactly the occurrences `at k` that are due.
abbrev pub ReturnsDue : (ℕ → Time) → ℕ → Rule → Time → Time → Time → Time → Type 0
ReturnsDue at fuel rule start event_end range_start range_end =
    let duration = sub event_end start in
    (found : List Occurrence) × (expand fuel rule start event_end range_start range_end
      ≡ some found)
    × All
        (λ o.
          (k : ℕ) × IsDue rule at duration range_start range_end k
          × (o ≡ occurrence duration (at k)))
        found
    × ((k : ℕ)
        → IsDue rule at duration range_start range_end k
        → Memᴰ (occurrence duration (at k)) found)

stops_of_IsDue :
    (rule : Rule) (at : ℕ → Time) (duration : ℤ) (range_start range_end : Time) (j k : ℕ)
    → IsDue rule at duration range_start range_end k
    → j ≤ k
    → at j ≤ at k
    → zero_time < at j
    → stops rule range_end (at j) (j + 1) ≡ false
unfolding stops
stops_of_IsDue rule at duration range_start range_end j k due h le real = ground arith

IsDue-of_added :
    (rule : Rule) (at : ℕ → Time) (duration : ℤ) (range_start range_end : Time) (k : ℕ)
    → k < max_iterations
    → stops rule range_end (at k) (k + 1) ≡ false
    → overlaps range_start range_end (occurrence duration (at k)) ≡ true
    → IsDue rule at duration range_start range_end k
unfolding stops overlaps
IsDue-of_added rule at duration range_start range_end k lt go shown = ground arith

overlaps_of_IsDue :
    (rule : Rule) (at : ℕ → Time) (duration : ℤ) (range_start range_end : Time) (k : ℕ)
    → IsDue rule at duration range_start range_end k
    → overlaps range_start range_end (occurrence duration (at k)) ≡ true
unfolding overlaps
overlaps_of_IsDue rule at duration range_start range_end k due = ground arith

-- A series that never goes back and starts after the zero time is returned exactly.
pub expand-ReturnsDue :
    {fuel : ℕ} {rule : Rule} {start : Time} (s : Series fuel rule start)
    (event_end range_start range_end : Time)
    → ((i j : ℕ) → i ≤ j → s.at i ≤ s.at j)
    → zero_time < s.at 0
    → ReturnsDue s.at fuel rule start event_end range_start range_end
expand-ReturnsDue {rule} {start} s event_end range_start range_end mono real =
    let duration = sub event_end start in
    (
      select s duration range_start range_end max_iterations 0,
      expand-select s event_end range_start range_end,
      All-map
          (λ o added. (
            added.0,
            IsDue-of_added rule s.at duration range_start range_end added.0 added.1 added.2.0
                added.2.1,
            added.3,
          ))
          _
          (All-select s duration range_start range_end max_iterations 0 max_iterations
            (omega arith)),
      λ k due.
          mem-select s duration range_start range_end max_iterations 0 k (omega arith)
            due.below_limit
            (λ j h.
              stops_of_IsDue rule s.at duration range_start range_end j k due h (mono j k h)
                (le_trans real (mono 0 j (omega arith))))
            (overlaps_of_IsDue rule s.at duration range_start range_end k due),
    )
