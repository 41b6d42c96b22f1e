-- ===== src/RateLimit/Window.antt =====
-- How many requests of one key are served in one window.
use gamwich.Prelude.{
  ℕ, suc, ◌+◌, ◌-◌, ◌≤◌, ◌≡◌, ◌∙◌, sym, refl, inl, inr, false, Option, none, some, List, [], ◌∷◌,
  All, arith, ltb, leb, if◌then◌else◌, Bool-cases, Option-cases, min,
}
use gamwich.Prelude.Int.{ℤ}
use gamwich.Text.{Text, text_eq}
use gamwich.Text.Equality.{text_eq_refl, text_eq_sound}
use gamwich.Calendar.{Time, add}
use gamwich.RateLimit.{
  Entry, Entries, find, put, allow, cleanup, Outcome, served, too_many_requests, rate_limit,
  rate_limit_all,
}

find-put : (key : Text) (e : Entry) (es : Entries) → find key (put key e es) ≡ some e
unfolding find put
find-put key e [] = rw (text_eq_refl key) refl
find-put key e ((k, d) ∷ es) = elim (Bool-cases (text_eq k key)) [
  | inl p ↦ rw (p, text_eq_refl key) refl
  | inr p ↦ rw (p, p) (find-put key e es)
]

find-put_other :
    (key other : Text) (e : Entry) (es : Entries)
    → text_eq key other ≡ false
    → find other (put key e es) ≡ find other es
unfolding find put
find-put_other key other e [] h = rw h refl
find-put_other key other e ((k, d) ∷ es) h = elim (Bool-cases (text_eq k key)) [
  | inl p ↦ let same = text_eq_sound k key p in rw (p, h) rw same rw h refl
  | inr p ↦ rw (p, find-put_other key other e es h) refl
]

abbrev is_served : Outcome → ℕ
is_served served = 1
is_served too_many_requests = 0

-- The requests with a key among those of a list, and the served ones among them.
unfoldable pub of_key : Text → List (Text × Time) → ℕ
of_key key [] = 0
of_key key ((k, t) ∷ rs) = if text_eq k key then suc (of_key key rs) else of_key key rs

unfoldable pub served_of : Text → List (Text × Time) → List Outcome → ℕ
served_of key [] os = 0
served_of key (r ∷ rs) [] = 0
served_of key ((k, t) ∷ rs) (o ∷ os) =
    let rest = served_of key rs os in if text_eq k key then is_served o + rest else rest

abbrev In : Time → Text × Time → Type 0
In end (k, t) = t ≤ end

module _ (key : Text) (limit : ℕ) (window : ℤ) (now : Time) (es : Entries) where
  allow-in_window :
      (e : Entry)
      → find key es ≡ some e
      → now ≤ e.window_at
      → allow key limit window now es ≡ (
        leb (suc e.count) limit,
        put key (record { count = suc e.count; window_at = e.window_at }) es,
      )
  unfolding allow
  allow-in_window e h le = ground (arith, h)

  allow-puts : (e : Entry) × ((allow key limit window now es).1 ≡ put key e es)
  unfolding allow
  allow-puts = elim (Option-cases (find key es)) [
    | inl p ↦ (record { count = 1; window_at = add now window }, ground (arith, p))
    | inr (e, p) ↦ elim (Bool-cases (ltb e.window_at now)) [
      | inl q ↦ (record { count = 1; window_at = add now window }, ground (arith, p, q))
      | inr q ↦ (record { count = suc e.count; window_at = e.window_at }, ground (arith, p, q))
    ]
  ]

  rate_limit-after : (rate_limit key limit window now es).1 ≡ (allow key limit window now es).1
  unfolding rate_limit
  rate_limit-after = ground arith

  rate_limit-served :
      is_served (rate_limit key limit window now es).0
      ≡ (if (allow key limit window now es).0 then 1 else 0)
  unfolding rate_limit
  rate_limit-served = ground arith

-- A request in an open window counts, and is served up to the limit.
counted :
    (key : Text) (limit : ℕ) (window : ℤ) (now : Time) (es : Entries) (e : Entry)
    → find key es ≡ some e
    → now ≤ e.window_at
    → (is_served (rate_limit key limit window now es).0
        ≡ (if leb (suc e.count) limit then 1 else 0))
      × (find key (rate_limit key limit window now es).1
          ≡ some (record { count = suc e.count; window_at = e.window_at }))
counted key limit window now es e h le =
    let is_allow = allow-in_window key limit window now es e h le in
    (
      rate_limit-served key limit window now es ∙ rw is_allow refl,
      rw (rate_limit-after key limit window now es, is_allow)
          (find-put key (record { count = suc e.count; window_at = e.window_at }) es),
    )

-- A request leaves the entries of the other keys alone.
uncounted :
    (key other : Text) (limit : ℕ) (window : ℤ) (now : Time) (es : Entries)
    → text_eq other key ≡ false
    → find key (rate_limit other limit window now es).1 ≡ find key es
uncounted key other limit window now es h =
    let (e, puts) = allow-puts other limit window now es in
    rw (rate_limit-after other limit window now es, puts) (find-put_other other key e es h)

-- While the window of a key is open, of the key's requests among any sequence of requests before
-- the window's end as many are served as the limit has left, and all of them if they are fewer.
pub rate_limit_all-served :
    (key : Text) (limit : ℕ) (window : ℤ) (rs : List (Text × Time)) (es : Entries) (e : Entry)
    → find key es ≡ some e
    → All (In e.window_at) rs
    → served_of key rs (rate_limit_all limit window rs es).0 ≡ min (of_key key rs) (limit - e.count)
unfolding rate_limit_all served_of of_key
rate_limit_all-served key limit window [] es e h before = omega arith
rate_limit_all-served key limit window ((k, t) ∷ rs) es e h before =
    elim (Bool-cases (text_eq k key)) [
      | inl p ↦
          let same = text_eq_sound k key p in
          let (one, after) = counted key limit window t es e h before.0 in
          let rest =
            rate_limit_all-served key limit window rs (rate_limit key limit window t es).1
              (record { count = suc e.count; window_at = e.window_at }) after before.1 in
          ground (arith, p, same, one, rest)
      | inr p ↦
          let after = uncounted key k limit window t es p in
          let rest =
            rate_limit_all-served key limit window rs (rate_limit k limit window t es).1 e
              (after ∙ h) before.1 in
          ground (arith, p, rest)
    ]

-- The map holds one entry for a key.
unfoldable pub Distinct : Entries → Type 0
Distinct [] = Unit
Distinct ((k, e) ∷ es) = (find k es ≡ none) × Distinct es

abbrev live : Time → Option Entry → Option Entry
live now none = none
live now (some e) = if ltb e.window_at now then none else some e

find-cleanup :
    (key : Text) (now : Time) (es : Entries)
    → Distinct es
    → find key (cleanup now es) ≡ live now (find key es)
unfolding find cleanup Distinct
find-cleanup key now [] d = refl
find-cleanup key now ((k, e) ∷ es) d =
    let rest = find-cleanup key now es d.1 in
    elim (Bool-cases (text_eq k key)) [
      | inl p ↦
          let absent : find key es ≡ none = rw (← text_eq_sound k key p) d.0 in
          elim (Bool-cases (ltb e.window_at now)) [
            | inl q ↦ rw (p, q) (rest ∙ rw absent refl)
            | inr q ↦ rw (q, p) rw q refl
          ]
      | inr p ↦ elim (Bool-cases (ltb e.window_at now)) [
        | inl q ↦ rw (p, q) rest
        | inr q ↦ rw (q, p) rest
      ]
    ]

-- Where the keys are distinct, a `Cleanup` changes no later answer of `Allow`, nor the entry that
-- `Allow` leaves for the key.
pub allow-cleanup :
    (key : Text) (limit : ℕ) (window : ℤ) (now later : Time) (es : Entries)
    → Distinct es
    → now ≤ later
    → ((allow key limit window later (cleanup now es)).0 ≡ (allow key limit window later es).0)
      × (find key (allow key limit window later (cleanup now es)).1
          ≡ find key (allow key limit window later es).1)
unfolding allow
allow-cleanup key limit window now later es d le =
    let cleaned = find-cleanup key now es d in
    let fresh : Entry = record { count = 1; window_at = add later window } in
    let put_both = λ (e : Entry). find-put key e (cleanup now es) ∙ sym (find-put key e es) in
    elim (Option-cases (find key es)) [
      | inl p ↦ (ground (arith, cleaned, p), ground (arith, cleaned, p, put_both fresh))
      | inr (e, p) ↦
          let more : Entry = record { count = suc e.count; window_at = e.window_at } in
          elim (Bool-cases (ltb e.window_at now)) [
            | inl q ↦ (ground (arith, cleaned, p, q), ground (arith, cleaned, p, q, put_both fresh))
            | inr q ↦ (
              ground (arith, cleaned, p, q),
              ground (arith, cleaned, p, q, put_both fresh, put_both more),
            )
          ]
    ]
