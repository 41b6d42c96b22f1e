-- ===== src/Billing/Features.antt =====
-- `splitFeatures` gives the parts between the commas that are not empty.
use gamwich.Prelude.{
  ℕ, suc, ◌+◌, ◌-◌, ◌≡◌, ◌∙◌, refl, ap, sym, inl, inr, Bool, true, List, [], ◌∷◌, ◌++◌, arith, ltb,
  ◌==◌, if◌then◌else◌, length, drop, Bool-cases, length-append, take-append, drop-append,
}
use mathlib.Core.List.{append_assoc, append-nil}
use gamwich.Text.{Text, push, split}
use gamwich.Billing.{slice, split_loop, split_features}

-- The parts that are not empty.
unfoldable pub non_empty : List Text → List Text
non_empty [] = []
non_empty ([] ∷ ps) = non_empty ps
non_empty ((c ∷ cs) ∷ ps) = (c ∷ cs) ∷ non_empty ps

-- A text in front of the first part.
abbrev onto : Text → List Text → List Text
onto cur [] = cur ∷ []
onto cur (p ∷ ps) = (cur ++ p) ∷ ps

onto-nil-split : (c : ℕ) (s : Text) → onto [] (split c s) ≡ split c s
unfolding split
onto-nil-split c [] = refl
onto-nil-split c (x ∷ xs) = elim (Bool-cases (x == c)) [
  | inl p ↦ rw p refl
  | inr p ↦ rw p (pushed x (split c xs))
]
  where
    pushed : (x : ℕ) (ps : List Text) → onto [] (push x ps) ≡ push x ps
    pushed x [] = refl
    pushed x (p ∷ ps) = refl

onto-push : (cur : Text) (c : ℕ) (ps : List Text) → onto cur (push c ps) ≡ onto (cur ++ c ∷ []) ps
onto-push cur c [] = refl
onto-push cur c (p ∷ ps) = rw (append_assoc cur (c ∷ []) p) refl

-- What the loop has at an index: the parts before `start`, the current part, and the rest.
record At (s pre cur rest : Text) (start i : ℕ) : Type 0 where
  text : s ≡ pre ++ (cur ++ rest)
  start_at : start ≡ length pre
  index_at : i ≡ length pre + length cur

module _ (s pre cur rest : Text) (start i : ℕ) (a : At s pre cur rest start i) where
  drop-At : drop start s ≡ cur ++ rest
  drop-At = rw (a.text, a.start_at) (drop-append pre (cur ++ rest))

  slice-At : slice s start i ≡ cur
  slice-At =
      let many : i - start ≡ length cur = omega (arith, a.start_at, a.index_at) in
      rw (drop-At, many) (take-append cur rest)

  length-At : length s ≡ length pre + (length cur + length rest)
  length-At =
      ap length a.text
      ∙ length-append pre (cur ++ rest)
      ∙ ap (λ n. length pre + n) (length-append cur rest)

-- The parts with one more, if that is not empty.
abbrev with_part : List Text → Text → List Text
with_part result [] = result
with_part result (c ∷ cs) = result ++ (c ∷ cs) ∷ []

with_part-non_empty :
    (result : List Text) (cur : Text) (ps : List Text)
    → with_part result cur ++ non_empty ps ≡ result ++ non_empty (cur ∷ ps)
unfolding non_empty
with_part-non_empty result [] ps = refl
with_part-non_empty result (c ∷ cs) ps = append_assoc result ((c ∷ cs) ∷ []) (non_empty ps)

add_part :
    (result : List Text) (cur part : Text) (b : Bool)
    → part ≡ cur
    → b ≡ ltb 0 (length cur)
    → (if b then result ++ part ∷ [] else result) ≡ with_part result cur
add_part result [] part b e h = rw h refl
add_part result (c ∷ cs) part b e h =
    let nonzero : ltb 0 (suc (length cs)) ≡ true = ground arith in rw (h, e, nonzero) refl

split_loop-eq :
    (s pre cur rest : Text) (start i : ℕ) (result : List Text)
    → At s pre cur rest start i
    → split_loop s start i result rest ≡ result ++ non_empty (onto cur (split b',' rest))
unfolding split_loop split non_empty
split_loop-eq s pre cur [] start i result a =
    let long : ltb start (length s) ≡ ltb 0 (length cur) =
      ground (arith, length-At s pre cur [] start i a, a.start_at) in
    add_part result cur (drop start s) (ltb start (length s))
      (drop-At s pre cur [] start i a ∙ append-nil cur) long
    ∙ sym (append-nil (with_part result cur))
    ∙ with_part-non_empty result cur []
    ∙ ap (λ p. result ++ non_empty (p ∷ [])) (sym (append-nil cur))
split_loop-eq s pre cur (c ∷ rest) start i result a = elim (Bool-cases (c == b',')) [
  | inl p ↦
      let after : At s (pre ++ (cur ++ c ∷ [])) [] rest (suc i) (suc i) = record {
        text =
            a.text
            ∙ ap (λ l. pre ++ l) (sym (append_assoc cur (c ∷ []) rest))
            ∙ sym (append_assoc pre (cur ++ c ∷ []) rest);
        start_at =
            omega
              (arith, a.index_at, length-append pre (cur ++ c ∷ []), length-append cur (c ∷ []));
        index_at =
            omega
              (arith, a.index_at, length-append pre (cur ++ c ∷ []), length-append cur (c ∷ []));
      } in
      let long : ltb start i ≡ ltb 0 (length cur) = ground (arith, a.start_at, a.index_at) in
      let part =
        add_part result cur (slice s start i) (ltb start i)
          (slice-At s pre cur (c ∷ rest) start i a) long in
      rw (p, part)
        (split_loop-eq s (pre ++ (cur ++ c ∷ [])) [] rest (suc i) (suc i) (with_part result cur)
            after
          ∙ ap (λ ps. with_part result cur ++ non_empty ps) (onto-nil-split b',' rest)
          ∙ with_part-non_empty result cur (split b',' rest)
          ∙ ap (λ q. result ++ non_empty (q ∷ split b',' rest)) (sym (append-nil cur)))
  | inr p ↦
      let after : At s pre (cur ++ c ∷ []) rest start (suc i) = record {
        text = a.text ∙ ap (λ l. pre ++ l) (sym (append_assoc cur (c ∷ []) rest));
        start_at = a.start_at;
        index_at = omega (arith, a.index_at, length-append cur (c ∷ []));
      } in
      rw p (
        split_loop-eq s pre (cur ++ c ∷ []) rest start (suc i) result after
        ∙ ap (λ ps. result ++ non_empty ps) (sym (onto-push cur c (split b',' rest))))
]

-- `splitFeatures` gives the parts of the text between its commas, in their order, without those that
-- are empty.
pub split_features-eq : (s : Text) → split_features s ≡ non_empty (split b',' s)
unfolding split_features
split_features-eq s =
    split_loop-eq s [] [] s 0 0 [] (record { text = refl; start_at = refl; index_at = refl })
    ∙ ap non_empty (onto-nil-split b',' s)
