-- ===== src/Cron/Field/Bounds.antt =====
-- Every value of a field lies in the range of its kind (src/assistant/scheduler/cron.py).
use xone_assistant.Prelude.{
  ℕ, zero, suc, ◌+◌, ◌-◌, ◌≤◌, ◌<◌, Option, none, some, List, [], ◌∷◌, map, arith, ltb, All,
  All-append, length, length-append, Bool-cases, inl, inr, Text,
}
use xone_assistant.Cron.Split.{Unicode, split_on, split_step}
use xone_assistant.Cron.Field.{
  Kind, minute, hour, dom, month, dow, Span, lowest, highest, range_from, out_of_range, part_values,
  part_step, part_span, part_body, expand_part, expand_parts, expand_field, join_values, normalise,
  sunday, all_field_chars,
}

abbrev pub Within : ℕ → ℕ → ℕ → Type 0
Within low high x = (low ≤ x) × (x ≤ high)

-- A list of values that is not empty and lies between two bounds.
abbrev pub Filled : ℕ → ℕ → List ℕ → Type 0
Filled low high xs = (0 < length xs) × All (Within low high) xs

range_from-Within :
    (fuel start stop step low high : ℕ)
    → low ≤ start
    → stop ≤ high + 1
    → All (Within low high) (range_from fuel start stop step)
unfolding range_from
range_from-Within zero start stop step low high h k = tt
range_from-Within (suc fuel) start stop step low high h k = elim (Bool-cases (ltb start stop)) [
  | inl more ↦
      rw more (
        (h, ground arith),
        range_from-Within fuel (start + step) stop step low high (omega arith) k,
      )
  | inr stopped ↦ rw stopped tt
]

length-range_from :
    (fuel start stop step : ℕ)
    → start < stop
    → 0 < fuel
    → 0 < length (range_from fuel start stop step)
unfolding range_from
length-range_from zero start stop step h k = k
length-range_from (suc fuel) start stop step h k = ground arith

-- What holds of a result, if there is one.
abbrev pub Holds : (List ℕ → Type 0) → Option (List ℕ) → Type 0
Holds P none = Unit
Holds P (some xs) = P xs

part_values-Filled :
    (kind : Kind) (step : Option ℕ) (s : Option Span)
    → Holds (Filled (lowest kind) (highest kind)) (part_values kind step s)
unfolding part_values
part_values-Filled kind (some step) (some s) = elim (Bool-cases (out_of_range kind s)) [
  | inl bad ↦ rw bad tt
  | inr good ↦ rw good (
    length-range_from (s.stop + 1 - s.start) s.start (s.stop + 1) step (ground arith)
        (ground arith),
    range_from-Within (s.stop + 1 - s.start) s.start (s.stop + 1) step (lowest kind) (highest kind)
        (ground arith) (ground arith),
  )
]
part_values-Filled kind none s = tt
part_values-Filled kind (some step) none = tt

join_values-Filled :
    (low high : ℕ) (a b : Option (List ℕ))
    → Holds (Filled low high) a
    → Holds (All (Within low high)) b
    → Holds (Filled low high) (join_values a b)
join_values-Filled low high none b h k = tt
join_values-Filled low high (some xs) none h k = tt
join_values-Filled low high (some xs) (some ys) h k =
    (omega (arith, length-append xs ys, h.0), All-append (Within low high) xs ys h.1 k)

forget_length :
    (low high : ℕ) (a : Option (List ℕ))
    → Holds (Filled low high) a
    → Holds (All (Within low high)) a
forget_length low high none h = tt
forget_length low high (some xs) h = h.1

-- The highest value of a field after 7 was read as Sunday.
abbrev pub highest_value : Kind → ℕ
highest_value dow = 6
highest_value kind = highest kind

sunday-All : (xs : List ℕ) → All (Within 0 7) xs → All (Within 0 6) (map sunday xs)
sunday-All [] h = tt
sunday-All (x ∷ xs) h = ((omega arith, sunday_le x h.0.1), sunday-All xs h.1)
  where
    sunday_le : (x : ℕ) → x ≤ 7 → sunday x ≤ 6
    sunday_le x h = ground arith

length-sunday : (xs : List ℕ) → 0 < length xs → 0 < length (map sunday xs)
length-sunday [] h = h
length-sunday (x ∷ xs) h = omega arith

normalise-Filled :
    (kind : Kind) (a : Option (List ℕ))
    → Holds (Filled (lowest kind) (highest kind)) a
    → Holds (Filled (lowest kind) (highest_value kind)) (normalise kind a)
normalise-Filled dow (some xs) h = (length-sunday xs h.0, sunday-All xs h.1)
normalise-Filled dow none h = tt
normalise-Filled minute a h = h
normalise-Filled hour a h = h
normalise-Filled dom a h = h
normalise-Filled month a h = h

module _ (u : Unicode) where
  expand_part-Filled :
      (kind : Kind) (part : Text)
      → Holds (Filled (lowest kind) (highest kind)) (expand_part u kind part)
  unfolding expand_part
  expand_part-Filled kind [] = tt
  expand_part-Filled kind (c ∷ part) =
      part_values-Filled kind (part_step u (c ∷ part)) (part_span u kind (part_body (c ∷ part)))

  expand_parts-All :
      (kind : Kind) (parts : List Text)
      → Holds (All (Within (lowest kind) (highest kind))) (expand_parts u kind parts)
  unfolding expand_parts
  expand_parts-All kind [] = tt
  expand_parts-All kind (part ∷ parts) = forget_length (lowest kind) (highest kind) _ (
      join_values-Filled (lowest kind) (highest kind) (expand_part u kind part)
        (expand_parts u kind parts) (expand_part-Filled kind part) (expand_parts-All kind parts))

  expand_parts-Filled :
      (kind : Kind) (parts : List Text)
      → 0 < length parts
      → Holds (Filled (lowest kind) (highest kind)) (expand_parts u kind parts)
  unfolding expand_parts
  expand_parts-Filled kind [] h = elim h [ ]
  expand_parts-Filled kind (part ∷ parts) h =
      join_values-Filled (lowest kind) (highest kind) (expand_part u kind part)
        (expand_parts u kind parts) (expand_part-Filled kind part) (expand_parts-All kind parts)

  length-split_on : (sep : ℕ) (s : Text) → 0 < length (split_on sep s)
  unfolding split_on split_step
  length-split_on sep [] = omega arith
  length-split_on sep (c ∷ s) = go (split_on sep s)
    where
      go : (parts : List Text) → 0 < length (split_step sep c parts)
      go [] = omega arith
      go (part ∷ parts) = ground arith

  -- A field that is accepted has at least one value, and all its values lie in the range of its
  -- kind, where a day of the week is at most 6.
  pub expand_field-Filled :
      (kind : Kind) (field : Text)
      → Holds (Filled (lowest kind) (highest_value kind)) (expand_field u kind field)
  unfolding expand_field
  expand_field-Filled kind [] = tt
  expand_field-Filled kind (c ∷ field) = elim (Bool-cases (all_field_chars u (c ∷ field))) [
    | inr bad ↦ rw bad tt
    | inl good ↦ rw good (
        normalise-Filled kind (expand_parts u kind (split_on b',' (c ∷ field)))
          (expand_parts-Filled kind (split_on b',' (c ∷ field)) (length-split_on b',' (c ∷ field))))
  ]
