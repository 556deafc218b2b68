-- ===== src/Cron/Field.antt =====
-- `_expand_field` of src/assistant/scheduler/cron.py: one field of an expression as the list of its
-- values. `none` is CronParseError. int() refuses texts of more than 4300 digits, which this model
-- reads as the numbers that they are.
pub mod Values
pub mod Bounds
use xone_assistant.Prelude.{
  ℕ, zero, suc, ◌+◌, ◌-◌, ◌*◌, Bool, true, false, ◌&&◌, ◌||◌, not, Option, none, some, List, [],
  ◌∷◌, ◌++◌, map, ◌==◌, ltb, leb, if◌then◌else◌, Text, text_eq, is_some,
}
use xone_assistant.Cron.Split.{Unicode, split_on, contains, before, behind}

pub data Kind : Type 0 where
  minute hour dom month dow : Kind

-- _RANGES
abbrev pub lowest : Kind → ℕ
lowest minute = 0
lowest hour = 0
lowest dom = 1
lowest month = 1
lowest dow = 0

abbrev pub highest : Kind → ℕ
highest minute = 59
highest hour = 23
highest dom = 31
highest month = 12
highest dow = 7

-- range(start, stop, step), with as much fuel as there are numbers between the ends
unfoldable pub range_from : ℕ → ℕ → ℕ → ℕ → List ℕ
range_from zero start stop step = []
range_from (suc fuel) start stop step =
    let rest = range_from fuel (start + step) stop step in
    if ltb start stop then start ∷ rest else []

abbrev pub range : ℕ → ℕ → ℕ → List ℕ
range start stop step = range_from (stop - start) start stop step

-- int(s): a negative number is told apart, since every use of one is an error.
pub data Number : Type 0 where
  below_zero : Number
  number : ℕ → Number

abbrev pub negate : Option ℕ → Option Number
negate none = none
negate (some n) = if n == 0 then some (number 0) else some below_zero

abbrev pub positive : Option ℕ → Option Number
positive none = none
positive (some n) = some (number n)

-- The bounds of one term, as numbers.
pub record Span : Type 0 where
  pub start : ℕ
  pub stop : ℕ

abbrev pub span_of : Option Number → Option Number → Option Span
span_of (some (number a)) (some (number b)) = some (record { start = a; stop = b })
span_of _ _ = none

-- the step: at least 1
step_number : Option Number → Option ℕ
step_number (some (number (suc n))) = some (suc n)
step_number _ = none

unfoldable pub part_body : Text → Text
unfolding contains before
part_body part = if contains b'/' part then before b'/' part else part

-- start < lo or end > hi or start > end
abbrev pub out_of_range : Kind → Span → Bool
out_of_range kind s = ltb s.start (lowest kind) || ltb (highest kind) s.stop || ltb s.stop s.start

unfoldable pub part_values : Kind → Option ℕ → Option Span → Option (List ℕ)
unfolding range_from
part_values kind (some step) (some s) =
    if out_of_range kind s then none else some (range s.start (s.stop + 1) step)
part_values kind _ _ = none

abbrev pub join_values : Option (List ℕ) → Option (List ℕ) → Option (List ℕ)
join_values (some xs) (some ys) = some (xs ++ ys)
join_values _ _ = none

-- 7 is Sunday too
abbrev pub sunday : ℕ → ℕ
sunday x = if x == 7 then 0 else x

abbrev pub normalise : Kind → Option (List ℕ) → Option (List ℕ)
normalise dow (some xs) = some (map sunday xs)
normalise _ values = values

module _ (u : Unicode) where
  unfoldable pub digits_value : ℕ → Text → Option ℕ
  digits_value acc [] = some acc
  digits_value acc (c ∷ s) = elim (u.digit c) [
    | some d ↦ digits_value (acc * 10 + d) s
    | none ↦ none
  ]

  unsigned : Text → Option ℕ
  unfolding digits_value
  unsigned [] = none
  unsigned (c ∷ s) = digits_value 0 (c ∷ s)

  unfoldable pub int_of : Text → Option Number
  unfolding unsigned
  int_of [] = none
  int_of (c ∷ s) = if c == b'-' then negate (unsigned s) else positive (unsigned (c ∷ s))

  -- _CRON_FIELD_RE
  abbrev pub is_field_char : ℕ → Bool
  is_field_char c = is_some (u.digit c) || c == b',' || c == b'-' || c == b'/' || c == b'*'

  all_field_chars : Text → Bool
  all_field_chars [] = true
  all_field_chars (c ∷ s) = is_field_char c && all_field_chars s

  unfoldable pub part_step : Text → Option ℕ
  unfolding step_number contains behind int_of
  part_step part = if contains b'/' part then step_number (int_of (behind b'/' part)) else some 1

  unfoldable pub part_span : Kind → Text → Option Span
  unfolding int_of contains before behind
  part_span kind body =
      if text_eq body (b'*' ∷ [])
      then some (record { start = lowest kind; stop = highest kind })
      else if contains b'-' body
      then span_of (int_of (before b'-' body)) (int_of (behind b'-' body))
      else span_of (int_of body) (int_of body)

  unfoldable pub expand_part : Kind → Text → Option (List ℕ)
  unfolding part_values part_step part_body part_span
  expand_part kind [] = none
  expand_part kind (c ∷ part) =
      part_values kind (part_step (c ∷ part)) (part_span kind (part_body (c ∷ part)))

  unfoldable pub expand_parts : Kind → List Text → Option (List ℕ)
  unfolding expand_part
  expand_parts kind [] = some []
  expand_parts kind (part ∷ parts) = join_values (expand_part kind part) (expand_parts kind parts)

  unfoldable pub expand_field : Kind → Text → Option (List ℕ)
  unfolding all_field_chars expand_parts split_on
  expand_field kind [] = none
  expand_field kind (c ∷ field) =
      if all_field_chars (c ∷ field)
      then normalise kind (expand_parts kind (split_on b',' (c ∷ field)))
      else none
