-- ===== src/Cron/Search/First.antt =====
-- The loops of src/assistant/scheduler/cron.py find the first minute that they look for.
use xone_assistant.Prelude.{
  ℕ, zero, suc, ◌+◌, ◌-◌, ◌*◌, ◌/◌, ◌≤◌, ◌<◌, Bool, true, false, not, ◌&&◌, Option, none, some, ◌≡◌,
  refl, arith, inl, inr, Bool-cases,
}
use mathlib.Core.Option
use native.Mathlib.Decide.{ℕ_discrete}
use xone_assistant.Cron.Parse.{CronExpr}
use xone_assistant.Cron.Calendar.{Zone}
use xone_assistant.Cron.Search.{
  is_hit, fire_at, next_fire_from, next_fire, is_too_old, is_due_from, is_due, due_start,
}

-- `found` is the first number from `low` up to but not `high` that passes the test, if there is one.
abbrev pub First : (ℕ → Bool) → ℕ → ℕ → Option ℕ → Type 0
First p low high none = (x : ℕ) → low ≤ x → x < high → p x ≡ false
First p low high (some c) =
    (low ≤ c) × (c < high) × (p c ≡ true) × ((x : ℕ) → low ≤ x → x < c → p x ≡ false)

First-next :
    (p : ℕ → Bool) (low high : ℕ) (found : Option ℕ)
    → p low ≡ false
    → First p (low + 1) high found
    → First p low high found
First-next p low high none miss h = λ x le lt. elim (ℕ_discrete low x) [
  | yes same ↦ rw (← same) miss
  | no other ↦ h x (omega arith) lt
]
First-next p low high (some c) miss h = (
  omega (arith, h.0),
  h.1,
  h.2,
  λ x le lt. elim (ℕ_discrete low x) [
    | yes same ↦ rw (← same) miss
    | no other ↦ h.3 x (omega arith) lt
  ],
)

First-here : (p : ℕ → Bool) (low high : ℕ) → p low ≡ true → low < high → First p low high (some low)
First-here p low high hit lt = (omega arith, lt, hit, λ x le below. absurd (omega arith))

-- The end of a range that is given by its length.
First-shrink :
    (p : ℕ → Bool) (low high : ℕ) (found : Option ℕ)
    → First p low (low + (high - low)) found
    → First p low high found
First-shrink p low high none h = λ x le lt. h x le (omega arith)
First-shrink p low high (some c) h = (h.0, omega (arith, h.0, h.1), h.2, h.3)

module _ (z : Zone) (e : CronExpr) where
  next_fire_from-First :
      (left cursor : ℕ)
      → (found : Option ℕ) × First (is_hit z e) cursor (cursor + left) found
        × (next_fire_from z e left cursor ≡ Option.map (fire_at z) found)
  unfolding next_fire_from
  next_fire_from-First zero cursor = (none, (λ x le lt. absurd (omega arith)), refl)
  next_fire_from-First (suc left) cursor = elim (Bool-cases (is_hit z e cursor)) [
    | inl hit ↦ (
      some cursor,
      First-here (is_hit z e) cursor (cursor + suc left) hit (omega arith),
      rw (hit, next_fire_from),
    )
    | inr miss ↦
        let (found, first, same) = next_fire_from-First left (cursor + 1) in
        let step : cursor + 1 + left ≡ cursor + suc left = omega arith in
        (
          found,
          First-next (is_hit z e) cursor _ found miss (rw step at first),
          rw (miss, next_fire_from) same,
        )
  ]

  -- `next_fire` looks for the first minute after the one of `from_utc`, within the days given, at
  -- which the wall clock exists and matches; it returns none exactly when there is no such minute,
  -- and else that minute, or the first of the two when the wall clock shows it twice.
  pub next_fire-First :
      (from_utc max_lookahead_days : ℕ)
      → (found : Option ℕ) × First
          (is_hit z e)
          (from_utc / 60 + 1)
          (from_utc / 60 + 1 + max_lookahead_days * 1440)
          found
        × (next_fire z e from_utc max_lookahead_days ≡ Option.map (fire_at z) found)
  unfolding next_fire
  next_fire-First from_utc days = next_fire_from-First (days * 1440) (from_utc / 60 + 1)

  -- A hit that is young enough.
  abbrev pub is_fresh_hit : ℕ → ℕ → ℕ → Bool
  is_fresh_hit floor_now window cursor =
      is_hit z e cursor && not (is_too_old floor_now window cursor)

  is_due_from-First :
      (left floor_now window cursor : ℕ)
      → (found : Option ℕ) × First (is_fresh_hit floor_now window) cursor (cursor + left) found
        × (is_due_from z e left floor_now window cursor ≡ Option.map (fire_at z) found)
  unfolding is_due_from
  is_due_from-First zero floor_now window cursor = (none, (λ x le lt. absurd (omega arith)), refl)
  is_due_from-First (suc left) floor_now window cursor =
      let p = is_fresh_hit floor_now window in
      let (found, first, same) = is_due_from-First left floor_now window (cursor + 1) in
      let step : cursor + 1 + left ≡ cursor + suc left = omega arith in
      let first' : First p (cursor + 1) (cursor + suc left) found = rw step at first in
      elim (Bool-cases (is_hit z e cursor)) [
        | inl hit ↦ elim (Bool-cases (is_too_old floor_now window cursor)) [
          | inl old ↦ (
            found,
            First-next p cursor _ found (rw (hit, old)) first',
            rw (hit, old, is_due_from) same,
          )
          | inr fresh ↦ (
            some cursor,
            First-here p cursor _ (rw (hit, fresh)) (omega arith),
            rw (hit, fresh, is_due_from),
          )
        ]
        | inr miss ↦
            (found, First-next p cursor _ found (rw miss) first', rw (miss, is_due_from) same)
      ]

  -- `is_due` looks for the first minute behind the last fire, or for the present minute when there
  -- was none, up to the present one, at which the wall clock exists and matches and which is not
  -- older than the catch-up window; it returns none exactly when there is no such minute.
  pub is_due-First :
      (last_fire_at : Option ℕ) (now_utc window : ℕ)
      → (found : Option ℕ) × First
          (is_fresh_hit (now_utc / 60) window)
          (due_start last_fire_at (now_utc / 60))
          (now_utc / 60 + 1)
          found
        × (is_due z e last_fire_at now_utc window ≡ Option.map (fire_at z) found)
  unfolding is_due
  is_due-First last_fire_at now_utc window =
      let floor_now = now_utc / 60 in
      let start = due_start last_fire_at floor_now in
      let (found, first, same) = is_due_from-First (floor_now + 1 - start) floor_now window start in
      (found, First-shrink (is_fresh_hit floor_now window) start (floor_now + 1) found first, same)
