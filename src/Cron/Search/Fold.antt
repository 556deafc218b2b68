-- ===== src/Cron/Search/Fold.antt =====
-- What happens when the clock is set back (src/assistant/scheduler/cron.py).
use xone_assistant.Prelude.{
  ℕ, ◌+◌, ◌*◌, ◌/◌, ◌≤◌, ◌<◌, Bool, true, false, Option, none, some, ◌≡◌, ◌⊎◌, sym, ap, ◌∙◌, arith,
  inl, inr, Bool-cases,
}
use mathlib.Core.Option
use native.Mathlib.Decide.{dec_lt}
use xone_assistant.Cron.Parse.{CronExpr}
use xone_assistant.Cron.Calendar.{Zone}
use xone_assistant.Cron.Matching.{is_ambiguous_local_minute}
use xone_assistant.Cron.Search.{is_hit, fire_at, next_fire, is_due}
use xone_assistant.Cron.Search.First.{First, next_fire-First, is_due-First, is_fresh_hit}

First-unique :
    (p : ℕ → Bool) (low high c d : ℕ)
    → First p low high (some c)
    → First p low high (some d)
    → c ≡ d
First-unique p low high c d h k = elim (dec_lt c d) [
  | yes lt ↦ absurd (cc (h.2, k.3 c h.0 lt))
  | no ge ↦ elim (dec_lt d c) [ yes lt ↦ absurd (cc (k.2, h.3 d k.0 lt)) | no le ↦ omega arith ]
]

found-First :
    (p : ℕ → Bool) (low high c : ℕ) (found : Option ℕ)
    → First p low high (some c)
    → First p low high found
    → found ≡ some c
found-First p low high c none h k = absurd (cc (h.2, k c h.0 h.1))
found-First p low high c (some d) h k = ap some (First-unique p low high d c k h)

fire_at_plain :
    (z : Zone) (c : ℕ) → is_ambiguous_local_minute z (z.local c) ≡ false → fire_at z c ≡ c
unfolding fire_at
fire_at_plain z c h = rw h

fire_at_twice :
    (z : Zone) (c : ℕ)
    → is_ambiguous_local_minute z (z.local c) ≡ true
    → fire_at z c ≡ z.utc false (z.local c)
unfolding fire_at
fire_at_twice z c h = rw h

-- In a zone that never sets its clock back, `next_fire` returns a minute after `from_utc`.
pub next_fire_later :
    (z : Zone) (e : CronExpr) (from_utc days r : ℕ)
    → ((m : ℕ) → is_ambiguous_local_minute z (z.local m) ≡ false)
    → next_fire z e from_utc days ≡ some r
    → from_utc < r * 60
next_fire_later z e from_utc days r plain h =
    let (found, first, same) = next_fire-First z e from_utc days in go found first (sym same ∙ h)
  where
    go :
        (found : Option ℕ)
        → First (is_hit z e) (from_utc / 60 + 1) (from_utc / 60 + 1 + days * 1440) found
        → Option.map (fire_at z) found ≡ some r
        → from_utc < r * 60
    go none first eq = absurd (cc)
    go (some c) first eq =
        let c≡r : c ≡ r = cc (fire_at_plain z c (plain c)) in omega (arith, first.0)

-- The first minute that `next_fire` finds may be the second showing of a wall clock whose first
-- showing is not after `from_utc`: then the minute returned is not after `from_utc` either.
pub next_fire_stale :
    (z : Zone) (e : CronExpr) (from_utc days c : ℕ)
    → First (is_hit z e) (from_utc / 60 + 1) (from_utc / 60 + 1 + days * 1440) (some c)
    → is_ambiguous_local_minute z (z.local c) ≡ true
    → z.utc false (z.local c) ≤ from_utc / 60
    → (r : ℕ) × (next_fire z e from_utc days ≡ some r) × (r * 60 ≤ from_utc)
next_fire_stale z e from_utc days c first twice early =
    let (found, first', same) = next_fire-First z e from_utc days in
    let found≡c = found-First (is_hit z e) _ _ c found first first' in
    (
      z.utc false (z.local c),
      same ∙ ap (Option.map (fire_at z)) found≡c ∙ ap some (fire_at_twice z c twice),
      omega arith,
    )

-- The same of `is_due`: while the first minute that is due shows a wall clock again, the minute
-- returned is one that is not after the last fire.
pub is_due_stale :
    (z : Zone) (e : CronExpr) (last now_utc window c : ℕ)
    → First (is_fresh_hit z e (now_utc / 60) window) (last / 60 + 1) (now_utc / 60 + 1) (some c)
    → is_ambiguous_local_minute z (z.local c) ≡ true
    → z.utc false (z.local c) ≤ last / 60
    → (r : ℕ) × (is_due z e (some last) now_utc window ≡ some r) × (r * 60 ≤ last)
is_due_stale z e last now_utc window c first twice early =
    let (found, first', same) = is_due-First z e (some last) now_utc window in
    let found≡c = found-First (is_fresh_hit z e (now_utc / 60) window) _ _ c found first first' in
    (
      z.utc false (z.local c),
      same ∙ ap (Option.map (fire_at z)) found≡c ∙ ap some (fire_at_twice z c twice),
      omega arith,
    )

-- A wall clock stands for the instants at which it is shown.
abbrev pub IsFaithful : Zone → Type 0
IsFaithful z = (m : ℕ) → (z.utc false (z.local m) ≡ m) ⊎ (z.utc true (z.local m) ≡ m)

same_folds :
    (z : Zone) (w : ℕ) → is_ambiguous_local_minute z w ≡ false → z.utc false w ≡ z.utc true w
unfolding is_ambiguous_local_minute
same_folds z w h = ground arith

only_instant :
    (z : Zone) (m : ℕ)
    → IsFaithful z
    → is_ambiguous_local_minute z (z.local m) ≡ false
    → z.utc false (z.local m) ≡ m
only_instant z m faithful plain = elim (faithful m) [
  | inl e ↦ e
  | inr e ↦ same_folds z (z.local m) plain ∙ e
]

-- In a zone whose folds lead a wall clock back to the instants that show it, every wall-clock
-- minute fires at one instant: two minutes of UTC at which the clock shows the same are given the
-- same minute to fire at.
pub fire_at_once :
    (z : Zone) (c d : ℕ) → IsFaithful z → z.local c ≡ z.local d → fire_at z c ≡ fire_at z d
fire_at_once z c d faithful same = elim (Bool-cases (is_ambiguous_local_minute z (z.local c))) [
  | inl twice ↦
      fire_at_twice z c twice ∙ ap (z.utc false) same ∙ sym (fire_at_twice z d (rw same at twice))
  | inr plain ↦
      let plain' : is_ambiguous_local_minute z (z.local d) ≡ false = rw same at plain in
      fire_at_plain z c plain
      ∙ sym (only_instant z c faithful plain)
      ∙ ap (z.utc false) same
      ∙ only_instant z d faithful plain'
      ∙ sym (fire_at_plain z d plain')
]
