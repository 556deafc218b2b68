-- ===== src/Cron/Search.antt =====
-- `next_fire` and `is_due` of src/assistant/scheduler/cron.py. Instants are seconds of UTC, and the
-- cursor is a minute of UTC. Each loop recurs on the number of minutes up to its end. That a
-- datetime carries a zone is its type here, so the ValueErrors for naive ones have no place.
pub mod First
pub mod Fold
use xone_assistant.Prelude.{
  ℕ, zero, suc, ◌+◌, ◌-◌, ◌*◌, ◌/◌, Bool, true, false, ◌&&◌, Option, none, some, if◌then◌else◌, ltb,
}
use xone_assistant.Cron.Parse.{CronExpr}
use xone_assistant.Cron.Calendar.{Zone}
use xone_assistant.Cron.Matching.{is_existing_local_minute, is_ambiguous_local_minute, cron_matches}

module _ (z : Zone) (e : CronExpr) where
  -- The test of both loops.
  unfoldable pub is_hit : ℕ → Bool
  is_hit cursor = is_existing_local_minute z (z.local cursor) && cron_matches e (z.local cursor)

-- The minute that is returned for a hit.
unfoldable pub fire_at : Zone → ℕ → ℕ
fire_at z cursor =
    if is_ambiguous_local_minute z (z.local cursor) then z.utc false (z.local cursor) else cursor

module _ (z : Zone) (e : CronExpr) where
  unfoldable pub next_fire_from : ℕ → ℕ → Option ℕ
  next_fire_from zero cursor = none
  next_fire_from (suc left) cursor = elim (is_hit z e cursor) [
    | true ↦ some (fire_at z cursor)
    | false ↦ next_fire_from left (cursor + 1)
  ]

  unfoldable pub next_fire : ℕ → ℕ → Option ℕ
  unfolding next_fire_from
  next_fire from_utc max_lookahead_days =
      next_fire_from (max_lookahead_days * 1440) (from_utc / 60 + 1)

-- the first cursor of `is_due`
abbrev pub due_start : Option ℕ → ℕ → ℕ
due_start none floor_now = floor_now
due_start (some last) floor_now = last / 60 + 1

-- (floor_now - cursor).total_seconds() > catchup_window_s
abbrev pub is_too_old : ℕ → ℕ → ℕ → Bool
is_too_old floor_now catchup_window_s cursor = ltb catchup_window_s ((floor_now - cursor) * 60)

module _ (z : Zone) (e : CronExpr) where
  unfoldable pub is_due_from : ℕ → ℕ → ℕ → ℕ → Option ℕ
  is_due_from zero floor_now window cursor = none
  is_due_from (suc left) floor_now window cursor = elim (is_hit z e cursor) [
    | true ↦ elim (is_too_old floor_now window cursor) [
      | true ↦ is_due_from left floor_now window (cursor + 1)
      | false ↦ some (fire_at z cursor)
    ]
    | false ↦ is_due_from left floor_now window (cursor + 1)
  ]

  unfoldable pub is_due : Option ℕ → ℕ → ℕ → Option ℕ
  unfolding is_due_from
  is_due last_fire_at now_utc catchup_window_s =
      let floor_now = now_utc / 60 in
      let start = due_start last_fire_at floor_now in
      is_due_from (floor_now + 1 - start) floor_now catchup_window_s start
