-- ===== src/Scheduler/Invariant.antt =====
-- What the tables of src/assistant/scheduler/store.py keep to, through every statement.
pub mod Statements
pub mod Preserved
use xone_assistant.Prelude.{
  ℕ, ◌≤◌, Bool, true, false, not, ◌&&◌, ◌||◌, List, ◌≡◌, leb, is_some, All,
}
use xone_assistant.Sql.{row_count}
use xone_assistant.Scheduler.Rows.{
  Trigger, Tables, Status, acked, dead, is_sent, fires, trigger_has,
}

abbrev pub is_acked : Status → Bool
is_acked acked = true
is_acked _ = false

abbrev pub is_dead : Status → Bool
is_dead dead = true
is_dead _ = false

-- A trigger that is sent or acked has the time of it, and one that is dead says why. Its id is one
-- that was given out.
abbrev pub is_sound : ℕ → Trigger → Bool
is_sound last t =
    leb t.id last
    && (not (is_sent t.status) || is_some t.sent_at)
    && (not (is_acked t.status) || is_some t.acked_at)
    && (not (is_dead t.status) || is_some t.last_error)

pub record IsValid (db : Tables) : Type 0 where
  pub rows : All (λ t. is_sound db.last_trigger_id t ≡ true) db.triggers
  -- UNIQUE(schedule_id, scheduled_for): a schedule fires at most once at each time
  pub fires_once : (schedule_id at : ℕ) → fires schedule_id at db.triggers ≤ 1
  pub ids_once : (i : ℕ) → row_count (trigger_has i) db.triggers ≤ 1
