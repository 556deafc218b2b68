-- ===== src/Scheduler/Rows.antt =====
-- The tables `schedules` and `triggers` as src/assistant/state/db.py declares them. Times are seconds
-- since the epoch; a stored timestamp is always one that the program wrote, in whole seconds.
use xone_assistant.Prelude.{ℕ, String, Bool, true, false, ◌&&◌, Option, List, [], ◌==◌}
use xone_assistant.Sql.{row_count}

pub record Schedule : Type 0 where
  pub id : ℕ
  pub cron : String
  pub prompt : String
  pub tz : String
  pub enabled : Bool
  pub created_at : ℕ
  pub last_fire_at : Option ℕ

pub data Status : Type 0 where
  pending sent acked dropped dead : Status

abbrev pub is_pending : Status → Bool
is_pending pending = true
is_pending _ = false

abbrev pub is_sent : Status → Bool
is_sent sent = true
is_sent _ = false

pub record Trigger : Type 0 where
  pub id : ℕ
  pub schedule_id : ℕ
  pub prompt : String
  pub scheduled_for : ℕ
  pub status : Status
  pub attempts : ℕ
  pub last_error : Option String
  pub created_at : ℕ
  pub sent_at : Option ℕ
  pub acked_at : Option ℕ

-- Both tables, with their rows of sqlite_sequence.
pub record Tables : Type 0 where
  pub schedules : List Schedule
  pub last_schedule_id : ℕ
  pub triggers : List Trigger
  pub last_trigger_id : ℕ

abbrev pub no_tables : Tables
no_tables = record { schedules = []; last_schedule_id = 0; triggers = []; last_trigger_id = 0 }

abbrev pub schedule_has : ℕ → Schedule → Bool
schedule_has i s = s.id == i

abbrev pub trigger_has : ℕ → Trigger → Bool
trigger_has i t = t.id == i

-- What UNIQUE(schedule_id, scheduled_for) compares.
abbrev pub is_fire : ℕ → ℕ → Trigger → Bool
is_fire schedule_id at t = t.schedule_id == schedule_id && t.scheduled_for == at

unfoldable pub fires : ℕ → ℕ → List Trigger → ℕ
unfolding row_count
fires schedule_id at triggers = row_count (is_fire schedule_id at) triggers
