-- ===== src/Scheduler/Schedules.antt =====
-- The schedules of src/assistant/scheduler/store.py: adding, listing, enabling and disabling.
use xone_assistant.Prelude.{
  ℕ, ◌+◌, String, Bool, true, false, not, ◌&&◌, Option, none, some, List, [], ◌∷◌, ◌++◌, ◌==◌, ltb,
  leb, if◌then◌else◌, keep, take, is_some, Result, ok, raise, value_error,
}
use xone_assistant.Sql.{update_where, row_count, fetch_one, order_by, older_than}
use xone_assistant.Scheduler.Rows.{Schedule, Tables, schedule_has}

abbrev pub is_enabled : Schedule → Bool
is_enabled s = s.enabled

abbrev pub new_schedule : ℕ → String → String → String → ℕ → Schedule
new_schedule now cron prompt tz i = record {
  id = i;
  cron = cron;
  prompt = prompt;
  tz = tz;
  enabled = true;
  created_at = now;
  last_fire_at = none;
}

unfoldable pub add_schedule : ℕ → String → String → String → ℕ → Tables → Result ℕ × Tables
unfolding row_count
add_schedule now cron prompt tz max_schedules db =
    let i = db.last_schedule_id + 1 in
    if leb max_schedules (row_count is_enabled db.schedules) then (raise value_error, db) else (
      ok i,
      record db {
        schedules = db.schedules ++ new_schedule now cron prompt tz i ∷ [];
        last_schedule_id = i;
      },
    )

unfoldable pub list_schedules : Bool → Tables → List Schedule
unfolding order_by
list_schedules enabled_only db =
    order_by (λ s. s.id) (if enabled_only then keep is_enabled db.schedules else db.schedules)

unfoldable pub get_schedule : ℕ → Tables → Option Schedule
unfolding fetch_one
get_schedule i db = fetch_one (schedule_has i) db.schedules

unfoldable pub schedule_exists : ℕ → Tables → Bool
unfolding fetch_one
schedule_exists i db = is_some (fetch_one (schedule_has i) db.schedules)

abbrev can_disable : ℕ → Schedule → Bool
can_disable i s = s.id == i && s.enabled

abbrev can_enable : ℕ → Schedule → Bool
can_enable i s = s.id == i && not s.enabled

-- Whether the row changed, and the table after.
unfoldable pub disable_schedule : ℕ → Tables → Bool × Tables
unfolding update_where row_count
disable_schedule i db = (
  ltb 0 (row_count (can_disable i) db.schedules),
  record db {
    schedules = update_where (can_disable i) (λ s. record s { enabled = false }) db.schedules;
  },
)

unfoldable pub enable_schedule : ℕ → Tables → Bool × Tables
unfolding update_where row_count
enable_schedule i db = (
  ltb 0 (row_count (can_enable i) db.schedules),
  record db {
    schedules = update_where (can_enable i) (λ s. record s { enabled = true }) db.schedules;
  },
)

-- last_fire_at IS NOT NULL AND julianday('now') - julianday(last_fire_at) > ?/86400.0
abbrev fired_before : ℕ → ℕ → Option ℕ → Bool
fired_before window now none = false
fired_before window now (some t) = older_than window now t

unfoldable pub count_catchup_misses : ℕ → ℕ → Tables → ℕ
unfolding row_count
count_catchup_misses now catchup_window_s db =
    row_count (λ s. s.enabled && fired_before catchup_window_s now s.last_fire_at) db.schedules

abbrev fire_time : Option ℕ → ℕ
fire_time none = 0
fire_time (some t) = t

-- The schedules that are named in the recap, oldest fire first.
unfoldable pub top_missed_schedules : ℕ → Tables → List Schedule
unfolding order_by
top_missed_schedules limit db = take limit (
    order_by (λ s. fire_time s.last_fire_at)
      (keep (λ s. s.enabled && is_some s.last_fire_at) db.schedules))
