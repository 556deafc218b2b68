-- ===== src/Scheduler/Process.antt =====
-- What the producer (src/assistant/scheduler/loop.py) and the consumer
-- (src/assistant/scheduler/dispatcher.py) share: the queue, the set of the triggers in flight, the
-- recent triggers of the dispatcher, and the tables. A set stands as a list.
use xone_assistant.Prelude.{
  ℕ, String, Bool, not, ◌&&◌, Option, List, [], ◌∷◌, ltb, leb, ◌==◌, if◌then◌else◌, keep, elem,
  length,
}
use xone_assistant.Cron.Split.{Unicode}
use xone_assistant.Cron.Calendar.{Zone}
use xone_assistant.Scheduler.Rows.{Tables, no_tables}

pub record ScheduledTrigger : Type 0 where
  pub trigger_id : ℕ
  pub schedule_id : ℕ
  pub prompt : String
  pub scheduled_for : ℕ

pub record Process : Type 0 where
  pub tables : Tables
  pub inflight : List ℕ
  pub queue : List ScheduledTrigger
  pub lru : List ℕ

abbrev pub no_process : Process
no_process = record { tables = no_tables; inflight = []; queue = []; lru = [] }

pub record Settings : Type 0 where
  pub catchup_window_s : ℕ
  pub dead_attempts_threshold : ℕ
  pub sent_revert_timeout_s : ℕ
  pub dispatcher_queue_size : ℕ
  pub reclaim_older_than_s : ℕ

-- What is read from Python and from the system: its Unicode tables, ZoneInfo(name), the text of an
-- instant and the text of a number.
pub record System : Type 0 where
  pub unicode : Unicode
  pub zone_info : String → Option Zone
  pub isoformat : ℕ → String
  pub str : ℕ → String

-- set.discard
abbrev pub discard : ℕ → List ℕ → List ℕ
discard i xs = keep (λ x. not (x == i)) xs

-- set.add
abbrev pub add : ℕ → List ℕ → List ℕ
add i xs = if elem i xs then xs else i ∷ xs

-- asyncio.Queue.full: a size of 0 is no bound
abbrev pub is_full : Settings → List ScheduledTrigger → Bool
is_full settings queue =
    ltb 0 settings.dispatcher_queue_size && leb settings.dispatcher_queue_size (length queue)
