-- ===== src/Scheduler/Histories.antt =====
-- Runs of the scheduler: what the owner's tools, the ticks, the dispatcher and a restart do, one
-- after the other (src/assistant/scheduler/, src/assistant/main.py).
pub mod Steps
use xone_assistant.Prelude.{ℕ, String, List, [], ◌∷◌}
use xone_assistant.Scheduler.Rows.{Tables}
use xone_assistant.Scheduler.Schedules.{add_schedule, disable_schedule, enable_schedule}
use xone_assistant.Scheduler.Triggers.{clean_slate_sent}
use xone_assistant.Scheduler.Process.{Process, Settings, System}
use xone_assistant.Scheduler.Loop.{tick_once}
use xone_assistant.Scheduler.Dispatcher.{Turn, Send, dispatch}

pub data Move : Type 0 where
  plan : (cron prompt tz : String) (max_schedules : ℕ) → Move
  disable : (schedule_id : ℕ) → Move
  enable : (schedule_id : ℕ) → Move
  tick : Move
  consume : Turn → Send → Move
  restart : Move

-- Memory is lost, and `clean_slate_sent` runs before the tasks start.
unfoldable pub boot : Process → Process
unfolding clean_slate_sent
boot p = record { tables = (clean_slate_sent p.tables).1; inflight = []; queue = []; lru = [] }

module _ (sys : System) (settings : Settings) where
  unfoldable pub step : ℕ → Move → Process → Process
  step now (plan cron prompt tz max_schedules) p = record p {
    tables = (add_schedule now cron prompt tz max_schedules p.tables).1;
  }
  step now (disable i) p = record p { tables = (disable_schedule i p.tables).1 }
  step now (enable i) p = record p { tables = (enable_schedule i p.tables).1 }
  step now tick p = tick_once sys settings now p
  step now (consume turn send) p = (dispatch sys settings turn send now p).0
  step now restart p = boot p

  unfoldable pub run : List (ℕ × Move) → Process → Process
  run [] p = p
  run ((now, m) ∷ moves) p = run moves (step now m p)
