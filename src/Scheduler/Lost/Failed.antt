-- ===== src/Scheduler/Lost/Failed.antt =====
-- A turn that fails loses its trigger (src/assistant/scheduler/dispatcher.py).
use xone_assistant.Prelude.{
  ℕ, String, ◌≤◌, true, false, List, ◌≡◌, arith, ◌==◌, leb, All, All-Unit, some,
}
use xone_assistant.Sql.Update.{All-update_where}
use xone_assistant.Scheduler.Rows.{Trigger, Tables}
use xone_assistant.Subagent.Store.Finish.{take_chars}
use xone_assistant.Scheduler.Schedules.{get_schedule}
use xone_assistant.Scheduler.Triggers.{is_saturated, set_triggers, revert, revert_to_pending}
use xone_assistant.Scheduler.Process.{ScheduledTrigger, Process, Settings, System}
use xone_assistant.Scheduler.Dispatcher.{
  failed, Send, retry, finish_turn, process, lru_seen, is_active,
}
use xone_assistant.Scheduler.Histories.{Move, run}
use xone_assistant.Scheduler.Lost.{lies, Lies, Lost}
use xone_assistant.Scheduler.Lost.Forever.{run-Lost}

module _ (i : ℕ) (error : String) (plain : is_saturated (some (take_chars 500 error)) ≡ false) where
  revert-lies : (r : Trigger) → lies i (revert (take_chars 500 error) r) ≡ true
  revert-lies r = ground (arith, plain)

  reverted-Lies : (db : Tables) → i ≤ db.last_trigger_id → Lies i (revert_to_pending i error db).1
  unfolding revert_to_pending set_triggers
  reverted-Lies db old = record {
    rows =
        All-update_where (λ (_ : Trigger). Unit {0}) (λ t. lies i t ≡ true) _ _ db.triggers
          (λ r k e. revert-lies r) (λ r k e. ground (arith, e)) (All-Unit db.triggers);
    old = old;
  }

  retry-under :
      (sys : System) (settings : Settings) (cause : String) (db : Tables)
      → leb settings.dead_attempts_threshold (revert_to_pending i error db).0 ≡ false
      → i ≤ db.last_trigger_id
      → Lies i (retry sys settings i error cause db).0
  unfolding retry
  retry-under sys settings cause db under old = rw under (reverted-Lies db old)

-- A turn that fails below the threshold, with an error that is not that of a full queue, is the
-- last one of its trigger: whatever runs then, the trigger stays pending outside the queue. The
-- id of the trigger is one that was given out, the trigger does not stand in the queue a second
-- time, it was not seen before, and its schedule is enabled.
pub run-process_failed :
    (sys : System) (settings : Settings) (trig : ScheduledTrigger) (error : String) (sent : Send)
    (now : ℕ) (p : Process) (moves : List (ℕ × Move))
    → is_saturated (some (take_chars 500 error)) ≡ false
    → trig.trigger_id ≤ p.tables.last_trigger_id
    → All (λ q. (q.trigger_id == trig.trigger_id) ≡ false) p.queue
    → (lru_seen trig.trigger_id p.lru).0 ≡ false
    → is_active (get_schedule trig.schedule_id p.tables) ≡ true
    → leb settings.dead_attempts_threshold (revert_to_pending trig.trigger_id error p.tables).0
      ≡ false
    → Lost trig.trigger_id
        (run sys settings moves (process sys settings trig (failed error) sent now p).0)
unfolding process finish_turn
run-process_failed sys settings trig error sent now p moves plain old unqueued new on under =
    run-Lost trig.trigger_id sys settings moves _ (
      rw (new, on, process)
        (record {
          tables = retry-under trig.trigger_id error plain sys settings error p.tables under old;
          unqueued = unqueued;
        }))
