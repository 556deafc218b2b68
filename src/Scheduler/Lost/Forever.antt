-- ===== src/Scheduler/Lost/Forever.antt =====
-- A trigger that is lost stays so (src/assistant/scheduler/loop.py, dispatcher.py).
use xone_assistant.Prelude.{
  ℕ, true, false, List, [], ◌∷◌, ◌≡◌, ◌==◌, leb, All, inl, inr, Bool-cases,
}
use xone_assistant.Sql.{row_count}
use xone_assistant.Scheduler.Schedules.{
  add_schedule, disable_schedule, enable_schedule, list_schedules, get_schedule, is_enabled,
}
use xone_assistant.Scheduler.Triggers.{sweep_expired_sent, reclaim_pending_not_queued}
use xone_assistant.Scheduler.Process.{ScheduledTrigger, Process, Settings, System}
use xone_assistant.Scheduler.Loop.{tick_once, scan}
use xone_assistant.Scheduler.Dispatcher.{
  Turn, Send, process, dispatch, dispatch_head, lru_seen, is_active,
}
use xone_assistant.Scheduler.Histories.{
  Move, plan, disable, enable, tick, consume, restart, boot, step, run,
}
use xone_assistant.Scheduler.Histories.Steps.{scan_keeps, reclaim_keeps}
use xone_assistant.Scheduler.Lost.{Lost, sweep_expired_sent-Lies, clean_slate_sent-Lies}
use xone_assistant.Scheduler.Lost.Marks.{mark_dropped-Lies, finish_turn-Lies}
use xone_assistant.Scheduler.Lost.Ticks.{fire_due-Lost, enqueue_again-Lost, orphans-other}

module _ (i : ℕ) (sys : System) (settings : Settings) where
  tick_once-Lost : (now : ℕ) (p : Process) → Lost i p → Lost i (tick_once sys settings now p)
  unfolding tick_once
  tick_once-Lost now p h =
      let swept : Process = record p {
        tables = (sweep_expired_sent now settings.sent_revert_timeout_s p.tables).1;
      } in
      let schedules = list_schedules true swept.tables in
      let scanned = scan sys settings now schedules swept in
      let lost =
        scan_keeps sys settings now (Lost i) (λ _. Unit {0})
          (λ sch due q k. fire_due-Lost i settings now _ sch due q k) schedules swept
          (record {
            tables = sweep_expired_sent-Lies i now settings.sent_revert_timeout_s p.tables h.tables;
            unqueued = h.unqueued;
          }) in
      reclaim_keeps sys settings now (Lost i) (λ t. (t.id == i) ≡ false)
        (λ t q other k. enqueue_again-Lost i settings now t q other k)
        (reclaim_pending_not_queued now scanned.inflight settings.reclaim_older_than_s
          scanned.tables)
        scanned
        (orphans-other i settings now scanned.inflight settings.reclaim_older_than_s scanned.tables
          lost.tables)
        lost

  process-Lost :
      (trig : ScheduledTrigger) (turn : Turn) (sent : Send) (now : ℕ) (p : Process)
      → (trig.trigger_id == i) ≡ false
      → Lost i p
      → Lost i (process sys settings trig turn sent now p).0
  unfolding process
  process-Lost trig turn sent now p other h =
      let j = trig.trigger_id in
      let dropped = mark_dropped-Lies i j other p.tables h.tables in
      elim (Bool-cases (lru_seen j p.lru).0) [
        | inl seen ↦ rw (seen, process) (record { tables = dropped; unqueued = h.unqueued })
        | inr new ↦ elim (Bool-cases (is_active (get_schedule trig.schedule_id p.tables))) [
          | inr off ↦ rw (new, off, process) (record { tables = dropped; unqueued = h.unqueued })
          | inl on ↦
              rw (new, on, process)
                (record {
                  tables = finish_turn-Lies i j other sys settings turn sent now p.tables h.tables;
                  unqueued = h.unqueued;
                })
        ]
      ]

  dispatch_head-Lost :
      (turn : Turn) (sent : Send) (now : ℕ) (p : Process) (queue : List ScheduledTrigger)
      → All (λ q. (q.trigger_id == i) ≡ false) queue
      → Lost i p
      → Lost i (dispatch_head sys settings turn sent now p queue).0
  unfolding dispatch_head
  dispatch_head-Lost turn sent now p [] others h = h
  dispatch_head-Lost turn sent now p (trig ∷ queue) others h =
      let after =
        process-Lost trig turn sent now (record p { queue = queue }) others.0
          (record { tables = h.tables; unqueued = others.1 }) in
      record { tables = after.tables; unqueued = after.unqueued }

  dispatch-Lost :
      (turn : Turn) (sent : Send) (now : ℕ) (p : Process)
      → Lost i p
      → Lost i (dispatch sys settings turn sent now p).0
  unfolding dispatch
  dispatch-Lost turn sent now p h = dispatch_head-Lost turn sent now p p.queue h.unqueued h

  step-Lost : (now : ℕ) (m : Move) (p : Process) → Lost i p → Lost i (step sys settings now m p)
  unfolding step boot add_schedule disable_schedule enable_schedule
  step-Lost now (plan cron prompt tz cap) p h =
      elim (Bool-cases (leb cap (row_count is_enabled p.tables.schedules))) [
        | inl over ↦ rw over (record { tables = h.tables; unqueued = h.unqueued })
        | inr under ↦ rw under (record {
          tables = record { rows = h.tables.rows; old = h.tables.old };
          unqueued = h.unqueued;
        })
      ]
  step-Lost now (disable j) p h = record {
    tables = record { rows = h.tables.rows; old = h.tables.old };
    unqueued = h.unqueued;
  }
  step-Lost now (enable j) p h = record {
    tables = record { rows = h.tables.rows; old = h.tables.old };
    unqueued = h.unqueued;
  }
  step-Lost now tick p h = tick_once-Lost now p h
  step-Lost now (consume turn sent) p h = dispatch-Lost turn sent now p h
  step-Lost now restart p h = record {
    tables = clean_slate_sent-Lies i p.tables h.tables;
    unqueued = tt;
  }

  -- If the row with the id of a trigger is pending, with no error or another than that of a full
  -- queue, and the trigger is not in the queue, this stays so through any sequence of ticks, whole
  -- rounds of the dispatcher, changes of the schedules and restarts.
  pub run-Lost :
      (moves : List (ℕ × Move)) (p : Process) → Lost i p → Lost i (run sys settings moves p)
  unfolding run
  run-Lost [] p h = h
  run-Lost ((now, m) ∷ moves) p h = run-Lost moves (step sys settings now m p) (step-Lost now m p h)
