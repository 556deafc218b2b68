-- ===== src/Scheduler/Queue/Runs.antt =====
-- The queue is in order in every run (src/assistant/scheduler/loop.py, dispatcher.py).
use xone_assistant.Prelude.{
  ℕ, ◌≤◌, true, false, List, [], ◌∷◌, ◌≡◌, refl, arith, ◌==◌, leb, All, elem, inl, inr, Bool-cases,
  length,
}
use xone_assistant.Sql.{row_count}
use xone_assistant.Scheduler.Rows.{Tables, fires}
use xone_assistant.Scheduler.Schedules.{
  add_schedule, disable_schedule, enable_schedule, is_enabled, get_schedule,
}
use xone_assistant.Scheduler.Process.{
  ScheduledTrigger, Process, Settings, System, discard, no_process,
}
use xone_assistant.Scheduler.Dispatcher.{
  Turn, Send, process, dispatch, dispatch_head, lru_seen, is_active,
}
use xone_assistant.Scheduler.Histories.{
  Move, plan, disable, enable, tick, consume, restart, boot, step, run,
}
use xone_assistant.Scheduler.Invariant.Statements.{clean_slate_sent-IsValid}
use xone_assistant.Scheduler.Invariant.Preserved.{Keeps, mark_dropped-Keeps, finish_turn-Keeps}
use xone_assistant.Scheduler.Queue.{queue_has, IsOrderly, elem-discard, others}
use xone_assistant.Scheduler.Queue.Ticks.{tables-IsOrderly}
use xone_assistant.Scheduler.Queue.Orphans.{tick_once-IsOrderly}
use xone_assistant.Scheduler.Queue.Recent.{lru_seen-le}

module _ (sys : System) (settings : Settings) where
  process-IsOrderly :
      (trig : ScheduledTrigger) (turn : Turn) (sent : Send) (now : ℕ) (p : Process)
      → IsOrderly settings p
      → IsOrderly settings (process sys settings trig turn sent now p).0
  unfolding process
  process-IsOrderly trig turn sent now p h =
      let i = trig.trigger_id in
      let dropped = mark_dropped-Keeps p.tables h.tables i in
      elim (Bool-cases (lru_seen i p.lru).0) [
        | inl seen ↦ rw (seen, process) (with-tables p _ _ h dropped (lru_seen-le i p.lru h.lru_le))
        | inr new ↦ elim (Bool-cases (is_active (get_schedule trig.schedule_id p.tables))) [
          | inr off ↦
              rw (new, off, process) (with-tables p _ _ h dropped (lru_seen-le i p.lru h.lru_le))
          | inl on ↦
              rw (new, on, process)
                (with-tables p _ _ h
                  (finish_turn-Keeps sys settings i p.tables h.tables turn sent now)
                  (lru_seen-le i p.lru h.lru_le))
        ]
      ]
    where
      with-tables :
          (p : Process) (after : Tables) (lru : List ℕ)
          → IsOrderly settings p
          → Keeps p.tables after
          → length lru ≤ 256
          → IsOrderly settings (record p { lru = lru; tables = after })
      with-tables p after lru h k le = record {
        tables = k.valid;
        known = rw k.last h.known;
        in_flight = h.in_flight;
        queued_once = h.queued_once;
        queue_le = h.queue_le;
        lru_le = le;
      }

  -- A turn leaves the queue and the set of the triggers in flight.
  process-queue :
      (trig : ScheduledTrigger) (turn : Turn) (sent : Send) (now : ℕ) (p : Process)
      → ((process sys settings trig turn sent now p).0.queue ≡ p.queue)
        × ((process sys settings trig turn sent now p).0.inflight ≡ p.inflight)
  unfolding process
  process-queue trig turn sent now p = elim (Bool-cases (lru_seen trig.trigger_id p.lru).0) [
    | inl seen ↦ (rw (seen, process), rw (seen, process))
    | inr new ↦ elim (Bool-cases (is_active (get_schedule trig.schedule_id p.tables))) [
      | inr off ↦ (rw (new, off, process), rw (new, off, process))
      | inl on ↦ (rw (new, on, process), rw (new, on, process))
    ]
  ]

  head-IsOrderly :
      (p : Process) (trig : ScheduledTrigger) (queue : List ScheduledTrigger)
      → IsOrderly settings (record p { queue = trig ∷ queue })
      → IsOrderly settings (record p { queue = queue })
  unfolding row_count
  head-IsOrderly p trig queue h = record {
    tables = h.tables;
    known = h.known.1;
    in_flight = h.in_flight.1;
    queued_once = λ i. let once = h.queued_once i in omega arith;
    queue_le = λ bounded. let le = h.queue_le bounded in omega arith;
    lru_le = h.lru_le;
  }

  discarded :
      (i : ℕ) (inflight : List ℕ) (queue : List ScheduledTrigger)
      → All (λ q. elem q.trigger_id inflight ≡ true) queue
      → All (λ q. (q.trigger_id == i) ≡ false) queue
      → All (λ q. elem q.trigger_id (discard i inflight) ≡ true) queue
  discarded i inflight [] h o = tt
  discarded i inflight (q ∷ queue) h o =
      (elem-discard q.trigger_id i inflight o.0 h.0, discarded i inflight queue h.1 o.1)

  only_head :
      (trig : ScheduledTrigger) (queue : List ScheduledTrigger)
      → row_count (queue_has trig.trigger_id) (trig ∷ queue) ≤ 1
      → row_count (queue_has trig.trigger_id) queue ≡ 0
  unfolding row_count
  only_head trig queue once = ground (arith, once)

  discard-IsOrderly :
      (i : ℕ) (p : Process)
      → row_count (queue_has i) p.queue ≡ 0
      → IsOrderly settings p
      → IsOrderly settings (record p { inflight = discard i p.inflight })
  discard-IsOrderly i p absent h = record {
    tables = h.tables;
    known = h.known;
    in_flight = discarded i p.inflight p.queue h.in_flight (others i p.queue absent);
    queued_once = h.queued_once;
    queue_le = h.queue_le;
    lru_le = h.lru_le;
  }

  dispatch_head-IsOrderly :
      (turn : Turn) (sent : Send) (now : ℕ) (p : Process) (queue : List ScheduledTrigger)
      → IsOrderly settings p
      → IsOrderly settings (record p { queue = queue })
      → IsOrderly settings (dispatch_head sys settings turn sent now p queue).0
  unfolding dispatch_head
  dispatch_head-IsOrderly turn sent now p [] h k = h
  dispatch_head-IsOrderly turn sent now p (trig ∷ queue) h k =
      let rest = record p { queue = queue } in
      let same = process-queue trig turn sent now rest in
      discard-IsOrderly trig.trigger_id _
        (rw same.0 (only_head trig queue (k.queued_once trig.trigger_id)))
        (process-IsOrderly trig turn sent now rest (head-IsOrderly p trig queue k))

  dispatch-IsOrderly :
      (turn : Turn) (sent : Send) (now : ℕ) (p : Process)
      → IsOrderly settings p
      → IsOrderly settings (dispatch sys settings turn sent now p).0
  unfolding dispatch
  dispatch-IsOrderly turn sent now p h = dispatch_head-IsOrderly turn sent now p p.queue h h

  -- Statements on the schedules leave the triggers.
  schedules-IsOrderly :
      (p : Process) (after : Tables)
      → after.triggers ≡ p.tables.triggers
      → after.last_trigger_id ≡ p.tables.last_trigger_id
      → IsOrderly settings p
      → IsOrderly settings (record p { tables = after })
  schedules-IsOrderly p after triggers last h =
      tables-IsOrderly settings p after h
        (record {
          rows = rw (triggers, last) h.tables.rows;
          fires_once = rw triggers h.tables.fires_once;
          ids_once = rw triggers h.tables.ids_once;
        })
        (omega (arith, last))

  step-IsOrderly :
      (now : ℕ) (m : Move) (p : Process)
      → IsOrderly settings p
      → IsOrderly settings (step sys settings now m p)
  unfolding step boot add_schedule disable_schedule enable_schedule
  step-IsOrderly now (plan cron prompt tz cap) p h =
      elim (Bool-cases (leb cap (row_count is_enabled p.tables.schedules))) [
        | inl over ↦ rw over (schedules-IsOrderly p _ refl refl h)
        | inr under ↦ rw under (schedules-IsOrderly p _ refl refl h)
      ]
  step-IsOrderly now (disable j) p h = schedules-IsOrderly p _ refl refl h
  step-IsOrderly now (enable j) p h = schedules-IsOrderly p _ refl refl h
  step-IsOrderly now tick p h = tick_once-IsOrderly sys settings now p h
  step-IsOrderly now (consume turn sent) p h = dispatch-IsOrderly turn sent now p h
  step-IsOrderly now restart p h = record {
    tables = clean_slate_sent-IsValid p.tables h.tables;
    known = tt;
    in_flight = tt;
    queued_once = λ i. row_count-nil i;
    queue_le = λ bounded. omega arith;
    lru_le = omega arith;
  }
    where
      row_count-nil : (i : ℕ) → row_count (queue_has i) [] ≤ 1
      row_count-nil i = omega arith

  -- Every run of ticks, dispatches, changes of the schedules and restarts keeps this order, once
  -- it holds: a schedule has at most one trigger for each time, ids are not used twice, a trigger
  -- that is sent, acked or dead has its time or its error; each queued trigger has an id that was
  -- given out, is marked as in flight and stands in the queue once; the queue and the memory of
  -- the dispatcher keep to their sizes.
  pub run-IsOrderly :
      (moves : List (ℕ × Move)) (p : Process)
      → IsOrderly settings p
      → IsOrderly settings (run sys settings moves p)
  unfolding run
  run-IsOrderly [] p h = h
  run-IsOrderly ((now, m) ∷ moves) p h =
      run-IsOrderly moves (step sys settings now m p) (step-IsOrderly now m p h)

pub no_process-IsOrderly : (settings : Settings) → IsOrderly settings no_process
unfolding row_count fires
no_process-IsOrderly settings = record {
  tables = record { rows = tt; fires_once = λ s t. omega arith; ids_once = λ i. omega arith };
  known = tt;
  in_flight = tt;
  queued_once = λ i. omega arith;
  queue_le = λ bounded. omega arith;
  lru_le = omega arith;
}
