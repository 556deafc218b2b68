-- ===== src/Scheduler/Lost/Ticks.antt =====
-- A tick leaves a lost trigger lost (src/assistant/scheduler/loop.py).
use xone_assistant.Prelude.{
  ℕ, String, ◌*◌, true, false, not, Option, none, some, List, ◌≡◌, refl, arith, ◌==◌, All,
  All-append, All-keep, All-of_keep, inl, inr, Bool-cases, elem,
}
use xone_assistant.Scheduler.Rows.{Trigger, Tables, Schedule}
use xone_assistant.Scheduler.Triggers.{reclaim_pending_not_queued, can_reclaim}
use xone_assistant.Scheduler.Process.{ScheduledTrigger, Process, Settings, is_full}
use xone_assistant.Scheduler.Loop.{enqueue_fresh, enqueue_again, enqueue_materialized, fire_due}
use xone_assistant.Scheduler.Lost.{
  lies, Lies, Lost, try_materialize_trigger-Lies, try_materialize_trigger-id,
}
use xone_assistant.Scheduler.Lost.Marks.{mark_sent-Lies, note_queue_saturation-Lies}

module _ (i : ℕ) (settings : Settings) (now : ℕ) where
  enqueue_fresh-Lost :
      (error : String) (trig : ScheduledTrigger) (p : Process)
      → (trig.trigger_id == i) ≡ false
      → Lost i p
      → Lost i (enqueue_fresh settings now error trig p)
  unfolding enqueue_fresh
  enqueue_fresh-Lost error trig p other h = elim (Bool-cases (is_full settings p.queue)) [
    | inl full ↦
        rw (full, enqueue_fresh)
          (record {
            tables = note_queue_saturation-Lies i trig.trigger_id other error p.tables h.tables;
            unqueued = h.unqueued;
          })
    | inr room ↦
        rw (room, enqueue_fresh)
          (record {
            tables = mark_sent-Lies i trig.trigger_id other now p.tables h.tables;
            unqueued =
                All-append (λ q. (q.trigger_id == i) ≡ false) p.queue _ h.unqueued (other, tt);
          })
  ]

  pub enqueue_again-Lost :
      (t : Trigger) (p : Process)
      → (t.id == i) ≡ false
      → Lost i p
      → Lost i (enqueue_again settings now t p)
  unfolding enqueue_again
  enqueue_again-Lost t p other h = elim (Bool-cases (is_full settings p.queue)) [
    | inl full ↦ rw (full, enqueue_again) (record { tables = h.tables; unqueued = h.unqueued })
    | inr room ↦
        rw (room, enqueue_again)
          (record {
            tables = mark_sent-Lies i t.id other now p.tables h.tables;
            unqueued =
                All-append (λ q. (q.trigger_id == i) ≡ false) p.queue _ h.unqueued (other, tt);
          })
  ]

  enqueue_materialized-Lost :
      (error : String) (sch : Schedule) (at : ℕ) (made : Option ℕ) (p : Process)
      → ((j : ℕ) → made ≡ some j → (j == i) ≡ false)
      → Lost i p
      → Lost i (enqueue_materialized settings now error sch at made p)
  unfolding enqueue_materialized
  enqueue_materialized-Lost error sch at none p fresh h = h
  enqueue_materialized-Lost error sch at (some j) p fresh h =
      enqueue_fresh-Lost error _ p (fresh j refl) h

  pub fire_due-Lost :
      (error : String) (sch : Schedule) (due : Option ℕ) (p : Process)
      → Lost i p
      → Lost i (fire_due settings now error sch due p)
  unfolding fire_due
  fire_due-Lost error sch none p h = h
  fire_due-Lost error sch (some due) p h =
      let old = h.tables.old in
      enqueue_materialized-Lost error sch (due * 60) _ _
        (λ j e.
          let next = try_materialize_trigger-id now sch.id sch.prompt (due * 60) p.tables j e in
          ground (arith, next, old))
        (record {
          tables =
              try_materialize_trigger-Lies i now sch.id sch.prompt (due * 60) p.tables h.tables;
          unqueued = h.unqueued;
        })

  can_reclaim-other :
      (older : ℕ) (t : Trigger)
      → lies i t ≡ true
      → can_reclaim now older t ≡ true
      → (t.id == i) ≡ false
  can_reclaim-other older t h e = ground arith

  pub orphans-other :
      (inflight : List ℕ) (older : ℕ) (db : Tables)
      → Lies i db
      → All (λ t. (t.id == i) ≡ false) (reclaim_pending_not_queued now inflight older db)
  unfolding reclaim_pending_not_queued
  orphans-other inflight older db h =
      All-keep (λ (t : Trigger). (t.id == i) ≡ false) (λ t. not (elem t.id inflight)) _
        (All-of_keep (λ t. lies i t ≡ true) (λ t. (t.id == i) ≡ false) (can_reclaim now older)
          db.triggers (can_reclaim-other older) h.rows)
