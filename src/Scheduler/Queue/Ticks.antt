-- ===== src/Scheduler/Queue/Ticks.antt =====
-- A tick keeps the queue in order (src/assistant/scheduler/loop.py).
use xone_assistant.Prelude.{
  ℕ, String, ◌+◌, ◌*◌, ◌≤◌, true, false, not, ◌||◌, Option, none, some, List, [], ◌∷◌, ◌++◌, ◌≡◌,
  ◌⊎◌, refl, arith, ltb, leb, All, All-map, inl, inr, Bool-cases,
}
use xone_assistant.Sql.{row_count}
use xone_assistant.Sql.Update.{row_count-append, row_count-eq_zero}
use xone_assistant.Scheduler.Rows.{Trigger, Tables, Schedule, trigger_has, fires, schedule_has}
use xone_assistant.Scheduler.Triggers.{try_materialize_trigger, mark_sent}
use xone_assistant.Scheduler.Process.{
  ScheduledTrigger, Process, Settings, System, add, discard, is_full,
}
use xone_assistant.Scheduler.Loop.{
  enqueue_fresh, enqueue_again, enqueue_materialized, fire_due, reclaim, scheduled,
}
use xone_assistant.Scheduler.Invariant.{IsValid}
use xone_assistant.Scheduler.Invariant.Statements.{try_materialize_trigger-IsValid}
use xone_assistant.Scheduler.Invariant.Preserved.{mark_sent-Keeps, note_queue_saturation-Keeps}
use xone_assistant.Scheduler.Queue.{queue_has, IsOrderly, refused-IsOrderly, queued-IsOrderly}

-- Other tables, whose triggers may be more.
pub tables-IsOrderly :
    (settings : Settings) (p : Process) (after : Tables)
    → IsOrderly settings p
    → IsValid after
    → p.tables.last_trigger_id ≤ after.last_trigger_id
    → IsOrderly settings (record p { tables = after })
tables-IsOrderly settings p after h valid more = record {
  tables = valid;
  known =
      All-map (λ q. leb q.trigger_id p.tables.last_trigger_id ≡ true)
        (λ q. leb q.trigger_id after.last_trigger_id ≡ true) p.queue
        (λ q e. ground (arith, more, e)) h.known;
  in_flight = h.in_flight;
  queued_once = h.queued_once;
  queue_le = h.queue_le;
  lru_le = h.lru_le;
}

try_materialize_trigger-cases :
    (now schedule_id : ℕ) (prompt : String) (at : ℕ) (db : Tables)
    → (try_materialize_trigger now schedule_id prompt at db ≡ (none, db))
      ⊎ (((try_materialize_trigger now schedule_id prompt at db).0 ≡ some (db.last_trigger_id + 1))
          × ((try_materialize_trigger now schedule_id prompt at db).1.last_trigger_id
              ≡ db.last_trigger_id + 1))
unfolding try_materialize_trigger
try_materialize_trigger-cases now schedule_id prompt at db =
    elim (Bool-cases (
      ltb 0 (fires schedule_id at db.triggers)
      || not (ltb 0 (row_count (schedule_has schedule_id) db.schedules)))) [
        | inl refused ↦ inl (rw refused)
        | inr made ↦ inr (rw made, rw made)
      ]

module _ (settings : Settings) (now : ℕ) where
  enqueue_fresh-IsOrderly :
      (error : String) (trig : ScheduledTrigger) (p : Process)
      → IsOrderly settings p
      → leb trig.trigger_id p.tables.last_trigger_id ≡ true
      → row_count (queue_has trig.trigger_id) p.queue ≡ 0
      → IsOrderly settings (enqueue_fresh settings now error trig p)
  unfolding enqueue_fresh
  enqueue_fresh-IsOrderly error trig p h known absent =
      elim (Bool-cases (is_full settings p.queue)) [
        | inl full ↦
            rw (full, enqueue_fresh)
              (refused-IsOrderly settings trig.trigger_id p h _
                (note_queue_saturation-Keeps p.tables h.tables trig.trigger_id error) absent)
        | inr room ↦
            rw (room, enqueue_fresh)
              (queued-IsOrderly settings trig p h _
                (mark_sent-Keeps p.tables h.tables now trig.trigger_id) known absent room)
      ]

  absent_id :
      (i last : ℕ) (queue : List ScheduledTrigger)
      → All (λ q. leb q.trigger_id last ≡ true) queue
      → i ≡ last + 1
      → row_count (queue_has i) queue ≡ 0
  absent_id i last queue known new = row_count-eq_zero (queue_has i) queue (
      All-map (λ q. leb q.trigger_id last ≡ true) (λ q. queue_has i q ≡ false) queue
        (λ q e. ground (arith, new, e)) known)

  pub fire_due-IsOrderly :
      (error : String) (sch : Schedule) (due : Option ℕ) (p : Process)
      → IsOrderly settings p
      → IsOrderly settings (fire_due settings now error sch due p)
  unfolding fire_due enqueue_materialized
  fire_due-IsOrderly error sch none p h = h
  fire_due-IsOrderly error sch (some due) p h =
      let db = p.tables in
      let valid = try_materialize_trigger-IsValid db h.tables now sch.id sch.prompt (due * 60) in
      elim (try_materialize_trigger-cases now sch.id sch.prompt (due * 60) db) [
        | inl refused ↦ rw (refused, enqueue_materialized) h
        | inr (made, last) ↦
            rw (made, enqueue_materialized)
              (enqueue_fresh-IsOrderly error _ _
                (tables-IsOrderly settings p _ h valid (omega (arith, last)))
                (rw last (ground arith))
                (absent_id (db.last_trigger_id + 1) db.last_trigger_id p.queue h.known refl))
      ]

  enqueue_again-full :
      (t : Trigger) (p : Process)
      → is_full settings p.queue ≡ true
      → enqueue_again settings now t p ≡ record p { inflight = discard t.id (add t.id p.inflight) }
  unfolding enqueue_again
  enqueue_again-full t p full = rw (full, enqueue_again)

  enqueue_again-room :
      (t : Trigger) (p : Process)
      → is_full settings p.queue ≡ false
      → enqueue_again settings now t p ≡ record p {
        inflight = add t.id p.inflight;
        queue = p.queue ++ scheduled t ∷ [];
        tables = mark_sent now t.id p.tables;
      }
  unfolding enqueue_again
  enqueue_again-room t p room = rw (room, enqueue_again)

  -- The orphans that are left and the queue have no trigger twice.
  abbrev pub Apart : List Trigger → List ScheduledTrigger → Type 0
  Apart orphans queue =
      (i : ℕ) → row_count (trigger_has i) orphans + row_count (queue_has i) queue ≤ 1

  module _ (sys : System) where
    pub reclaim-IsOrderly :
        (orphans : List Trigger) (p : Process)
        → IsOrderly settings p
        → All (λ t. leb t.id p.tables.last_trigger_id ≡ true) orphans
        → Apart orphans p.queue
        → IsOrderly settings (reclaim sys settings now orphans p)
    unfolding reclaim row_count
    reclaim-IsOrderly [] p h known apart = h
    reclaim-IsOrderly (t ∷ orphans) p h known apart =
        let mine = apart t.id in
        let absent : row_count (queue_has t.id) p.queue ≡ 0 = ground (arith, mine) in
        elim (Bool-cases (is_full settings p.queue)) [
          | inl full ↦ rw (enqueue_again-full t p full) (
              reclaim-IsOrderly orphans _
                (refused-IsOrderly settings t.id p h p.tables
                  (record { valid = h.tables; last = refl }) absent)
                known.1 (λ i. let a = apart i in ground (arith, a)))
          | inr room ↦
              let keeps = mark_sent-Keeps p.tables h.tables now t.id in
              rw (enqueue_again-room t p room) (
                reclaim-IsOrderly orphans _
                  (queued-IsOrderly settings (scheduled t) p h _ keeps known.0 absent room)
                  (rw keeps.last known.1)
                  (λ i.
                    rw (row_count-append (queue_has i) p.queue (scheduled t ∷ []))
                      (let a = apart i in ground (arith, a))))
        ]
