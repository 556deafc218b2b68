-- ===== src/Scheduler/Lost.antt =====
-- Triggers that no task takes up again (src/assistant/scheduler/store.py, loop.py, dispatcher.py).
pub mod Marks
pub mod Ticks
pub mod Forever
pub mod Failed
use xone_assistant.Prelude.{
  ℕ, String, ◌+◌, ◌≤◌, Bool, true, false, not, ◌&&◌, ◌||◌, Option, none, some, List, [], ◌∷◌, ◌++◌,
  ◌≡◌, refl, arith, ◌==◌, ltb, if◌then◌else◌, All, All-append, inl, inr, Bool-cases,
}
use xone_assistant.Sql.{row_count}
use xone_assistant.Sql.Update.{All-update_where}
use xone_assistant.Scheduler.Rows.{
  Trigger, Tables, is_pending, is_sent, pending, fires, schedule_has,
}
use xone_assistant.Scheduler.Triggers.{
  is_saturated, set_triggers, new_trigger, try_materialize_trigger, sweep_expired_sent,
  clean_slate_sent, revert, requeue, has_expired, was_sent, expired_error,
}
use xone_assistant.Scheduler.Process.{ScheduledTrigger, Process}

-- If the row is the one of trigger i, it is pending, and not for a full queue.
abbrev pub lies : ℕ → Trigger → Bool
lies i t = not (t.id == i) || (is_pending t.status && not (is_saturated t.last_error))

-- The same of a table, whose next trigger is another one.
pub record Lies (i : ℕ) (db : Tables) : Type 0 where
  pub rows : All (λ t. lies i t ≡ true) db.triggers
  pub old : i ≤ db.last_trigger_id

-- The trigger is pending, but not for a full queue, and does not stand in the queue.
pub record Lost (i : ℕ) (p : Process) : Type 0 where
  pub tables : Lies i p.tables
  pub unqueued : All (λ q. (q.trigger_id == i) ≡ false) p.queue

pub set_triggers-Lies :
    (i : ℕ) (p : Trigger → Bool) (f : Trigger → Trigger) (db : Tables)
    → ((r : Trigger) → lies i r ≡ true → p r ≡ true → lies i (f r) ≡ true)
    → Lies i db
    → Lies i (set_triggers p f db)
unfolding set_triggers
set_triggers-Lies i p f db hit h = record {
  rows =
      All-update_where (λ t. lies i t ≡ true) (λ t. lies i t ≡ true) p f db.triggers hit
        (λ r k e. k) h.rows;
  old = h.old;
}

-- An UPDATE of the rows of another trigger.
pub set_triggers-Lies_other :
    (i j : ℕ) (p : Trigger → Bool) (f : Trigger → Trigger) (db : Tables)
    → ((r : Trigger) → p r ≡ true → (r.id == j) ≡ true)
    → ((r : Trigger) → (f r).id ≡ r.id)
    → (j == i) ≡ false
    → Lies i db
    → Lies i (set_triggers p f db)
set_triggers-Lies_other i j p f db here same other h =
    set_triggers-Lies i p f db (λ r k e. ground (arith, here r e, same r, other)) h

pub sweep_expired_sent-Lies :
    (i now timeout : ℕ) (db : Tables) → Lies i db → Lies i (sweep_expired_sent now timeout db).1
unfolding sweep_expired_sent
sweep_expired_sent-Lies i now timeout db h =
    set_triggers-Lies i (has_expired now timeout) (revert expired_error) db (λ r k e. ground arith)
      h

pub clean_slate_sent-Lies : (i : ℕ) (db : Tables) → Lies i db → Lies i (clean_slate_sent db).1
unfolding clean_slate_sent
clean_slate_sent-Lies i db h = set_triggers-Lies i was_sent requeue db (λ r k e. ground arith) h

new_trigger-lies :
    (i now schedule_id : ℕ) (prompt : String) (at j : ℕ)
    → lies i (new_trigger now schedule_id prompt at j) ≡ true
unfolding new_trigger is_saturated
new_trigger-lies i now schedule_id prompt at j = ground arith

-- The tables stay so, and the trigger that is made is another one.
pub try_materialize_trigger-Lies :
    (i now schedule_id : ℕ) (prompt : String) (at : ℕ) (db : Tables)
    → Lies i db
    → Lies i (try_materialize_trigger now schedule_id prompt at db).1
unfolding try_materialize_trigger
try_materialize_trigger-Lies i now schedule_id prompt at db h =
    elim (Bool-cases (
      ltb 0 (fires schedule_id at db.triggers)
      || not (ltb 0 (row_count (schedule_has schedule_id) db.schedules)))) [
        | inl refused ↦ rw refused h
        | inr made ↦ rw made (record {
          rows =
              All-append (λ t. lies i t ≡ true) db.triggers _ h.rows
                (new_trigger-lies i now schedule_id prompt at (db.last_trigger_id + 1), tt);
          old = let o = h.old in omega arith;
        })
      ]

pub try_materialize_trigger-id :
    (now schedule_id : ℕ) (prompt : String) (at : ℕ) (db : Tables) (j : ℕ)
    → (try_materialize_trigger now schedule_id prompt at db).0 ≡ some j
    → j ≡ db.last_trigger_id + 1
unfolding try_materialize_trigger
try_materialize_trigger-id now schedule_id prompt at db j e =
    elim (Bool-cases (
      ltb 0 (fires schedule_id at db.triggers)
      || not (ltb 0 (row_count (schedule_has schedule_id) db.schedules)))) [
        | inl refused ↦ let e' : none ≡ some j = rw refused at e in absurd (cc)
        | inr made ↦ let e' : some (db.last_trigger_id + 1) ≡ some j = rw made at e in cc
      ]
