-- ===== src/Scheduler/Queue.antt =====
-- The queue between the producer and the consumer (src/assistant/scheduler/loop.py, dispatcher.py).
pub mod Ticks
pub mod Orphans
pub mod Recent
pub mod Dedup
pub mod Runs
use xone_assistant.Prelude.{
  ℕ, ◌+◌, ◌≤◌, ◌<◌, Bool, true, false, not, ◌&&◌, ◌||◌, List, [], ◌∷◌, ◌++◌, ◌≡◌, refl, arith, ◌==◌,
  ltb, leb, if◌then◌else◌, All, All-append, All-map, length, length-append, elem, keep, inl, inr,
  Bool-cases,
}
use xone_assistant.Sql.{row_count}
use xone_assistant.Sql.Update.{row_count-append}
use xone_assistant.Scheduler.Rows.{Tables}
use xone_assistant.Scheduler.Process.{ScheduledTrigger, Process, Settings, add, discard, is_full}
use xone_assistant.Scheduler.Invariant.{IsValid}
use xone_assistant.Scheduler.Invariant.Preserved.{Keeps}

abbrev pub queue_has : ℕ → ScheduledTrigger → Bool
queue_has i q = q.trigger_id == i

-- The tables are valid; a queued trigger is one of the table's, is marked as in flight, and stands
-- in the queue once; the queue and the memory of the dispatcher keep to their sizes.
pub record IsOrderly (settings : Settings) (p : Process) : Type 0 where
  pub tables : IsValid p.tables
  pub known : All (λ q. leb q.trigger_id p.tables.last_trigger_id ≡ true) p.queue
  pub in_flight : All (λ q. elem q.trigger_id p.inflight ≡ true) p.queue
  pub queued_once : (i : ℕ) → row_count (queue_has i) p.queue ≤ 1
  pub queue_le :
      ltb 0 settings.dispatcher_queue_size ≡ true → length p.queue ≤ settings.dispatcher_queue_size
  pub lru_le : length p.lru ≤ 256

pub elem-add : (i j : ℕ) (xs : List ℕ) → elem i xs ≡ true → elem i (add j xs) ≡ true
elem-add i j xs h = ground (arith, h)

pub elem-add_same : (i : ℕ) (xs : List ℕ) → elem i (add i xs) ≡ true
elem-add_same i xs = ground arith

pub elem-discard :
    (i j : ℕ) (xs : List ℕ) → (i == j) ≡ false → elem i xs ≡ true → elem i (discard j xs) ≡ true
elem-discard i j [] other h = h
elem-discard i j (x ∷ xs) other h = elim (Bool-cases (x == i)) [
  | inl here ↦ ground (arith, here, other)
  | inr there ↦ ground (arith, elem-discard i j xs other (rw there at h))
]

-- Not being in the queue, as a count and row by row.
pub others :
    (i : ℕ) (queue : List ScheduledTrigger)
    → row_count (queue_has i) queue ≡ 0
    → All (λ q. (q.trigger_id == i) ≡ false) queue
unfolding row_count
others i [] h = tt
others i (q ∷ queue) h = (ground (arith, h), others i queue (ground (arith, h)))

module _ (settings : Settings) (i : ℕ) (p : Process) (h : IsOrderly settings p) where
  still_in_flight :
      row_count (queue_has i) p.queue ≡ 0
      → All (λ q. elem q.trigger_id (discard i (add i p.inflight)) ≡ true) p.queue
  still_in_flight absent = go p.queue h.in_flight (others i p.queue absent)
    where
      go :
          (queue : List ScheduledTrigger)
          → All (λ q. elem q.trigger_id p.inflight ≡ true) queue
          → All (λ q. (q.trigger_id == i) ≡ false) queue
          → All (λ q. elem q.trigger_id (discard i (add i p.inflight)) ≡ true) queue
      go [] k o = tt
      go (q ∷ queue) k o = (
        elem-discard q.trigger_id i (add i p.inflight) o.0 (elem-add q.trigger_id i p.inflight k.0),
        go queue k.1 o.1,
      )

  -- The queue is full, and the trigger is not in it.
  pub refused-IsOrderly :
      (after : Tables)
      → Keeps p.tables after
      → row_count (queue_has i) p.queue ≡ 0
      → IsOrderly settings (record p { inflight = discard i (add i p.inflight); tables = after })
  refused-IsOrderly after k absent = record {
    tables = k.valid;
    known = rw k.last h.known;
    in_flight = still_in_flight absent;
    queued_once = h.queued_once;
    queue_le = h.queue_le;
    lru_le = h.lru_le;
  }

module _ (settings : Settings) (trig : ScheduledTrigger) (p : Process)
    (h : IsOrderly settings p) where
  -- The queue has room for a trigger that is not in it.
  pub queued-IsOrderly :
      (after : Tables)
      → Keeps p.tables after
      → leb trig.trigger_id p.tables.last_trigger_id ≡ true
      → row_count (queue_has trig.trigger_id) p.queue ≡ 0
      → is_full settings p.queue ≡ false
      → IsOrderly settings (record p {
        inflight = add trig.trigger_id p.inflight;
        queue = p.queue ++ trig ∷ [];
        tables = after;
      })
  unfolding row_count
  queued-IsOrderly after k known absent room =
      let i = trig.trigger_id in
      record {
        tables = k.valid;
        known = rw k.last (
            All-append (λ q. leb q.trigger_id p.tables.last_trigger_id ≡ true) p.queue _ h.known
              (known, tt));
        in_flight =
            All-append (λ q. elem q.trigger_id (add i p.inflight) ≡ true) p.queue _
              (All-map (λ q. elem q.trigger_id p.inflight ≡ true)
                (λ q. elem q.trigger_id (add i p.inflight) ≡ true) p.queue
                (λ q e. elem-add q.trigger_id i p.inflight e) h.in_flight)
              (elem-add_same i p.inflight, tt);
        queued_once = λ j.
            rw (row_count-append (queue_has j) p.queue (trig ∷ [])) (elim (Bool-cases (i == j)) [
              | inl same ↦
                  let i≡j : i ≡ j = ground arith in
                  let absent' : row_count (queue_has j) p.queue ≡ 0 = rw i≡j at absent in
                  rw same (omega arith)
              | inr other ↦ rw other (let once = h.queued_once j in omega arith)
            ]);
        queue_le = λ bounded. rw (length-append p.queue (trig ∷ [])) (ground (arith, bounded));
        lru_le = h.lru_le;
      }
