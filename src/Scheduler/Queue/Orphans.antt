-- ===== src/Scheduler/Queue/Orphans.antt =====
-- What a tick reclaims is not in the queue (src/assistant/scheduler/loop.py).
use xone_assistant.Prelude.{
  ℕ, Bool, true, not, List, [], ◌∷◌, ◌≡◌, ◌⊎◌, refl, arith, ◌==◌, leb, All, All-map, All-keep, elem,
  keep, inl, inr, Bool-cases,
}
use xone_assistant.Sql.{row_count}
use xone_assistant.Sql.Update.{row_count-keep-le, row_count-keep-none}
use xone_assistant.Scheduler.Rows.{Trigger, trigger_has}
use xone_assistant.Scheduler.Schedules.{list_schedules}
use xone_assistant.Scheduler.Triggers.{
  sweep_expired_sent, reclaim_pending_not_queued, can_reclaim, set_triggers,
}
use xone_assistant.Scheduler.Process.{ScheduledTrigger, Process, Settings, System}
use xone_assistant.Scheduler.Loop.{tick_once, scan}
use xone_assistant.Scheduler.Histories.Steps.{scan_keeps}
use xone_assistant.Scheduler.Invariant.{is_sound}
use xone_assistant.Scheduler.Invariant.Statements.{sweep_expired_sent-IsValid}
use xone_assistant.Scheduler.Queue.{queue_has, IsOrderly}
use xone_assistant.Scheduler.Queue.Ticks.{
  fire_due-IsOrderly, reclaim-IsOrderly, tables-IsOrderly, Apart,
}

queued-in_flight :
    (i : ℕ) (inflight : List ℕ) (queue : List ScheduledTrigger)
    → All (λ q. elem q.trigger_id inflight ≡ true) queue
    → (row_count (queue_has i) queue ≡ 0) ⊎ (elem i inflight ≡ true)
unfolding row_count
queued-in_flight i inflight [] h = inl refl
queued-in_flight i inflight (q ∷ queue) h = elim (Bool-cases (q.trigger_id == i)) [
  | inl same ↦ let q≡i : q.trigger_id ≡ i = ground arith in inr (rw q≡i at h.0)
  | inr other ↦ elim (queued-in_flight i inflight queue h.1) [
    | inl absent ↦ inl (rw other (omega arith))
    | inr marked ↦ inr marked
  ]
]

module _ (settings : Settings) (now : ℕ) (p : Process) (h : IsOrderly settings p) where
  orphans-Apart :
      Apart settings now
        (reclaim_pending_not_queued now p.inflight settings.reclaim_older_than_s p.tables)
        p.queue
  unfolding reclaim_pending_not_queued
  orphans-Apart i =
      let unmarked : Trigger → Bool = λ t. not (elem t.id p.inflight) in
      let saturated = keep (can_reclaim now settings.reclaim_older_than_s) p.tables.triggers in
      let once = h.tables.ids_once i in
      let le₁ = row_count-keep-le (trigger_has i) unmarked saturated in
      let le₂ =
        row_count-keep-le (trigger_has i) (can_reclaim now settings.reclaim_older_than_s)
          p.tables.triggers in
      let queued = h.queued_once i in
      elim (queued-in_flight i p.inflight p.queue h.in_flight) [
        | inl absent ↦ omega arith
        | inr marked ↦
            let zero_orphans = row_count-keep-none (trigger_has i) unmarked saturated (λ t e.
              elim (Bool-cases (t.id == i)) [
                | inl same ↦
                    let t≡i : t.id ≡ i = ground arith in
                    let marked' : elem t.id p.inflight ≡ true = rw t≡i marked in
                    absurd (ground (arith, marked', e))
                | inr other ↦ other
              ]) in
            omega arith
      ]

  orphans-known :
      All
        (λ t. leb t.id p.tables.last_trigger_id ≡ true)
        (reclaim_pending_not_queued now p.inflight settings.reclaim_older_than_s p.tables)
  unfolding reclaim_pending_not_queued
  orphans-known =
      let known : Trigger → Type 0 = λ t. leb t.id p.tables.last_trigger_id ≡ true in
      All-keep known (λ t. not (elem t.id p.inflight)) _
        (All-keep known (can_reclaim now settings.reclaim_older_than_s) p.tables.triggers (
          All-map (λ t. is_sound p.tables.last_trigger_id t ≡ true) known p.tables.triggers
            (λ t k. ground arith) h.tables.rows))

module _ (sys : System) (settings : Settings) where
  swept-IsOrderly :
      (now : ℕ) (p : Process)
      → IsOrderly settings p
      → IsOrderly settings
          (record p { tables = (sweep_expired_sent now settings.sent_revert_timeout_s p.tables).1 })
  unfolding sweep_expired_sent set_triggers
  swept-IsOrderly now p h =
      tables-IsOrderly settings p _ h
        (sweep_expired_sent-IsValid p.tables h.tables now settings.sent_revert_timeout_s)
        (omega arith)

  pub tick_once-IsOrderly :
      (now : ℕ) (p : Process)
      → IsOrderly settings p
      → IsOrderly settings (tick_once sys settings now p)
  unfolding tick_once
  tick_once-IsOrderly now p h =
      let swept : Process = record p {
        tables = (sweep_expired_sent now settings.sent_revert_timeout_s p.tables).1;
      } in
      let schedules = list_schedules true swept.tables in
      let scanned = scan sys settings now schedules swept in
      let orderly =
        scan_keeps sys settings now (IsOrderly settings) (λ _. Unit {0})
          (λ sch due q k. fire_due-IsOrderly settings now _ sch due q k) schedules swept
          (swept-IsOrderly now p h) in
      reclaim-IsOrderly settings now sys
        (reclaim_pending_not_queued now scanned.inflight settings.reclaim_older_than_s
          scanned.tables)
        scanned orderly (orphans-known settings now scanned orderly)
        (orphans-Apart settings now scanned orderly)
