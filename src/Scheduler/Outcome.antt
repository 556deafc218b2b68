-- ===== src/Scheduler/Outcome.antt =====
-- What becomes of a trigger that the dispatcher takes (src/assistant/scheduler/dispatcher.py).
use xone_assistant.Prelude.{
  ℕ, String, ◌+◌, Bool, true, false, some, [], ◌∷◌, ◌≡◌, refl, leb, if◌then◌else◌, inl, inr,
  Bool-cases, Text,
}
use xone_assistant.Subagent.Store.Finish.{take_chars}
use xone_assistant.Sql.{fetch_one}
use xone_assistant.Sql.Update.{fetch_one-update_where, fetch_one_hit}
use xone_assistant.Cron.Split.{strip}
use xone_assistant.Scheduler.Rows.{
  Trigger, Tables, Status, pending, acked, dropped, dead, trigger_has,
}
use xone_assistant.Scheduler.Schedules.{get_schedule}
use xone_assistant.Scheduler.Triggers.{
  set_triggers, mark_acked, mark_dropped, mark_dead, revert_to_pending, ack, drop, bury, revert,
}
use xone_assistant.Scheduler.Process.{ScheduledTrigger, Process, Settings, System}
use xone_assistant.Scheduler.Dispatcher.{
  Turn, emitted, failed, Send, delivered, undelivered, retry, deliver, finish_turn, process,
  lru_seen, is_active, join, empty_error,
}

-- After a turn that came to nothing, when there were `attempts` before it.
abbrev pub retried : Settings → ℕ → Status
retried settings attempts =
    if leb settings.dead_attempts_threshold (attempts + 1) then dead else pending

abbrev pub of_text : Settings → ℕ → Text → Send → Status
of_text settings attempts [] sent = retried settings attempts
of_text settings attempts (c ∷ text) delivered = acked
of_text settings attempts (c ∷ text) (undelivered error) = pending

abbrev pub of_turn : System → Settings → ℕ → Turn → Send → Status
of_turn sys settings attempts (failed error) sent = retried settings attempts
of_turn sys settings attempts (emitted chunks) sent =
    of_text settings attempts (strip sys.unicode (join chunks)) sent

-- The trigger i is in the table, with this status.
abbrev pub HasStatus : ℕ → Status → Tables → Type 0
HasStatus i status db =
    (r : Trigger) × (fetch_one (trigger_has i) db.triggers ≡ some r) × (r.status ≡ status)

module _ (i : ℕ) (db : Tables) (t : Trigger)
    (found : fetch_one (trigger_has i) db.triggers ≡ some t) where
  here : trigger_has i t ≡ true
  here = fetch_one_hit (trigger_has i) db.triggers t found

  -- An UPDATE of the row of the trigger.
  pub set_own :
      (f : Trigger → Trigger)
      → ((r : Trigger) → (f r).id ≡ r.id)
      → fetch_one (trigger_has i) (set_triggers (trigger_has i) f db).triggers ≡ some (f t)
  unfolding set_triggers
  set_own f same = rw here at (
      fetch_one-update_where (trigger_has i) (trigger_has i) f db.triggers t (λ r. rw (same r))
        found)

  reverted :
      (error : String)
      → fetch_one (trigger_has i) (revert_to_pending i error db).1.triggers
        ≡ some (revert (take_chars 500 error) t)
  unfolding revert_to_pending
  reverted error = set_own (revert (take_chars 500 error)) (λ r. refl)

  attempts-reverted : (error : String) → (revert_to_pending i error db).0 ≡ t.attempts + 1
  unfolding revert_to_pending
  attempts-reverted error = rw (set_own (revert (take_chars 500 error)) (λ r. refl))

module _ (sys : System) (settings : Settings) (i : ℕ) (db : Tables) (t : Trigger)
    (found : fetch_one (trigger_has i) db.triggers ≡ some t) where
  retry-HasStatus :
      (error cause : String)
      → HasStatus i (retried settings t.attempts) (retry sys settings i error cause db).0
  unfolding retry mark_dead
  retry-HasStatus error cause =
      let count = attempts-reverted i db t found error in
      let row = reverted i db t found error in
      elim (Bool-cases (leb settings.dead_attempts_threshold (t.attempts + 1))) [
        | inl over ↦
            rw (count, over)
              (_, set_own i (revert_to_pending i error db).1 _ row (bury _) (λ r. refl), refl)
        | inr under ↦ rw (count, under) (_, row, refl)
      ]

  deliver-HasStatus :
      (text : Text) (sent : Send) (now : ℕ)
      → HasStatus i
          (of_text settings t.attempts text sent)
          (deliver sys settings i text sent now db).0
  unfolding deliver mark_acked
  deliver-HasStatus [] sent now = retry-HasStatus empty_error "empty output"
  deliver-HasStatus (c ∷ text) delivered now = (_, set_own i db t found (ack now) (λ r. refl), refl)
  deliver-HasStatus (c ∷ text) (undelivered error) now = (_, reverted i db t found _, refl)

  finish_turn-HasStatus :
      (turn : Turn) (sent : Send) (now : ℕ)
      → HasStatus i
          (of_turn sys settings t.attempts turn sent)
          (finish_turn sys settings i turn sent now db).0
  unfolding finish_turn
  finish_turn-HasStatus (emitted chunks) sent now = deliver-HasStatus _ sent now
  finish_turn-HasStatus (failed error) sent now = retry-HasStatus error error

  dropped-HasStatus : HasStatus i dropped (mark_dropped i db)
  unfolding mark_dropped
  dropped-HasStatus = (_, set_own i db t found drop (λ r. refl), refl)

-- Whether the dispatcher lets the trigger have its turn.
abbrev pub has_turn : ScheduledTrigger → Process → Bool
has_turn trig p =
    if (lru_seen trig.trigger_id p.lru).0
    then false
    else is_active (get_schedule trig.schedule_id p.tables)

-- The status of a trigger of the table after the dispatcher took it: dropped when it was seen
-- before or its schedule is gone or disabled; acked when the turn gave text that was delivered;
-- pending when the delivery failed; and after a turn that failed or gave only whitespace, dead if
-- that was the last of the attempts allowed, else pending.
pub process-HasStatus :
    (sys : System) (settings : Settings) (trig : ScheduledTrigger) (turn : Turn) (sent : Send)
    (now : ℕ) (p : Process) (t : Trigger)
    → fetch_one (trigger_has trig.trigger_id) p.tables.triggers ≡ some t
    → HasStatus trig.trigger_id
        (if has_turn trig p then of_turn sys settings t.attempts turn sent else dropped)
        (process sys settings trig turn sent now p).0.tables
unfolding process
process-HasStatus sys settings trig turn sent now p t found =
    let i = trig.trigger_id in
    let gone = dropped-HasStatus sys settings i p.tables t found in
    elim (Bool-cases (lru_seen i p.lru).0) [
      | inl seen ↦ rw (seen, process) gone
      | inr new ↦ elim (Bool-cases (is_active (get_schedule trig.schedule_id p.tables))) [
        | inr off ↦ rw (new, off, process) gone
        | inl on ↦
            rw (new, on, process)
              (finish_turn-HasStatus sys settings i p.tables t found turn sent now)
      ]
    ]
