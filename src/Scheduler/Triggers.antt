-- ===== src/Scheduler/Triggers.antt =====
-- The triggers of src/assistant/scheduler/store.py: one row for each fire of a schedule.
use xone_assistant.Prelude.{
  ℕ, ◌+◌, String, Bool, true, false, not, ◌&&◌, ◌||◌, Option, none, some, List, [], ◌∷◌, ◌++◌, ◌==◌,
  ltb, leb, if◌then◌else◌, keep, take, Text, codes, elem,
}
use mathlib.Core.List.{reverse}
use xone_assistant.Sql.{update_where, row_count, fetch_one, order_by, older_than}
use xone_assistant.Subagent.Store.Finish.{take_chars}
use xone_assistant.Scheduler.Rows.{
  Trigger, Tables, pending, sent, acked, dropped, dead, is_pending, is_sent, schedule_has,
  trigger_has, fires,
}

unfoldable pub new_trigger : ℕ → ℕ → String → ℕ → ℕ → Trigger
new_trigger now schedule_id prompt at i = record {
  id = i;
  schedule_id = schedule_id;
  prompt = prompt;
  scheduled_for = at;
  status = pending;
  attempts = 0;
  last_error = none;
  created_at = now;
  sent_at = none;
  acked_at = none;
}

-- `none` on IntegrityError: the fire is there already, or the schedule is not there at all, which
-- the foreign key forbids.
unfoldable pub try_materialize_trigger : ℕ → ℕ → String → ℕ → Tables → Option ℕ × Tables
unfolding update_where row_count fires new_trigger
try_materialize_trigger now schedule_id prompt at db =
    let i = db.last_trigger_id + 1 in
    if ltb 0 (fires schedule_id at db.triggers)
      || not (ltb 0 (row_count (schedule_has schedule_id) db.schedules))
    then (none, db)
    else (
      some i,
      record db {
        triggers = db.triggers ++ new_trigger now schedule_id prompt at i ∷ [];
        last_trigger_id = i;
        schedules =
            update_where (schedule_has schedule_id) (λ s. record s { last_fire_at = some at })
              db.schedules;
      },
    )

-- An UPDATE of the triggers.
unfoldable pub set_triggers : (Trigger → Bool) → (Trigger → Trigger) → Tables → Tables
unfolding update_where
set_triggers p f db = record db { triggers = update_where p f db.triggers }

abbrev pub can_send : ℕ → Trigger → Bool
can_send i t = t.id == i && is_pending t.status

abbrev pub send : ℕ → Trigger → Trigger
send now t = record t { status = sent; sent_at = some now }

unfoldable pub mark_sent : ℕ → ℕ → Tables → Tables
unfolding set_triggers
mark_sent now i db = set_triggers (can_send i) (send now) db

abbrev pub ack : ℕ → Trigger → Trigger
ack now t = record t { status = acked; acked_at = some now }

unfoldable pub mark_acked : ℕ → ℕ → Tables → Tables
unfolding set_triggers
mark_acked now i db = set_triggers (trigger_has i) (ack now) db

abbrev pub drop : Trigger → Trigger
drop t = record t { status = dropped }

unfoldable pub mark_dropped : ℕ → Tables → Tables
unfolding set_triggers
mark_dropped i db = set_triggers (trigger_has i) drop db

abbrev pub bury : String → Trigger → Trigger
bury error t = record t { status = dead; last_error = some error }

unfoldable pub mark_dead : ℕ → String → Tables → Tables
unfolding set_triggers take_chars
mark_dead i error db = set_triggers (trigger_has i) (bury (take_chars 500 error)) db

abbrev pub revert : String → Trigger → Trigger
revert error t = record t { status = pending; attempts = t.attempts + 1; last_error = some error }

abbrev attempts_of : Option Trigger → ℕ
attempts_of none = 0
attempts_of (some t) = t.attempts

-- The attempts after the call, and the table.
unfoldable pub revert_to_pending : ℕ → String → Tables → ℕ × Tables
unfolding set_triggers take_chars fetch_one
revert_to_pending i error db =
    let db' = set_triggers (trigger_has i) (revert (take_chars 500 error)) db in
    (attempts_of (fetch_one (trigger_has i) db'.triggers), db')

abbrev pub is_open : ℕ → Trigger → Bool
is_open i t = t.id == i && (is_pending t.status || is_sent t.status)

abbrev pub note : String → Trigger → Trigger
note error t = record t { last_error = some error }

unfoldable pub note_queue_saturation : ℕ → String → Tables → Tables
unfolding set_triggers take_chars
note_queue_saturation i error db = set_triggers (is_open i) (note (take_chars 500 error)) db

-- LIKE 'queue saturated%', which takes ASCII letters of either case.
abbrev lower : ℕ → ℕ
lower c = if leb 65 c && leb c 90 then c + 32 else c

unfoldable pub has_prefix : Text → Text → Bool
has_prefix [] s = true
has_prefix (p ∷ ps) [] = false
has_prefix (p ∷ ps) (c ∷ s) = lower c == p && has_prefix ps s

unfoldable pub is_saturated : Option String → Bool
unfolding has_prefix
is_saturated none = false
is_saturated (some error) = has_prefix (codes "queue saturated") (codes error)

abbrev pub can_reclaim : ℕ → ℕ → Trigger → Bool
can_reclaim now older_than_s t =
    is_pending t.status && is_saturated t.last_error && older_than older_than_s now t.scheduled_for

unfoldable pub reclaim_pending_not_queued : ℕ → List ℕ → ℕ → Tables → List Trigger
reclaim_pending_not_queued now inflight older_than_s db =
    keep (λ t. not (elem t.id inflight)) (keep (can_reclaim now older_than_s) db.triggers)

abbrev sent_before : ℕ → ℕ → Option ℕ → Bool
sent_before timeout now none = false
sent_before timeout now (some t) = older_than timeout now t

abbrev pub has_expired : ℕ → ℕ → Trigger → Bool
has_expired now timeout t = is_sent t.status && sent_before timeout now t.sent_at

abbrev pub expired_error : String
expired_error = "sent-expired: no ack within sent_revert_timeout_s"

-- How many rows went back, and the table.
unfoldable pub sweep_expired_sent : ℕ → ℕ → Tables → ℕ × Tables
unfolding set_triggers row_count
sweep_expired_sent now sent_revert_timeout_s db = (
  row_count (has_expired now sent_revert_timeout_s) db.triggers,
  set_triggers (has_expired now sent_revert_timeout_s) (revert expired_error) db,
)

abbrev pub was_sent : Trigger → Bool
was_sent t = is_sent t.status

abbrev pub requeue : Trigger → Trigger
requeue t = record t { status = pending; attempts = t.attempts + 1 }

unfoldable pub clean_slate_sent : Tables → ℕ × Tables
unfolding set_triggers row_count
clean_slate_sent db = (row_count was_sent db.triggers, set_triggers was_sent requeue db)

abbrev of_schedule : Option ℕ → Trigger → Bool
of_schedule none t = true
of_schedule (some i) t = t.schedule_id == i

-- ORDER BY id DESC LIMIT
unfoldable pub get_schedule_history : Option ℕ → ℕ → Tables → List Trigger
unfolding order_by
get_schedule_history schedule_id limit db =
    take limit (reverse (order_by (λ t. t.id) (keep (of_schedule schedule_id) db.triggers)))
