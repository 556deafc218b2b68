-- ===== src/Scheduler/Loop.antt =====
-- One tick of src/assistant/scheduler/loop.py. The statements of a tick and the steps of the
-- dispatcher are taken one after the other; SQL's 'now' is the clock of the tick.
use xone_assistant.Prelude.{
  ℕ, ◌*◌, String, true, false, Option, none, some, List, [], ◌∷◌, ◌++◌, codes,
}
use Prim.Native.String.{◌++◌ as str_append}
use xone_assistant.Cron.Parse.{parse_cron}
use xone_assistant.Cron.Search.{is_due}
use xone_assistant.Scheduler.Rows.{Schedule, Trigger}
use xone_assistant.Scheduler.Schedules.{list_schedules}
use xone_assistant.Scheduler.Triggers.{
  try_materialize_trigger, mark_sent, note_queue_saturation, reclaim_pending_not_queued,
  sweep_expired_sent,
}
use xone_assistant.Scheduler.Process.{
  Process, ScheduledTrigger, Settings, System, add, discard, is_full,
}

-- put_nowait for a fresh trigger, and what follows it on either outcome.
unfoldable pub enqueue_fresh : Settings → ℕ → String → ScheduledTrigger → Process → Process
unfolding mark_sent note_queue_saturation
enqueue_fresh settings now error trig p = elim (is_full settings p.queue) [
  | true ↦ record p {
    inflight = discard trig.trigger_id (add trig.trigger_id p.inflight);
    tables = note_queue_saturation trig.trigger_id error p.tables;
  }
  | false ↦ record p {
    inflight = add trig.trigger_id p.inflight;
    queue = p.queue ++ trig ∷ [];
    tables = mark_sent now trig.trigger_id p.tables;
  }
]

abbrev pub scheduled : Trigger → ScheduledTrigger
scheduled t = record {
  trigger_id = t.id;
  schedule_id = t.schedule_id;
  prompt = t.prompt;
  scheduled_for = t.scheduled_for;
}

-- The same for a trigger that is reclaimed.
unfoldable pub enqueue_again : Settings → ℕ → Trigger → Process → Process
unfolding mark_sent
enqueue_again settings now t p = elim (is_full settings p.queue) [
  | true ↦ record p { inflight = discard t.id (add t.id p.inflight) }
  | false ↦ record p {
    inflight = add t.id p.inflight;
    queue = p.queue ++ scheduled t ∷ [];
    tables = mark_sent now t.id p.tables;
  }
]

-- What `try_materialize_trigger` returned, and the tables after it.
unfoldable pub enqueue_materialized :
    Settings → ℕ → String → Schedule → ℕ → Option ℕ → Process → Process
unfolding enqueue_fresh
enqueue_materialized settings now error sch at none p = p
enqueue_materialized settings now error sch at (some i) p =
    enqueue_fresh settings now error
      (record { trigger_id = i; schedule_id = sch.id; prompt = sch.prompt; scheduled_for = at }) p

-- A schedule that is due, or is not. `is_due` returns a minute.
unfoldable pub fire_due : Settings → ℕ → String → Schedule → Option ℕ → Process → Process
unfolding try_materialize_trigger enqueue_materialized
fire_due settings now error sch none p = p
fire_due settings now error sch (some due) p =
    let made = try_materialize_trigger now sch.id sch.prompt (due * 60) p.tables in
    enqueue_materialized settings now error sch (due * 60) made.0 (record p { tables = made.1 })

module _ (sys : System) (settings : Settings) (now : ℕ) where
  -- The minute at which a schedule is due; none when its expression or its zone is not read either.
  unfoldable pub due_of : Schedule → Option ℕ
  unfolding parse_cron is_due
  due_of sch = elim (parse_cron sys.unicode (codes sch.cron)) [
    | none ↦ none
    | some e ↦ elim (sys.zone_info sch.tz) [
      | none ↦ none
      | some z ↦ is_due z e sch.last_fire_at now settings.catchup_window_s
    ]
  ]

  abbrev pub saturation_error : String
  saturation_error = str_append "queue saturated at tick " (sys.isoformat now)

  unfoldable pub scan : List Schedule → Process → Process
  unfolding due_of fire_due
  scan [] p = p
  scan (sch ∷ schedules) p =
      scan schedules (fire_due settings now saturation_error sch (due_of sch) p)

  unfoldable pub reclaim : List Trigger → Process → Process
  unfolding enqueue_again
  reclaim [] p = p
  reclaim (t ∷ orphans) p = reclaim orphans (enqueue_again settings now t p)

  unfoldable pub tick_once : Process → Process
  unfolding scan reclaim list_schedules reclaim_pending_not_queued sweep_expired_sent
  tick_once p =
      let swept = record p {
        tables = (sweep_expired_sent now settings.sent_revert_timeout_s p.tables).1;
      } in
      let scanned = scan (list_schedules true swept.tables) swept in
      reclaim
        (reclaim_pending_not_queued now scanned.inflight settings.reclaim_older_than_s
          scanned.tables)
        scanned
