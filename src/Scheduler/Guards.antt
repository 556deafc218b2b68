-- ===== src/Scheduler/Guards.antt =====
-- The guards that keep concurrent tasks out of each other's way
-- (src/assistant/scheduler/store.py, loop.py).
use xone_assistant.Prelude.{
  ℕ, String, ◌+◌, ◌≤◌, ◌<◌, Bool, true, false, not, ◌||◌, none, some, List, [], ◌∷◌, ◌++◌, ◌≡◌,
  refl, ap, arith, ◌==◌, ltb, leb, elem, inl, inr, Bool-cases, codes, Text, zero, suc,
}
use Prim.Native.String.{◌++◌ as str_append}
use Prim.Native.String.append
use xone_assistant.Subagent.Store.Finish.{take_chars}
use xone_assistant.Sql.{row_count, update_where, fetch_one}
use xone_assistant.Sql.Update.{
  row_count-append, fetch_one-update_where, fetch_one-keep, fetch_one_hit,
}
use xone_assistant.Scheduler.Rows.{
  Trigger, Tables, is_pending, fires, is_fire, trigger_has, schedule_has,
}
use xone_assistant.Scheduler.Triggers.{
  try_materialize_trigger, new_trigger, set_triggers, mark_sent, mark_acked, mark_dropped,
  mark_dead, can_send, note, note_queue_saturation, is_saturated, has_prefix,
  reclaim_pending_not_queued, can_reclaim, is_open,
}
use xone_assistant.Scheduler.Schedules.{add_schedule, is_enabled, new_schedule}
use xone_assistant.Scheduler.Process.{
  ScheduledTrigger, Process, Settings, System, add, discard, is_full,
}
use xone_assistant.Scheduler.Loop.{enqueue_fresh, saturation_error}

-- A second call for the same schedule and time makes no trigger and changes nothing, whatever the
-- first one did, also with another prompt and at another time.
pub try_materialize_trigger_twice :
    (now later schedule_id : ℕ) (prompt prompt' : String) (at : ℕ) (db : Tables)
    → let after = (try_materialize_trigger now schedule_id prompt at db).1 in
      try_materialize_trigger later schedule_id prompt' at after ≡ (none, after)
unfolding try_materialize_trigger fires new_trigger row_count
try_materialize_trigger_twice now later schedule_id prompt prompt' at db =
    elim (Bool-cases (
      ltb 0 (fires schedule_id at db.triggers)
      || not (ltb 0 (row_count (schedule_has schedule_id) db.schedules)))) [
        | inl refused ↦ rw (refused, refused)
        | inr made ↦
            let new = new_trigger now schedule_id prompt at (db.last_trigger_id + 1) in
            let count = row_count-append (is_fire schedule_id at) db.triggers (new ∷ []) in
            let there : ltb 0 (fires schedule_id at (db.triggers ++ new ∷ [])) ≡ true =
              ground (arith, count) in
            rw (made, there)
      ]

-- UPDATE after UPDATE: rows that the first one leaves are rows that the second one does not touch.
update_where_blocked :
    (p q : Trigger → Bool) (f g : Trigger → Trigger) (rows : List Trigger)
    → ((r : Trigger) → q r ≡ true → p r ≡ true)
    → ((r : Trigger) → q (f r) ≡ false)
    → update_where q g (update_where p f rows) ≡ update_where p f rows
unfolding update_where
update_where_blocked p q f g [] sub off = refl
update_where_blocked p q f g (r ∷ rows) sub off = elim (Bool-cases (p r)) [
  | inl hit ↦ rw (hit, off r) (ap (◌∷◌ (f r)) (update_where_blocked p q f g rows sub off))
  | inr miss ↦ elim (Bool-cases (q r)) [
    | inl bad ↦ absurd (cc (sub r bad, miss))
    | inr out ↦ rw (miss, out) (ap (◌∷◌ r) (update_where_blocked p q f g rows sub off))
  ]
]

-- The loop's `mark_sent` may come after the dispatcher is done with the trigger: it changes nothing
-- once the trigger is acked, dropped or dead.
pub mark_sent_late :
    (now later i : ℕ) (error : String) (db : Tables)
    → (mark_sent later i (mark_acked now i db) ≡ mark_acked now i db)
      × (mark_sent later i (mark_dropped i db) ≡ mark_dropped i db)
      × (mark_sent later i (mark_dead i error db) ≡ mark_dead i error db)
unfolding mark_sent mark_acked mark_dropped mark_dead set_triggers
mark_sent_late now later i error db =
    let with : List Trigger → Tables = λ rows. record db { triggers = rows } in
    (
      ap with (
          update_where_blocked (trigger_has i) (can_send i) _ _ db.triggers
            (λ r e. ground (arith, e)) (λ r. ground arith)),
      ap with (
          update_where_blocked (trigger_has i) (can_send i) _ _ db.triggers
            (λ r e. ground (arith, e)) (λ r. ground arith)),
      ap with (
          update_where_blocked (trigger_has i) (can_send i) _ _ db.triggers
            (λ r e. ground (arith, e)) (λ r. ground arith)),
    )

-- A prefix of the first characters is one of those of a longer text.
has_prefix-append :
    (p : Text) (n : ℕ) (s t : String)
    → has_prefix p (codes (take_chars n s)) ≡ true
    → has_prefix p (codes (take_chars n (str_append s t))) ≡ true
unfolding has_prefix take_chars
has_prefix-append [] n s t h = refl
has_prefix-append (x ∷ p) zero s t h = h
has_prefix-append (x ∷ p) (suc n) String.[] t h = absurd (cc)
has_prefix-append (x ∷ p) (suc n) (String.◌∷◌ c s) t h =
    elim (Bool-cases (has_prefix p (codes (take_chars n s)))) [
      | inl rest ↦ rw (append.cons c s t) (ground (arith, h, has_prefix-append p n s t rest))
      | inr other ↦ absurd (ground (arith, h, other))
    ]

-- The text that the loop writes is the one that `reclaim_pending_not_queued` looks for.
saturation_error-saturated :
    (sys : System) (settings : Settings) (now : ℕ)
    → is_saturated (some (take_chars 500 (saturation_error sys settings now))) ≡ true
unfolding is_saturated has_prefix take_chars
saturation_error-saturated sys settings now =
    has_prefix-append (codes "queue saturated") 500 "queue saturated at tick " (sys.isoformat now)
      starts
  where
    starts :
        has_prefix (codes "queue saturated") (codes (take_chars 500 "queue saturated at tick "))
        ≡ true
    starts = refl

elem-discard_same : (i : ℕ) (xs : List ℕ) → elem i (discard i xs) ≡ false
elem-discard_same i [] = refl
elem-discard_same i (x ∷ xs) = elim (Bool-cases (x == i)) [
  | inl same ↦ rw same (elem-discard_same i xs)
  | inr other ↦ rw other (ground (arith, elem-discard_same i xs, other))
]

-- A pending trigger of the table that a full queue refuses is not lost: once it is older than the
-- limit, the query for reclaiming finds it.
pub enqueue_fresh_refused :
    (sys : System) (settings : Settings) (now later : ℕ) (trig : ScheduledTrigger) (t : Trigger)
    (p : Process)
    → is_full settings p.queue ≡ true
    → fetch_one (trigger_has trig.trigger_id) p.tables.triggers ≡ some t
    → is_pending t.status ≡ true
    → t.scheduled_for + settings.reclaim_older_than_s < later
    → let after = enqueue_fresh settings now (saturation_error sys settings now) trig p in
      fetch_one
        (trigger_has trig.trigger_id)
        (reclaim_pending_not_queued later after.inflight settings.reclaim_older_than_s after.tables)
      ≡ some (note (take_chars 500 (saturation_error sys settings now)) t)
unfolding enqueue_fresh reclaim_pending_not_queued note_queue_saturation set_triggers
enqueue_fresh_refused sys settings now later trig t p full found waits old =
    let i = trig.trigger_id in
    let error = take_chars 500 (saturation_error sys settings now) in
    let here = fetch_one_hit (trigger_has i) p.tables.triggers t found in
    let touched : is_open i t ≡ true = ground (arith, here, waits) in
    let noted : fetch_one (trigger_has i) (update_where (is_open i) (note error) p.tables.triggers)
        ≡ some (note error t) =
      rw touched at (
        fetch_one-update_where (trigger_has i) (is_open i) (note error) p.tables.triggers t
          (λ x. refl) found) in
    let saturated = saturation_error-saturated sys settings now in
    let due : can_reclaim later settings.reclaim_older_than_s (note error t) ≡ true =
      ground (arith, waits, saturated, old) in
    let t≡i : t.id ≡ i = ground (arith, here) in
    let unmarked : not (elem t.id (discard i (add i p.inflight))) ≡ true =
      rw (t≡i, elem-discard_same i (add i p.inflight)) in
    rw (full, enqueue_fresh)
      (fetch_one-keep (trigger_has i) _ _ (note error t)
        (fetch_one-keep (trigger_has i) (can_reclaim later settings.reclaim_older_than_s) _
          (note error t) noted due)
        unmarked)

-- `add_schedule` adds no enabled schedule beyond the limit: at most that many are enabled after
-- it, if there were no more before.
pub add_schedule-cap :
    (now : ℕ) (cron prompt tz : String) (max_schedules : ℕ) (db : Tables)
    → row_count is_enabled db.schedules ≤ max_schedules
    → row_count is_enabled (add_schedule now cron prompt tz max_schedules db).1.schedules
      ≤ max_schedules
unfolding add_schedule row_count
add_schedule-cap now cron prompt tz max_schedules db h =
    elim (Bool-cases (leb max_schedules (row_count is_enabled db.schedules))) [
      | inl over ↦ rw over h
      | inr under ↦
          rw
            (
              under,
              row_count-append is_enabled db.schedules
                  (new_schedule now cron prompt tz (db.last_schedule_id + 1) ∷ []),
            )
            (ground (arith, under))
    ]
