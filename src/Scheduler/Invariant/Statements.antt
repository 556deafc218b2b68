-- ===== src/Scheduler/Invariant/Statements.antt =====
-- The invariant, statement by statement (src/assistant/scheduler/store.py).
use xone_assistant.Prelude.{
  ℕ, String, ◌+◌, ◌≤◌, Bool, true, false, not, ◌&&◌, ◌||◌, [], ◌∷◌, ◌++◌, ◌≡◌, refl, arith, ◌==◌,
  ltb, All-append, All-map, inl, inr, Bool-cases,
}
use xone_assistant.Sql.{row_count}
use xone_assistant.Sql.Update.{
  All-update_where, row_count-update_where, row_count-append, row_count-eq_zero,
}
use xone_assistant.Scheduler.Rows.{Trigger, Tables, fires, is_fire, schedule_has, trigger_has}
use xone_assistant.Scheduler.Triggers.{
  set_triggers, new_trigger, try_materialize_trigger, sweep_expired_sent, clean_slate_sent,
  mark_sent, mark_acked, mark_dropped, mark_dead, revert_to_pending, note_queue_saturation,
  can_send, send,
}
use xone_assistant.Scheduler.Invariant.{IsValid, is_sound}

-- An UPDATE that writes sound rows and leaves the keys.
set_triggers-IsValid :
    (p : Trigger → Bool) (f : Trigger → Trigger) (db : Tables)
    → ((r : Trigger) → (f r).id ≡ r.id)
    → ((r : Trigger) → (f r).schedule_id ≡ r.schedule_id)
    → ((r : Trigger) → (f r).scheduled_for ≡ r.scheduled_for)
    → ((r : Trigger)
        → is_sound db.last_trigger_id r ≡ true
        → is_sound db.last_trigger_id (f r) ≡ true)
    → IsValid db
    → IsValid (set_triggers p f db)
unfolding set_triggers fires
set_triggers-IsValid p f db id schedule at hit h = record {
  rows =
      All-update_where (λ t. is_sound db.last_trigger_id t ≡ true)
        (λ t. is_sound db.last_trigger_id t ≡ true) p f db.triggers (λ r k e. hit r k) (λ r k e. k)
        h.rows;
  fires_once = λ s t.
      rw (row_count-update_where (is_fire s t) p f db.triggers (λ r e. rw (schedule r, at r)))
        (h.fires_once s t);
  ids_once = λ i.
      rw (row_count-update_where (trigger_has i) p f db.triggers (λ r e. rw (id r))) (h.ids_once i);
}

new_trigger_sound :
    (now schedule_id : ℕ) (prompt : String) (at i : ℕ)
    → is_sound i (new_trigger now schedule_id prompt at i) ≡ true
unfolding new_trigger
new_trigger_sound now schedule_id prompt at i = ground arith

module _ (db : Tables) (h : IsValid db) where
  pub mark_sent-IsValid : (now i : ℕ) → IsValid (mark_sent now i db)
  unfolding mark_sent
  mark_sent-IsValid now i =
      set_triggers-IsValid (can_send i) (send now) db (λ r. refl) (λ r. refl) (λ r. refl)
        (λ r k. ground arith) h

  pub mark_acked-IsValid : (now i : ℕ) → IsValid (mark_acked now i db)
  unfolding mark_acked
  mark_acked-IsValid now i =
      set_triggers-IsValid _ _ db (λ r. refl) (λ r. refl) (λ r. refl) (λ r k. ground arith) h

  pub mark_dropped-IsValid : (i : ℕ) → IsValid (mark_dropped i db)
  unfolding mark_dropped
  mark_dropped-IsValid i =
      set_triggers-IsValid _ _ db (λ r. refl) (λ r. refl) (λ r. refl) (λ r k. ground arith) h

  pub mark_dead-IsValid : (i : ℕ) (error : String) → IsValid (mark_dead i error db)
  unfolding mark_dead
  mark_dead-IsValid i error =
      set_triggers-IsValid _ _ db (λ r. refl) (λ r. refl) (λ r. refl) (λ r k. ground arith) h

  pub revert_to_pending-IsValid :
      (i : ℕ) (error : String) → IsValid (revert_to_pending i error db).1
  unfolding revert_to_pending
  revert_to_pending-IsValid i error =
      set_triggers-IsValid _ _ db (λ r. refl) (λ r. refl) (λ r. refl) (λ r k. ground arith) h

  pub note_queue_saturation-IsValid :
      (i : ℕ) (error : String) → IsValid (note_queue_saturation i error db)
  unfolding note_queue_saturation
  note_queue_saturation-IsValid i error =
      set_triggers-IsValid _ _ db (λ r. refl) (λ r. refl) (λ r. refl) (λ r k. ground arith) h

  pub sweep_expired_sent-IsValid : (now timeout : ℕ) → IsValid (sweep_expired_sent now timeout db).1
  unfolding sweep_expired_sent
  sweep_expired_sent-IsValid now timeout =
      set_triggers-IsValid _ _ db (λ r. refl) (λ r. refl) (λ r. refl) (λ r k. ground arith) h

  pub clean_slate_sent-IsValid : IsValid (clean_slate_sent db).1
  unfolding clean_slate_sent
  clean_slate_sent-IsValid =
      set_triggers-IsValid _ _ db (λ r. refl) (λ r. refl) (λ r. refl) (λ r k. ground arith) h

  fresh_id :
      (i : ℕ) → (i == db.last_trigger_id + 1) ≡ true → row_count (trigger_has i) db.triggers ≡ 0
  fresh_id i e = row_count-eq_zero (trigger_has i) db.triggers (
      All-map (λ t. is_sound db.last_trigger_id t ≡ true) (λ t. trigger_has i t ≡ false) db.triggers
        (λ t k. ground (arith, e)) h.rows)

  -- The row that is new, counted with the others.
  fires-new :
      (now schedule_id : ℕ) (prompt : String) (at i s t : ℕ)
      → ltb 0 (fires schedule_id at db.triggers) ≡ false
      → fires s t (db.triggers ++ new_trigger now schedule_id prompt at i ∷ []) ≤ 1
  unfolding fires new_trigger row_count
  fires-new now schedule_id prompt at i s t free =
      rw (row_count-append (is_fire s t) db.triggers (new_trigger now schedule_id prompt at i ∷ []))
        (elim (Bool-cases (schedule_id == s && at == t)) [
          | inl same ↦
              let s≡ : schedule_id ≡ s = ground arith in
              let t≡ : at ≡ t = ground arith in
              let free' : ltb 0 (fires s t db.triggers) ≡ false = rw (s≡, t≡) at free in
              rw same (ground (arith, free'))
          | inr other ↦ rw other (let once = h.fires_once s t in omega arith)
        ])

  ids-new :
      (now schedule_id : ℕ) (prompt : String) (at i : ℕ)
      → row_count
          (trigger_has i)
          (db.triggers ++ new_trigger now schedule_id prompt at (db.last_trigger_id + 1) ∷ [])
        ≤ 1
  unfolding new_trigger row_count
  ids-new now schedule_id prompt at i =
      let new = new_trigger now schedule_id prompt at (db.last_trigger_id + 1) in
      rw (row_count-append (trigger_has i) db.triggers (new ∷ []))
        (elim (Bool-cases (i == db.last_trigger_id + 1)) [
          | inl e ↦ let zero_before = fresh_id i e in ground (arith, zero_before)
          | inr e ↦ let once = h.ids_once i in ground (arith, once, e)
        ])

  pub try_materialize_trigger-IsValid :
      (now schedule_id : ℕ) (prompt : String) (at : ℕ)
      → IsValid (try_materialize_trigger now schedule_id prompt at db).1
  unfolding try_materialize_trigger
  try_materialize_trigger-IsValid now schedule_id prompt at =
      let taken = ltb 0 (fires schedule_id at db.triggers) in
      let known = ltb 0 (row_count (schedule_has schedule_id) db.schedules) in
      elim (Bool-cases (taken || not known)) [
        | inl refused ↦ rw refused h
        | inr made ↦ rw made (record {
          rows =
              All-append (λ t. is_sound (db.last_trigger_id + 1) t ≡ true) db.triggers _
                (All-map (λ t. is_sound db.last_trigger_id t ≡ true)
                  (λ t. is_sound (db.last_trigger_id + 1) t ≡ true) db.triggers
                  (λ t k. ground arith) h.rows)
                (new_trigger_sound now schedule_id prompt at (db.last_trigger_id + 1), tt);
          fires_once = λ s t.
              fires-new now schedule_id prompt at (db.last_trigger_id + 1) s t (ground arith);
          ids_once = ids-new now schedule_id prompt at;
        })
      ]
