-- ===== src/Scheduler/Lost/Marks.antt =====
-- A step for another trigger leaves a lost one lost (src/assistant/scheduler/dispatcher.py).
use xone_assistant.Prelude.{
  ℕ, String, false, [], ◌∷◌, ◌≡◌, refl, arith, ◌==◌, leb, inl, inr, Bool-cases, Text,
}
use xone_assistant.Scheduler.Rows.{Tables}
use xone_assistant.Scheduler.Triggers.{
  mark_sent, note_queue_saturation, mark_acked, mark_dropped, mark_dead, revert_to_pending,
  can_send, send, is_open,
}
use xone_assistant.Scheduler.Process.{Settings, System}
use xone_assistant.Scheduler.Dispatcher.{
  Turn, emitted, failed, Send, delivered, undelivered, retry, deliver, finish_turn, empty_error,
}
use xone_assistant.Scheduler.Lost.{Lies, set_triggers-Lies_other}

module _ (i j : ℕ) (other : (j == i) ≡ false) where
  pub mark_sent-Lies : (now : ℕ) (db : Tables) → Lies i db → Lies i (mark_sent now j db)
  unfolding mark_sent
  mark_sent-Lies now db h =
      set_triggers-Lies_other i j (can_send j) (send now) db (λ r e. ground arith) (λ r. refl) other
        h

  pub note_queue_saturation-Lies :
      (error : String) (db : Tables) → Lies i db → Lies i (note_queue_saturation j error db)
  unfolding note_queue_saturation
  note_queue_saturation-Lies error db h =
      set_triggers-Lies_other i j (is_open j) _ db (λ r e. ground arith) (λ r. refl) other h

  mark_acked-Lies : (now : ℕ) (db : Tables) → Lies i db → Lies i (mark_acked now j db)
  unfolding mark_acked
  mark_acked-Lies now db h = set_triggers-Lies_other i j _ _ db (λ r e. e) (λ r. refl) other h

  pub mark_dropped-Lies : (db : Tables) → Lies i db → Lies i (mark_dropped j db)
  unfolding mark_dropped
  mark_dropped-Lies db h = set_triggers-Lies_other i j _ _ db (λ r e. e) (λ r. refl) other h

  mark_dead-Lies : (error : String) (db : Tables) → Lies i db → Lies i (mark_dead j error db)
  unfolding mark_dead
  mark_dead-Lies error db h = set_triggers-Lies_other i j _ _ db (λ r e. e) (λ r. refl) other h

  revert_to_pending-Lies :
      (error : String) (db : Tables) → Lies i db → Lies i (revert_to_pending j error db).1
  unfolding revert_to_pending
  revert_to_pending-Lies error db h =
      set_triggers-Lies_other i j _ _ db (λ r e. e) (λ r. refl) other h

  module _ (sys : System) (settings : Settings) where
    retry-Lies :
        (error cause : String) (db : Tables)
        → Lies i db
        → Lies i (retry sys settings j error cause db).0
    unfolding retry
    retry-Lies error cause db h =
        let reverted = revert_to_pending-Lies error db h in
        elim (Bool-cases (leb settings.dead_attempts_threshold (revert_to_pending j error db).0)) [
          | inl over ↦ rw over (mark_dead-Lies _ _ reverted)
          | inr under ↦ rw under reverted
        ]

    deliver-Lies :
        (text : Text) (sent : Send) (now : ℕ) (db : Tables)
        → Lies i db
        → Lies i (deliver sys settings j text sent now db).0
    unfolding deliver
    deliver-Lies [] sent now db h = retry-Lies empty_error "empty output" db h
    deliver-Lies (c ∷ text) delivered now db h = mark_acked-Lies now db h
    deliver-Lies (c ∷ text) (undelivered error) now db h = revert_to_pending-Lies _ db h

    pub finish_turn-Lies :
        (turn : Turn) (sent : Send) (now : ℕ) (db : Tables)
        → Lies i db
        → Lies i (finish_turn sys settings j turn sent now db).0
    unfolding finish_turn
    finish_turn-Lies (emitted chunks) sent now db h = deliver-Lies _ sent now db h
    finish_turn-Lies (failed error) sent now db h = retry-Lies error error db h
