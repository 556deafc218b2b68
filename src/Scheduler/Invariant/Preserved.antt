-- ===== src/Scheduler/Invariant/Preserved.antt =====
-- The invariant through a turn of src/assistant/scheduler/dispatcher.py.
use xone_assistant.Prelude.{ℕ, String, [], ◌∷◌, ◌≡◌, refl, leb, inl, inr, Bool-cases, Text}
use xone_assistant.Scheduler.Rows.{Tables}
use xone_assistant.Scheduler.Triggers.{
  set_triggers, revert_to_pending, mark_dead, mark_acked, mark_dropped, mark_sent,
  note_queue_saturation,
}
use xone_assistant.Scheduler.Process.{Settings, System}
use xone_assistant.Scheduler.Dispatcher.{
  Turn, emitted, failed, Send, delivered, undelivered, retry, deliver, finish_turn, empty_error,
}
use xone_assistant.Scheduler.Invariant.{IsValid}
use xone_assistant.Scheduler.Invariant.Statements.{
  revert_to_pending-IsValid, mark_dead-IsValid, mark_acked-IsValid, mark_dropped-IsValid,
  mark_sent-IsValid, note_queue_saturation-IsValid,
}

-- `after` is as good as `db`, and no trigger was made.
pub record Keeps (db after : Tables) : Type 0 where
  pub valid : IsValid after
  pub last : after.last_trigger_id ≡ db.last_trigger_id

module _ (db : Tables) (h : IsValid db) where
  pub mark_sent-Keeps : (now i : ℕ) → Keeps db (mark_sent now i db)
  unfolding mark_sent set_triggers
  mark_sent-Keeps now i = record { valid = mark_sent-IsValid db h now i; last = refl }

  pub note_queue_saturation-Keeps :
      (i : ℕ) (error : String) → Keeps db (note_queue_saturation i error db)
  unfolding note_queue_saturation set_triggers
  note_queue_saturation-Keeps i error = record {
    valid = note_queue_saturation-IsValid db h i error;
    last = refl;
  }

  pub mark_dropped-Keeps : (i : ℕ) → Keeps db (mark_dropped i db)
  unfolding mark_dropped set_triggers
  mark_dropped-Keeps i = record { valid = mark_dropped-IsValid db h i; last = refl }

module _ (sys : System) (settings : Settings) (i : ℕ) (db : Tables) (h : IsValid db) where
  retry-Keeps : (error cause : String) → Keeps db (retry sys settings i error cause db).0
  unfolding retry revert_to_pending mark_dead set_triggers
  retry-Keeps error cause =
      let reverted = revert_to_pending-IsValid db h i error in
      elim (Bool-cases (leb settings.dead_attempts_threshold (revert_to_pending i error db).0)) [
        | inl over ↦ rw over (record { valid = mark_dead-IsValid _ reverted i _; last = refl })
        | inr under ↦ rw under (record { valid = reverted; last = refl })
      ]

  deliver-Keeps :
      (text : Text) (sent : Send) (now : ℕ) → Keeps db (deliver sys settings i text sent now db).0
  unfolding deliver mark_acked revert_to_pending set_triggers
  deliver-Keeps [] sent now = retry-Keeps empty_error "empty output"
  deliver-Keeps (c ∷ text) delivered now = record {
    valid = mark_acked-IsValid db h now i;
    last = refl;
  }
  deliver-Keeps (c ∷ text) (undelivered error) now = record {
    valid = revert_to_pending-IsValid db h i _;
    last = refl;
  }

  pub finish_turn-Keeps :
      (turn : Turn) (sent : Send) (now : ℕ)
      → Keeps db (finish_turn sys settings i turn sent now db).0
  unfolding finish_turn
  finish_turn-Keeps (emitted chunks) sent now = deliver-Keeps _ sent now
  finish_turn-Keeps (failed error) sent now = retry-Keeps error error
