-- ===== src/Scheduler/Marker/Examples.antt =====
-- Starts of the daemon (src/assistant/scheduler/store.py).
use xone_assistant.Prelude.{ℕ, ◌+◌, ◌≤◌, ◌≡◌, refl, true, some, List, [], ◌∷◌}
use xone_assistant.Scheduler.Marker.{
  Start, Event, boot, stop, crash, clean_deploy, suspend_or_crash, classify_boot, marker_after,
  live, write_clean_exit_marker, unlink_clean_exit_marker, last_stop, classify_boot-marker_after,
}

abbrev good : Start
good = record { stat_ok = true; read_ok = true; removed = true }

abbrev deployed : List Event
deployed = stop 500 ∷ boot 100 good ∷ []

deployed_clean : classify_boot 120 560 good (marker_after deployed) ≡ clean_deploy
unfolding classify_boot marker_after live write_clean_exit_marker unlink_clean_exit_marker
deployed_clean = refl

classify_boot-marker_after_example :
    (at_time : ℕ) × (last_stop deployed ≡ some at_time) × (560 ≤ at_time + 120)
classify_boot-marker_after_example = classify_boot-marker_after 120 560 good deployed deployed_clean

-- The daemon that is gone without a word is restarted too late for the marker.
crashed : classify_boot 120 700 good (marker_after (crash ∷ deployed)) ≡ suspend_or_crash
unfolding classify_boot marker_after live write_clean_exit_marker unlink_clean_exit_marker
crashed = refl
