-- ===== src/Scheduler/Histories/Steps.antt =====
-- Induction on the loops of a tick (src/assistant/scheduler/loop.py).
use xone_assistant.Prelude.{ℕ, Option, List, [], ◌∷◌, All}
use xone_assistant.Scheduler.Rows.{Schedule, Trigger}
use xone_assistant.Scheduler.Process.{Process, Settings, System}
use xone_assistant.Scheduler.Loop.{fire_due, scan, enqueue_again, reclaim, due_of, saturation_error}

module _ {ℓ κ} (sys : System) (settings : Settings) (now : ℕ) (I : Process → Type ℓ)
    (Q : Trigger → Type κ) where
  -- What each schedule keeps, the scan keeps.
  pub scan_keeps :
      ((sch : Schedule) (due : Option ℕ) (p : Process)
        → I p
        → I (fire_due settings now (saturation_error sys settings now) sch due p))
      → (schedules : List Schedule) (p : Process) → I p
      → I (scan sys settings now schedules p)
  unfolding scan
  scan_keeps h [] p k = k
  scan_keeps h (sch ∷ schedules) p k =
      scan_keeps h schedules _ (h sch (due_of sys settings now sch) p k)

  pub reclaim_keeps :
      ((t : Trigger) (p : Process) → Q t → I p → I (enqueue_again settings now t p))
      → (orphans : List Trigger) (p : Process) → All Q orphans
      → I p
      → I (reclaim sys settings now orphans p)
  unfolding reclaim
  reclaim_keeps h [] p q k = k
  reclaim_keeps h (t ∷ orphans) p q k = reclaim_keeps h orphans _ q.1 (h t p q.0 k)
