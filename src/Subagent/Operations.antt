-- ===== src/Subagent/Operations.antt =====
-- Every call of SubagentStore that writes, as one type, so that a history of the ledger is a list.
use xone_assistant.Prelude.{ℕ, String, Option, List, [], ◌∷◌}
use xone_assistant.Subagent.Ledger.{Ledger}
use xone_assistant.Subagent.Store.{
  Request, Start, record_pending_request, record_started, update_sdk_agent_id_for_claimed_request,
}
use xone_assistant.Subagent.Store.Finish.{Finish, record_finished}
use xone_assistant.Subagent.Store.Cancel.{set_cancel_requested, mark_dispatch_failed}
use xone_assistant.Subagent.Store.Recovery.{recover_orphans}

pub data Operation : Type 0 where
  request : Request → Operation
  start : Start → Operation
  claim : (job_id : ℕ) (agent : String) (parent : Option String) → Operation
  finish : Finish → Operation
  cancel : (job_id : ℕ) → Operation
  fail : (job_id : ℕ) (reason : String) (max_attempts : ℕ) → Operation
  recover : (stale_requested_after_s : ℕ) → Operation

-- The ledger after a call, whether it returned or raised.
unfoldable pub apply : ℕ → Operation → Ledger → Ledger
apply now (request q) led = (record_pending_request now q led).1
apply now (start q) led = (record_started now q led).1
apply now (claim job_id agent parent) led =
    (update_sdk_agent_id_for_claimed_request now job_id agent parent led).1
apply now (finish q) led = (record_finished now q led).1
apply now (cancel job_id) led = (set_cancel_requested now job_id led).1
apply now (fail job_id reason max_attempts) led =
    (mark_dispatch_failed now job_id reason max_attempts led).1
apply now (recover stale_after) led = (recover_orphans now stale_after led).1

-- A history: calls in the order in which the store's lock let them run, each with its time.
unfoldable pub run : List (ℕ × Operation) → Ledger → Ledger
run [] led = led
run ((now, op) ∷ rest) led = run rest (apply now op led)
