-- ===== src/Subagent/Picker.antt =====
-- The picker of src/assistant/subagent/picker.py. What happens in the ledger while the bridge runs
-- (its hooks, and other tasks) is the argument `during`, and how the call ends is `Ending`.
pub mod NoLivelock
use Prim.Native.String.{◌++◌}
use xone_assistant.Prelude.{ℕ, String, Bool, Option, none, some, List, [], ◌∷◌, if◌then◌else◌}
use xone_assistant.Subagent.Job.{Status, SubagentJob, error, is_requested}
use xone_assistant.Subagent.Ledger.{Ledger}
use xone_assistant.Subagent.Store.Finish.{take_chars}
use xone_assistant.Subagent.Store.Cancel.{mark_dispatch_failed}
use xone_assistant.Subagent.Store.Queries.{get_by_id, list_pending_requests}
use xone_assistant.Subagent.Operations.{Operation, run}

-- How `bridge.ask` ends: `bridge_error` carries the repr of the ClaudeBridgeError, `unexpected` is
-- any other Exception, and `cancelled` is CancelledError, which is raised again.
pub data Ending : Type 0 where
  finished unexpected cancelled : Ending
  bridge_error : String → Ending

-- The message to the owner: the fields that its text is built from.
pub record Alert : Type 0 where
  pub job_id : ℕ
  pub agent_type : String
  pub chat_id : ℕ
  pub reason : String

-- the default of `mark_dispatch_failed`
abbrev pub max_attempts : ℕ
max_attempts = 3

unfoldable pub failure_reason : Ending → String
unfolding take_chars
failure_reason (bridge_error e) = "bridge: " ++ take_chars 300 e
failure_reason _ = "model did not invoke Task tool"

abbrev pub is_error : Option Status → Bool
is_error (some error) = Bool.true
is_error _ = Bool.false

alert : SubagentJob → String → Alert
unfolding take_chars
alert job reason = record {
  job_id = job.id;
  agent_type = job.agent_type;
  chat_id = job.callback_chat_id;
  reason = take_chars 200 reason;
}

-- `_finalize_dispatch`, from the row as it is read again.
unfoldable pub finalize_found : ℕ → Ending → Option SubagentJob → Ledger → Option Alert × Ledger
unfolding alert
finalize_found now ending none led = (none, led)
finalize_found now ending (some latest) led =
    let reason = failure_reason ending in
    let (new_status, led') = mark_dispatch_failed now latest.id reason max_attempts led in
    if is_requested latest.status
    then ((if is_error new_status then some (alert latest reason) else none), led')
    else (none, led)

unfoldable pub finalize_dispatch : ℕ → ℕ → Ending → Ledger → Option Alert × Ledger
unfolding finalize_found
finalize_dispatch now job_id ending led = finalize_found now ending (get_by_id job_id led) led

-- `_dispatch_one`
unfoldable pub dispatch_one :
    ℕ → SubagentJob → List (ℕ × Operation) → Ending → Ledger → Option Alert × Ledger
unfolding finalize_dispatch
dispatch_one now job during cancelled led = (none, run during led)
dispatch_one now job during ending led = finalize_dispatch now job.id ending (run during led)

pick : ℕ → List SubagentJob → List (ℕ × Operation) → Ending → Ledger → Option Alert × Ledger
unfolding dispatch_one
pick now [] during ending led = (none, led)
pick now (job ∷ _) during ending led =
    if job.cancel_requested then (none, led) else dispatch_one now job during ending led

-- One round of the loop in `run`.
unfoldable pub picker_round : ℕ → List (ℕ × Operation) → Ending → Ledger → Option Alert × Ledger
unfolding pick
picker_round now during ending led = pick now (list_pending_requests 1 led) during ending led
