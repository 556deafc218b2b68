-- ===== src/Subagent/Store/Queries.antt =====
-- The queries of src/assistant/subagent/store.py. LIMIT is a plain number: every caller in the
-- program passes a positive one.
use xone_assistant.Prelude.{
  ℕ, String, Bool, true, ◌&&◌, not, Option, none, some, List, keep, take, is_some, str_eq,
}
use mathlib.Core.List.{reverse}
use xone_assistant.Sql.{order_by, fetch_one}
use xone_assistant.Subagent.Job.{Status, SubagentJob, is_requested, same_status}
use xone_assistant.Subagent.Ledger.{Ledger, has_agent}
use xone_assistant.Subagent.Store.Cancel.{has_id}

unfoldable pub get_by_agent_id : String → Ledger → Option SubagentJob
unfolding fetch_one
get_by_agent_id agent led = fetch_one (has_agent agent) led.rows

unfoldable pub get_by_id : ℕ → Ledger → Option SubagentJob
unfolding fetch_one
get_by_id job_id led = fetch_one (has_id job_id) led.rows

-- The optional clauses of the WHERE that `list_jobs` builds.
abbrev pub status_clause : Option Status → SubagentJob → Bool
status_clause none r = true
status_clause (some s) r = same_status s r.status

abbrev pub kind_clause : Option String → SubagentJob → Bool
kind_clause none r = true
kind_clause (some k) r = str_eq r.agent_type k

-- ORDER BY id DESC: ids are unique, so this is the ascending order read backwards.
unfoldable pub list_jobs : Option Status → Option String → ℕ → Ledger → List SubagentJob
unfolding order_by
list_jobs status kind limit led = take limit (
    reverse
      (order_by (λ r. r.id) (keep (λ r. status_clause status r && kind_clause kind r) led.rows)))

abbrev pub is_pending_request : SubagentJob → Bool
is_pending_request r = is_requested r.status && not (is_some r.sdk_agent_id)

-- ORDER BY created_at ASC
unfoldable pub list_pending_requests : ℕ → Ledger → List SubagentJob
unfolding order_by
list_pending_requests limit led =
    take limit (order_by (λ r. r.created_at) (keep is_pending_request led.rows))
