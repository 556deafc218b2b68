-- ===== src/Subagent/Store.antt =====
-- SubagentStore of src/assistant/subagent/store.py. A method is a function of the time `now` and
-- the ledger; it returns its result and the ledger after the commit.
pub mod Finish
pub mod Cancel
pub mod Recovery
pub mod Queries
use xone_assistant.Prelude.{
  ℕ, zero, ◌+◌, ◌<◌, String, Bool, true, false, ◌&&◌, not, Option, none, some, List, if◌then◌else◌,
  ltb, ◌==◌, is_some, Result, ok, raise, integrity_error,
}
use xone_assistant.Sql.{update_where, row_count, fetch_one}
use xone_assistant.Subagent.Job.{SubagentJob, requested, started, is_requested}
use xone_assistant.Subagent.Ledger.{Ledger, agent_rows, has_agent, insert}

-- What a caller of `record_pending_request` passes.
pub record Request : Type 0 where
  pub agent_type : String
  pub task_text : String
  pub callback_chat_id : ℕ
  pub spawned_by_kind : String
  pub spawned_by_ref : Option String

unfoldable pub requested_row : ℕ → Request → ℕ → SubagentJob
requested_row now q new_id = record {
  id = new_id;
  sdk_agent_id = none;
  sdk_session_id = none;
  parent_session_id = none;
  agent_type = q.agent_type;
  task_text = some q.task_text;
  transcript_path = none;
  status = requested;
  cancel_requested = false;
  result_summary = none;
  cost_usd = none;
  callback_chat_id = q.callback_chat_id;
  spawned_by_kind = q.spawned_by_kind;
  spawned_by_ref = q.spawned_by_ref;
  attempts = 0;
  last_error = none;
  created_at = now;
  started_at = none;
  finished_at = none;
}

unfoldable pub record_pending_request : ℕ → Request → Ledger → ℕ × Ledger
unfolding requested_row insert
record_pending_request now q led = (led.last_id + 1, insert (requested_row now q) led)

-- What a caller of `record_started` passes.
pub record Start : Type 0 where
  pub sdk_agent_id : String
  pub agent_type : String
  pub parent_session_id : Option String
  pub callback_chat_id : ℕ
  pub spawned_by_kind : String
  pub spawned_by_ref : Option String

unfoldable pub started_row : ℕ → Start → ℕ → SubagentJob
started_row now q new_id = record {
  id = new_id;
  sdk_agent_id = some q.sdk_agent_id;
  sdk_session_id = none;
  parent_session_id = q.parent_session_id;
  agent_type = q.agent_type;
  task_text = none;
  transcript_path = none;
  status = started;
  cancel_requested = false;
  result_summary = none;
  cost_usd = none;
  callback_chat_id = q.callback_chat_id;
  spawned_by_kind = q.spawned_by_kind;
  spawned_by_ref = q.spawned_by_ref;
  attempts = 0;
  last_error = none;
  created_at = now;
  started_at = some now;
  finished_at = none;
}

abbrev pub row_id : Option SubagentJob → Option ℕ
row_id none = none
row_id (some r) = some r.id

-- On IntegrityError the id of the row that holds the agent already; `none` stands for the -1 that
-- the source returns when no such row is found.
unfoldable pub record_started : ℕ → Start → Ledger → Option ℕ × Ledger
unfolding started_row insert agent_rows fetch_one
record_started now q led =
    if ltb 0 (agent_rows q.sdk_agent_id led.rows)
    then (row_id (fetch_one (has_agent q.sdk_agent_id) led.rows), led)
    else (some (led.last_id + 1), insert (started_row now q) led)

-- WHERE id=? AND status='requested' AND sdk_agent_id IS NULL
abbrev pub is_claimable : ℕ → SubagentJob → Bool
is_claimable job_id r = r.id == job_id && is_requested r.status && not (is_some r.sdk_agent_id)

abbrev pub claim : ℕ → String → Option String → SubagentJob → SubagentJob
claim now agent parent r = record r {
  sdk_agent_id = some agent;
  parent_session_id = parent;
  status = started;
  started_at = some now;
}

-- The UPDATE raises IntegrityError when it would give a second row the same agent id.
unfoldable pub update_sdk_agent_id_for_claimed_request :
    ℕ → ℕ → String → Option String → Ledger → Result Bool × Ledger
unfolding update_where row_count agent_rows
update_sdk_agent_id_for_claimed_request now job_id agent parent led =
    let claimed = row_count (is_claimable job_id) led.rows in
    if ltb 0 claimed && ltb 1 (claimed + agent_rows agent led.rows)
    then (raise integrity_error, led)
    else (
      ok (ltb 0 claimed),
      record led { rows = update_where (is_claimable job_id) (claim now agent parent) led.rows },
    )
