-- ===== src/Subagent/Store/Cancel.antt =====
-- `set_cancel_requested`, `mark_dispatch_failed` and `is_cancel_requested` of
-- src/assistant/subagent/store.py.
use xone_assistant.Prelude.{
  ℕ, ◌+◌, String, Bool, true, false, ◌&&◌, not, Option, none, some, if◌then◌else◌, leb, ◌==◌,
}
use xone_assistant.Sql.{update_where, fetch_one}
use xone_assistant.Subagent.Job.{Status, SubagentJob, stopped, error, is_requested, is_terminal}
use xone_assistant.Subagent.Ledger.{Ledger, has_agent}
use xone_assistant.Subagent.Store.Finish.{trim_error}

-- The three dicts that `set_cancel_requested` returns.
pub data CancelReply : Type 0 where
  job_not_found : CancelReply
  already_terminal : Status → CancelReply
  cancel_accepted : (previous_status : Status) → CancelReply

-- WHERE id=?
abbrev pub has_id : ℕ → SubagentJob → Bool
has_id job_id r = r.id == job_id

abbrev pub is_live : ℕ → SubagentJob → Bool
is_live job_id r = r.id == job_id && not (is_terminal r.status)

abbrev pub cancel : ℕ → SubagentJob → SubagentJob
cancel now r = record r {
  cancel_requested = true;
  status = if is_requested r.status then stopped else r.status;
  finished_at = if is_requested r.status then some now else r.finished_at;
}

unfoldable pub cancel_found : ℕ → ℕ → Option SubagentJob → Ledger → CancelReply × Ledger
unfolding update_where
cancel_found now job_id none led = (job_not_found, led)
cancel_found now job_id (some row) led =
    if is_terminal row.status then (already_terminal row.status, led) else (
      cancel_accepted row.status,
      record led { rows = update_where (is_live job_id) (cancel now) led.rows },
    )

unfoldable pub set_cancel_requested : ℕ → ℕ → Ledger → CancelReply × Ledger
unfolding cancel_found fetch_one
set_cancel_requested now job_id led =
    cancel_found now job_id (fetch_one (has_id job_id) led.rows) led

abbrev pub fail_dispatch : ℕ → Option String → ℕ → SubagentJob → SubagentJob
fail_dispatch now reason max_attempts r = record r {
  attempts = r.attempts + 1;
  last_error = reason;
  status = if leb max_attempts (r.attempts + 1) then error else r.status;
  finished_at = if leb max_attempts (r.attempts + 1) then some now else r.finished_at;
}

-- WHERE id=? AND status='requested'
abbrev pub is_pending : ℕ → SubagentJob → Bool
is_pending job_id r = r.id == job_id && is_requested r.status

abbrev pub status_of : Option SubagentJob → Option Status
status_of none = none
status_of (some r) = some r.status

-- `none` stands for the text "unknown" that is returned when there is no such row.
unfoldable pub mark_dispatch_failed : ℕ → ℕ → String → ℕ → Ledger → Option Status × Ledger
unfolding update_where fetch_one trim_error
mark_dispatch_failed now job_id reason max_attempts led =
    let led' = record led {
      rows =
          update_where (is_pending job_id)
            (fail_dispatch now (trim_error (some reason)) max_attempts) led.rows;
    } in
    (status_of (fetch_one (has_id job_id) led'.rows), led')

abbrev pub cancel_flag : Option SubagentJob → Bool
cancel_flag none = false
cancel_flag (some r) = r.cancel_requested

unfoldable pub is_cancel_requested : String → Ledger → Bool
unfolding fetch_one
is_cancel_requested agent led = cancel_flag (fetch_one (has_agent agent) led.rows)
