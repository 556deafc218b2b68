-- ===== src/Subagent/Store/Finish.antt =====
-- `record_finished` of src/assistant/subagent/store.py.
use xone_assistant.Prelude.{
  ℕ, zero, suc, String, Bool, true, false, ◌&&◌, not, Option, none, some, if◌then◌else◌, ltb, ◌==◌,
  Result, ok, raise, value_error, str_eq,
}
use xone_assistant.Sql.{update_where, row_count, fetch_one}
use xone_assistant.Subagent.Job.{Status, SubagentJob, is_requested, is_started, is_terminal}
use xone_assistant.Subagent.Ledger.{Ledger, has_agent}

-- What a caller of `record_finished` passes.
pub record Finish : Type 0 where
  pub sdk_agent_id : String
  pub status : Status
  pub result_summary : Option String
  pub transcript_path : Option String
  pub sdk_session_id : Option String
  pub cost_usd : Option ℕ
  pub last_error : Option String

-- s[:n]
unfoldable pub take_chars : ℕ → String → String
take_chars zero s = String.[]
take_chars (suc n) String.[] = String.[]
take_chars (suc n) (String.◌∷◌ c s) = String.◌∷◌ c (take_chars n s)

-- text[:500] if text else None
unfoldable pub trim_error : Option String → Option String
unfolding take_chars
trim_error none = none
trim_error (some s) = if str_eq s "" then none else some (take_chars 500 s)

abbrev pub finish : ℕ → Finish → SubagentJob → SubagentJob
finish now q r = record r {
  status = q.status;
  result_summary = q.result_summary;
  transcript_path = q.transcript_path;
  sdk_session_id = q.sdk_session_id;
  cost_usd = q.cost_usd;
  last_error = trim_error q.last_error;
  finished_at = some now;
}

abbrev pub or_now : ℕ → Option ℕ → Option ℕ
or_now now none = some now
or_now now (some t) = some t

-- the second UPDATE, which also sets started_at by COALESCE
abbrev pub finish_requested : ℕ → Finish → SubagentJob → SubagentJob
finish_requested now q r =
    let s = finish now q r in record s { started_at = or_now now s.started_at }

-- WHERE sdk_agent_id=? AND status=...
abbrev pub is_started_agent : String → SubagentJob → Bool
is_started_agent agent r = has_agent agent r && is_started r.status

abbrev pub is_requested_agent : String → SubagentJob → Bool
is_requested_agent agent r = has_agent agent r && is_requested r.status

unfoldable pub finish_by_race : ℕ → Finish → Option SubagentJob → Ledger → Result Bool × Ledger
unfolding update_where
finish_by_race now q none led = (ok false, led)
finish_by_race now q (some row) led = (
  ok true,
  record led { rows = update_where (λ r. r.id == row.id) (finish_requested now q) led.rows },
)

unfoldable pub record_finished : ℕ → Finish → Ledger → Result Bool × Ledger
unfolding finish_by_race update_where row_count fetch_one
record_finished now q led =
    if not (is_terminal q.status)
    then (raise value_error, led)
    else if ltb 0 (row_count (is_started_agent q.sdk_agent_id) led.rows)
    then (
      ok true,
      record led { rows = update_where (is_started_agent q.sdk_agent_id) (finish now q) led.rows },
    )
    else finish_by_race now q (fetch_one (is_requested_agent q.sdk_agent_id) led.rows) led
