-- ===== src/Subagent/Job.antt =====
-- A row of `subagent_jobs` (src/assistant/subagent/store.py). Times are seconds, since every
-- timestamp that the program writes is a whole second. `cost_usd` is a float that the store only
-- keeps; it stands here as its bit pattern. callback_chat_id is an integer that may be
-- below 0; a natural number stands for it.
use xone_assistant.Prelude.{ℕ, String, Bool, true, false, Option}

pub data Status : Type 0 where
  requested started completed failed stopped interrupted error dropped : Status

-- status in _TERMINAL_STATUSES
abbrev pub is_terminal : Status → Bool
is_terminal requested = false
is_terminal started = false
is_terminal _ = true

abbrev pub is_requested : Status → Bool
is_requested requested = true
is_requested _ = false

abbrev pub is_started : Status → Bool
is_started started = true
is_started _ = false

-- status = ?
abbrev pub same_status : Status → Status → Bool
same_status requested s = is_requested s
same_status started s = is_started s
same_status completed completed = true
same_status failed failed = true
same_status stopped stopped = true
same_status interrupted interrupted = true
same_status error error = true
same_status dropped dropped = true
same_status _ _ = false

pub record SubagentJob : Type 0 where
  pub id : ℕ
  pub sdk_agent_id : Option String
  pub sdk_session_id : Option String
  pub parent_session_id : Option String
  pub agent_type : String
  pub task_text : Option String
  pub transcript_path : Option String
  pub status : Status
  pub cancel_requested : Bool
  pub result_summary : Option String
  pub cost_usd : Option ℕ
  pub callback_chat_id : ℕ
  pub spawned_by_kind : String
  pub spawned_by_ref : Option String
  pub attempts : ℕ
  pub last_error : Option String
  pub created_at : ℕ
  pub started_at : Option ℕ
  pub finished_at : Option ℕ
