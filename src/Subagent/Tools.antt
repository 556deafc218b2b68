-- ===== src/Subagent/Tools.antt =====
-- The tools with which the model queues, lists, looks at and cancels background jobs
-- (src/assistant/tools_sdk/subagent.py, src/assistant/tools_sdk/_subagent_core.py).
pub mod Queued
mod Examples
use xone_assistant.Prelude.{
  ℕ, zero, suc, String, Bool, true, false, ◌&&◌, Option, none, some, List, [], ◌∷◌, map,
  if◌then◌else◌, ltb, any, codes, text_eq, utf8_length, ◌==◌, str_eq,
}
use Prim.Native.Char.{code}
use xone_assistant.Cron.Split.{Unicode}
use xone_assistant.Subagent.Job.{Status, SubagentJob}
use xone_assistant.Subagent.Ledger.{Ledger}
use xone_assistant.Subagent.Store.{Request, record_pending_request}
use xone_assistant.Subagent.Store.Cancel.{CancelReply, job_not_found, set_cancel_requested}
use xone_assistant.Subagent.Store.Queries.{get_by_id, list_jobs}

-- The codes of the errors, by their names.
pub data Code : Type 0 where
  validation kind_code task_size not_found : Code

-- What job_to_dict shows of a job.
pub record JobDict : Type 0 where
  pub id : ℕ
  pub status : Status
  pub kind : String
  pub task_text : Option String
  pub result_summary : Option String
  pub spawned_by_kind : String
  pub callback_chat_id : ℕ
  pub cancel_requested : Bool
  pub created_at : ℕ
  pub started_at : Option ℕ
  pub finished_at : Option ℕ

unfoldable pub job_to_dict : SubagentJob → JobDict
job_to_dict job = record {
  id = job.id;
  status = job.status;
  kind = job.agent_type;
  task_text = job.task_text;
  result_summary = job.result_summary;
  spawned_by_kind = job.spawned_by_kind;
  callback_chat_id = job.callback_chat_id;
  cancel_requested = job.cancel_requested;
  created_at = job.created_at;
  started_at = job.started_at;
  finished_at = job.finished_at;
}

pub data Reply : Type 0 where
  tool_error : Code → Reply
  queued : (job_id : ℕ) → (kind : String) → Reply
  jobs : List JobDict → Reply
  shown : JobDict → Reply
  cancelled : CancelReply → Reply

-- SUBAGENT_KINDS
abbrev pub subagent_kinds : List String
subagent_kinds = "general" ∷ "worker" ∷ "researcher" ∷ []

-- `none` is a value that is no text, and as a result, a ValueError.
unfoldable pub validate_kind : Option String → Option String
validate_kind none = none
validate_kind (some raw) = if any (str_eq raw) subagent_kinds then some raw else none

-- An argument that is absent, or of another type, or one that can be read; the id of a chat, which
-- may be below 0, stands as a natural number.
pub data Argument (A : Type 0) : Type 0 where
  absent : Argument A
  unreadable : Argument A
  given : A → Argument A

-- str.strip on a native text
abbrev pub is_empty : String → Bool
is_empty s = text_eq (codes s) []

module _ (u : Unicode) where
  unfoldable pub rstrip : String → String
  rstrip String.[] = ""
  rstrip (String.◌∷◌ c s) =
      let rest = rstrip s in if u.is_space (code c) && is_empty rest then "" else String.◌∷◌ c rest

  unfoldable pub lstrip : String → String
  lstrip String.[] = ""
  lstrip (String.◌∷◌ c s) =
      let rest = lstrip s in if u.is_space (code c) then rest else String.◌∷◌ c s

  unfoldable pub validate_task_text : Option String → Option String
  validate_task_text none = none
  validate_task_text (some raw) =
      let stripped = rstrip (lstrip raw) in
      if is_empty stripped
      then none
      else if ltb 4096 (utf8_length (codes stripped))
      then none
      else some stripped

  -- origin == "scheduler"
  abbrev pub spawned_by : (from_scheduler : Bool) → String
  spawned_by true = "scheduler"
  spawned_by false = "tool"

  abbrev pub callback_or : (owner_chat_id : ℕ) → Argument ℕ → Option ℕ
  callback_or owner_chat_id absent = some owner_chat_id
  callback_or owner_chat_id unreadable = none
  callback_or owner_chat_id (given chat_id) = some chat_id

  abbrev pub queue :
      (now : ℕ)
      → (from_scheduler : Bool) → (kind task : String) → Option ℕ
      → Ledger
      → Reply × Ledger
  queue now from_scheduler kind task none led = (tool_error validation, led)
  queue now from_scheduler kind task (some callback_chat_id) led =
      let (job_id, after) =
        record_pending_request now
          (record {
            agent_type = kind;
            task_text = task;
            callback_chat_id = callback_chat_id;
            spawned_by_kind = spawned_by from_scheduler;
            spawned_by_ref = none;
          })
          led in
      (queued job_id kind, after)

  abbrev pub spawn_task :
      (now owner_chat_id : ℕ)
      → (from_scheduler : Bool) → (kind : String) → Option String
      → Argument ℕ
      → Ledger
      → Reply × Ledger
  spawn_task now owner_chat_id from_scheduler kind none callback led = (tool_error task_size, led)
  spawn_task now owner_chat_id from_scheduler kind (some task) callback led =
      queue now from_scheduler kind task (callback_or owner_chat_id callback) led

  abbrev pub spawn_kind :
      (now owner_chat_id : ℕ)
      → (from_scheduler : Bool) → Option String
      → (task : Option String) → Argument ℕ
      → Ledger
      → Reply × Ledger
  spawn_kind now owner_chat_id from_scheduler none task callback led = (tool_error kind_code, led)
  spawn_kind now owner_chat_id from_scheduler (some kind) task callback led =
      spawn_task now owner_chat_id from_scheduler kind (validate_task_text task) callback led

  -- The handlers of a server that was configured.
  unfoldable pub subagent_spawn :
      (now owner_chat_id : ℕ)
      → (from_scheduler : Bool) → (kind task : Option String) → Argument ℕ
      → Ledger
      → Reply × Ledger
  subagent_spawn now owner_chat_id from_scheduler kind task callback led =
      spawn_kind now owner_chat_id from_scheduler (validate_kind kind) task callback led

-- max(1, min(limit, 200)), where a limit below 0 stands as 0 and one that cannot be read as 20
unfoldable pub clamp_limit : Argument ℕ → ℕ
clamp_limit (given zero) = 1
clamp_limit (given (suc n)) = if ltb 200 (suc n) then 200 else suc n
clamp_limit _ = 20

abbrev pub filter_of : {A : Type 0} → Argument A → Option A
filter_of absent = none
filter_of unreadable = none
filter_of (given a) = some a

abbrev pub list_with : (status : Option Status) → Argument String → (limit : ℕ) → Ledger → Reply
list_with status unreadable limit led = tool_error validation
list_with status kind limit led =
    jobs (map job_to_dict (list_jobs status (filter_of kind) limit led))

-- A text that names no status, for which the code finds no job, is left out.
unfoldable pub subagent_list :
    (limit : Argument ℕ) → (status : Argument Status) → (kind : Argument String) → Ledger → Reply
subagent_list limit unreadable kind led = tool_error validation
subagent_list limit status kind led = list_with (filter_of status) kind (clamp_limit limit) led

abbrev pub shown_or : Option SubagentJob → Reply
shown_or none = tool_error not_found
shown_or (some job) = shown (job_to_dict job)

-- int(raw or 0): an id below 1 and one that is absent stand as 0.
unfoldable pub subagent_status : (job_id : Argument ℕ) → Ledger → Reply
subagent_status (given n) led = if n == 0 then tool_error validation else shown_or (get_by_id n led)
subagent_status _ led = tool_error validation

abbrev pub cancel_reply : CancelReply → Reply
cancel_reply job_not_found = tool_error not_found
cancel_reply reply = cancelled reply

abbrev pub replied : CancelReply × Ledger → Reply × Ledger
replied (reply, led) = (cancel_reply reply, led)

unfoldable pub subagent_cancel : (now : ℕ) → (job_id : Argument ℕ) → Ledger → Reply × Ledger
subagent_cancel now (given n) led =
    let cancelling = replied (set_cancel_requested now n led) in
    if n == 0 then (tool_error validation, led) else cancelling
subagent_cancel now _ led = (tool_error validation, led)
