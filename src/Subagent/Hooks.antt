-- ===== src/Subagent/Hooks.antt =====
-- The SDK hooks of src/assistant/subagent/hooks.py that write to the ledger. What the SDK sends is
-- the argument `Payload`; a missing key is `none`. Between two of its store calls a hook waits, and
-- other tasks call the store: their calls are the argument `between` (and `after`). The delivery
-- of the notification is in the module Throttle.
pub mod Outcomes
use xone_assistant.Prelude.{
  ℕ, String, Bool, true, false, ◌||◌, Option, none, some, if◌then◌else◌, str_eq, Result, ok, raise,
  List,
}
use xone_assistant.Subagent.Job.{Status, SubagentJob, stopped, failed, completed}
use xone_assistant.Subagent.Ledger.{Ledger}
use xone_assistant.Subagent.Operations.{Operation, run}
use xone_assistant.Subagent.Store.{record_started, update_sdk_agent_id_for_claimed_request}
use xone_assistant.Subagent.Store.Finish.{Finish, record_finished, take_chars}
use xone_assistant.Subagent.Store.Cancel.{is_cancel_requested}
use xone_assistant.Subagent.Store.Queries.{get_by_agent_id}

abbrev pub History : Type 0
History = List (ℕ × Operation)

-- The keys of the hook input that are read, each a text or absent.
pub record Payload : Type 0 where
  pub agent_id : Option String
  pub agent_type : Option String
  pub session_id : Option String
  pub agent_transcript_path : Option String
  pub last_assistant_message : Option String
  pub status : Option String
  pub task_status : Option String
  pub error : Option String
  pub error_message : Option String

-- The context variables and settings of a turn.
pub record Turn : Type 0 where
  pub request_id : Option ℕ
  pub origin : Option String
  pub owner_chat_id : ℕ

-- raw.get(key) or default
abbrev pub or_else : Option String → String → String
or_else none d = d
or_else (some s) d = if str_eq s "" then d else s

-- raw.get(a) or raw.get(b), where an empty text counts as absent
abbrev pub first_text : Option String → Option String → Option String
first_text none b = b
first_text (some s) b = if str_eq s "" then b else some s

-- x if x else None
abbrev pub nonempty : Option String → Option String
nonempty x = first_text x none

abbrev pub spawned_by : Option String → String
spawned_by none = "user"
spawned_by (some origin) = if str_eq origin "scheduler" then "scheduler" else "user"

-- `record_started` under `except Exception`.
unfoldable pub start_native : ℕ → Turn → String → Payload → Ledger → Result (Unit {0}) × Ledger
start_native now turn agent p led = (
  ok tt,
  (record_started now
      (record {
        sdk_agent_id = agent;
        agent_type = or_else p.agent_type "unknown";
        parent_session_id = p.session_id;
        callback_chat_id = turn.owner_chat_id;
        spawned_by_kind = spawned_by turn.origin;
        spawned_by_ref = none;
      })
      led).1,
)

-- What follows the claim: it was patched, or the insert is the fallback, or its error goes on up.
unfoldable pub after_claim :
    History → ℕ → Turn → String → Payload → Result Bool → Ledger → Result (Unit {0}) × Ledger
unfolding start_native
after_claim between now turn agent p (ok true) led = (ok tt, led)
after_claim between now turn agent p (ok false) led =
    start_native now turn agent p (run between led)
after_claim between now turn agent p (raise e) led = (raise e, led)

unfoldable pub start_agent :
    History → ℕ → Turn → Option ℕ → String → Payload → Ledger → Result (Unit {0}) × Ledger
unfolding after_claim
start_agent between now turn none agent p led = start_native now turn agent p led
start_agent between now turn (some job_id) agent p led =
    let (claimed, led') =
      (update_sdk_agent_id_for_claimed_request now job_id agent p.session_id led) in
    after_claim between now turn agent p claimed led'

unfoldable pub on_subagent_start :
    History → ℕ → Turn → Payload → Ledger → Result (Unit {0}) × Ledger
unfolding start_agent
on_subagent_start between now turn p led =
    let agent = or_else p.agent_id "" in
    if str_eq agent ""
    then (ok tt, led)
    else start_agent between now turn turn.request_id agent p led

abbrev pub is_failed : Option String → Bool
is_failed none = false
is_failed (some s) = str_eq s "failed"

-- The status and the error that a finished subagent is recorded with.
abbrev pub verdict : Bool → Payload → Status × Option String
verdict cancelled p =
    if cancelled
    then (stopped, none)
    else if is_failed (first_text p.status p.task_status)
    then (failed, some (or_else p.error (or_else p.error_message "subagent failed")))
    else (completed, none)

-- A notification for the owner: the job and the text that is formatted for it.
pub record Notification : Type 0 where
  pub job : SubagentJob
  pub result_text : String

abbrev pub notify_of : Option SubagentJob → String → Option Notification
notify_of none text = none
notify_of (some job) text = some (record { job = job; result_text = text })

-- str(path) if path else "", and the text of the transcript when the payload has none
abbrev pub last_message : (String → String) → Payload → String
last_message read_transcript p =
    if str_eq (or_else p.last_assistant_message "") ""
    then (if str_eq (or_else p.agent_transcript_path "") ""
        then ""
        else read_transcript (or_else p.agent_transcript_path ""))
    else or_else p.last_assistant_message ""

unfoldable pub finish_of : String → Payload → String → Bool → Finish
unfolding take_chars
finish_of agent p text cancelled = record {
  sdk_agent_id = agent;
  status = (verdict cancelled p).0;
  result_summary = if str_eq text "" then none else some (take_chars 500 text);
  transcript_path = nonempty p.agent_transcript_path;
  sdk_session_id = nonempty p.session_id;
  cost_usd = none;
  last_error = (verdict cancelled p).1;
}

-- `read_transcript` is the fallback of the module Transcript; on an empty path it is not called,
-- and the text stays empty.
unfoldable pub on_subagent_stop :
    (String → String)
    → (between after : History) → ℕ
    → Payload
    → Ledger
    → Option Notification × Ledger
unfolding finish_of
on_subagent_stop read_transcript between after now p led =
    let agent = or_else p.agent_id "" in
    let text = last_message read_transcript p in
    let q = finish_of agent p text (is_cancel_requested agent led) in
    let led' = run after (record_finished now q (run between led)).1 in
    if str_eq agent "" then (none, led) else (
      notify_of (get_by_agent_id agent led')
          (if str_eq text "" then "(subagent produced no final message)" else text),
      led',
    )

-- Whether the tool call is denied.
unfoldable pub on_pretool_cancel_gate : Option String → Ledger → Bool
on_pretool_cancel_gate none led = false
on_pretool_cancel_gate (some agent) led =
    if str_eq agent "" then false else is_cancel_requested agent led
