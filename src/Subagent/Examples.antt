-- ===== src/Subagent/Examples.antt =====
-- Small ledgers of subagent jobs, and the theorems at them (src/assistant/subagent/).
use xone_assistant.Prelude.{
  Option, String, ℕ, ◌<◌, true, false, none, some, List, [], ◌∷◌, ◌≡◌, ◌≢◌, ◌⊎◌, refl, arith, All,
  if◌then◌else◌,
}
use xone_assistant.Sql.{fetch_one}
use xone_assistant.Subagent.Job.{SubagentJob, completed, failed, stopped, error, is_requested}
use xone_assistant.Subagent.Ledger.{Ledger, empty, insert, agent_rows}
use xone_assistant.Subagent.Store.{
  Request, Start, requested_row, started_row, record_pending_request, record_started,
  update_sdk_agent_id_for_claimed_request,
}
use xone_assistant.Subagent.Store.Finish.{Finish, finish, record_finished}
use xone_assistant.Subagent.Store.Cancel.{
  set_cancel_requested, mark_dispatch_failed, is_cancel_requested,
}
use xone_assistant.Subagent.Store.Recovery.{recover_orphans, total}
use xone_assistant.Subagent.Store.Queries.{
  get_by_id, get_by_agent_id, list_pending_requests, list_jobs,
}
use xone_assistant.Subagent.Operations.{Operation, request, start, claim, cancel, apply, run}
use xone_assistant.Subagent.Operations.{finish as finish_op}
use xone_assistant.Subagent.Invariant.{IsValid}
use xone_assistant.Subagent.Invariant.Preserved.{empty-IsValid, run-IsValid}
use xone_assistant.Subagent.Machine.{Progress}
use xone_assistant.Subagent.Machine.Forever.{
  get_by_id-apply, get_by_id-run, Outcome, get_by_id-run_terminal,
}
use xone_assistant.Subagent.Recovered.{Settled, recover_orphans-Settled}
use xone_assistant.Subagent.Retries.{
  mark_dispatch_failed_lem, failed_once, fail_dispatches, fail_dispatches_end,
}
use xone_assistant.Subagent.Cancelling.{is_cancel_requested-set_cancel_requested}
use xone_assistant.Subagent.Hooks.{
  Payload, Turn, or_else, on_subagent_start, on_subagent_stop, is_failed, first_text,
}
use xone_assistant.Subagent.Hooks.Outcomes.{on_subagent_start-agent_rows, on_subagent_stop-finish}
use xone_assistant.Subagent.Transcript.{
  Json, text, array, object, nil, cons, end, field, read_last_assistant_from_transcript, last_text,
  read_last_assistant_from_transcript_lem,
}
use xone_assistant.Subagent.Throttle.{wait_ms, throttle}
use xone_assistant.Subagent.Picker.{finished, finalize_dispatch, dispatch_one, picker_round}
use xone_assistant.Subagent.Picker.NoLivelock.{dispatch_one-progress}

abbrev ask : Request
ask = record {
  agent_type = "researcher";
  task_text = "read the paper";
  callback_chat_id = 7;
  spawned_by_kind = "tool";
  spawned_by_ref = none;
}

abbrev native : Start
native = record {
  sdk_agent_id = "a1";
  agent_type = "general";
  parent_session_id = some "s1";
  callback_chat_id = 7;
  spawned_by_kind = "user";
  spawned_by_ref = none;
}

abbrev done : Finish
done = record {
  sdk_agent_id = "a1";
  status = completed;
  result_summary = some "ok";
  transcript_path = none;
  sdk_session_id = none;
  cost_usd = none;
  last_error = none;
}

abbrev history : List (ℕ × Operation)
history = (100, request ask) ∷ (110, start native) ∷ []

-- Job 1 is requested, job 2 runs the agent a1.
abbrev two_jobs : Ledger
two_jobs = run history empty

two_jobs-IsValid : IsValid two_jobs
two_jobs-IsValid = run-IsValid history empty empty-IsValid

-- What a test computes with.
program : Unit {0}
unfolding run apply record_pending_request record_started update_sdk_agent_id_for_claimed_request
    record_finished set_cancel_requested mark_dispatch_failed is_cancel_requested recover_orphans
    total get_by_id get_by_agent_id list_pending_requests list_jobs agent_rows fetch_one insert
    requested_row started_row on_subagent_start on_subagent_stop fail_dispatches finalize_dispatch
    dispatch_one picker_round wait_ms throttle
program = tt

abbrev first : SubagentJob
first = requested_row 100 ask 1

abbrev second : SubagentJob
second = started_row 110 native 2

found-First : get_by_id 1 two_jobs ≡ some first
unfolding program
found-First = refl

found_second : get_by_id 2 two_jobs ≡ some second
unfolding program
found_second = refl

abbrev ended_jobs : Ledger
ended_jobs = run ((120, finish_op done) ∷ []) two_jobs

found_ended : get_by_id 2 ended_jobs ≡ some (finish 120 done second)
unfolding program
found_ended = refl

run-IsValid_example : IsValid (run history empty)
run-IsValid_example = run-IsValid history empty empty-IsValid

get_by_id-run_terminal_example :
    get_by_id 2 (run ((130, cancel 2) ∷ (140, start native) ∷ []) ended_jobs)
    ≡ some (finish 120 done second)
unfolding program
get_by_id-run_terminal_example =
    get_by_id-run_terminal ((130, cancel 2) ∷ (140, start native) ∷ []) ended_jobs 2
      (finish 120 done second) (run-IsValid ((120, finish_op done) ∷ []) two_jobs two_jobs-IsValid)
      refl found_ended

get_by_id-run_example :
    (r' : SubagentJob) × (get_by_id 1 (run ((130, cancel 1) ∷ []) two_jobs) ≡ some r')
    × Outcome first r'
get_by_id-run_example =
    get_by_id-run ((130, cancel 1) ∷ []) two_jobs 1 first two_jobs-IsValid found-First

get_by_id-apply_example :
    (r' : SubagentJob) × (get_by_id 1 (apply 130 (claim 1 "b2" none) two_jobs) ≡ some r')
    × Progress first r'
get_by_id-apply_example =
    get_by_id-apply 130 (claim 1 "b2" none) two_jobs 1 first two_jobs-IsValid found-First

abbrev claimed_jobs : Ledger
claimed_jobs = (update_sdk_agent_id_for_claimed_request 120 1 "b2" none two_jobs).1

recover_orphans-Settled_example :
    All (Settled 9000 3600) (recover_orphans 9000 3600 two_jobs).1.rows
recover_orphans-Settled_example = recover_orphans-Settled 9000 3600 two_jobs two_jobs-IsValid

mark_dispatch_failed_lem_example :
    let (status, led') = mark_dispatch_failed 120 1 "no CLI" 3 two_jobs in
    let r' = failed_once 120 "no CLI" 3 first in
    (get_by_id 1 led' ≡ some r') × (status ≡ some r'.status)
mark_dispatch_failed_lem_example =
    mark_dispatch_failed_lem 120 1 "no CLI" 3 two_jobs first found-First

fail_dispatches_end_example :
    (r' : SubagentJob) × (get_by_id 1 (fail_dispatches (120 ∷ 130 ∷ 140 ∷ []) 1 "no CLI" 3 two_jobs)
      ≡ some r')
    × (r'.status ≡ error)
unfolding program
fail_dispatches_end_example =
    fail_dispatches_end (120 ∷ 130 ∷ 140 ∷ []) 1 "no CLI" 3 two_jobs first found-First refl
      (omega arith) (omega arith)

is_cancel_requested-set_cancel_requested_example :
    is_cancel_requested "a1" (set_cancel_requested 120 2 two_jobs).1 ≡ true
unfolding program
is_cancel_requested-set_cancel_requested_example =
    is_cancel_requested-set_cancel_requested 120 2 "a1" two_jobs second found_second refl refl

abbrev payload : Payload
payload = record {
  agent_id = some "a1";
  agent_type = some "general";
  session_id = some "s1";
  agent_transcript_path = none;
  last_assistant_message = some "all done";
  status = none;
  task_status = some "failed";
  error = some "max turns";
  error_message = none;
}

abbrev turn : Turn
turn = record { request_id = some 1; origin = some "scheduler"; owner_chat_id = 7 }

named : or_else payload.agent_id "" ≢ ""
named e = cc e

on_subagent_start-agent_rows_example :
    agent_rows "a1" (on_subagent_start [] 100 turn payload empty).1.rows ≡ 1
unfolding program
on_subagent_start-agent_rows_example =
    on_subagent_start-agent_rows [] 100 turn payload empty empty-IsValid named refl

on_subagent_stop-finish_example :
    (r' : SubagentJob) × (get_by_id 2
        (on_subagent_stop
          (λ path. "")
          ((115, cancel 1) ∷ [])
          ((130, cancel 2) ∷ [])
          120
          payload
          two_jobs).1
      ≡ some r')
    × (r'.status ≡ (
        if is_cancel_requested "a1" two_jobs
        then stopped
        else if is_failed (first_text payload.status payload.task_status)
        then failed
        else completed))
    × (r'.finished_at ≡ some 120)
unfolding program
on_subagent_stop-finish_example =
    on_subagent_stop-finish (λ path. "") ((115, cancel 1) ∷ []) ((130, cancel 2) ∷ []) 120 payload
      two_jobs 2 second two_jobs-IsValid named refl refl refl

dispatch_one-progress_example :
    (r' : SubagentJob) × (get_by_id 1 (dispatch_one 120 first [] finished two_jobs).1 ≡ some r')
    × ((is_requested r'.status ≡ false) ⊎ (first.attempts < r'.attempts))
unfolding program
dispatch_one-progress_example =
    dispatch_one-progress 120 first [] finished two_jobs two_jobs-IsValid (λ e. cc e) found-First

one_text : String → Option Json
one_text s = some (
    object (
      field "message"
        (object (
          field "role" (text "assistant") (
            field "content"
              (array (cons (object (field "type" (text "text") (field "text" (text s) end))) nil))
              end)))
        end))

-- A file of two lines of one kind; the decoder reads every line as one assistant text.
last_line_passed :
    read_last_assistant_from_transcript (λ s. s) one_text (some ("x" ∷ "y" ∷ [], false))
    ≡ last_text (λ s. s) one_text "" ("x" ∷ [])
last_line_passed = read_last_assistant_from_transcript_lem (λ s. s) one_text ("x" ∷ []) "y" false
