-- ===== src/Subagent/Invariant/Rows.antt =====
-- Each statement of src/assistant/subagent/store.py writes sound rows.
use xone_assistant.Prelude.{ℕ, String, true, Option, ◌≡◌, arith}
use xone_assistant.Subagent.Job.{SubagentJob, is_terminal, dropped, interrupted}
use xone_assistant.Subagent.Store.{Request, Start, requested_row, started_row, claim, is_claimable}
use xone_assistant.Subagent.Store.Finish.{Finish, finish, finish_requested}
use xone_assistant.Subagent.Store.Cancel.{cancel, fail_dispatch, is_live, is_pending}
use xone_assistant.Subagent.Store.Recovery.{close_as}
use xone_assistant.Subagent.Invariant.{IsSound}

pub requested_row-IsSound : (now : ℕ) (q : Request) (i : ℕ) → IsSound (requested_row now q i)
unfolding requested_row
requested_row-IsSound now q i = ground arith

pub started_row-IsSound : (now : ℕ) (q : Start) (i : ℕ) → IsSound (started_row now q i)
unfolding started_row
started_row-IsSound now q i = ground arith

pub claim-IsSound :
    (now job_id : ℕ) (agent : String) (parent : Option String) (r : SubagentJob)
    → IsSound r
    → is_claimable job_id r ≡ true
    → IsSound (claim now agent parent r)
claim-IsSound now job_id agent parent r h p = ground arith

pub finish-IsSound :
    (now : ℕ) (q : Finish) (r : SubagentJob)
    → is_terminal q.status ≡ true
    → IsSound (finish now q r)
finish-IsSound now q r t = ground arith

pub finish_requested-IsSound :
    (now : ℕ) (q : Finish) (r : SubagentJob)
    → is_terminal q.status ≡ true
    → IsSound (finish_requested now q r)
finish_requested-IsSound now q r t = ground arith

pub cancel-IsSound :
    (now job_id : ℕ) (r : SubagentJob)
    → IsSound r
    → is_live job_id r ≡ true
    → IsSound (cancel now r)
cancel-IsSound now job_id r h p = ground arith

pub fail_dispatch-IsSound :
    (now : ℕ) (reason : Option String) (max_attempts job_id : ℕ) (r : SubagentJob)
    → IsSound r
    → is_pending job_id r ≡ true
    → IsSound (fail_dispatch now reason max_attempts r)
fail_dispatch-IsSound now reason max_attempts job_id r h p = ground arith

pub dropped-IsSound : (now : ℕ) (r : SubagentJob) → IsSound (close_as dropped now r)
dropped-IsSound now r = ground arith

pub interrupted-IsSound : (now : ℕ) (r : SubagentJob) → IsSound (close_as interrupted now r)
interrupted-IsSound now r = ground arith
