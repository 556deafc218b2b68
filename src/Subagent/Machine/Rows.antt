-- ===== src/Subagent/Machine/Rows.antt =====
-- Each SET clause of src/assistant/subagent/store.py takes a row along the status machine.
use xone_assistant.Prelude.{ℕ, String, true, Option, ◌≡◌, refl, arith, inl}
use native.Mathlib.Nat.{le_refl}
use xone_assistant.Subagent.Job.{SubagentJob, interrupted, dropped, is_terminal}
use xone_assistant.Subagent.Store.{claim, is_claimable}
use xone_assistant.Subagent.Store.Finish.{Finish, finish, is_started_agent}
use xone_assistant.Subagent.Store.Cancel.{cancel, fail_dispatch, is_live, is_pending}
use xone_assistant.Subagent.Store.Recovery.{close_as, never_delivered, was_running, is_stale}
use xone_assistant.Subagent.Machine.{claimed, cancelled, gave_up, expired, ended, Progress}

pub Progress-refl : (r : SubagentJob) → Progress r r
Progress-refl r = record {
  same_id = refl;
  same_type = refl;
  same_task = refl;
  same_chat = refl;
  same_kind = refl;
  same_creation = refl;
  attempts_grow = le_refl _;
  agent_kept = λ _. refl;
  cancel_kept = λ h. h;
  moves = inl refl;
}

pub claim-Progress :
    (now job_id : ℕ) (agent : String) (parent : Option String) (r : SubagentJob)
    → is_claimable job_id r ≡ true
    → Progress r (claim now agent parent r)
claim-Progress now job_id agent parent r p = grind (arith, claimed)

pub finish-Progress :
    (now : ℕ) (q : Finish) (r : SubagentJob)
    → is_terminal q.status ≡ true
    → is_started_agent q.sdk_agent_id r ≡ true
    → Progress r (finish now q r)
finish-Progress now q r t p = grind (arith, ended)

pub cancel-Progress :
    (now job_id : ℕ) (r : SubagentJob) → is_live job_id r ≡ true → Progress r (cancel now r)
cancel-Progress now job_id r p = grind (arith, cancelled)

pub fail_dispatch-Progress :
    (now : ℕ) (reason : Option String) (max_attempts job_id : ℕ) (r : SubagentJob)
    → is_pending job_id r ≡ true
    → Progress r (fail_dispatch now reason max_attempts r)
fail_dispatch-Progress now reason max_attempts job_id r p = grind (arith, gave_up)

pub never_delivered-Progress :
    (now : ℕ) (r : SubagentJob) → never_delivered r ≡ true → Progress r (close_as dropped now r)
never_delivered-Progress now r p = grind (arith, ended)

pub was_running-Progress :
    (now : ℕ) (r : SubagentJob) → was_running r ≡ true → Progress r (close_as interrupted now r)
was_running-Progress now r p = grind (arith, ended)

pub is_stale-Progress :
    (stale_after now : ℕ) (r : SubagentJob)
    → is_stale stale_after now r ≡ true
    → Progress r (close_as dropped now r)
is_stale-Progress stale_after now r p = grind (arith, expired)
