-- ===== src/Subagent/Cancelling.antt =====
-- Cancellation (src/assistant/subagent/store.py).
use xone_assistant.Prelude.{
  ℕ, String, true, inl, inr, some, ◌≡◌, ◌∙◌, refl, Bool-cases, if◌then◌else◌,
}
use xone_assistant.Sql.Update.{fetch_one-update_where, fetch_one_hit}
use xone_assistant.Subagent.Job.{SubagentJob, requested, started, stopped, is_terminal}
use xone_assistant.Subagent.Ledger.{Ledger, has_agent}
use xone_assistant.Subagent.Store.Cancel.{
  CancelReply, already_terminal, cancel_accepted, has_id, is_live, cancel, set_cancel_requested,
  cancel_found, is_cancel_requested,
}
use xone_assistant.Subagent.Store.Queries.{get_by_id, get_by_agent_id}

-- What a cancel request does to the job that is asked for, and what it answers.
abbrev pub cancelled_row : ℕ → SubagentJob → SubagentJob
cancelled_row now r = if is_terminal r.status then r else cancel now r

abbrev pub cancel_answer : SubagentJob → CancelReply
cancel_answer r =
    if is_terminal r.status then already_terminal r.status else cancel_accepted r.status

-- A cancel request for a known job: a job in a terminal status is left as it is and the status is
-- returned; a requested job stops at once; a started job keeps its status and carries the flag.
pub set_cancel_requested_lem :
    (now job_id : ℕ) (led : Ledger) (r : SubagentJob)
    → get_by_id job_id led ≡ some r
    → let (reply, led') = set_cancel_requested now job_id led in
      (reply ≡ cancel_answer r) × (get_by_id job_id led' ≡ some (cancelled_row now r))
unfolding set_cancel_requested get_by_id
set_cancel_requested_lem now job_id led r e = elim (Bool-cases (is_terminal r.status)) [
  | inl t ↦ rw e (unfold cancel_found in rw (t) (refl, e))
  | inr live ↦
      let after =
        fetch_one-update_where (has_id job_id) (is_live job_id) (cancel now) led.rows r (λ x. refl)
          e in
      let same = fetch_one_hit (has_id job_id) led.rows r e in
      rw e (unfold cancel_found in rw live (refl, rw (same, live) at after))
]

-- Asking twice: a started job gives the same answer and the same ledger again, and a requested
-- job, which the first call stopped, is reported as already stopped.
pub set_cancel_requested_twice :
    (now later job_id : ℕ) (led : Ledger) (r : SubagentJob)
    → get_by_id job_id led ≡ some r
    → (r.status ≡ started
        → (set_cancel_requested later job_id (set_cancel_requested now job_id led).1).0
          ≡ cancel_accepted started)
      × (r.status ≡ requested
          → (set_cancel_requested later job_id (set_cancel_requested now job_id led).1).0
            ≡ already_terminal stopped)
set_cancel_requested_twice now later job_id led r e =
    let led' = (set_cancel_requested now job_id led).1 in
    let again =
      set_cancel_requested_lem later job_id led' (cancelled_row now r)
        (set_cancel_requested_lem now job_id led r e).1 in
    (λ s. again.0 ∙ rw s, λ s. again.0 ∙ rw s)

-- Once a cancel request for a started job has returned, the tool gate sees the flag of its agent.
pub is_cancel_requested-set_cancel_requested :
    (now job_id : ℕ) (agent : String) (led : Ledger) (r : SubagentJob)
    → get_by_id job_id led ≡ some r
    → get_by_agent_id agent led ≡ some r
    → r.status ≡ started
    → is_cancel_requested agent (set_cancel_requested now job_id led).1 ≡ true
unfolding is_cancel_requested set_cancel_requested get_by_agent_id get_by_id cancel_found
is_cancel_requested-set_cancel_requested now job_id agent led r e a s =
    let after =
      fetch_one-update_where (has_agent agent) (is_live job_id) (cancel now) led.rows r (λ x. refl)
        a in
    let same = fetch_one_hit (has_id job_id) led.rows r e in rw (e, s) (rw (rw (same, s) at after))
