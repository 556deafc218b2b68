-- ===== src/Subagent/Picker/NoLivelock.antt =====
-- The picker of src/assistant/subagent/picker.py makes progress on every job that it dispatches.
use xone_assistant.Prelude.{
  ℕ, ◌+◌, ◌≤◌, ◌<◌, String, false, some, List, ◌≡◌, ◌≢◌, ◌⊎◌, refl, ap, arith, inl, inr, Bool-cases,
  is_some, if◌then◌else◌, ==_iff, leb,
}
use xone_assistant.Sql.Update.{fetch_one_hit}
use xone_assistant.Subagent.Job.{SubagentJob, is_requested}
use xone_assistant.Subagent.Ledger.{Ledger}
use xone_assistant.Subagent.Store.Cancel.{has_id, mark_dispatch_failed}
use xone_assistant.Subagent.Store.Queries.{get_by_id}
use xone_assistant.Subagent.Operations.{Operation, run}
use xone_assistant.Subagent.Invariant.{IsValid}
use xone_assistant.Subagent.Machine.Forever.{get_by_id-run}
use xone_assistant.Subagent.Retries.{mark_dispatch_failed_lem, failed_once}
use xone_assistant.Subagent.Picker.{
  Ending, cancelled, max_attempts, failure_reason, finalize_found, finalize_dispatch, dispatch_one,
}

get_by_id-id :
    (job_id : ℕ) (led : Ledger) (r : SubagentJob) → get_by_id job_id led ≡ some r → r.id ≡ job_id
unfolding get_by_id
get_by_id-id job_id led r e = (==_iff r.id job_id).0 (fetch_one_hit (has_id job_id) led.rows r e)

same_call :
    (now job_id : ℕ) (reason : String) (led : Ledger) (r : SubagentJob)
    → get_by_id job_id led ≡ some r
    → mark_dispatch_failed now r.id reason max_attempts led
      ≡ mark_dispatch_failed now job_id reason max_attempts led
same_call now job_id reason led r e =
    ap (λ i. mark_dispatch_failed now i reason max_attempts led) (get_by_id-id job_id led r e)

-- What finalising does to the row of the job.
finalize_dispatch-row :
    (now job_id : ℕ) (ending : Ending) (led : Ledger) (r : SubagentJob)
    → get_by_id job_id led ≡ some r
    → get_by_id job_id (finalize_dispatch now job_id ending led).1
      ≡ some (failed_once now (failure_reason ending) max_attempts r)
unfolding finalize_dispatch finalize_found
finalize_dispatch-row now job_id ending led r e = elim (Bool-cases (is_requested r.status)) [
  | inl waiting ↦
      rw (e, waiting, same_call now job_id (failure_reason ending) led r e)
        (rw waiting at
          (mark_dispatch_failed_lem now job_id (failure_reason ending) max_attempts led r e).0)
  | inr settled ↦ rw (e, settled) e
]

-- The owner is alerted exactly when this dispatch made the job an error: it was still requested,
-- and this failure was the last one that the limit allows.
pub finalize_dispatch-alert :
    (now job_id : ℕ) (ending : Ending) (led : Ledger) (r : SubagentJob)
    → get_by_id job_id led ≡ some r
    → is_some (finalize_dispatch now job_id ending led).0
      ≡ (if is_requested r.status then leb max_attempts (r.attempts + 1) else false)
unfolding finalize_dispatch finalize_found
finalize_dispatch-alert now job_id ending led r e = elim (Bool-cases (is_requested r.status)) [
  | inl waiting ↦
      let status =
        (mark_dispatch_failed_lem now job_id (failure_reason ending) max_attempts led r e).1 in
      rw (e, waiting, same_call now job_id (failure_reason ending) led r e, status) (ground arith)
  | inr settled ↦ rw (e, settled)
]

-- A dispatch that was not cancelled never leaves the job as it was: whatever the bridge and other
-- tasks did meanwhile, the job is no longer requested, or it has used up another attempt.
pub dispatch_one-progress :
    (now : ℕ) (job : SubagentJob) (during : List (ℕ × Operation)) (ending : Ending) (led : Ledger)
    → IsValid led
    → ending ≢ cancelled
    → get_by_id job.id led ≡ some job
    → (r' : SubagentJob) × (get_by_id job.id (dispatch_one now job during ending led).1 ≡ some r')
      × ((is_requested r'.status ≡ false) ⊎ (job.attempts < r'.attempts))
unfolding dispatch_one
dispatch_one-progress now job during cancelled led v kept e = absurd (kept refl)
dispatch_one-progress now job during ending led v kept e =
    let (r, found, o) = get_by_id-run during led job.id job v e in
    (
      failed_once now (failure_reason ending) max_attempts r,
      finalize_dispatch-row now job.id ending (run during led) r found,
      after r o.attempts_grow,
    )
  where
    after :
        (r : SubagentJob)
        → job.attempts ≤ r.attempts
        → (is_requested (failed_once now (failure_reason ending) max_attempts r).status ≡ false)
          ⊎ (job.attempts < (failed_once now (failure_reason ending) max_attempts r).attempts)
    after r grow = ground arith
