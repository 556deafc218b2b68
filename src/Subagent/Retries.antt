-- ===== src/Subagent/Retries.antt =====
-- The retry budget of a request (src/assistant/subagent/store.py).
use xone_assistant.Prelude.{
  ℕ, ◌+◌, ◌≤◌, ◌<◌, String, inl, inr, some, List, [], ◌∷◌, ◌≡◌, refl, arith, leb, length,
  Bool-cases, if◌then◌else◌,
}
use xone_assistant.Sql.Update.{fetch_one-update_where, fetch_one_hit}
use xone_assistant.Subagent.Job.{SubagentJob, requested, error, is_requested}
use xone_assistant.Subagent.Ledger.{Ledger}
use xone_assistant.Subagent.Store.Finish.{trim_error}
use xone_assistant.Subagent.Store.Cancel.{has_id, is_pending, fail_dispatch, mark_dispatch_failed}
use xone_assistant.Subagent.Store.Queries.{get_by_id}

-- What a failed dispatch does to the job that is asked for.
abbrev pub failed_once : ℕ → String → ℕ → SubagentJob → SubagentJob
failed_once now reason max_attempts r =
    if is_requested r.status then fail_dispatch now (trim_error (some reason)) max_attempts r else r

-- One failed dispatch of a known job: a requested job gains an attempt and the trimmed reason,
-- and ends as an error when the attempts reach the limit; any other job is left as it was. The
-- status that is returned is the new one.
pub mark_dispatch_failed_lem :
    (now job_id : ℕ) (reason : String) (max_attempts : ℕ) (led : Ledger) (r : SubagentJob)
    → get_by_id job_id led ≡ some r
    → let (status, led') = mark_dispatch_failed now job_id reason max_attempts led in
      let r' = failed_once now reason max_attempts r in
      (get_by_id job_id led' ≡ some r') × (status ≡ some r'.status)
unfolding mark_dispatch_failed get_by_id
mark_dispatch_failed_lem now job_id reason max_attempts led r e =
    let f = fail_dispatch now (trim_error (some reason)) max_attempts in
    let after =
      fetch_one-update_where (has_id job_id) (is_pending job_id) f led.rows r (λ x. refl) e in
    let same = fetch_one_hit (has_id job_id) led.rows r e in
    let found = rw same at after in (found, rw found)

-- The picker's retries: dispatches that fail at the times given, one after another.
unfoldable pub fail_dispatches : List ℕ → ℕ → String → ℕ → Ledger → Ledger
fail_dispatches [] job_id reason max_attempts led = led
fail_dispatches (now ∷ times) job_id reason max_attempts led =
    fail_dispatches times job_id reason max_attempts
      (mark_dispatch_failed now job_id reason max_attempts led).1

fail_dispatches-error :
    (times : List ℕ) (job_id : ℕ) (reason : String) (max_attempts : ℕ) (led : Ledger)
    (r : SubagentJob)
    → get_by_id job_id led ≡ some r
    → r.status ≡ error
    → (r' : SubagentJob) × (get_by_id job_id (fail_dispatches times job_id reason max_attempts led)
        ≡ some r')
      × (r'.status ≡ error)
unfolding fail_dispatches
fail_dispatches-error [] job_id reason max_attempts led r e s = (r, e, s)
fail_dispatches-error (now ∷ times) job_id reason max_attempts led r e s =
    fail_dispatches-error times job_id reason max_attempts
      (mark_dispatch_failed now job_id reason max_attempts led).1
      (failed_once now reason max_attempts r)
      (mark_dispatch_failed_lem now job_id reason max_attempts led r e).0 (ground arith)

-- A request whose dispatch keeps failing ends as an error once the failures and the attempts that
-- it had reach the limit, so it is not retried forever.
pub fail_dispatches_end :
    (times : List ℕ) (job_id : ℕ) (reason : String) (max_attempts : ℕ) (led : Ledger)
    (r : SubagentJob)
    → get_by_id job_id led ≡ some r
    → r.status ≡ requested
    → r.attempts < max_attempts
    → max_attempts ≤ r.attempts + length times
    → (r' : SubagentJob) × (get_by_id job_id (fail_dispatches times job_id reason max_attempts led)
        ≡ some r')
      × (r'.status ≡ error)
unfolding fail_dispatches
fail_dispatches_end [] job_id reason max_attempts led r e s low enough = absurd (omega arith)
fail_dispatches_end (now ∷ times) job_id reason max_attempts led r e s low enough =
    let led' = (mark_dispatch_failed now job_id reason max_attempts led).1 in
    let r' = failed_once now reason max_attempts r in
    let e' = (mark_dispatch_failed_lem now job_id reason max_attempts led r e).0 in
    elim (Bool-cases (leb max_attempts (r.attempts + 1))) [
      | inl last ↦ fail_dispatches-error times job_id reason max_attempts led' r' e' (ground arith)
      | inr more ↦
          fail_dispatches_end times job_id reason max_attempts led' r' e' (ground arith)
            (ground arith) (ground arith)
    ]
