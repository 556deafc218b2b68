-- ===== src/Subagent/Machine/Table.antt =====
-- Every call of src/assistant/subagent/store.py takes the whole table along the status machine.
use xone_assistant.Prelude.{
  ℕ, ◌+◌, String, Bool, true, ◌&&◌, Option, none, some, List, [], ◌∷◌, ◌++◌, ◌≡◌, arith, inl, inr,
  ltb, Bool-cases, Option-cases, All, if◌then◌else◌,
}
use xone_assistant.Sql.{update_where, row_count, fetch_one}
use xone_assistant.Sql.Update.{fetch_one_sound}
use xone_assistant.Subagent.Job.{SubagentJob, is_terminal, dropped, interrupted}
use xone_assistant.Subagent.Ledger.{Ledger, agent_rows}
use xone_assistant.Subagent.Store.{
  Start, claim, is_claimable, record_pending_request, record_started,
  update_sdk_agent_id_for_claimed_request,
}
use xone_assistant.Subagent.Store.Finish.{
  Finish, finish, is_started_agent, is_requested_agent, record_finished, trim_error,
}
use xone_assistant.Subagent.Store.Cancel.{
  cancel, fail_dispatch, is_live, is_pending, set_cancel_requested, cancel_found,
  mark_dispatch_failed,
}
use xone_assistant.Subagent.Store.Recovery.{
  close_as, never_delivered, was_running, is_stale, recover_orphans,
}
use xone_assistant.Subagent.Operations.{
  Operation, request, start, claim as claim_op, finish as finish_op, cancel as cancel_op, fail,
  recover, apply,
}
use xone_assistant.Subagent.Invariant.{IsSound, IsValid}
use xone_assistant.Subagent.Machine.{Progress, Evolves, ended, expired}
use xone_assistant.Subagent.Machine.Rows.{
  Progress-refl, claim-Progress, finish-Progress, cancel-Progress, fail_dispatch-Progress,
}

pub Evolves-refl : (rows : List SubagentJob) → Evolves rows rows
Evolves-refl [] = tt
Evolves-refl (r ∷ rows) = (Progress-refl r, Evolves-refl rows)

Evolves-append : (rows new : List SubagentJob) → Evolves rows (rows ++ new)
Evolves-append [] new = tt
Evolves-append (r ∷ rows) new = (Progress-refl r, Evolves-append rows new)

Evolves-update_where :
    (p : SubagentJob → Bool) (f : SubagentJob → SubagentJob) (rows : List SubagentJob)
    → ((r : SubagentJob) → p r ≡ true → Progress r (f r))
    → Evolves rows (update_where p f rows)
unfolding update_where
Evolves-update_where p f [] step = tt
Evolves-update_where p f (r ∷ rows) step = elim (Bool-cases (p r)) [
  | inl e ↦ rw e (step r e, Evolves-update_where p f rows step)
  | inr e ↦ rw e (Progress-refl r, Evolves-update_where p f rows step)
]

-- No row of a valid table is still requested and already holds an agent id.
pub fetch_one-is_requested_agent :
    (agent : String) (rows : List SubagentJob)
    → All IsSound rows
    → fetch_one (is_requested_agent agent) rows ≡ none
fetch_one-is_requested_agent agent rows h =
    elim (Option-cases (fetch_one (is_requested_agent agent) rows)) [
      | inl e ↦ e
      | inr (r, e) ↦
          let (sound, hit) = fetch_one_sound IsSound (is_requested_agent agent) rows r h e in
          absurd (ground (arith, sound.requested_unbound, hit))
    ]

record_started-Evolves :
    (now : ℕ) (q : Start) (led : Ledger) → Evolves led.rows (record_started now q led).1.rows
unfolding record_started
record_started-Evolves now q led = elim (Bool-cases (ltb 0 (agent_rows q.sdk_agent_id led.rows))) [
  | inl taken ↦ rw taken (Evolves-refl led.rows)
  | inr fresh ↦ rw fresh (Evolves-append led.rows _)
]

claim-Evolves :
    (now job_id : ℕ) (agent : String) (parent : Option String) (led : Ledger)
    → Evolves led.rows (update_sdk_agent_id_for_claimed_request now job_id agent parent led).1.rows
unfolding update_sdk_agent_id_for_claimed_request
claim-Evolves now job_id agent parent led =
    let p = is_claimable job_id in
    elim (Bool-cases
      (ltb 0 (row_count p led.rows) && ltb 1 (row_count p led.rows + agent_rows agent led.rows))) [
        | inl twice ↦ rw twice (Evolves-refl led.rows)
        | inr once ↦ rw once (
            Evolves-update_where p (claim now agent parent) led.rows
              (claim-Progress now job_id agent parent))
      ]

record_finished-Evolves :
    (now : ℕ) (q : Finish) (led : Ledger)
    → IsValid led
    → Evolves led.rows (record_finished now q led).1.rows
unfolding record_finished
record_finished-Evolves now q led v = elim (Bool-cases (is_terminal q.status)) [
  | inr live ↦ rw live (Evolves-refl led.rows)
  | inl t ↦ elim (Bool-cases (ltb 0 (row_count (is_started_agent q.sdk_agent_id) led.rows))) [
    | inl running ↦
        rw (t, running)
          (Evolves-update_where (is_started_agent q.sdk_agent_id) (finish now q) led.rows
            (λ r hit. finish-Progress now q r t hit))
    | inr idle ↦
        rw (t, idle, fetch_one-is_requested_agent q.sdk_agent_id led.rows v.sound)
          (Evolves-refl led.rows)
  ]
]

cancel_found-Evolves :
    (now job_id : ℕ) (found : Option SubagentJob) (led : Ledger)
    → Evolves led.rows (cancel_found now job_id found led).1.rows
unfolding cancel_found
cancel_found-Evolves now job_id none led = Evolves-refl led.rows
cancel_found-Evolves now job_id (some row) led = elim (Bool-cases (is_terminal row.status)) [
  | inl t ↦ rw t (Evolves-refl led.rows)
  | inr live ↦
      rw live
        (Evolves-update_where (is_live job_id) (cancel now) led.rows (cancel-Progress now job_id))
]

-- What the three statements of `recover_orphans` do to one row together.
recover_row : ℕ → ℕ → SubagentJob → SubagentJob
recover_row now stale_after r =
    let r₁ = if never_delivered r then close_as dropped now r else r in
    let r₂ = if was_running r₁ then close_as interrupted now r₁ else r₁ in
    if is_stale stale_after now r₂ then close_as dropped now r₂ else r₂

recover_row-Progress :
    (now stale_after : ℕ) (r : SubagentJob) → Progress r (recover_row now stale_after r)
unfolding recover_row
recover_row-Progress now stale_after r = grind (arith, ended, expired)

recover_orphans-Evolves :
    (now stale_after : ℕ) (rows : List SubagentJob)
    → Evolves rows (
        update_where (is_stale stale_after now) (close_as dropped now) (
          update_where was_running
            (close_as interrupted now)
            (update_where never_delivered (close_as dropped now) rows)))
unfolding update_where recover_row
recover_orphans-Evolves now stale_after [] = tt
recover_orphans-Evolves now stale_after (r ∷ rows) =
    (recover_row-Progress now stale_after r, recover_orphans-Evolves now stale_after rows)

-- A call takes every row of a valid table one step of the status machine at most, leaves the
-- columns of the request alone, and may add rows at the end.
pub apply-Evolves :
    (now : ℕ) (op : Operation) (led : Ledger)
    → IsValid led
    → Evolves led.rows (apply now op led).rows
unfolding apply
apply-Evolves now (request q) led v = unfold record_pending_request in Evolves-append led.rows _
apply-Evolves now (start q) led v = record_started-Evolves now q led
apply-Evolves now (claim_op job_id agent parent) led v = claim-Evolves now job_id agent parent led
apply-Evolves now (finish_op q) led v = record_finished-Evolves now q led v
apply-Evolves now (cancel_op job_id) led v =
    unfold set_cancel_requested in cancel_found-Evolves now job_id _ led
apply-Evolves now (fail job_id reason max_attempts) led v =
    unfold mark_dispatch_failed in
    Evolves-update_where (is_pending job_id)
      (fail_dispatch now (trim_error (some reason)) max_attempts) led.rows
      (fail_dispatch-Progress now (trim_error (some reason)) max_attempts job_id)
apply-Evolves now (recover stale_after) led v =
    unfold recover_orphans in recover_orphans-Evolves now stale_after led.rows
