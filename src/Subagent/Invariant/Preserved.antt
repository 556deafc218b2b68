-- ===== src/Subagent/Invariant/Preserved.antt =====
-- Every call of src/assistant/subagent/store.py keeps the table valid.
use xone_assistant.Prelude.{
  ℕ, ◌+◌, String, Bool, true, inl, inr, some, none, Option, List, [], ◌∷◌, ◌≡◌, refl, arith, ltb,
  Bool-cases, All-append, ◌&&◌,
}
use xone_assistant.Sql.{update_where, row_count}
use xone_assistant.Sql.Update.{All-update_where}
use xone_assistant.Subagent.Job.{SubagentJob, is_terminal, dropped, interrupted}
use xone_assistant.Subagent.Ledger.{Ledger, empty, agent_rows}
use xone_assistant.Subagent.Store.{
  Request, Start, requested_row, started_row, claim, is_claimable, record_pending_request,
  record_started, update_sdk_agent_id_for_claimed_request,
}
use xone_assistant.Subagent.Store.Finish.{
  Finish, finish, finish_requested, is_started_agent, record_finished, finish_by_race, trim_error,
}
use xone_assistant.Subagent.Store.Cancel.{
  cancel, fail_dispatch, is_live, is_pending, set_cancel_requested, cancel_found,
  mark_dispatch_failed, has_id,
}
use xone_assistant.Subagent.Store.Recovery.{
  close_as, never_delivered, was_running, is_stale, recover_orphans,
}
use xone_assistant.Subagent.Operations.{
  Operation, request, start, claim as claim_op, finish as finish_op, cancel as cancel_op, fail,
  recover, apply, run,
}
use xone_assistant.Subagent.Invariant.{IsSound, IsValid}
use xone_assistant.Subagent.Invariant.Rows.{
  requested_row-IsSound, started_row-IsSound, claim-IsSound, finish-IsSound,
  finish_requested-IsSound, cancel-IsSound, fail_dispatch-IsSound, dropped-IsSound,
  interrupted-IsSound,
}
use xone_assistant.Subagent.Invariant.Ids.{Rising-update_where, Rising-append}
use xone_assistant.Subagent.Invariant.Agents.{
  agent_rows-update_where, agent_rows-append_none, agent_rows-append_fresh, agent_rows-claim,
}

pub empty-IsValid : IsValid empty
unfolding agent_rows row_count
empty-IsValid = record { sound = tt; rising = omega arith; unique = λ agent. omega arith }

-- An UPDATE that keeps the id and the agent id, and writes sound rows.
module _ (p : SubagentJob → Bool) (f : SubagentJob → SubagentJob) (led : Ledger) where
  pub update_where-IsValid :
      ((r : SubagentJob) → (f r).id ≡ r.id)
      → ((r : SubagentJob) → (f r).sdk_agent_id ≡ r.sdk_agent_id)
      → ((r : SubagentJob) → IsSound r → p r ≡ true → IsSound (f r))
      → IsValid led
      → IsValid (record led { rows = update_where p f led.rows })
  update_where-IsValid same_id same_agent sound v = record {
    sound = All-update_where IsSound IsSound p f led.rows sound (λ r h _. h) v.sound;
    rising = Rising-update_where p f 0 led.last_id led.rows same_id v.rising;
    unique = λ agent. rw (agent_rows-update_where agent p f led.rows same_agent) (v.unique agent);
  }

pub record_pending_request-IsValid :
    (now : ℕ) (q : Request) (led : Ledger)
    → IsValid led
    → IsValid (record_pending_request now q led).1
unfolding record_pending_request
record_pending_request-IsValid now q led v =
    let row = requested_row now q (led.last_id + 1) in
    record {
      sound =
          All-append IsSound led.rows (row ∷ []) v.sound
            (requested_row-IsSound now q (led.last_id + 1), tt);
      rising = Rising-append 0 led.last_id led.rows row refl v.rising;
      unique = λ agent. rw (agent_rows-append_none agent led.rows row refl) (v.unique agent);
    }

record_started-IsValid :
    (now : ℕ) (q : Start) (led : Ledger) → IsValid led → IsValid (record_started now q led).1
unfolding record_started
record_started-IsValid now q led v =
    elim (Bool-cases (ltb 0 (agent_rows q.sdk_agent_id led.rows))) [
      | inl taken ↦ rw taken v
      | inr fresh ↦
          let row = started_row now q (led.last_id + 1) in
          rw fresh (record {
            sound =
                All-append IsSound led.rows (row ∷ []) v.sound
                  (started_row-IsSound now q (led.last_id + 1), tt);
            rising = Rising-append 0 led.last_id led.rows row refl v.rising;
            unique = λ agent.
                agent_rows-append_fresh q.sdk_agent_id agent led.rows row refl fresh
                  (v.unique agent);
          })
    ]

claim-IsValid :
    (now job_id : ℕ) (agent : String) (parent : Option String) (led : Ledger)
    → IsValid led
    → IsValid (update_sdk_agent_id_for_claimed_request now job_id agent parent led).1
unfolding update_sdk_agent_id_for_claimed_request
claim-IsValid now job_id agent parent led v =
    let p = is_claimable job_id in
    elim (Bool-cases
      (ltb 0 (row_count p led.rows) && ltb 1 (row_count p led.rows + agent_rows agent led.rows))) [
        | inl twice ↦ rw twice v
        | inr once ↦ rw once (record {
          sound =
              All-update_where IsSound IsSound p (claim now agent parent) led.rows
                (claim-IsSound now job_id agent parent) (λ r h _. h) v.sound;
          rising =
              Rising-update_where p (claim now agent parent) 0 led.last_id led.rows (λ r. refl)
                v.rising;
          unique = λ b. agent_rows-claim now job_id agent b parent led.rows once (v.unique b);
        })
      ]

finish_by_race-IsValid :
    (now : ℕ) (q : Finish) (found : Option SubagentJob) (led : Ledger)
    → is_terminal q.status ≡ true
    → IsValid led
    → IsValid (finish_by_race now q found led).1
unfolding finish_by_race
finish_by_race-IsValid now q none led t v = v
finish_by_race-IsValid now q (some row) led t v =
    update_where-IsValid (has_id row.id) (finish_requested now q) led (λ r. refl) (λ r. refl)
      (λ r h _. finish_requested-IsSound now q r t) v

record_finished-IsValid :
    (now : ℕ) (q : Finish) (led : Ledger) → IsValid led → IsValid (record_finished now q led).1
unfolding record_finished
record_finished-IsValid now q led v = elim (Bool-cases (is_terminal q.status)) [
  | inr live ↦ rw live v
  | inl t ↦ elim (Bool-cases (ltb 0 (row_count (is_started_agent q.sdk_agent_id) led.rows))) [
    | inl running ↦
        rw (t, running)
          (update_where-IsValid (is_started_agent q.sdk_agent_id) (finish now q) led (λ r. refl)
            (λ r. refl) (λ r h _. finish-IsSound now q r t) v)
    | inr idle ↦ rw (t, idle) (finish_by_race-IsValid now q _ led t v)
  ]
]

cancel_found-IsValid :
    (now job_id : ℕ) (found : Option SubagentJob) (led : Ledger)
    → IsValid led
    → IsValid (cancel_found now job_id found led).1
unfolding cancel_found
cancel_found-IsValid now job_id none led v = v
cancel_found-IsValid now job_id (some row) led v = elim (Bool-cases (is_terminal row.status)) [
  | inl t ↦ rw t v
  | inr live ↦ rw live (
      update_where-IsValid (is_live job_id) (cancel now) led (λ r. refl) (λ r. refl)
        (cancel-IsSound now job_id) v)
]

mark_dispatch_failed-IsValid :
    (now job_id : ℕ) (reason : String) (max_attempts : ℕ) (led : Ledger)
    → IsValid led
    → IsValid (mark_dispatch_failed now job_id reason max_attempts led).1
unfolding mark_dispatch_failed
mark_dispatch_failed-IsValid now job_id reason max_attempts led v =
    update_where-IsValid (is_pending job_id)
      (fail_dispatch now (trim_error (some reason)) max_attempts) led (λ r. refl) (λ r. refl)
      (fail_dispatch-IsSound now (trim_error (some reason)) max_attempts job_id) v

recover_orphans-IsValid :
    (now stale_after : ℕ) (led : Ledger)
    → IsValid led
    → IsValid (recover_orphans now stale_after led).1
unfolding recover_orphans
recover_orphans-IsValid now stale_after led v =
    update_where-IsValid (is_stale stale_after now) (close_as dropped now) _ (λ r. refl) (λ r. refl)
      (λ r h _. dropped-IsSound now r)
      (update_where-IsValid was_running (close_as interrupted now) _ (λ r. refl) (λ r. refl)
        (λ r h _. interrupted-IsSound now r)
        (update_where-IsValid never_delivered (close_as dropped now) led (λ r. refl) (λ r. refl)
          (λ r h _. dropped-IsSound now r) v))

pub apply-IsValid :
    (now : ℕ) (op : Operation) (led : Ledger) → IsValid led → IsValid (apply now op led)
unfolding apply
apply-IsValid now (request q) led v = record_pending_request-IsValid now q led v
apply-IsValid now (start q) led v = record_started-IsValid now q led v
apply-IsValid now (claim_op job_id agent parent) led v = claim-IsValid now job_id agent parent led v
apply-IsValid now (finish_op q) led v = record_finished-IsValid now q led v
apply-IsValid now (cancel_op job_id) led v =
    unfold set_cancel_requested in cancel_found-IsValid now job_id _ led v
apply-IsValid now (fail job_id reason max_attempts) led v =
    mark_dispatch_failed-IsValid now job_id reason max_attempts led v
apply-IsValid now (recover stale_after) led v = recover_orphans-IsValid now stale_after led v

-- The table stays valid through every sequence of calls on a valid table: ids are unique, no two
-- rows hold one agent id, a requested row has no agent id and no cancel flag, a started row has an
-- agent id, and a row has a finish time exactly when its status is terminal.
pub run-IsValid :
    (history : List (ℕ × Operation)) (led : Ledger) → IsValid led → IsValid (run history led)
unfolding run
run-IsValid [] led v = v
run-IsValid ((now, op) ∷ rest) led v =
    run-IsValid rest (apply now op led) (apply-IsValid now op led v)
