-- ===== src/Subagent/Finishing.antt =====
-- How a job ends and how it is claimed (src/assistant/subagent/store.py).
use xone_assistant.Prelude.{
  ℕ, String, Bool, true, false, List, [], ◌∷◌, Option, ◌≡◌, refl, arith, inl, inr, ltb, Bool-cases,
  if◌then◌else◌, ok, raise, value_error,
}
use xone_assistant.Sql.{update_where, row_count}
use xone_assistant.Sql.Update.{update_where-eq_of_none}
use xone_assistant.Subagent.Job.{SubagentJob, is_terminal}
use xone_assistant.Subagent.Ledger.{Ledger}
use xone_assistant.Subagent.Store.{claim, is_claimable, update_sdk_agent_id_for_claimed_request}
use xone_assistant.Subagent.Store.Finish.{
  Finish, finish, is_started_agent, record_finished, finish_by_race,
}
use xone_assistant.Subagent.Invariant.{IsValid}
use xone_assistant.Subagent.Machine.Table.{fetch_one-is_requested_agent}

-- On a valid table `record_finished` is its first statement alone: it refuses a status that is not
-- terminal, it ends the started row of the agent, and if there is none it returns False and
-- changes nothing. The recovery of a row that is still requested never applies.
pub record_finished-eq :
    (now : ℕ) (q : Finish) (led : Ledger)
    → IsValid led
    → record_finished now q led ≡ (
        if is_terminal q.status
        then (if ltb 0 (row_count (is_started_agent q.sdk_agent_id) led.rows)
            then (
              ok true,
              record led {
                rows = update_where (is_started_agent q.sdk_agent_id) (finish now q) led.rows;
              },
            )
            else (ok false, led))
        else (raise value_error, led))
unfolding record_finished finish_by_race
record_finished-eq now q led v = elim (Bool-cases (is_terminal q.status)) [
  | inr live ↦ rw live
  | inl t ↦ elim (Bool-cases (ltb 0 (row_count (is_started_agent q.sdk_agent_id) led.rows))) [
    | inl running ↦ rw (t, running)
    | inr idle ↦ rw (t, idle, fetch_one-is_requested_agent q.sdk_agent_id led.rows v.sound)
  ]
]

claim-unclaimable :
    (now job_id : ℕ) (agent : String) (parent : Option String) (rows : List SubagentJob)
    → row_count
        (is_claimable job_id)
        (update_where (is_claimable job_id) (claim now agent parent) rows)
      ≡ 0
unfolding update_where row_count
claim-unclaimable now job_id agent parent [] = refl
claim-unclaimable now job_id agent parent (r ∷ rows) =
    ground (arith, claim-unclaimable now job_id agent parent rows)

claimed_away :
    (now job_id : ℕ) (a : String) (p : Option String) (led led' : Ledger) {done : Bool}
    → update_sdk_agent_id_for_claimed_request now job_id a p led ≡ (ok done, led')
    → row_count (is_claimable job_id) led'.rows ≡ 0
unfolding update_sdk_agent_id_for_claimed_request
claimed_away now job_id a p led led' e = ground (arith, claim-unclaimable now job_id a p led.rows)

-- A job is claimed once: after a claim that returned, whatever it returned, another claim of the
-- same job returns False and changes nothing.
pub update_sdk_agent_id_for_claimed_request_once :
    (now later job_id : ℕ) (a b : String) (p q : Option String) (led led' : Ledger) {done : Bool}
    → update_sdk_agent_id_for_claimed_request now job_id a p led ≡ (ok done, led')
    → update_sdk_agent_id_for_claimed_request later job_id b q led' ≡ (ok false, led')
unfolding update_sdk_agent_id_for_claimed_request
update_sdk_agent_id_for_claimed_request_once now later job_id a b p q led led' e =
    let none_left = claimed_away now job_id a p led led' e in
    rw none_left
      (rw (update_where-eq_of_none (is_claimable job_id) (claim later b q) led'.rows none_left))
