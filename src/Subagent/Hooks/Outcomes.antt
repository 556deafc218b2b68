-- ===== src/Subagent/Hooks/Outcomes.antt =====
-- What the start and stop hooks of src/assistant/subagent/hooks.py leave in the ledger.
use xone_assistant.Prelude.{
  ℕ, ◌+◌, ◌<◌, String, Bool, true, false, Option, none, some, [], ◌∷◌, ◌≡◌, ◌≢◌, refl, arith, inl,
  inr, lt→ltb, str_eq, str_eq_iff, Result, ok, raise, Bool-cases, if◌then◌else◌,
}
use xone_assistant.Sql.{row_count}
use xone_assistant.Sql.Update.{
  row_count-append, row_count-update_where-ge, row_count_pos, fetch_one-update_where,
}
use xone_assistant.Subagent.Job.{SubagentJob, started, stopped, failed, completed, is_terminal}
use xone_assistant.Subagent.Ledger.{Ledger, agent_rows, has_agent}
use xone_assistant.Subagent.Operations.{start, claim as claim_op, finish as finish_op, run, apply}
use xone_assistant.Subagent.Store.{
  Start, started_row, record_started, is_claimable, claim, update_sdk_agent_id_for_claimed_request,
}
use xone_assistant.Subagent.Store.Finish.{Finish, record_finished, is_started_agent, finish}
use xone_assistant.Subagent.Store.Cancel.{has_id, is_cancel_requested}
use xone_assistant.Subagent.Store.Queries.{get_by_id}
use xone_assistant.Subagent.Invariant.{IsValid}
use xone_assistant.Subagent.Invariant.Preserved.{apply-IsValid, run-IsValid}
use xone_assistant.Subagent.Finishing.{record_finished-eq}
use xone_assistant.Subagent.Machine.Forever.{get_by_id-run_terminal}
use xone_assistant.Subagent.Hooks.{
  Payload, Turn, History, or_else, start_native, after_claim, start_agent, on_subagent_start,
  on_subagent_stop, finish_of, last_message, verdict, is_failed, first_text,
}

str_eq_refl : (s : String) → str_eq s s ≡ true
str_eq_refl s = (str_eq_iff s s).1 refl

record_started-agent :
    (now : ℕ) (q : Start) (led : Ledger)
    → 0 < agent_rows q.sdk_agent_id (record_started now q led).1.rows
unfolding record_started agent_rows row_count
record_started-agent now q led = ground (
  arith,
  row_count-append (has_agent q.sdk_agent_id) led.rows (started_row now q (led.last_id + 1) ∷ []),
  str_eq_refl q.sdk_agent_id,
)

claim-agent :
    (now job_id : ℕ) (agent : String) (parent : Option String) (led : Ledger)
    → (update_sdk_agent_id_for_claimed_request now job_id agent parent led).0 ≡ ok true
    → 0
      < agent_rows agent
          (update_sdk_agent_id_for_claimed_request now job_id agent parent led).1.rows
unfolding update_sdk_agent_id_for_claimed_request agent_rows
claim-agent now job_id agent parent led e = ground (
  arith,
  row_count-update_where-ge (has_agent agent) (is_claimable job_id) (claim now agent parent)
      led.rows (λ r _. str_eq_refl agent),
)

start_native-agent :
    (now : ℕ) (turn : Turn) (agent : String) (p : Payload) (led : Ledger)
    → 0 < agent_rows agent (start_native now turn agent p led).1.rows
unfolding start_native
start_native-agent now turn agent p led = record_started-agent now _ led

after_claim-agent :
    (between : History) (now : ℕ) (turn : Turn) (agent : String) (p : Payload)
    (claimed : Result Bool) (led : Ledger)
    → (claimed ≡ ok true → 0 < agent_rows agent led.rows)
    → (after_claim between now turn agent p claimed led).0 ≡ ok tt
    → 0 < agent_rows agent (after_claim between now turn agent p claimed led).1.rows
unfolding after_claim
after_claim-agent between now turn agent p (ok true) led patched e = patched refl
after_claim-agent between now turn agent p (ok false) led patched e =
    start_native-agent now turn agent p (run between led)
after_claim-agent between now turn agent p (raise x) led patched e = absurd (cc)

start_agent-agent :
    (between : History) (now : ℕ) (turn : Turn) (request_id : Option ℕ) (agent : String)
    (p : Payload) (led : Ledger)
    → (start_agent between now turn request_id agent p led).0 ≡ ok tt
    → 0 < agent_rows agent (start_agent between now turn request_id agent p led).1.rows
unfolding start_agent
start_agent-agent between now turn none agent p led e = start_native-agent now turn agent p led
start_agent-agent between now turn (some job_id) agent p led e =
    let (claimed, led') =
      update_sdk_agent_id_for_claimed_request now job_id agent p.session_id led in
    after_claim-agent between now turn agent p claimed led'
      (claim-agent now job_id agent p.session_id led) e

start_native-IsValid :
    (now : ℕ) (turn : Turn) (agent : String) (p : Payload) (led : Ledger)
    → IsValid led
    → IsValid (start_native now turn agent p led).1
unfolding start_native apply
start_native-IsValid now turn agent p led v = apply-IsValid now (start _) led v

after_claim-IsValid :
    (between : History) (now : ℕ) (turn : Turn) (agent : String) (p : Payload)
    (claimed : Result Bool) (led : Ledger)
    → IsValid led
    → IsValid (after_claim between now turn agent p claimed led).1
unfolding after_claim
after_claim-IsValid between now turn agent p (ok true) led v = v
after_claim-IsValid between now turn agent p (ok false) led v =
    start_native-IsValid now turn agent p (run between led) (run-IsValid between led v)
after_claim-IsValid between now turn agent p (raise x) led v = v

ne_empty : (s : String) → s ≢ "" → str_eq s "" ≡ false
ne_empty s named = elim (Bool-cases (str_eq s "")) [
  | inl same ↦ absurd (named ((str_eq_iff s "").0 same))
  | inr other ↦ other
]

pub on_subagent_start-IsValid :
    (between : History) (now : ℕ) (turn : Turn) (p : Payload) (led : Ledger)
    → IsValid led
    → IsValid (on_subagent_start between now turn p led).1
unfolding on_subagent_start start_agent apply
on_subagent_start-IsValid between now turn p led v =
    elim (Bool-cases (str_eq (or_else p.agent_id "") "")) [
      | inl absent ↦ rw absent v
      | inr present ↦ rw present (go turn.request_id)
    ]
  where
    go :
        (request_id : Option ℕ)
        → IsValid (start_agent between now turn request_id (or_else p.agent_id "") p led).1
    go none = start_native-IsValid now turn (or_else p.agent_id "") p led v
    go (some job_id) =
        let (claimed, led') =
          update_sdk_agent_id_for_claimed_request now job_id (or_else p.agent_id "") p.session_id
            led in
        after_claim-IsValid between now turn (or_else p.agent_id "") p claimed led'
          (apply-IsValid now (claim_op job_id (or_else p.agent_id "") p.session_id) led v)

-- When the start hook returns without an error for a subagent that has an agent id, the ledger has
-- exactly one row with that id, whether the job was claimed, was started natively, or was known.
pub on_subagent_start-agent_rows :
    (between : History) (now : ℕ) (turn : Turn) (p : Payload) (led : Ledger)
    → IsValid led
    → or_else p.agent_id "" ≢ ""
    → (on_subagent_start between now turn p led).0 ≡ ok tt
    → agent_rows (or_else p.agent_id "") (on_subagent_start between now turn p led).1.rows ≡ 1
unfolding on_subagent_start
on_subagent_start-agent_rows between now turn p led v named e =
    let agent = or_else p.agent_id "" in
    let present = ne_empty agent named in
    let valid = on_subagent_start-IsValid between now turn p led v in
    rw present (
      omega (
        arith,
        start_agent-agent between now turn turn.request_id agent p led (rw present at e),
        (rw present at (valid.unique agent)),
      ))

record_finished-get_by_id :
    (now : ℕ) (q : Finish) (led : Ledger) (job_id : ℕ) (r : SubagentJob)
    → IsValid led
    → is_terminal q.status ≡ true
    → get_by_id job_id led ≡ some r
    → r.sdk_agent_id ≡ some q.sdk_agent_id
    → r.status ≡ started
    → get_by_id job_id (record_finished now q led).1 ≡ some (finish now q r)
unfolding get_by_id
record_finished-get_by_id now q led job_id r v t e a s =
    let p = is_started_agent q.sdk_agent_id in
    let hit : p r ≡ true = rw (a, s, str_eq_refl q.sdk_agent_id) in
    let some_row = row_count_pos (has_id job_id) p led.rows r e hit in
    let after = fetch_one-update_where (has_id job_id) p (finish now q) led.rows r (λ x. refl) e in
    rw (record_finished-eq now q led v, t, lt→ltb _ _ some_row) (rw hit at after)

finish_of-is_terminal :
    (agent : String) (p : Payload) (text : String) (cancelled : Bool)
    → is_terminal (finish_of agent p text cancelled).status ≡ true
unfolding finish_of
finish_of-is_terminal agent p text cancelled = ground arith

verdict-status :
    (cancelled : Bool) (p : Payload)
    → (verdict cancelled p).0 ≡ (
        if cancelled
        then stopped
        else if is_failed (first_text p.status p.task_status)
        then failed
        else completed)
verdict-status cancelled p = ground arith

-- The stop hook ends the started job of its agent and no later call changes the row: it reads as
-- stopped if a cancel was requested, else as failed if the SDK said so, else as completed.
pub on_subagent_stop-finish :
    (read_transcript : String → String) (between after : History) (now : ℕ) (p : Payload)
    (led : Ledger) (job_id : ℕ) (r : SubagentJob)
    → IsValid led
    → or_else p.agent_id "" ≢ ""
    → get_by_id job_id (run between led) ≡ some r
    → r.sdk_agent_id ≡ some (or_else p.agent_id "")
    → r.status ≡ started
    → let agent = or_else p.agent_id "" in
      let cancelled = is_cancel_requested agent led in
      (r' : SubagentJob) × (get_by_id job_id
          (on_subagent_stop read_transcript between after now p led).1
        ≡ some r')
      × (r'.status ≡ (
          if cancelled
          then stopped
          else if is_failed (first_text p.status p.task_status)
          then failed
          else completed))
      × (r'.finished_at ≡ some now)
unfolding on_subagent_stop finish_of apply
on_subagent_stop-finish read_transcript between after now p led job_id r v named e a s =
    let agent = or_else p.agent_id "" in
    let q = finish_of agent p (last_message read_transcript p) (is_cancel_requested agent led) in
    let valid = run-IsValid between led v in
    let t =
      finish_of-is_terminal agent p (last_message read_transcript p)
        (is_cancel_requested agent led) in
    let ended = record_finished-get_by_id now q (run between led) job_id r valid t e a s in
    let valid' = apply-IsValid now (finish_op q) (run between led) valid in
    let kept =
      get_by_id-run_terminal after (record_finished now q (run between led)).1 job_id
        (finish now q r) valid' t ended in
    rw (ne_empty agent named)
      (finish now q r, kept, verdict-status (is_cancel_requested agent led) p, refl)
