-- ===== src/Subagent/Invariant/Agents.antt =====
-- No two rows of `subagent_jobs` hold the same agent id (src/assistant/subagent/store.py).
use xone_assistant.Prelude.{
  ℕ, ◌+◌, ◌≤◌, String, Bool, false, inl, inr, some, none, Option, List, [], ◌∷◌, ◌++◌, ◌≡◌, arith,
  ltb, Bool-cases, str_eq, str_eq_iff, ◌&&◌,
}
use xone_assistant.Sql.{update_where, row_count}
use xone_assistant.Sql.Update.{
  row_count-update_where, row_count-update_where-le, row_count-append, update_where-eq_of_none,
}
use xone_assistant.Subagent.Job.{SubagentJob}
use xone_assistant.Subagent.Ledger.{agent_rows, has_agent}
use xone_assistant.Subagent.Store.{claim, is_claimable}

pub agent_rows-update_where :
    (agent : String) (p : SubagentJob → Bool) (f : SubagentJob → SubagentJob)
    (rows : List SubagentJob)
    → ((r : SubagentJob) → (f r).sdk_agent_id ≡ r.sdk_agent_id)
    → agent_rows agent (update_where p f rows) ≡ agent_rows agent rows
unfolding agent_rows
agent_rows-update_where agent p f rows same =
    row_count-update_where (has_agent agent) p f rows (λ r _. rw (same r))

-- A new row without an agent id adds none.
pub agent_rows-append_none :
    (agent : String) (rows : List SubagentJob) (r : SubagentJob)
    → r.sdk_agent_id ≡ none
    → agent_rows agent (rows ++ r ∷ []) ≡ agent_rows agent rows
unfolding agent_rows row_count
agent_rows-append_none agent rows r e =
    ground (arith, row_count-append (has_agent agent) rows (r ∷ []))

-- A new row with an agent id that no row holds keeps the ids apart.
pub agent_rows-append_fresh :
    (new agent : String) (rows : List SubagentJob) (r : SubagentJob)
    → r.sdk_agent_id ≡ some new
    → ltb 0 (agent_rows new rows) ≡ false
    → agent_rows agent rows ≤ 1
    → agent_rows agent (rows ++ r ∷ []) ≤ 1
unfolding agent_rows row_count
agent_rows-append_fresh new agent rows r e fresh h = elim (Bool-cases (str_eq new agent)) [
  | inl same ↦
      let eq : new ≡ agent = (str_eq_iff new agent).0 same in
      ground (arith, row_count-append (has_agent agent) rows (r ∷ []), eq)
  | inr other ↦ ground (arith, row_count-append (has_agent agent) rows (r ∷ []), other)
]

-- The guard of the UNIQUE index is what a claim needs.
pub agent_rows-claim :
    (now job_id : ℕ) (new agent : String) (parent : Option String) (rows : List SubagentJob)
    → (ltb 0 (row_count (is_claimable job_id) rows)
        && ltb 1 (row_count (is_claimable job_id) rows + agent_rows new rows))
      ≡ false
    → agent_rows agent rows ≤ 1
    → agent_rows agent (update_where (is_claimable job_id) (claim now new parent) rows) ≤ 1
unfolding agent_rows
agent_rows-claim now job_id new agent parent rows guard h = elim (Bool-cases (str_eq new agent)) [
  | inl same ↦
      let eq : new ≡ agent = (str_eq_iff new agent).0 same in
      let p = is_claimable job_id in
      ground (
        arith,
        row_count-update_where-le (has_agent agent) p (claim now new parent) rows,
        update_where-eq_of_none p (claim now new parent) rows,
        eq,
      )
  | inr other ↦
      rw
        (row_count-update_where (has_agent agent) (is_claimable job_id) (claim now new parent) rows
          (λ r claimable. ground (arith, other)))
        h
]
