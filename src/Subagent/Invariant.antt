-- ===== src/Subagent/Invariant.antt =====
-- What holds of the table `subagent_jobs` between two calls of src/assistant/subagent/store.py.
pub mod Rows
pub mod Ids
pub mod Agents
pub mod Preserved
use xone_assistant.Prelude.{
  ℕ, ◌≤◌, ◌<◌, String, true, false, none, List, [], ◌∷◌, ◌≡◌, All, is_some,
}
use xone_assistant.Subagent.Job.{SubagentJob, requested, started, is_terminal}
use xone_assistant.Subagent.Ledger.{Ledger, agent_rows}

pub record IsSound (r : SubagentJob) : Type 0 where
  pub requested_unbound : r.status ≡ requested → r.sdk_agent_id ≡ none
  pub requested_kept : r.status ≡ requested → r.cancel_requested ≡ false
  pub started_bound : r.status ≡ started → is_some r.sdk_agent_id ≡ true
  pub finished_exactly : is_some r.finished_at ≡ is_terminal r.status

-- Ids rise along the table, above `low` and up to `high`.
abbrev pub Rising : ℕ → List SubagentJob → ℕ → Type 0
Rising low [] high = low ≤ high
Rising low (r ∷ rows) high = (low < r.id) × Rising r.id rows high

pub record IsValid (led : Ledger) : Type 0 where
  pub sound : All IsSound led.rows
  pub rising : Rising 0 led.rows led.last_id
  pub unique : (agent : String) → agent_rows agent led.rows ≤ 1
