-- ===== src/Subagent/Machine.antt =====
-- The status machine that src/assistant/subagent/store.py documents:
-- requested, then started, then one of the terminal statuses.
pub mod Rows
pub mod Table
pub mod Forever
use xone_assistant.Prelude.{
  ℕ, ◌≤◌, List, [], ◌∷◌, Bool, true, ◌≡◌, ◌⊎◌, Option, String, is_some, some,
}
use xone_assistant.Subagent.Job.{
  Status, SubagentJob, requested, started, stopped, error, dropped, is_terminal,
}

infix 40 ◌⟶◌
pub data ◌⟶◌ : Status → Status → Type 0 where
  claimed : requested ⟶ started
  cancelled : requested ⟶ stopped
  gave_up : requested ⟶ error
  expired : requested ⟶ dropped
  ended : {s : Status} → is_terminal s ≡ true → started ⟶ s

-- What one call may do to a row: nothing at all, or keep its status while it is not terminal, or
-- take one step of the machine. The columns of the request never change.
pub record Progress (r r' : SubagentJob) : Type 0 where
  pub same_id : r'.id ≡ r.id
  pub same_type : r'.agent_type ≡ r.agent_type
  pub same_task : r'.task_text ≡ r.task_text
  pub same_chat : r'.callback_chat_id ≡ r.callback_chat_id
  pub same_kind : r'.spawned_by_kind ≡ r.spawned_by_kind
  pub same_creation : r'.created_at ≡ r.created_at
  pub attempts_grow : r.attempts ≤ r'.attempts
  pub agent_kept : is_some r.sdk_agent_id ≡ true → r'.sdk_agent_id ≡ r.sdk_agent_id
  pub cancel_kept : r.cancel_requested ≡ true → r'.cancel_requested ≡ true
  pub moves :
      (r' ≡ r)
      ⊎ ((is_terminal r.status ≡ Bool.false) × (r'.status ≡ r.status))
      ⊎ (r.status ⟶ r'.status)

-- The rows of a table, one by one, followed by new rows.
abbrev pub Evolves : List SubagentJob → List SubagentJob → Type 0
Evolves [] rows = Unit
Evolves (r ∷ rows) [] = ⊥
Evolves (r ∷ rows) (s ∷ rows') = Progress r s × Evolves rows rows'
