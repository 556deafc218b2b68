-- ===== src/Subagent/Store/Recovery.antt =====
-- `recover_orphans` of src/assistant/subagent/store.py, run once at boot.
use xone_assistant.Prelude.{ℕ, ◌+◌, Bool, ◌&&◌, not, some, is_some}
use xone_assistant.Sql.{update_where, row_count, older_than}
use xone_assistant.Subagent.Job.{
  Status, SubagentJob, dropped, interrupted, is_requested, is_started,
}
use xone_assistant.Subagent.Ledger.{Ledger}

pub record OrphanRecovery : Type 0 where
  pub dropped_no_sdk : ℕ
  pub interrupted : ℕ
  pub dropped_stale : ℕ

unfoldable pub total : OrphanRecovery → ℕ
total o = o.dropped_no_sdk + o.interrupted + o.dropped_stale

abbrev pub close_as : Status → ℕ → SubagentJob → SubagentJob
close_as s now r = record r { status = s; finished_at = some now }

-- The WHERE clauses of the three branches.
abbrev pub never_delivered : SubagentJob → Bool
never_delivered r =
    is_started r.status && not (is_some r.sdk_agent_id) && not (is_some r.finished_at)

abbrev pub was_running : SubagentJob → Bool
was_running r = is_started r.status && is_some r.sdk_agent_id && not (is_some r.finished_at)

abbrev pub is_stale : ℕ → ℕ → SubagentJob → Bool
is_stale stale_after now r = is_requested r.status && older_than stale_after now r.created_at

unfoldable pub recover_orphans : ℕ → ℕ → Ledger → OrphanRecovery × Ledger
unfolding update_where row_count
recover_orphans now stale_requested_after_s led =
    let rows₁ = update_where never_delivered (close_as dropped now) led.rows in
    let rows₂ = update_where was_running (close_as interrupted now) rows₁ in
    let stale = is_stale stale_requested_after_s now in
    let rows₃ = update_where stale (close_as dropped now) rows₂ in
    (
      record {
        dropped_no_sdk = row_count never_delivered led.rows;
        interrupted = row_count was_running rows₁;
        dropped_stale = row_count stale rows₂;
      },
      record led { rows = rows₃ },
    )
