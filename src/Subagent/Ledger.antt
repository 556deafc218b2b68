-- ===== src/Subagent/Ledger.antt =====
-- The table `subagent_jobs` as src/assistant/state/db.py declares it: AUTOINCREMENT ids, and a
-- UNIQUE index on the agent ids that are not NULL.
use xone_assistant.Prelude.{
  ℕ, ◌+◌, String, Bool, false, Option, none, some, List, [], ◌∷◌, ◌++◌, str_eq,
}
use xone_assistant.Sql.{row_count}
use xone_assistant.Subagent.Job.{SubagentJob}

pub record Ledger : Type 0 where
  pub rows : List SubagentJob
  -- the row of sqlite_sequence: the highest id ever given
  pub last_id : ℕ

abbrev pub empty : Ledger
empty = record { rows = []; last_id = 0 }

-- column = ?, which is not true of NULL
abbrev pub holds_text : String → Option String → Bool
holds_text a none = false
holds_text a (some b) = str_eq b a

-- sdk_agent_id=?
abbrev pub has_agent : String → SubagentJob → Bool
has_agent a r = holds_text a r.sdk_agent_id

-- How many rows hold an agent id already: what the UNIQUE index looks at.
unfoldable pub agent_rows : String → List SubagentJob → ℕ
unfolding row_count
agent_rows a rows = row_count (has_agent a) rows

-- INSERT: the row takes the next id and stands last.
unfoldable pub insert : (ℕ → SubagentJob) → Ledger → Ledger
insert row led = record { rows = led.rows ++ row (led.last_id + 1) ∷ []; last_id = led.last_id + 1 }
