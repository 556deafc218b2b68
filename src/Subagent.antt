-- ===== src/Subagent.antt =====
-- The ledger of subagent jobs: src/assistant/subagent/, with its table in src/assistant/state/db.py.
-- `Job` holds the rows, `Ledger` the table with its constraints, `Store` the statements of the
-- class SubagentStore, `Hooks` and `Picker` the code that calls them.
pub mod Job
pub mod Ledger
pub mod Store
pub mod Operations
pub mod Invariant
pub mod Machine
pub mod Finishing
pub mod Recovered
pub mod Retries
pub mod Cancelling
pub mod Pending
pub mod Hooks
pub mod Throttle
pub mod Transcript
pub mod Picker
pub mod Tools
mod Examples
