-- ===== src/Scheduler.antt =====
-- The scheduler: src/assistant/scheduler/. `Rows` has the two tables, `Schedules` and `Triggers` the
-- statements of the class SchedulerStore, `Process` what the tasks share, `Loop` the producer that
-- fills the queue, `Dispatcher` the consumer, and `Histories` the runs of both.
pub mod Rows
pub mod Prompts
pub mod Tools
pub mod Schedules
pub mod Triggers
pub mod Process
pub mod Marker
pub mod Loop
pub mod Dispatcher
pub mod Histories
pub mod Lost
pub mod Invariant
pub mod Queue
pub mod Guards
pub mod Outcome
mod Examples
pub mod Envelope
