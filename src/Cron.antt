-- ===== src/Cron.antt =====
-- The cron engine: src/assistant/scheduler/cron.py. `Split` cuts texts, `Field` and `Parse` read an
-- expression, `Calendar` and `Zone` give the wall clock, and `Search` walks the minutes.
pub mod Split
pub mod Field
pub mod Parse
pub mod Calendar
pub mod Matching
pub mod Search
mod Examples
