-- ===== src/Cron/Field/Values.antt =====
-- Which numbers a term of a field stands for (src/assistant/scheduler/cron.py).
use xone_assistant.Prelude.{ℕ, ◌-◌, ◌%◌, Bool, ◌&&◌, ◌==◌, ltb, leb}

-- The test that `range(start, stop, step)` makes of a number.
abbrev pub in_range : ℕ → ℕ → ℕ → ℕ → Bool
in_range start stop step x = leb start x && ltb x stop && (x - start) % step == 0
