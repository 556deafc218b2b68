-- ===== src/Subagent/Tools/Examples.antt =====
-- A job that is queued (src/assistant/tools_sdk/subagent.py).
use xone_assistant.Prelude.{◌≡◌, refl, ◌||◌, ◌==◌, none, some, true, utf8_length}
use xone_assistant.Cron.Split.{Unicode}
use xone_assistant.Patterns.{between}
use xone_assistant.Subagent.Ledger.{empty}
use xone_assistant.Subagent.Tools.{
  queued, absent, validate_kind, validate_task_text, lstrip, rstrip, subagent_spawn,
}
use xone_assistant.Subagent.Tools.Queued.{IsSpawned, subagent_spawn-IsSpawned}
use xone_assistant.Subagent.Store.{record_pending_request}
use xone_assistant.Subagent.Invariant.Preserved.{empty-IsValid}

abbrev unicode : Unicode
unicode = record { digit = λ c. none; is_space = λ c. c == b' ' || between 9 13 c }

spawned :
    (subagent_spawn unicode 100 7 true (some "worker") (some " go \n") absent empty).0
    ≡ queued 1 "worker"
unfolding subagent_spawn validate_kind validate_task_text lstrip rstrip utf8_length
    record_pending_request
spawned = refl

subagent_spawn-IsSpawned_example :
    IsSpawned unicode 100 7 true
      (some "worker")
      (some " go \n")
      absent
      empty
      (subagent_spawn unicode 100 7 true (some "worker") (some " go \n") absent empty)
subagent_spawn-IsSpawned_example =
    subagent_spawn-IsSpawned unicode 100 7 true (some "worker") (some " go \n") absent empty
      empty-IsValid
