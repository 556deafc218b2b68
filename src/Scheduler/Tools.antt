-- ===== src/Scheduler/Tools.antt =====
-- The six tools of src/assistant/tools_sdk/scheduler.py, on the store.
pub mod Stored
mod Examples
use xone_assistant.Prelude.{
  ℕ, zero, suc, ◌+◌, String, Bool, true, false, not, Option, none, some, List, [], ◌∷◌,
  if◌then◌else◌, ltb, Result, ok, raise, map, codes, Text,
}
use xone_assistant.Cron.Split.{Unicode}
use xone_assistant.Cron.Calendar.{Zone}
use xone_assistant.Cron.Parse.{CronExpr, parse_cron}
use xone_assistant.Cron.Search.{next_fire}
use xone_assistant.Scheduler.Rows.{Schedule, Trigger, Tables}
use xone_assistant.Scheduler.Schedules.{
  add_schedule, list_schedules, schedule_exists, disable_schedule, enable_schedule,
}
use xone_assistant.Scheduler.Triggers.{get_schedule_history}
use xone_assistant.Scheduler.Prompts.{
  Letters, Checked, accepted, rejected, PromptError, too_large, control_characters,
  validate_cron_prompt, validate_tz,
}

-- The codes of the errors, by their names.
pub data Code : Type 0 where
  cron_parse prompt_size prompt_ctrl tz cap not_found not_confirmed prompt_rejected not_configured :
      Code

-- An entry of the arguments: missing, a text, or something else that is true.
pub data Arg : Type 0 where
  absent : Arg
  text : String → Arg
  other : Arg

-- What int() makes of an entry or of 0; none when it raises.
pub data ℤ : Type 0 where
  pos : ℕ → ℤ
  negsuc : ℕ → ℤ

pub data Reply : Type 0 where
  tool_error : Code → Reply
  schedule_added : (id : ℕ) → (next_fire : Option ℕ) → Reply
  listed : List Schedule → Reply
  removed enabled disabled : (id : ℕ) → (changed : Bool) → Reply
  triggers : List Trigger → Reply

pub record Settings : Type 0 where
  pub tz_default : String
  pub max_schedules : ℕ

-- What the tools take from Python, and core.wrap_untrusted_prompt.
pub record Host : Type 0 where
  pub letters : Letters
  pub zone_info : String → Option Zone
  pub wrap_untrusted_prompt : String → String

abbrev pub prompt_code : PromptError → Code
prompt_code too_large = prompt_size
prompt_code control_characters = prompt_ctrl
prompt_code _ = prompt_rejected

-- args.get(key, "")
abbrev pub text_or_empty : Arg → Option String
text_or_empty absent = some ""
text_or_empty (text s) = some s
text_or_empty other = none

-- args.get("tz") or settings.tz_default
abbrev pub tz_or : String → Arg → Option String
tz_or tz_default absent = some tz_default
tz_or tz_default (text String.[]) = some tz_default
tz_or tz_default (text (String.◌∷◌ c s)) = some (String.◌∷◌ c s)
tz_or tz_default other = none

module _ (host : Host) where
  abbrev pub parse_text : Option String → Option CronExpr
  parse_text none = none
  parse_text (some cron) = parse_cron host.letters.unicode (codes cron)

  abbrev pub reply_add : ℕ → CronExpr → Zone → Result ℕ × Tables → Reply × Tables
  reply_add now expr zone (ok id, db) = (schedule_added id (next_fire zone expr now 1500), db)
  reply_add now expr zone (raise _, db) = (tool_error cap, db)

  abbrev pub add_in_zone :
      Settings
      → ℕ
      → CronExpr
      → (cron prompt tz_name : String) → Option Zone
      → Tables
      → Reply × Tables
  add_in_zone settings now expr cron prompt tz_name none db = (tool_error tz, db)
  add_in_zone settings now expr cron prompt tz_name (some zone) db =
      reply_add now expr zone (add_schedule now cron prompt tz_name settings.max_schedules db)

  abbrev pub add_tz :
      Settings → ℕ → CronExpr → (cron prompt : String) → Option String → Tables → Reply × Tables
  add_tz settings now expr cron prompt none db = (tool_error tz, db)
  add_tz settings now expr cron prompt (some tz_name) db =
      add_in_zone settings now expr cron prompt tz_name (validate_tz host.zone_info (some tz_name))
        db

  abbrev pub add_checked :
      Settings → ℕ → CronExpr → (cron : String) → Checked → Option String → Tables → Reply × Tables
  add_checked settings now expr cron (rejected e) tz_raw db = (tool_error (prompt_code e), db)
  add_checked settings now expr cron (accepted prompt) tz_raw db =
      add_tz settings now expr cron prompt tz_raw db

  abbrev pub add_parsed :
      Settings
      → ℕ
      → Option CronExpr
      → Option String
      → Option String
      → Option String
      → Tables
      → Reply × Tables
  add_parsed settings now (some expr) (some cron) prompt tz_raw db =
      add_checked settings now expr cron (validate_cron_prompt host.letters prompt) tz_raw db
  add_parsed settings now _ _ prompt tz_raw db = (tool_error cron_parse, db)

  -- The tools of a server that was configured; `now` is the time of the call.
  unfoldable pub schedule_add :
      Settings → (now : ℕ) → (cron prompt tz_raw : Arg) → Tables → Reply × Tables
  schedule_add settings now cron prompt tz_raw db =
      add_parsed settings now (parse_text (text_or_empty cron)) (text_or_empty cron)
        (text_or_empty prompt) (tz_or settings.tz_default tz_raw) db

  abbrev pub wrap_row : Schedule → Schedule
  wrap_row s = record s { prompt = host.wrap_untrusted_prompt s.prompt }

  unfoldable pub schedule_list : (enabled_only : Bool) → Tables → Reply
  schedule_list enabled_only db = listed (map wrap_row (list_schedules enabled_only db))

-- What stands behind the check of an id.
abbrev pub with_id : Option ℤ → (ℕ → Tables → Reply × Tables) → Tables → Reply × Tables
with_id none f db = (tool_error not_found, db)
with_id (some (negsuc n)) f db = (tool_error not_found, db)
with_id (some (pos zero)) f db = (tool_error not_found, db)
with_id (some (pos (suc n))) f db = f (suc n) db

abbrev pub if_exists : ℕ → Reply × Tables → Tables → Reply × Tables
if_exists i done_ db = if schedule_exists i db then done_ else (tool_error not_found, db)

abbrev pub disable : (ℕ → Bool → Reply) → ℕ → Tables → Reply × Tables
disable reply i db =
    let (changed, after) = disable_schedule i db in if_exists i (reply i changed, after) db

abbrev pub enable : ℕ → Tables → Reply × Tables
enable i db =
    let (changed, after) = enable_schedule i db in if_exists i (enabled i changed, after) db

abbrev pub remove : (confirmed : Bool) → ℕ → Tables → Reply × Tables
remove confirmed i db =
    let gone = disable removed i db in if confirmed then gone else (tool_error not_confirmed, db)

unfoldable pub schedule_rm : Option ℤ → (confirmed : Bool) → Tables → Reply × Tables
schedule_rm id confirmed db = with_id id (remove confirmed) db

unfoldable pub schedule_enable : Option ℤ → Tables → Reply × Tables
schedule_enable id db = with_id id enable db

unfoldable pub schedule_disable : Option ℤ → Tables → Reply × Tables
schedule_disable id db = with_id id (disable disabled) db

-- max(1, min(limit, 200)), where no number is 20 and so is 0
unfoldable pub clamp_limit : Option ℤ → ℕ
clamp_limit none = 20
clamp_limit (some (negsuc n)) = 1
clamp_limit (some (pos zero)) = 20
clamp_limit (some (pos (suc n))) = if ltb 200 (suc n) then 200 else suc n

-- An id below 0 is that of no schedule.
abbrev pub history_of : (limit : ℕ) → ℤ → Tables → List Trigger
history_of limit (pos i) db = get_schedule_history (some i) limit db
history_of limit (negsuc n) db = []

-- `schedule_id` is none when it is not given, and some none when int() raises.
unfoldable pub schedule_history :
    (schedule_id : Option (Option ℤ)) → (limit : Option ℤ) → Tables → Reply
schedule_history none limit db = triggers (get_schedule_history none (clamp_limit limit) db)
schedule_history (some none) limit db = tool_error not_found
schedule_history (some (some id)) limit db = triggers (history_of (clamp_limit limit) id db)
