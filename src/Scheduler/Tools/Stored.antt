-- ===== src/Scheduler/Tools/Stored.antt =====
-- What the tools store, and what they leave when they fail (src/assistant/tools_sdk/scheduler.py).
use xone_assistant.Prelude.{
  ℕ, ◌+◌, String, ◌≡◌, ◌≢◌, refl, sym, ap, ◌∙◌, Bool, true, false, ◌||◌, Bool-cases, guard-some,
  starts_with, occurs_in, utf8_length, Option, none, some, List, [], ◌∷◌, inl, inr, if◌then◌else◌,
  ltb, leb, is_some, codes, All, All-append, text_eq, any, zero, suc,
}
use xone_assistant.Cron.Split.{strip}
use xone_assistant.Cron.Calendar.{Zone}
use xone_assistant.Cron.Parse.{CronExpr, parse_cron}
use xone_assistant.Sql.{update_where, row_count}
use xone_assistant.Sql.Update.{All-update_where}
use xone_assistant.Scheduler.Rows.{Schedule, Tables}
use xone_assistant.Scheduler.Schedules.{
  add_schedule, new_schedule, is_enabled, schedule_exists, disable_schedule, enable_schedule,
}
use xone_assistant.Scheduler.Prompts.{
  PromptError, empty, too_large, control_characters, system_note, sentinel_tag, is_control,
  has_system_note, has_sentinel_tag, Checked, accepted, rejected, validate_cron_prompt, validate_tz,
}
use xone_assistant.Scheduler.Tools.{
  Code, cap, not_found, Arg, ℤ, pos, negsuc, Reply, tool_error, removed, disabled, Settings, Host,
  text_or_empty, tz_or, parse_text, reply_add, add_in_zone, add_checked, add_parsed, schedule_add,
  with_id, disable, enable, remove, schedule_rm, schedule_enable, schedule_disable,
}

guard-accepted :
    (b : Bool) (e : PromptError) (c : Checked) (p : String)
    → (if b then rejected e else c) ≡ accepted p
    → c ≡ accepted p
guard-accepted true e c p h = absurd (cc (h))
guard-accepted false e c p h = h

module _ (host : Host) where
  -- A schedule that the loop can read: its cron expression parses, its zone is known and its prompt
  -- is one that is accepted.
  abbrev pub IsSound : Schedule → Type 0
  IsSound s =
      (is_some (parse_cron host.letters.unicode (codes s.cron)) ≡ true)
      × (is_some (host.zone_info s.tz) ≡ true)
      × (validate_cron_prompt host.letters (some s.prompt) ≡ accepted s.prompt)

  -- A reply and the tables behind it: sound, when they were sound; and as they were, when the reply
  -- is an error.
  abbrev pub Keeps : Tables → Reply × Tables → Type 0
  Keeps db (reply, after) =
      (All IsSound db.schedules → All IsSound after.schedules)
      × ((code : Code) → reply ≡ tool_error code → after ≡ db)

  same-Keeps : (reply : Reply) (db : Tables) → Keeps db (reply, db)
  same-Keeps reply db = (λ h. h, λ code e. refl)

  validate_cron_prompt-accepted :
      (prompt : Option String) (p : String)
      → validate_cron_prompt host.letters prompt ≡ accepted p
      → prompt ≡ some p
  unfolding validate_cron_prompt
  validate_cron_prompt-accepted none p h = absurd (cc (h))
  validate_cron_prompt-accepted (some prompt) p h =
      let chars = codes prompt in
      let h1 = guard-accepted (text_eq (strip host.letters.unicode chars) []) empty _ p h in
      let h2 = guard-accepted (ltb 2048 (utf8_length chars)) too_large _ p h1 in
      let h3 = guard-accepted (any is_control chars) control_characters _ p h2 in
      let h4 = guard-accepted (has_system_note host.letters chars) system_note _ p h3 in
      let h5 : accepted prompt ≡ accepted p =
        guard-accepted (has_sentinel_tag host.letters chars) sentinel_tag _ p h4 in
      cc (h5)

  validate_tz-some :
      (tz : String) (zone : Zone)
      → validate_tz host.zone_info (some tz) ≡ some zone
      → host.zone_info tz ≡ some zone
  unfolding validate_tz
  validate_tz-some tz zone h =
      (guard-some (starts_with (codes "/") (codes tz) || occurs_in (codes "..") (codes tz)) _ zone
        h).1

  add_schedule-Keeps :
      (settings : Settings) (now : ℕ) (expr : CronExpr) (zone : Zone) (cron prompt tz : String)
      (db : Tables)
      → ((i : ℕ) → IsSound (new_schedule now cron prompt tz i))
      → Keeps db
          (reply_add host now expr zone (add_schedule now cron prompt tz settings.max_schedules db))
  unfolding add_schedule
  add_schedule-Keeps settings now expr zone cron prompt tz db sound =
      elim (Bool-cases (leb settings.max_schedules (row_count is_enabled db.schedules))) [
        | inl full ↦ rw full (same-Keeps (tool_error cap) db)
        | inr room ↦
            let i = db.last_schedule_id + 1 in
            rw room (
              λ h.
                  All-append IsSound db.schedules (new_schedule now cron prompt tz i ∷ []) h
                    (sound i, tt),
              λ code e. absurd (cc (e)),
            )
      ]

  add_in_zone-Keeps :
      (settings : Settings) (now : ℕ) (expr : CronExpr) (cron prompt tz : String)
      (zone : Option Zone) (db : Tables)
      → parse_cron host.letters.unicode (codes cron) ≡ some expr
      → validate_cron_prompt host.letters (some prompt) ≡ accepted prompt
      → validate_tz host.zone_info (some tz) ≡ zone
      → Keeps db (add_in_zone host settings now expr cron prompt tz zone db)
  add_in_zone-Keeps settings now expr cron prompt tz none db parsed checked zoned =
      same-Keeps (tool_error Code.tz) db
  add_in_zone-Keeps settings now expr cron prompt tz (some zone) db parsed checked zoned =
      let known = validate_tz-some tz zone zoned in
      add_schedule-Keeps settings now expr zone cron prompt tz db
        (λ i. (rw parsed, rw known, checked))

  add_checked-Keeps :
      (settings : Settings) (now : ℕ) (expr : CronExpr) (cron : String) (prompt : Option String)
      (verdict : Checked) (tz_raw : Option String) (db : Tables)
      → parse_cron host.letters.unicode (codes cron) ≡ some expr
      → validate_cron_prompt host.letters prompt ≡ verdict
      → Keeps db (add_checked host settings now expr cron verdict tz_raw db)
  add_checked-Keeps settings now expr cron prompt (rejected e) tz_raw db parsed checked =
      same-Keeps _ db
  add_checked-Keeps settings now expr cron prompt (accepted p) none db parsed checked =
      same-Keeps _ db
  add_checked-Keeps settings now expr cron prompt (accepted p) (some tz) db parsed checked =
      let same = validate_cron_prompt-accepted prompt p checked in
      let checked' : validate_cron_prompt host.letters (some p) ≡ accepted p =
        ap (validate_cron_prompt host.letters) (sym same) ∙ checked in
      add_in_zone-Keeps settings now expr cron p tz (validate_tz host.zone_info (some tz)) db parsed
        checked' refl

  add_parsed-Keeps :
      (settings : Settings) (now : ℕ) (parsed : Option CronExpr)
      (cron prompt tz_raw : Option String) (db : Tables)
      → parse_text host cron ≡ parsed
      → Keeps db (add_parsed host settings now parsed cron prompt tz_raw db)
  add_parsed-Keeps settings now none cron prompt tz_raw db e = same-Keeps _ db
  add_parsed-Keeps settings now (some expr) none prompt tz_raw db e = same-Keeps _ db
  add_parsed-Keeps settings now (some expr) (some cron) prompt tz_raw db e =
      add_checked-Keeps settings now expr cron prompt (validate_cron_prompt host.letters prompt)
        tz_raw db e refl

  -- A change of `enabled` alone.
  toggle-All :
      (p : Schedule → Bool) (b : Bool) (schedules : List Schedule)
      → All IsSound schedules
      → All IsSound (update_where p (λ s. record s { enabled = b }) schedules)
  toggle-All p b schedules h =
      All-update_where IsSound IsSound p (λ s. record s { enabled = b }) schedules (λ s k e. k)
        (λ s k e. k) h

  disable_schedule-Keeps :
      (reply : ℕ → Bool → Reply) (i : ℕ) (db : Tables)
      → ((changed : Bool) (code : Code) → reply i changed ≢ tool_error code)
      → Keeps db (disable reply i db)
  unfolding disable_schedule
  disable_schedule-Keeps reply i db plain = elim (Bool-cases (schedule_exists i db)) [
    | inl there ↦ rw there (toggle-All _ false db.schedules, λ code e. absurd (plain _ code e))
    | inr missing ↦ rw missing (same-Keeps (tool_error not_found) db)
  ]

  enable-Keeps : (i : ℕ) (db : Tables) → Keeps db (enable i db)
  unfolding enable_schedule
  enable-Keeps i db = elim (Bool-cases (schedule_exists i db)) [
    | inl there ↦ rw there (toggle-All _ true db.schedules, λ code e. absurd (cc (e)))
    | inr missing ↦ rw missing (same-Keeps (tool_error not_found) db)
  ]

  remove-Keeps : (confirmed : Bool) (i : ℕ) (db : Tables) → Keeps db (remove confirmed i db)
  remove-Keeps true i db = disable_schedule-Keeps removed i db (λ changed code e. absurd (cc (e)))
  remove-Keeps false i db = same-Keeps _ db

  with_id-Keeps :
      (id : Option ℤ) (f : ℕ → Tables → Reply × Tables) (db : Tables)
      → ((i : ℕ) → Keeps db (f i db))
      → Keeps db (with_id id f db)
  with_id-Keeps none f db h = same-Keeps _ db
  with_id-Keeps (some (negsuc n)) f db h = same-Keeps _ db
  with_id-Keeps (some (pos zero)) f db h = same-Keeps _ db
  with_id-Keeps (some (pos (suc n))) f db h = h (suc n)

  -- schedule_add stores only what the loop can read: a cron expression that parses, a zone that is
  -- known, and a prompt that passes the checks. A call that replies with an error leaves the tables
  -- as they were.
  pub schedule_add-Keeps :
      (settings : Settings) (now : ℕ) (cron prompt tz_raw : Arg) (db : Tables)
      → Keeps db (schedule_add host settings now cron prompt tz_raw db)
  unfolding schedule_add
  schedule_add-Keeps settings now cron prompt tz_raw db =
      add_parsed-Keeps settings now (parse_text host (text_or_empty cron)) (text_or_empty cron)
        (text_or_empty prompt) (tz_or settings.tz_default tz_raw) db refl

  -- So do schedule_rm, schedule_enable and schedule_disable.
  pub schedule_toggle-Keeps :
      (id : Option ℤ) (confirmed : Bool) (db : Tables)
      → Keeps db (schedule_rm id confirmed db)
        × Keeps db (schedule_enable id db)
        × Keeps db (schedule_disable id db)
  unfolding schedule_rm schedule_enable schedule_disable
  schedule_toggle-Keeps id confirmed db = (
    with_id-Keeps id (remove confirmed) db (λ i. remove-Keeps confirmed i db),
    with_id-Keeps id enable db (λ i. enable-Keeps i db),
    with_id-Keeps id (disable disabled) db
        (λ i. disable_schedule-Keeps disabled i db (λ changed code e. absurd (cc (e)))),
  )
