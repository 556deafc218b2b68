-- ===== src/Cron/Matching.antt =====
-- Whether a minute matches an expression (src/assistant/scheduler/cron.py).
use xone_assistant.Prelude.{
  ℕ, ◌+◌, ◌%◌, Bool, true, false, not, ◌&&◌, ◌||◌, if◌then◌else◌, ◌==◌, elem,
}
use xone_assistant.Cron.Parse.{CronExpr}
use xone_assistant.Cron.Calendar.{Zone, minute_of, hour_of, day_of, month_of, weekday_of}

-- The clock does not skip the wall clock `local`.
unfoldable pub is_existing_local_minute : Zone → ℕ → Bool
is_existing_local_minute z local = z.local (z.utc false local) == local

unfoldable pub is_ambiguous_local_minute : Zone → ℕ → Bool
is_ambiguous_local_minute z local = not (z.utc false local == z.utc true local)

-- Sunday is 0.
unfoldable pub cron_weekday : ℕ → ℕ
cron_weekday local = (weekday_of local + 1) % 7

abbrev pub day_ok : CronExpr → ℕ → Bool
day_ok e local =
    let dom_ok = elem (day_of local) e.doms in
    let dow_ok = elem (cron_weekday local) e.dows in
    if not e.raw_dom_star && not e.raw_dow_star
    then dom_ok || dow_ok
    else if e.raw_dom_star
    then dow_ok
    else dom_ok

unfoldable pub cron_matches : CronExpr → ℕ → Bool
unfolding cron_weekday
cron_matches e local =
    elem (minute_of local) e.minutes
    && elem (hour_of local) e.hours
    && elem (month_of local) e.months
    && day_ok e local
