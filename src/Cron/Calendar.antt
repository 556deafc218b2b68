-- ===== src/Cron/Calendar.antt =====
-- The parts of Python's datetime and zoneinfo that src/assistant/scheduler/cron.py reads. A wall
-- clock without a zone is the number of its minutes since 1970-01-01 00:00, from which the fields
-- of the datetime are computed; the five fields down to the minute determine it.
use xone_assistant.Prelude.{ℕ, ◌+◌, ◌-◌, ◌*◌, ◌/◌, ◌%◌, Bool, ltb, if◌then◌else◌, ◌≡◌, refl}

unfoldable pub minute_of : ℕ → ℕ
minute_of local = local % 60

unfoldable pub hour_of : ℕ → ℕ
hour_of local = local / 60 % 24

-- Monday is 0, as in datetime.weekday(); 1970-01-01 was a Thursday.
unfoldable pub weekday_of : ℕ → ℕ
weekday_of local = (local / 1440 + 3) % 7

-- The day in an era of 400 years that begins on 1 March, and the year and the day of the year.
day_of_era : ℕ → ℕ
day_of_era local = (local / 1440 + 719468) % 146097

day_of_year : ℕ → ℕ
day_of_year doe =
    let yoe = (doe - doe / 1460 + doe / 36524 - doe / 146096) / 365 in
    doe - (365 * yoe + yoe / 4 - yoe / 100)

month_from_march : ℕ → ℕ
unfolding day_of_era day_of_year
month_from_march local = (5 * day_of_year (day_of_era local) + 2) / 153

unfoldable pub month_of : ℕ → ℕ
unfolding month_from_march
month_of local = let mp = month_from_march local in if ltb mp 10 then mp + 3 else mp - 9

unfoldable pub day_of : ℕ → ℕ
unfolding month_from_march day_of_era day_of_year
day_of local = day_of_year (day_of_era local) - (153 * month_from_march local + 2) / 5 + 1

-- 2024-02-29 is a Thursday, and 60 days into the year.
leap_day :
    (day_of (19782 * 1440 + 125) ≡ 29)
    × (month_of (19782 * 1440 + 125) ≡ 2)
    × (weekday_of (19782 * 1440 + 125) ≡ 3)
    × (hour_of (19782 * 1440 + 125) ≡ 2)
    × (minute_of (19782 * 1440 + 125) ≡ 5)
unfolding day_of month_of weekday_of hour_of minute_of
leap_day = (refl, refl, refl, refl, refl)

-- A zone: the wall clock at a minute of UTC, and the minute of UTC that a wall clock stands for at
-- fold=0 (`false`) and fold=1 (`true`). Offsets are whole minutes.
pub record Zone : Type 0 where
  pub local : ℕ → ℕ
  pub utc : Bool → ℕ → ℕ
