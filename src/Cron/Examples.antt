-- ===== src/Cron/Examples.antt =====
-- A daily expression, in UTC and in a zone that sets its clock back
-- (src/assistant/scheduler/cron.py).
use xone_assistant.Prelude.{
  ℕ, ◌+◌, ◌-◌, ◌*◌, ◌/◌, ◌≤◌, ◌<◌, Bool, true, false, ◌&&◌, ◌||◌, Option, none, some, [], ◌∷◌, ◌≡◌,
  refl, arith, ltb, leb, ◌==◌, if◌then◌else◌, codes,
}
use mathlib.Core.Option
use xone_assistant.Cron.Split.{Unicode, strip, split_words}
use xone_assistant.Cron.Field.{expand_field}
use xone_assistant.Cron.Parse.{CronExpr, parse_cron, parse_stripped, parse_fields}
use xone_assistant.Cron.Parse.InRange.{IsInRange, parse_cron-IsInRange}
use xone_assistant.Cron.Calendar.{Zone, minute_of, hour_of, day_of, month_of, weekday_of}
use xone_assistant.Cron.Matching.{
  is_existing_local_minute, is_ambiguous_local_minute, cron_weekday, cron_matches,
}
use xone_assistant.Cron.Search.{is_hit, fire_at, next_fire, is_due, due_start}
use xone_assistant.Cron.Search.First.{First, next_fire-First, is_due-First, is_fresh_hit}
use xone_assistant.Cron.Search.Fold.{next_fire_stale, fire_at_once, IsFaithful}

abbrev ascii_digit : ℕ → Option ℕ
ascii_digit c = if leb 48 c && leb c 57 then some (c - 48) else none

abbrev pub ascii : Unicode
ascii = record { digit = ascii_digit; is_space = λ c. c == 32 || leb 9 c && leb c 13 }

-- "30 11 11 3 *", at 11:30 on 11 March; the set of the weekdays gets 0 for 0 and for 7
abbrev pub march : CronExpr
march = record {
  minutes = 30 ∷ [];
  hours = 11 ∷ [];
  doms = 11 ∷ [];
  months = 3 ∷ [];
  dows = 0 ∷ 1 ∷ 2 ∷ 3 ∷ 4 ∷ 5 ∷ 6 ∷ 0 ∷ [];
  raw_dom_star = false;
  raw_dow_star = true;
}

parse_cron-march : parse_cron ascii (codes "30 11 11 3 *") ≡ some march
unfolding parse_cron strip parse_stripped parse_fields split_words expand_field
parse_cron-march = refl

abbrev pub utc_zone : Zone
utc_zone = record { local = λ m. m; utc = λ fold w. w }

-- Two hours ahead of UTC up to the minute 99960 of UTC, then one hour ahead.
abbrev back_utc : Bool → ℕ → ℕ
back_utc false w = if ltb w 100080 then w - 120 else w - 60
back_utc true w = if ltb w 100020 then w - 120 else w - 60

abbrev set_back : Zone
set_back = record { local = λ m. if ltb m 99960 then m + 120 else m + 60; utc = back_utc }

-- The clock shows 11:30 twice on 11 March 1970.
shown_twice :
    (set_back.local 99930 ≡ 100050)
    × (set_back.local 99990 ≡ 100050)
    × (hour_of 100050 ≡ 11)
    × (minute_of 100050 ≡ 30)
    × (day_of 100050 ≡ 11)
    × (month_of 100050 ≡ 3)
unfolding hour_of minute_of day_of month_of
shown_twice = (refl, refl, refl, refl, refl, refl)

set_back-IsFaithful : IsFaithful set_back
set_back-IsFaithful m = ground arith

parse_cron-IsInRange_example : IsInRange march
parse_cron-IsInRange_example =
    parse_cron-IsInRange ascii (codes "30 11 11 3 *") march parse_cron-march

next_fire-First_example :
    (found : Option ℕ) × First
      (is_hit set_back march)
      (99950 * 60 / 60 + 1)
      (99950 * 60 / 60 + 1 + 7 * 1440)
      found
    × (next_fire set_back march (99950 * 60) 7 ≡ Option.map (fire_at set_back) found)
next_fire-First_example = next_fire-First set_back march (99950 * 60) 7

is_due-First_example :
    (found : Option ℕ) × First
      (is_fresh_hit set_back march (99935 * 60 / 60) 3600)
      (due_start (some (99900 * 60)) (99935 * 60 / 60))
      (99935 * 60 / 60 + 1)
      found
    × (is_due set_back march (some (99900 * 60)) (99935 * 60) 3600
        ≡ Option.map (fire_at set_back) found)
is_due-First_example = is_due-First set_back march (some (99900 * 60)) (99935 * 60) 3600

utc-plain : (m : ℕ) → is_ambiguous_local_minute utc_zone (utc_zone.local m) ≡ false
unfolding is_ambiguous_local_minute
utc-plain m = ground arith

utc_fire : next_fire utc_zone march (100045 * 60) 7 ≡ some 100050
unfolding next_fire is_hit fire_at is_existing_local_minute is_ambiguous_local_minute cron_matches
    minute_of hour_of day_of month_of weekday_of cron_weekday
utc_fire = refl

-- The hit at 99990 is the first one from 99989 on.
one_miss :
    (p : ℕ → Bool) (low high : ℕ)
    → p low ≡ false
    → p (low + 1) ≡ true
    → low + 1 < high
    → First p low high (some (low + 1))
one_miss p low high miss hit lt =
    (omega arith, lt, hit, λ x le below. let same : low ≡ x = omega arith in rw (← same) miss)

stale-First :
    First
      (is_hit set_back march)
      (99988 * 60 / 60 + 1)
      (99988 * 60 / 60 + 1 + 7 * 1440)
      (some 99990)
unfolding is_hit is_existing_local_minute cron_matches minute_of hour_of day_of month_of weekday_of
    cron_weekday
stale-First = one_miss (is_hit set_back march) 99989 _ refl refl (omega arith)

next_fire_stale_example :
    (r : ℕ) × (next_fire set_back march (99988 * 60) 7 ≡ some r) × (r * 60 ≤ 99988 * 60)
unfolding is_ambiguous_local_minute
next_fire_stale_example =
    next_fire_stale set_back march (99988 * 60) 7 99990 stale-First refl (omega arith)

stale_due-First :
    First
      (is_fresh_hit set_back march (99991 * 60 / 60) 3600)
      (99988 * 60 / 60 + 1)
      (99991 * 60 / 60 + 1)
      (some 99990)
unfolding is_hit is_existing_local_minute cron_matches minute_of hour_of day_of month_of weekday_of
    cron_weekday
stale_due-First = one_miss (is_fresh_hit set_back march 99991 3600) 99989 _ refl refl (omega arith)

fire_at_once_example : fire_at set_back 99930 ≡ fire_at set_back 99990
fire_at_once_example = fire_at_once set_back 99930 99990 set_back-IsFaithful refl
